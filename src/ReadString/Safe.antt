-- ===== src/ReadString/Safe.antt =====
-- `ReadToString` over any stream that does not panic, whatever answers it gives.
use multipart_async.Base.{
  ℕ, zero, suc, ◌≡◌, refl, sym, subst, Bytes, ◌++◌, Option, none, some, Outcome, value, panic,
  out_of_fuel, Returns, Safe, Safe->>=, Returns-Safe,
}
use multipart_async.Stream.{Poll, ready, pending, Result, ok, err, Error, PollOpt}
use multipart_async.ReadString.{
  ReadToString, TryStream, Turn, stop, next, on_data, finish_string, on_polled, poll_loop, poll,
}
use multipart_async.ReadString.Spec.{Decoded, TurnSpec}
use multipart_async.ReadString.Whole.{on_data-TurnSpec}
use multipart_async.ReadString.Untouched.{
  SameStream, same_stream, stopped_stream, on_data-SameStream,
}

module _ {S E : Type 0} (st : TryStream S E) (Good : S → Type 0) where
  -- between two polls
  pub record Reading (r : ReadToString S) : Type 0 where
    pub good : Good r.stream
    pub taken : Bytes
    pub decoded : Decoded taken r

  abbrev pub Polled : Poll (Result Bytes (Error E)) × ReadToString S → Type 0
  Polled (pending, r) = Reading r
  Polled (ready result, r) = Good r.stream

  finish_string-Good :
      (r : ReadToString S) (o : Option (Bytes × ℕ))
      → r.surrogate ≡ o
      → Good r.stream
      → let (result, r') = finish_string {E = E} r in Good r'.stream
  unfolding finish_string
  finish_string-Good r none e good = rw (finish_string, e) good
  finish_string-Good r (some (start, len)) e good = rw (finish_string, e) good

  after_data-Safe :
      (all : Bytes) (s : S)
      (loop : ReadToString S → Outcome (Poll (Result Bytes (Error E)) × ReadToString S))
      (o : Outcome (Turn S E))
      → Good s
      → TurnSpec all o
      → SameStream E s o
      → ((r : ReadToString S) → Reading r → Safe Polled (loop r))
      → Safe Polled (elim o [
        | value (next r') ↦ loop r'
        | value (stop result r') ↦ value (ready result, r')
        | panic p ↦ panic p
        | out_of_fuel ↦ out_of_fuel
      ])
  after_data-Safe all s loop (value (next r)) good d same rest =
      rest r
        (record { good = subst Good (sym (same_stream E s r same)) good; taken = all; decoded = d })
  after_data-Safe all s loop (value (stop result r)) good d same rest =
      subst Good (sym (stopped_stream E s result r same)) good
  after_data-Safe all s loop (panic p) good d same rest = absurd d
  after_data-Safe all s loop out_of_fuel good d same rest = tt

  on_polled-Safe :
      (loop : ReadToString S → Outcome (Poll (Result Bytes (Error E)) × ReadToString S))
      (polled : PollOpt Bytes E) (r : ReadToString S)
      → Reading r
      → ((r' : ReadToString S) → Reading r' → Safe Polled (loop r'))
      → Safe Polled (on_polled loop polled r)
  unfolding on_polled
  on_polled-Safe loop pending r reading rest = reading
  on_polled-Safe loop (ready none) r reading rest =
      finish_string-Good r r.surrogate refl reading.good
  on_polled-Safe loop (ready (some (err e))) r reading rest = reading.good
  on_polled-Safe loop (ready (some (ok c))) r reading rest =
      after_data-Safe (reading.taken ++ c) r.stream loop (on_data r r.surrogate c) reading.good
        (on_data-TurnSpec E reading.taken r r.surrogate c refl reading.decoded.text
          reading.decoded.held)
        (on_data-SameStream E r r.surrogate c) rest

  poll_loop-Polled :
      ((s : S) → Good s → Returns (λ (polled, s'). Good s') (st.try_poll_next s))
      → (fuel : ℕ) (r : ReadToString S) → Reading r
      → Safe Polled (poll_loop st fuel r)
  unfolding poll_loop
  poll_loop-Polled keeps zero r reading = tt
  poll_loop-Polled keeps (suc fuel) r reading =
      Safe->>= (λ (polled, s). Good s) Polled (st.try_poll_next r.stream) _
        (Returns-Safe _ (st.try_poll_next r.stream) (keeps r.stream reading.good))
        (λ (polled, s) good.
          on_polled-Safe (poll_loop st fuel) polled (record r { stream = s })
            (record {
              good = good;
              taken = reading.taken;
              decoded = record { text = reading.decoded.text; held = reading.decoded.held };
            })
            (poll_loop-Polled keeps fuel))

  -- A poll over a stream whose polls neither panic nor leave the states `Good` does not panic, and leaves
  -- the stream in such a state.
  pub poll-Polled :
      ((s : S) → Good s → Returns (λ (polled, s'). Good s') (st.try_poll_next s))
      → (r : ReadToString S) → Reading r
      → Safe Polled (poll st r)
  unfolding poll
  poll-Polled keeps r reading = poll_loop-Polled keeps (st.enough r.stream) r reading
