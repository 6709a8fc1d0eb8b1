-- ===== src/Finder/Sized.antt =====
-- How long the chunks are that a finder returns and holds.
use multipart_async.Base.{
  ℕ, zero, suc, ◌-◌, ◌≤◌, ◌≡◌, refl, ap, false, List, [], ◌∷◌, ◌++◌, Bytes, length, is_empty,
  Option, none, some, Outcome, value, panic, out_of_fuel, arith, length-append, length-drop, ◌>>=◌,
  Bool, true, Bool-cases, ltb, inl, inr,
}
use multipart_async.Stream.{ready, ok, Error, PollOpt, Event, not_ready, chunk, failed}
use multipart_async.Search.{Twoway, SearchResult}
use multipart_async.Search.Zero.{IsBoundary}
use multipart_async.Finder.{
  State, watching, partial, found, split, remainder, end, Finder, Round, return, again, check_chunk,
  return_checked, poll_watching, poll_partial, round_in, round, after_round, body_loop, body_chunk,
}
use multipart_async.Finder.Spec.{held, StateInv, Inv, RoundSpec}
use multipart_async.Finder.Checked.{yielded, Checked, CheckSpec, check_chunk-CheckSpec}
use multipart_async.Finder.Second.{
  confirmed_state, Second, no_boundary, too_short, confirmed, second_chunk-Second,
}
use multipart_async.Finder.Rounds.{round-RoundSpec}

-- Not empty, and no longer than `n`.
abbrev pub Sized : ℕ → Bytes → Type 0
Sized n c = (is_empty c ≡ false) × (length c ≤ n)

abbrev pub StreamSized : {E : Type 0} → ℕ → List (Event E) → Type 0
StreamSized n [] = Unit
StreamSized n (not_ready ∷ events) = StreamSized n events
StreamSized n (chunk c ∷ events) = Sized n c × StreamSized n events
StreamSized n (failed e ∷ events) = StreamSized n events

-- No piece of the state is longer than `n`, and a chunk that may end in a boundary is not empty.
abbrev pub StateSized : ℕ → State → Type 0
StateSized n (partial p res) = Sized n p
StateSized n (remainder rem) = length rem ≤ n
StateSized n (found bnd) = length bnd ≤ n
StateSized n (split first second) = (length first ≤ n) × (length second ≤ n)
StateSized n _ = Unit

StateSized-held :
    (n : ℕ) (s : State)
    → length (held s) ≤ n
    → ((p : Bytes) (res : SearchResult) → s ≡ partial p res → is_empty p ≡ false)
    → StateSized n s
StateSized-held n watching le whole = tt
StateSized-held n (partial p res) le whole = (whole p res refl, le)
StateSized-held n (found bnd) le whole = le
StateSized-held n (split first second) le whole =
    (omega (arith, length-append first second), omega (arith, length-append first second))
StateSized-held n (remainder rem) le whole = le
StateSized-held n end le whole = tt

confirmed-StateSized :
    (n : ℕ) (first second : Bytes) (incl_crlf : Bool)
    → length first ≤ n
    → length second ≤ n
    → StateSized n (confirmed_state first second incl_crlf)
unfolding confirmed_state
confirmed-StateSized n first second false one two = (one, two)
confirmed-StateSized n first second true one two = elim (Bool-cases (ltb (length first) 2)) [
  | inl cr_only ↦ rw cr_only (omega (arith, length-drop (2 - length first) second))
  | inr both ↦ rw both (omega (arith, length-drop 2 first), two)
]

module _ {E : Type 0} where
  abbrev pub AllSized : ℕ → Finder E → Type 0
  AllSized n f = StreamSized n f.stream × StateSized n f.state

  abbrev pub ReturnedSized : ℕ → PollOpt Bytes (Error E) → Type 0
  ReturnedSized n (ready (some (ok c))) = Sized n c
  ReturnedSized n _ = Unit

  abbrev RoundSized : ℕ → Outcome (Round E) → Type 0
  RoundSized n (value (return polled f)) = AllSized n f × ReturnedSized n polled
  RoundSized n (value (again f)) = AllSized n f
  RoundSized n _ = Unit

  abbrev pub BodySized : ℕ → Outcome (PollOpt Bytes (Error E) × Finder E) → Type 0
  BodySized n (value (polled, f)) = AllSized n f × ReturnedSized n polled
  BodySized n _ = Unit

module _ ⦃tw : Twoway⦄ {E : Type 0} (n : ℕ) where
  Checked-AllSized :
      (boundary : Bytes) (f : Finder E) (c : Bytes) (ret : Option Bytes) (f' : Finder E)
      → StreamSized n f.stream
      → is_empty c ≡ false
      → length c ≤ n
      → Checked boundary f c ret f'
      → AllSized n f'
  Checked-AllSized boundary f c ret f' stream some_byte le k = (
    rw k.same_stream stream,
    StateSized-held n f'.state
        (omega (
          arith,
          ap length k.bytes,
          length-append (yielded ret) (k.gap ++ held f'.state),
          length-append k.gap (held f'.state),
        ))
        (λ p res e. rw (k.partial_whole p res e) some_byte),
  )

  after_check-Sized :
      (boundary : Bytes) (f : Finder E) (c : Bytes) (r : Outcome (Option Bytes × Finder E))
      → StreamSized n f.stream
      → is_empty c ≡ false
      → length c ≤ n
      → CheckSpec boundary f c r
      → RoundSized n (
          r >>= λ (ret, f').
          value (elim ret [ some y ↦ return (ready (some (ok y))) f' | none ↦ again f' ]))
  after_check-Sized boundary f c (value (some y, f')) stream some_byte le k = (
    Checked-AllSized boundary f c (some y) f' stream some_byte le k,
    (
      k.some_byte y refl,
      omega (arith, ap length k.bytes, length-append y (k.gap ++ held f'.state)),
    ),
  )
  after_check-Sized boundary f c (value (none, f')) stream some_byte le k =
      Checked-AllSized boundary f c none f' stream some_byte le k
  after_check-Sized boundary f c (panic p) stream some_byte le k = tt
  after_check-Sized boundary f c out_of_fuel stream some_byte le k = tt

  return_checked-Sized :
      (f : Finder E) (c : Bytes)
      → IsBoundary f.boundary
      → f.state ≡ watching
      → StreamSized n f.stream
      → length c ≤ n
      → RoundSized n (return_checked f c)
  unfolding return_checked
  return_checked-Sized f [] good w stream le = unfold check_chunk in (stream, rw w tt)
  return_checked-Sized f (x ∷ xs) good w stream le =
      after_check-Sized f.boundary f (x ∷ xs) (check_chunk f (x ∷ xs)) stream refl le
        (check_chunk-CheckSpec f (x ∷ xs) good w)

  Second-Sized :
      (f : Finder E) (first : Bytes) (res : SearchResult) (second : Bytes) (r : Outcome (Round E))
      → StreamSized n f.stream
      → f.state ≡ watching
      → Sized n first
      → length second ≤ n
      → Second f first res second r
      → RoundSized n r
  Second-Sized f first res second r stream w one two no_boundary = ((stream, two), one)
  Second-Sized f first res second r stream w one two (too_short k less) = ((stream, rw w tt), tt)
  Second-Sized f first res second r stream w one two (confirmed at_zero agrees room) =
      ((stream, confirmed-StateSized n first second res.incl_crlf one.1 two), tt)

  round_in-Sized :
      (s : State) (events : List (Event E)) (boundary : Bytes)
      → IsBoundary boundary
      → StateInv boundary s
      → StreamSized n events
      → StateSized n s
      → RoundSized n
          (round_in s (record { stream = events; state = watching; boundary = boundary }))
  unfolding round_in poll_watching poll_partial
  round_in-Sized watching [] boundary good inv stream state = ((tt, tt), tt)
  round_in-Sized watching (not_ready ∷ events) boundary good inv stream state = ((stream, tt), tt)
  round_in-Sized watching (failed e ∷ events) boundary good inv stream state = ((stream, tt), tt)
  round_in-Sized watching (chunk [] ∷ events) boundary good inv ((some_byte, le), stream) state = cc
  round_in-Sized watching (chunk (x ∷ xs) ∷ events) boundary good inv ((some_byte, le), stream)
        state =
      return_checked-Sized (record { stream = events; state = watching; boundary = boundary })
        (x ∷ xs) good refl stream le
  round_in-Sized (remainder rem) events boundary good inv stream state =
      return_checked-Sized (record { stream = events; state = watching; boundary = boundary }) rem
        good refl stream state
  round_in-Sized (partial first res) [] boundary good inv stream state = ((tt, tt), tt)
  round_in-Sized (partial first res) (not_ready ∷ events) boundary good inv stream state =
      ((stream, state), tt)
  round_in-Sized (partial first res) (failed e ∷ events) boundary good inv stream state =
      ((stream, tt), tt)
  round_in-Sized (partial first res) (chunk second ∷ events) boundary good (e, lt) ((_, le), stream)
        state =
      let f : Finder E = record { stream = events; state = watching; boundary = boundary } in
      Second-Sized f first res second _ stream refl state le
        (second_chunk-Second f first res second good e)
  round_in-Sized (found bnd) events boundary good inv stream state = ((stream, state), tt)
  round_in-Sized (split first second) events boundary good inv stream state = ((stream, state), tt)
  round_in-Sized end events boundary good inv stream state = ((stream, tt), tt)

  round-Sized :
      (boundary : Bytes) (f : Finder E) → Inv boundary f → AllSized n f → RoundSized n (round f)
  unfolding round
  round-Sized boundary f inv (stream, state) =
      round_in-Sized f.state f.stream f.boundary (rw inv.same_boundary inv.good_boundary)
        (rw inv.same_boundary inv.good_state) stream state

  after_round-Sized :
      (boundary : Bytes) (f : Finder E)
      (loop : Finder E → Outcome (PollOpt Bytes (Error E) × Finder E)) (r : Outcome (Round E))
      → RoundSpec boundary f r
      → RoundSized n r
      → ((g : Finder E) → Inv boundary g → AllSized n g → BodySized n (loop g))
      → BodySized n (after_round loop r)
  unfolding after_round
  after_round-Sized boundary f loop (value (return polled g)) h sized ih = sized
  after_round-Sized boundary f loop (value (again g)) (inv, _, _, _) sized ih = ih g inv sized
  after_round-Sized boundary f loop (panic p) h sized ih = tt
  after_round-Sized boundary f loop out_of_fuel h sized ih = tt

  body_loop-Sized :
      (fuel : ℕ) (boundary : Bytes) (f : Finder E)
      → Inv boundary f
      → AllSized n f
      → BodySized n (body_loop fuel f)
  unfolding body_loop
  body_loop-Sized zero boundary f inv sized = tt
  body_loop-Sized (suc fuel) boundary f inv sized =
      after_round-Sized boundary f (body_loop fuel) (round f) (round-RoundSpec boundary f inv)
        (round-Sized boundary f inv sized) (λ g. body_loop-Sized fuel boundary g)

  -- If no chunk of the stream is empty, nor longer than `n`, and the finder holds no piece longer than `n` and
  -- no empty one in the state `Partial`, then `body_chunk` returns no chunk that is empty or longer than `n`,
  -- and leaves such a stream and such a state. The pieces of a boundary that is held in the states `Found` and
  -- `Split`, and what `Remainder` holds, may be empty.
  pub body_chunk-BodySized :
      (boundary : Bytes) (f : Finder E) → Inv boundary f → AllSized n f → BodySized n (body_chunk f)
  unfolding body_chunk
  body_chunk-BodySized boundary f inv sized = body_loop-Sized 4 boundary f inv sized
