-- ===== src/ReadString/Whole.antt =====
-- `ReadToString::poll` over the rest of the stream.
use multipart_async.Base.{
  ℕ, zero, suc, ◌<◌, ◌≡◌, refl, sym, ◌∙◌, subst, Bool, true, false, [], ◌∷◌, ◌++◌, Bytes, List,
  length, arith, ltb, ◌&&◌, Option, none, some, Outcome, value, panic, out_of_fuel, append_assoc,
  append-nil,
}
use multipart_async.Stream.{
  Poll, ready, pending, Result, ok, err, Event, not_ready, chunk, failed, Error, parsing, utf8,
  stream_error, bad_surrogate_start,
}
use multipart_async.Finder.Spec.{payload}
use multipart_async.Text.Front.{Leads}
use multipart_async.Text.Scan.{IsUtf8, IsUtf8-right, short_char}
use multipart_async.ReadString.{
  ReadToString, Turn, stop, next, first_byte, with_width, on_data, finish_string, poll_loop,
  on_polled, poll, TryStream, event_stream,
}
use multipart_async.ReadString.Untouched.{SameStream, same_stream, on_data-SameStream}
use multipart_async.ReadString.Spec.{Holds, Decoded, IsTextError, TurnSpec}
use multipart_async.ReadString.Decode.{
  Leads-le, Leads-width, decode_chunk-TurnSpec, with_width-TurnSpec,
}

-- The stream will answer with an error.
abbrev pub fails : {E : Type 0} → List (Event E) → Bool
fails [] = false
fails (not_ready ∷ events) = fails events
fails (chunk c ∷ events) = fails events
fails (failed e ∷ events) = true

module _ {E : Type 0} (all : Bytes) (events : List (Event E)) where
  -- An error is the stream's, or the bytes are no text.
  abbrev pub ErrorSpec : Error E → Type 0
  ErrorSpec (stream_error e) = fails events ≡ true
  ErrorSpec (utf8 up_to len) = ¬ (IsUtf8 (all ++ payload events))
  ErrorSpec (parsing m) = IsTextError {E = E} (parsing m) × (¬ (IsUtf8 (all ++ payload events)))

module _ {S E : Type 0} (st : TryStream S E) (Ended : S → Type 0) where
  -- The stream gives the answers `events`, and is as it should be behind the last of them.
  abbrev pub Gives : S → List (Event E) → Type 0
  Gives s [] =
      (s' : S) × (st.try_poll_next s ≡ value (ready none, s')) × Ended s' × (0 < st.enough s)
  Gives s (not_ready ∷ events) =
      (s' : S) × (st.try_poll_next s ≡ value (pending, s'))
      × Gives s' events
      × (suc (length events) < st.enough s)
  Gives s (chunk c ∷ events) =
      (s' : S) × (st.try_poll_next s ≡ value (ready (some (ok c)), s'))
      × Gives s' events
      × (suc (length events) < st.enough s)
  Gives s (failed e ∷ events) =
      (s' : S) × (st.try_poll_next s ≡ value (ready (some (err e)), s'))
      × (suc (length events) < st.enough s)

  module _ (all : Bytes) (events : List (Event E)) where
    -- Where a poll stops, if `all` was taken before and `events` are to come.
    pub record Paused (r : ReadToString S) : Type 0 where
      pub taken : Bytes
      pub decoded : Decoded taken r
      pub left : List (Event E)
      pub gives : Gives r.stream left
      pub bytes : all ++ payload events ≡ taken ++ payload left
      pub fewer : length left < length events
      pub same_fails : fails events ≡ fails left

    abbrev pub TextSpec : Outcome (Poll (Result Bytes (Error E)) × ReadToString S) → Type 0
    TextSpec (value (pending, r)) = Paused r
    TextSpec (value (ready (ok s), r)) =
        IsUtf8 s × (s ≡ all ++ payload events) × (fails events ≡ false) × Ended r.stream
    TextSpec (value (ready (err e), r)) = ErrorSpec all events e
    TextSpec (panic p) = ⊥
    TextSpec out_of_fuel = ⊥

module _ {S : Type 0} (E : Type 0) where
  begun-TurnSpec :
      (r : ReadToString S) (lead : ℕ) (rest pad : Bytes) (wants : ℕ) (data' : Bytes)
      → IsUtf8 r.string
      → Leads lead wants
      → length rest < wants
      → length ((lead ∷ rest) ++ pad) ≡ 3
      → TurnSpec {E = E}
          ((r.string ++ (lead ∷ rest)) ++ data')
          (on_data r (some ((lead ∷ rest) ++ pad, suc (length rest))) data')
  unfolding on_data first_byte
  begun-TurnSpec r lead rest pad wants data' text leads short three =
      let few = Leads-le lead wants leads in
      let in_range : (ltb 0 (suc (length rest)) && ltb (suc (length rest)) 4) ≡ true =
        ground arith in
      let start = (lead ∷ rest) ++ pad in
      rw in_range (
        subst
          (λ w. TurnSpec {E = E} ((r.string ++ (lead ∷ rest)) ++ data') (elim w [
            | none ↦ value (stop (err (parsing (bad_surrogate_start lead))) r)
            | some width ↦ with_width r start (suc (length rest)) width data'
          ]))
          (sym (Leads-width lead wants leads))
          (with_width-TurnSpec E r lead rest pad wants data' text leads short three))

  pub on_data-TurnSpec :
      (all : Bytes) (r : ReadToString S) (o : Option (Bytes × ℕ)) (data' : Bytes)
      → r.surrogate ≡ o
      → IsUtf8 r.string
      → Holds all r.string o
      → TurnSpec {E = E} (all ++ data') (on_data r o data')
  on_data-TurnSpec all r none data' fresh text held =
      unfold on_data in rw held (decode_chunk-TurnSpec E r data' text fresh)
  on_data-TurnSpec all r (some (start, len)) data' e text (b, held) =
      rw (held, b.start_eq, b.len_eq)
        (begun-TurnSpec r b.lead b.rest b.pad b.wants data' text b.leads b.short
          (rw b.start_eq at b.size))

module _ {E : Type 0} where
  text_error :
      (all : Bytes) (events : List (Event E)) (e : Error E)
      → IsTextError e
      → ¬ (IsUtf8 (all ++ payload events))
      → ErrorSpec all events e
  text_error all events (stream_error e) h no_text = absurd h
  text_error all events (utf8 up_to len) h no_text = no_text
  text_error all events (parsing m) h no_text = (h, no_text)

  joined :
      (all c : Bytes) (events : List (Event E))
      → (all ++ c) ++ payload events ≡ all ++ payload (chunk c ∷ events)
  joined all c events = append_assoc all c (payload events)

module _ {S E : Type 0} (st : TryStream S E) (Ended : S → Type 0) where
  -- the answers that the stream gives are fewer than its bound
  Gives-enough :
      (s : S) (events : List (Event E)) → Gives st Ended s events → length events < st.enough s
  Gives-enough s [] (s', e, ended, lt) = lt
  Gives-enough s (not_ready ∷ events) (s', e, more, lt) = lt
  Gives-enough s (chunk c ∷ events) (s', e, more, lt) = lt
  Gives-enough s (failed x ∷ events) (s', e, lt) = lt

  module _ (all c : Bytes) (events : List (Event E)) where
    ErrorSpec-before :
        (e : Error E) → ErrorSpec (all ++ c) events e → ErrorSpec all (chunk c ∷ events) e
    ErrorSpec-before (stream_error e) h = h
    ErrorSpec-before (utf8 up_to len) h = subst (λ x. ¬ (IsUtf8 x)) (joined all c events) h
    ErrorSpec-before (parsing m) (is_error, h) =
        (is_error, subst (λ x. ¬ (IsUtf8 x)) (joined all c events) h)

    TextSpec-before :
        (o : Outcome (Poll (Result Bytes (Error E)) × ReadToString S))
        → TextSpec st Ended (all ++ c) events o
        → TextSpec st Ended all (chunk c ∷ events) o
    TextSpec-before (value (pending, r)) p = record {
      taken = p.taken;
      decoded = p.decoded;
      left = p.left;
      gives = p.gives;
      bytes = sym (joined all c events) ∙ p.bytes;
      fewer = omega (arith, p.fewer);
      same_fails = p.same_fails;
    }
    TextSpec-before (value (ready (ok s), r)) (text, same, fine, ended) =
        (text, same ∙ joined all c events, fine, ended)
    TextSpec-before (value (ready (err e), r)) h = ErrorSpec-before e h
    TextSpec-before (panic p) h = h
    TextSpec-before out_of_fuel h = h

  finish_string-TextSpec :
      (all : Bytes) (r : ReadToString S) (o : Option (Bytes × ℕ))
      → r.surrogate ≡ o
      → IsUtf8 r.string
      → Holds all r.string o
      → Ended r.stream
      → let (result, r') = finish_string r in TextSpec st Ended all [] (value (ready result, r'))
  unfolding finish_string
  finish_string-TextSpec all r none e text held ended =
      rw (finish_string, e) (text, sym held ∙ sym (append-nil all), refl, ended)
  finish_string-TextSpec all r (some (start, len)) e text (b, held) ended =
      rw (finish_string, e)
        (
          tt,
          λ whole.
              short_char b.lead b.rest b.wants b.leads b.short
                (IsUtf8-right r.string (b.lead ∷ b.rest) text (rw (append-nil, held) at whole)),
        )

  after_data :
      (all c : Bytes) (events : List (Event E)) (r : ReadToString S)
      (loop : ReadToString S → Outcome (Poll (Result Bytes (Error E)) × ReadToString S))
      (o : Outcome (Turn S E))
      → TurnSpec (all ++ c) o
      → SameStream E r.stream o
      → ((r' : ReadToString S)
          → Decoded (all ++ c) r'
          → r'.stream ≡ r.stream
          → TextSpec st Ended (all ++ c) events (loop r'))
      → TextSpec st Ended all (chunk c ∷ events) (elim o [
        | value (next r') ↦ loop r'
        | value (stop result r') ↦ value (ready result, r')
        | panic p ↦ panic p
        | out_of_fuel ↦ out_of_fuel
      ])
  after_data all c events r loop (value (next r')) h same rest =
      TextSpec-before all c events (loop r') (rest r' h (same_stream E r.stream r' same))
  after_data all c events r loop (value (stop (err x) r')) (is_error, no_text) same rest =
      text_error all (chunk c ∷ events) x is_error
        (λ whole. no_text (payload events) (rw (joined all c events) whole))
  after_data all c events r loop (value (stop (ok s) r')) h same rest = absurd h
  after_data all c events r loop (panic p) h same rest = absurd h
  after_data all c events r loop out_of_fuel h same rest = absurd h

  poll_loop-TextSpec :
      (events : List (Event E)) (fuel : ℕ) (all : Bytes) (r : ReadToString S)
      → length events < fuel
      → Gives st Ended r.stream events
      → Decoded all r
      → TextSpec st Ended all events (poll_loop st fuel r)
  unfolding poll_loop on_polled
  poll_loop-TextSpec events zero all r enough gives d = absurd (omega arith)
  poll_loop-TextSpec [] (suc fuel) all r enough (s, e, ended, lt) d =
      rw e
        (finish_string-TextSpec all (record r { stream = s }) r.surrogate refl d.text d.held ended)
  poll_loop-TextSpec (not_ready ∷ events) (suc fuel) all r enough (s, e, more, lt) d =
      rw e (record {
        taken = all;
        decoded = record { text = d.text; held = d.held };
        left = events;
        gives = more;
        bytes = refl;
        fewer = omega arith;
        same_fails = refl;
      })
  poll_loop-TextSpec (failed x ∷ events) (suc fuel) all r enough (s, e, lt) d = rw e refl
  poll_loop-TextSpec (chunk c ∷ events) (suc fuel) all r enough (s, e, more, lt) d =
      let r' = record r { stream = s } in
      rw e (
        after_data all c events r' (poll_loop st fuel) (on_data r' r'.surrogate c)
          (on_data-TurnSpec E all r' r'.surrogate c refl d.text d.held)
          (on_data-SameStream E r' r'.surrogate c)
          (λ r'' d' same.
            poll_loop-TextSpec events fuel (all ++ c) r'' (omega arith)
              (subst (λ t. Gives st Ended t events) (sym same) more) d'))

  -- In whatever state `ReadToString` was left by earlier polls: if all that it took is `all`, and its stream
  -- gives the answers `events`, a poll does not panic, and polls the stream no more often than that. It
  -- returns a string only if the stream answers with no error, the string is valid UTF-8, and it is `all`
  -- and the rest of the bytes; the stream is then behind its last answer. An error is the stream's, or the
  -- bytes are no valid UTF-8. When it is pending, it has lost no byte.
  pub poll-TextSpec :
      (all : Bytes) (events : List (Event E)) (r : ReadToString S)
      → Gives st Ended r.stream events
      → Decoded all r
      → TextSpec st Ended all events (poll st r)
  unfolding poll
  poll-TextSpec all events r gives d =
      poll_loop-TextSpec events (st.enough r.stream) all r (Gives-enough r.stream events gives)
        gives d

-- A list of answers gives just these.
pub event_stream-Gives :
    {E : Type 0} (events : List (Event E)) → Gives event_stream (λ s. Unit) events events
event_stream-Gives [] = ([], refl, tt, omega arith)
event_stream-Gives (not_ready ∷ events) = (events, refl, event_stream-Gives events, omega arith)
event_stream-Gives (chunk c ∷ events) = (events, refl, event_stream-Gives events, omega arith)
event_stream-Gives (failed e ∷ events) = (events, refl, omega arith)
