-- ===== src/Fuzzing/Endless.antt =====
-- The run of `fuzz_whole_request` in src/fuzzing.rs.
use multipart_async.Base.{
  ℕ, zero, suc, ◌≡◌, refl, [], ◌++◌, Bytes, Option, none, some, Outcome, value, out_of_fuel,
  Bool-cases, inl, inr, Returns, Returns->>=, Safe, Safe->>=, Safe-map, Safe-endless, Returns-Safe,
  Returns-map,
}
use multipart_async.Stream.{Poll, ready, pending, Result, ok, err, Error}
use multipart_async.Search.{Twoway, dashes}
use multipart_async.Fields.{Crates, FieldHeaders, is_text}
use multipart_async.Text.Scan.{IsUtf8-nil}
use multipart_async.ReadString
use multipart_async.ReadString.{ReadToString}
use multipart_async.ReadString.Safe.{Polled, Reading, poll-Polled}
use multipart_async.Multipart.{Multipart, NextField, with_body, poll_next_field, poll_field_chunk}
use multipart_async.Multipart.Steps.{
  InOrder, with_body-InOrder, poll_field_chunk-InOrder, poll_next_field-InOrder, NextInOrder,
}
use multipart_async.Multipart.Data.{
  FieldData, Field, poll_data, field_stream, read_to_string, next_field, poll_unpin,
}
use multipart_async.TestUtil.{test_boundary, Interleave, until_ready}
use multipart_async.Fuzzing.{chunk_fuzz_data}
use multipart_async.Fuzzing.Whole.{
  on_item, drain, read_field_data, on_field, read_fields, fuzz_whole_request,
}

module _ {S A : Type 0} (Before : S → Type 0) (After : S → Type 0) where
  abbrev Kept : Poll A × S → Type 0
  Kept (pending, s) = Before s
  Kept (ready a, s) = After s

  after_poll :
      (loop : S → Outcome (A × S)) (polled : Poll A) (s : S)
      → Kept (polled, s)
      → ((t : S) → Before t → Safe (λ (a, t'). After t') (loop t))
      → Safe (λ (a, t). After t) (elim polled [ ready a ↦ value (a, s) | pending ↦ loop s ])
  after_poll loop pending s h rest = rest s h
  after_poll loop (ready a) s h rest = h

  Kept-polled : (polled : Poll A) (s : S) → Before s → After s → Kept (polled, s)
  Kept-polled pending s h h' = h
  Kept-polled (ready a) s h h' = h'

  -- A loop over a poll that does not panic does not panic.
  until_ready-Safe :
      (poll : S → Outcome (Poll A × S))
      → ((s : S) → Before s → Safe Kept (poll s))
      → (fuel : ℕ) (s : S) → Before s
      → Safe (λ (a, t). After t) (until_ready fuel poll s)
  unfolding until_ready
  until_ready-Safe poll step zero s h = tt
  until_ready-Safe poll step (suc fuel) s h =
      Safe->>= Kept (λ (a, t). After t) (poll s) _ (step s h)
        (λ (polled, t) k.
          after_poll (until_ready fuel poll) polled t k (until_ready-Safe poll step fuel))

module _ ⦃tw : Twoway⦄ {E : Type 0} (boundary : Bytes) where
  -- the `Multipart` of a field is in order
  abbrev Good : FieldData E → Type 0
  Good d = InOrder boundary d.multipart

  poll_data-Good : (d : FieldData E) → Good d → Returns (λ (polled, d'). Good d') (poll_data d)
  unfolding poll_data
  poll_data-Good d good =
      Returns->>= (λ (polled, m). InOrder boundary m) _ (poll_field_chunk d.multipart) _
        (poll_field_chunk-InOrder boundary d.multipart good) (λ (polled, m) h. h)

  on_item-Good :
      (loop : FieldData E → Outcome (FieldData E)) (item : Option (Result Bytes (Error E)))
      (d : FieldData E)
      → Good d
      → ((d' : FieldData E) → Good d' → Safe Good (loop d'))
      → Safe Good (on_item loop item d)
  unfolding on_item
  on_item-Good loop none d good rest = good
  on_item-Good loop (some (ok c)) d good rest = rest d good
  on_item-Good loop (some (err e)) d good rest = good

  drain-Good : (polls fuel : ℕ) (d : FieldData E) → Good d → Safe Good (drain polls fuel d)
  unfolding drain
  drain-Good polls zero d good = tt
  drain-Good polls (suc fuel) d good =
      Safe->>= (λ (item, d'). Good d') Good (until_ready polls poll_data d) _
        (until_ready-Safe Good Good poll_data
          (λ d' good'. Returns-Safe (Kept Good Good) (poll_data d') (
            Returns-map (λ (polled, t) h. Kept-polled Good Good polled t h h) (poll_data d')
              (poll_data-Good d' good')))
          polls d good)
        (λ (item, d') good'. on_item-Good (drain polls fuel) item d' good' (drain-Good polls fuel))

  Polled-Kept :
      (polled : Poll (Result Bytes (Error (Error E)))) (r : ReadToString (FieldData E))
      → Polled field_stream Good (polled, r)
      → Kept (Reading field_stream Good) (λ t. Good t.stream) (polled, r)
  Polled-Kept pending r h = h
  Polled-Kept (ready result) r h = h

  -- `let _ = until_ready!(..)` on the future of `read_to_string`
  read_to_string-Good :
      (polls : ℕ) (d : FieldData E)
      → Good d
      → Safe
          (λ (result, r). Good r.stream)
          (until_ready polls (ReadString.poll field_stream) (read_to_string d))
  unfolding read_to_string ReadString.new
  read_to_string-Good polls d good =
      until_ready-Safe (Reading field_stream Good) (λ r. Good r.stream)
        (ReadString.poll field_stream)
        (λ r reading.
          Safe-map (λ (polled, t) h. Polled-Kept polled t h) (ReadString.poll field_stream r)
            (poll-Polled field_stream Good poll_data-Good r reading))
        polls (ReadString.new d)
        (record { good = good; taken = []; decoded = record { text = IsUtf8-nil; held = refl } })

  module _ (crates : Crates) where
    read_field_data-InOrder :
        (polls : ℕ) (field : Field crates E)
        → Good field.data'
        → Safe (InOrder boundary) (read_field_data crates polls field)
    unfolding read_field_data
    read_field_data-InOrder polls field good = elim (Bool-cases (is_text crates field.headers)) [
      | inl text ↦ rw text (
          Safe->>= (λ (result, r). Good r.stream) (InOrder boundary)
            (until_ready polls (ReadString.poll field_stream) (read_to_string field.data')) _
            (read_to_string-Good polls field.data' good) (λ (result, r) h. h))
      | inr other ↦ rw other (
          Safe->>= Good (InOrder boundary) (drain polls polls field.data') _
            (drain-Good polls polls field.data' good) (λ d h. h))
    ]

    on_field-InOrder :
        (polls : ℕ) (result : Result (Option (FieldHeaders crates)) (Error E)) (m : Multipart E)
        → InOrder boundary m
        → Safe (InOrder boundary) (on_field crates polls result m)
    unfolding on_field
    on_field-InOrder polls (ok (some h)) m good =
        read_field_data-InOrder polls (record { headers = h; data' = record { multipart = m } })
          good
    on_field-InOrder polls (ok none) m good = good
    on_field-InOrder polls (err e) m good = good

    -- the `Multipart` of the future is in order
    abbrev NextGood : NextField × Multipart E → Type 0
    NextGood (n, m) = InOrder boundary m

    poll_unpin-NextGood :
        (s : NextField × Multipart E)
        → NextGood s
        → Safe (Kept NextGood NextGood) (poll_unpin crates s)
    unfolding poll_unpin
    poll_unpin-NextGood (n, m) good = Returns-Safe _ (poll_unpin crates (n, m)) (
        Returns->>= (NextInOrder crates boundary) (Kept NextGood NextGood)
          (poll_next_field crates n m) _ (poll_next_field-InOrder crates boundary n m good)
          (λ (polled, n', m') h. Kept-polled NextGood NextGood polled (n', m') h h))

    read_fields-endless :
        (polls fuel : ℕ) (m : Multipart E)
        → InOrder boundary m
        → Safe (λ _. ⊥) (read_fields crates polls fuel m)
    unfolding read_fields next_field
    read_fields-endless polls zero m good = tt
    read_fields-endless polls (suc fuel) m good =
        Safe->>= (λ (result, s). NextGood s) (λ _. ⊥)
          (until_ready polls (poll_unpin crates) (next_field m)) _
          (until_ready-Safe NextGood NextGood (poll_unpin crates) poll_unpin-NextGood polls
            (next_field m) good)
          (λ (result, (n, m')) good'.
            Safe->>= (InOrder boundary) (λ _. ⊥) (on_field crates polls result m') _
              (on_field-InOrder polls result m' good')
              (λ m'' good''. read_fields-endless polls fuel m'' good''))

-- The target `fuzz_whole_request` does not panic, on any input and however long its loops run, and it does
-- not return: a body that has ended, and an error, only lead to the next round.
pub fuzz_whole_request-endless :
    ⦃il : Interleave⦄ ⦃tw : Twoway⦄ (crates : Crates) (E : Type 0) (polls fuel : ℕ) (data' : Bytes)
    → fuzz_whole_request crates E polls fuel data' ≡ out_of_fuel
unfolding fuzz_whole_request
fuzz_whole_request-endless crates E polls fuel data' =
    let m : Multipart E = with_body (chunk_fuzz_data data') test_boundary in
    Safe-endless (read_fields crates polls fuel m) (
      read_fields-endless (dashes ++ test_boundary) crates polls fuel m
        (with_body-InOrder (chunk_fuzz_data data') test_boundary))
