-- ===== src/Fuzzing/Asserted.antt =====
-- The assertions of `fuzz_boundary_finder` in src/fuzzing.rs.
use multipart_async.Base.{
  ℕ, zero, suc, ◌<◌, ◌≤◌, ◌≡◌, refl, sym, ap, subst, Bool, true, false, [], ◌∷◌, Bytes, List,
  length, drop, arith, none, some, Outcome, value, panic, out_of_fuel, ◌>>=◌, length-drop,
  length-take, Option-cases, inl, inr,
}
use multipart_async.Stream.{
  Event, not_ready, chunk, failed, Poll, ready, pending, Result, ok, err, Error, PollOpt,
}
use multipart_async.Search.{Twoway}
use multipart_async.Search.Slices.{starts_with-length}
use multipart_async.Finder
use multipart_async.Finder.{Finder, body_chunk, consume_boundary, consume_fuel}
use multipart_async.Finder.Spec.{supply, Inv, BodySpec}
use multipart_async.Finder.Body.{body_chunk-BodySpec, rank_le}
use multipart_async.Finder.Passed.{ConsumeSpec}
use multipart_async.Finder.Consume.{consume_boundary-ConsumeSpec}
use multipart_async.Finder.Sized.{Sized, StreamSized, AllSized, BodySized, body_chunk-BodySized}
use multipart_async.Finder.Bounded.{ConsumeSized, consume_boundary-ConsumeSized}
use multipart_async.TestUtil.{test_boundary, Interleave, items, iter_ok}
use multipart_async.Fuzzing.{
  chunks_within, chunks, chunk_fuzz_data, is_none, on_chunk, check_chunks, on_boundary, find_fields,
  fuzz_boundary_finder,
}

StreamSized-items :
    (E : Type 0) (n : ℕ) (events : List (Event E))
    → StreamSized n (items events) ≡ StreamSized n events
StreamSized-items E n [] = refl
StreamSized-items E n (not_ready ∷ events) = StreamSized-items E n events
StreamSized-items E n (chunk c ∷ events) = ap (λ A. Sized n c × A) (StreamSized-items E n events)
StreamSized-items E n (failed e ∷ events) = StreamSized-items E n events

chunks_within-Sized :
    (E : Type 0) (fuel n : ℕ) (bytes : Bytes)
    → StreamSized (suc n) (iter_ok {E = E} (chunks_within fuel (suc n) bytes))
unfolding chunks_within iter_ok
chunks_within-Sized E zero n bytes = tt
chunks_within-Sized E (suc fuel) n [] = tt
chunks_within-Sized E (suc fuel) n (x ∷ xs) =
    ((refl, omega (arith, length-take n xs)), chunks_within-Sized E fuel n (drop n xs))

chunk_fuzz_data-StreamSized :
    ⦃il : Interleave⦄ (E : Type 0) (data' : Bytes) → StreamSized 9 (chunk_fuzz_data {E = E} data')
unfolding chunk_fuzz_data chunks
chunk_fuzz_data-StreamSized ⦃il⦄ E data' =
    let events = iter_ok {E = E} (chunks 9 data') in
    subst (λ A. A) (StreamSized-items E 9 (il.interleave_pending events))
      (subst (λ es. StreamSized 9 es) (sym (il.same_items events))
        (subst (λ A. A) (sym (StreamSized-items E 9 events))
          (chunks_within-Sized E (length data') 8 data')))

module _ ⦃tw : Twoway⦄ where
  -- A boundary is not found in less bytes than it has.
  pub find_bytes-short :
      (c boundary : Bytes) → length c < length boundary → is_none (tw.find_bytes c boundary) ≡ true
  unfolding is_none
  find_bytes-short c boundary lt = elim (Option-cases (tw.find_bytes c boundary)) [
    | inl absent ↦ rw absent refl
    | inr (i, present) ↦ absurd (
        omega (
          arith,
          lt,
          length-drop i c,
          starts_with-length (drop i c) boundary (tw.find-starts_with c boundary i present).1,
        ))
  ]

module _ ⦃tw : Twoway⦄ {E : Type 0} where
  on_chunk-value :
      (f : Finder E) (fuel : ℕ) (loop : Finder E → Outcome (Unit {0}))
      (r : Outcome (PollOpt Bytes (Error E) × Finder E))
      → BodySpec test_boundary f r
      → BodySized 9 r
      → supply f ≤ fuel
      → ((g : Finder E) → Inv test_boundary g → AllSized 9 g → supply g < fuel → loop g ≡ value tt)
      → (r >>= λ (polled, g). on_chunk loop polled g) ≡ value tt
  unfolding on_chunk
  on_chunk-value f fuel loop (value (pending, g)) (inv, (_, less)) (sized, _) le ih =
      ih g inv sized (omega arith)
  on_chunk-value f fuel loop (value (ready none, g)) h sized le ih = refl
  on_chunk-value f fuel loop (value (ready (some (err e)), g)) h sized le ih = refl
  on_chunk-value f fuel loop (value (ready (some (ok c)), g)) (inv, (_, less))
        (sized, (some_byte, short)) le ih =
      rw (some_byte, find_bytes-short c test_boundary (omega arith)) (ih g inv sized (omega arith))
  on_chunk-value f fuel loop (panic p) h sized le ih = absurd h
  on_chunk-value f fuel loop out_of_fuel h sized le ih = absurd h

  check_chunks-value :
      (fuel : ℕ) (f : Finder E)
      → Inv test_boundary f
      → AllSized 9 f
      → supply f < fuel
      → check_chunks fuel f ≡ value tt
  unfolding check_chunks
  check_chunks-value zero f inv sized enough = absurd (omega arith)
  check_chunks-value (suc fuel) f inv sized enough =
      on_chunk-value f fuel (check_chunks fuel) (body_chunk f)
        (body_chunk-BodySpec test_boundary f inv) (body_chunk-BodySized 9 test_boundary f inv sized)
        (omega arith) (λ g. check_chunks-value fuel g)

  on_boundary-value :
      (f : Finder E) (fuel : ℕ) (loop : Finder E → Outcome (Unit {0}))
      (r : Outcome (Poll (Result Bool (Error E)) × Finder E))
      → ConsumeSpec test_boundary f r
      → ConsumeSized 9 r
      → supply f ≤ fuel
      → ((g : Finder E) → Inv test_boundary g → AllSized 9 g → supply g < fuel → loop g ≡ value tt)
      → (r >>= λ (polled, g). on_boundary loop polled g) ≡ value tt
  unfolding on_boundary
  on_boundary-value f fuel loop (value (pending, g)) (inv, less, _, _, _, _) sized le ih =
      ih g inv sized (omega arith)
  on_boundary-value f fuel loop (value (ready (ok false), g)) h sized le ih = refl
  on_boundary-value f fuel loop (value (ready (err e), g)) h sized le ih = refl
  on_boundary-value f fuel loop (value (ready (ok true), g)) (inv, _) sized le ih =
      check_chunks-value (consume_fuel g) g inv sized (omega (arith, rank_le g.state))
  on_boundary-value f fuel loop (panic p) h sized le ih = absurd h
  on_boundary-value f fuel loop out_of_fuel h sized le ih = absurd h

  find_fields-value :
      (fuel : ℕ) (f : Finder E)
      → Inv test_boundary f
      → AllSized 9 f
      → supply f < fuel
      → find_fields fuel f ≡ value tt
  unfolding find_fields
  find_fields-value zero f inv sized enough = absurd (omega arith)
  find_fields-value (suc fuel) f inv sized enough =
      on_boundary-value f fuel (find_fields fuel) (consume_boundary f)
        (consume_boundary-ConsumeSpec test_boundary f inv)
        (consume_boundary-ConsumeSized 9 test_boundary f inv sized) (omega arith)
        (λ g. find_fields-value fuel g)

-- The target `fuzz_boundary_finder` returns on every input: neither of its assertions fails (no chunk of a
-- field is empty, and none holds the boundary), nothing panics, and its loops end.
pub fuzz_boundary_finder-value :
    ⦃il : Interleave⦄ ⦃tw : Twoway⦄ (E : Type 0) (data' : Bytes)
    → fuzz_boundary_finder E data' ≡ value tt
unfolding fuzz_boundary_finder Finder.new
fuzz_boundary_finder-value E data' =
    let f : Finder E = Finder.new (chunk_fuzz_data data') test_boundary in
    find_fields-value (consume_fuel f) f
      (record {
        same_boundary = refl;
        good_boundary = ((omega arith), (omega arith));
        good_state = tt;
      })
      (chunk_fuzz_data-StreamSized E data', tt) (omega arith)
