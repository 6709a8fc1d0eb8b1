-- ===== src/Fuzzing/FieldRead.antt =====
-- The run of `fuzz_boundary_finder_field` in src/fuzzing.rs.
use multipart_async.Base.{
  ℕ, zero, suc, ◌*◌, ◌+◌, ◌<◌, ◌≤◌, ◌≡◌, refl, sym, ap, ◌∙◌, subst, Bool, true, false, List, ◌∷◌,
  ◌++◌, Bytes, length, Option, none, some, Outcome, value, panic, out_of_fuel, ◌>>=◌, Returns,
  Returns-eq, arith, Option-cases, inl, inr, drop-length, length-append, leb,
}
use multipart_async.Stream.{Poll, ready, pending, Result, ok, err, Error, PollOpt}
use multipart_async.Search.{Twoway}
use multipart_async.Search.Slices.{starts_with-append}
use multipart_async.Finder
use multipart_async.Finder.{
  State, split, end, Finder, set_state, body_chunk, consume_boundary, consume_fuel,
}
use multipart_async.Finder.Spec.{supply, Inv, BodySpec}
use multipart_async.Finder.Body.{body_chunk-BodySpec, rank_le}
use multipart_async.Finder.Passed.{ConsumeSpec}
use multipart_async.Finder.Consume.{consume_boundary-ConsumeSpec}
use multipart_async.Finder.Given.{Data, Fed}
use multipart_async.Finder.Fed.{ReadSpec, body_chunk-Read}
use multipart_async.Finder.Begun.{
  Begun, StartConsumed, consume_boundary-Start, consume_boundary-end,
}
use multipart_async.TestUtil.{test_boundary, Interleave}
use multipart_async.Fuzzing.{chunks}
use multipart_async.Fuzzing.Field.{
  on_start, read_start, on_data, read_data, on_end, read_end, read_field, field_stream,
  fuzz_boundary_finder_field, unless_returned,
}
use multipart_async.Fuzzing.Pieces.{end2, end1_rest, joined, Without}
use multipart_async.Fuzzing.Chunked.{
  chunks_within-AllSmall, joined-chunks_within, items-field_stream,
}

module _ ⦃tw : Twoway⦄ {E : Type 0} where
  -- what the first loop may come to: a return, or the finder at the data
  abbrev AtData : List Bytes → Option (Finder E) → Type 0
  AtData ds none = Unit
  AtData ds (some g) = Inv test_boundary g × Fed ds g

  on_start-AtData :
      (ds : List Bytes) (f : Finder E) (fuel : ℕ) (loop : Finder E → Outcome (Option (Finder E)))
      (r : Outcome (Poll (Result Bool (Error E)) × Finder E))
      → ConsumeSpec test_boundary f r
      → StartConsumed ds r
      → supply f ≤ fuel
      → ((g : Finder E)
          → Inv test_boundary g
          → Begun ds g
          → supply g < fuel
          → Returns (AtData ds) (loop g))
      → Returns (AtData ds) (r >>= λ (polled, g). on_start loop polled g)
  unfolding on_start
  on_start-AtData ds f fuel loop (value (pending, g)) (inv, less, _, _, _, _) begun le ih =
      ih g inv begun (omega arith)
  on_start-AtData ds f fuel loop (value (ready (ok true), g)) (inv, _) fed le ih = (inv, fed)
  on_start-AtData ds f fuel loop (value (ready (ok false), g)) spec h le ih = absurd h
  on_start-AtData ds f fuel loop (value (ready (err e), g)) spec h le ih = tt
  on_start-AtData ds f fuel loop (panic p) spec h le ih = absurd spec
  on_start-AtData ds f fuel loop out_of_fuel spec h le ih = absurd spec

  read_start-AtData :
      (ds : List Bytes) (fuel : ℕ) (f : Finder E)
      → Data ds
      → Inv test_boundary f
      → Begun ds f
      → supply f < fuel
      → Returns (AtData ds) (read_start fuel f)
  unfolding read_start
  read_start-AtData ds zero f good inv begun enough = absurd (omega arith)
  read_start-AtData ds (suc fuel) f good inv begun enough =
      on_start-AtData ds f fuel (read_start fuel) (consume_boundary f)
        (consume_boundary-ConsumeSpec test_boundary f inv) (consume_boundary-Start ds f good begun)
        (omega arith) (λ g. read_start-AtData ds fuel g good)

  -- what the second loop may come to: a return, or the finder at the ending boundary
  abbrev AtEnding : Option (Finder E) → Type 0
  AtEnding none = Unit
  AtEnding (some g) = (g.boundary ≡ test_boundary) × (g.state ≡ split end1_rest end2)

  on_chunk-AtEnding :
      (c : Bytes) (ds : List Bytes) (g : Finder E)
      (loop : Bytes → Finder E → Outcome (Option (Finder E)))
      → Data (c ∷ ds)
      → Returns AtEnding (loop (joined ds) g)
      → Returns AtEnding (on_data loop (c ++ joined ds) (ready (some (ok c))) g)
  unfolding on_data
  on_chunk-AtEnding c ds g loop (((some_byte, _), _), _) h =
      let fits : leb (length c) (length (c ++ joined ds)) ≡ true =
        ground (arith, length-append c (joined ds)) in
      rw (some_byte, starts_with-append c (joined ds), fits, drop-length c (joined ds)) h

  on_data-AtEnding :
      (ds : List Bytes) (f : Finder E) (fuel : ℕ)
      (loop : Bytes → Finder E → Outcome (Option (Finder E)))
      (r : Outcome (PollOpt Bytes (Error E) × Finder E))
      → Data ds
      → BodySpec test_boundary f r
      → ReadSpec ds r
      → supply f ≤ fuel
      → ((ds' : List Bytes) (g : Finder E)
          → Inv test_boundary g
          → Fed ds' g
          → supply g < fuel
          → Returns AtEnding (loop (joined ds') g))
      → Returns AtEnding (r >>= λ (polled, g). on_data loop (joined ds) polled g)
  unfolding on_data
  on_data-AtEnding ds f fuel loop (value (pending, g)) good (inv, (_, less)) fed le ih =
      ih ds g inv fed (omega arith)
  on_data-AtEnding ds f fuel loop (value (ready none, g)) good spec (no_data, same, at_end) le ih =
      rw no_data (same, at_end)
  on_data-AtEnding ds f fuel loop (value (ready (some (ok c)), g)) good (inv, (_, less))
        (ds', is_chunk, fed) le ih =
      rw is_chunk (
        on_chunk-AtEnding c ds' g loop (subst Data is_chunk good)
          (ih ds' g inv fed (omega (arith, less, le))))
  on_data-AtEnding ds f fuel loop (value (ready (some (err e)), g)) good spec h le ih = tt
  on_data-AtEnding ds f fuel loop (panic p) good spec h le ih = absurd spec
  on_data-AtEnding ds f fuel loop out_of_fuel good spec h le ih = absurd spec

  read_data-AtEnding :
      (fuel : ℕ) (ds : List Bytes) (f : Finder E)
      → Inv test_boundary f
      → Fed ds f
      → supply f < fuel
      → Returns AtEnding (read_data fuel (joined ds) f)
  unfolding read_data
  read_data-AtEnding zero ds f inv fed enough = absurd (omega arith)
  read_data-AtEnding (suc fuel) ds f inv fed enough =
      on_data-AtEnding ds f fuel (read_data fuel) (body_chunk f) fed.good_data
        (body_chunk-BodySpec test_boundary f inv) (body_chunk-Read ds f fed) (omega arith)
        (λ ds' g. read_data-AtEnding fuel ds' g)

  read_end-value : (fuel : ℕ) (f : Finder E) → AtEnding (some f) → read_end (suc fuel) f ≡ value tt
  unfolding read_end on_end
  read_end-value fuel f (same, at_split) = rw (consume_boundary-end f same at_split) refl

  ending_read :
      (o : Option (Finder E))
      → AtEnding o
      → unless_returned o (λ g. read_end (consume_fuel g) g) ≡ value tt
  ending_read none h = refl
  ending_read (some g) h =
      let n = length g.stream in
      let more : 2 * n + 2 ≡ suc (2 * n + 1) = omega arith in
      ap (λ fuel. read_end fuel g) more ∙ read_end-value (2 * n + 1) g h

  data_read :
      (ds : List Bytes) (o : Option (Finder E))
      → AtData ds o
      → unless_returned o (λ f. do
        read ← read_data (consume_fuel f) (joined ds) f
        unless_returned read (λ g. read_end (consume_fuel g) g))
        ≡ value tt
  data_read ds none h = refl
  data_read ds (some f) (inv, fed) =
      Returns-eq AtEnding (read_data (consume_fuel f) (joined ds) f) _
        (read_data-AtEnding (consume_fuel f) ds f inv fed (omega (arith, rank_le f.state)))
        ending_read

  read_field-value :
      (ds : List Bytes) (f : Finder E)
      → Data ds
      → Inv test_boundary f
      → Begun ds f
      → read_field (joined ds) f ≡ value tt
  unfolding read_field
  read_field-value ds f good inv begun =
      Returns-eq (AtData ds) (read_start (consume_fuel f) f) _
        (read_start-AtData ds (consume_fuel f) f good inv begun (omega (arith, rank_le f.state)))
        (data_read ds)

module _ ⦃il : Interleave⦄ ⦃tw : Twoway⦄ (E : Type 0) where
  fed_field :
      (bytes : Bytes)
      → Without bytes
      → read_field bytes (Finder.new {E = E} (field_stream bytes) test_boundary) ≡ value tt
  unfolding Finder.new chunks
  fed_field bytes without =
      let same = joined-chunks_within (length bytes) 8 bytes (omega arith) in
      let f : Finder E = Finder.new (field_stream bytes) test_boundary in
      subst (λ b. read_field b f ≡ value tt) same
        (read_field-value (chunks 9 bytes) f
          (
            chunks_within-AllSmall (length bytes) 8 bytes (omega arith),
            subst Without (sym same) without,
          )
          (record {
            same_boundary = refl;
            good_boundary = ((omega arith), (omega arith));
            good_state = tt;
          })
          (record { same_boundary = refl; begins = items-field_stream bytes }))

  by_search : (bytes : Bytes) → fuzz_boundary_finder_field E bytes ≡ value tt
  unfolding fuzz_boundary_finder_field
  by_search bytes = elim (Option-cases (tw.find_bytes bytes test_boundary)) [
    | inl absent ↦
        rw (fuzz_boundary_finder_field, absent)
          (fed_field bytes (λ j le. tw.find-none bytes test_boundary j absent le))
    | inr (i, present) ↦ rw (fuzz_boundary_finder_field, present) refl
  ]

-- The target `fuzz_boundary_finder_field` returns on every input: data that does not hold the boundary comes
-- out of the finder as it went in, in chunks that are not empty, unless the finder answers with an error; the
-- boundary in front of it is read as one that a field follows, the one behind it as the last one, nothing
-- panics, and the loops end.
pub fuzz_boundary_finder_field-value :
    ⦃il : Interleave⦄ ⦃tw : Twoway⦄ (E : Type 0) (data' : Bytes)
    → fuzz_boundary_finder_field E data' ≡ value tt
fuzz_boundary_finder_field-value E data' = by_search E data'
