-- ===== src/Fuzzing/Field.antt =====
-- src/fuzzing.rs: `fuzz_boundary_finder_field`, which takes its input as the data of one field. Each of its
-- loops gives the finder that it breaks with, or nothing where the function returns.
use multipart_async.Base.{
  ℕ, zero, suc, Bool, true, false, List, ◌++◌, Bytes, codes, length, Option, none, some, Outcome,
  value, panic, out_of_fuel, ◌>>=◌, ◌>>◌, assert, is_empty, not, slice_from, explicit_panic,
}
use multipart_async.Stream.{Event, Poll, ready, pending, Result, ok, err, Error, PollOpt}
use multipart_async.Search.{Twoway, starts_with}
use multipart_async.Finder
use multipart_async.Finder.{Finder, body_chunk, consume_boundary, consume_fuel}
use multipart_async.TestUtil.{test_boundary, Interleave}
use multipart_async.Fuzzing.{chunk_fuzz_data}

-- the delimiters in front of the data and behind it
abbrev pub field_start : Bytes
field_start = test_boundary ++ codes "\r\n"

abbrev pub field_end : Bytes
field_end = codes "\r\n" ++ (test_boundary ++ codes "--")

module _ ⦃tw : Twoway⦄ {E : Type 0} where
  -- the match of the first loop
  unfoldable pub on_start :
      (Finder E → Outcome (Option (Finder E)))
      → Poll (Result Bool (Error E))
      → Finder E
      → Outcome (Option (Finder E))
  on_start loop (ready (ok true)) f = value (some f)
  on_start loop (ready (ok false)) f = panic explicit_panic
  on_start loop (ready (err e)) f = value none
  on_start loop pending f = loop f

  -- the first loop, which reads the starting boundary
  unfoldable pub read_start : ℕ → Finder E → Outcome (Option (Finder E))
  unfolding consume_boundary on_start
  read_start zero f = out_of_fuel
  read_start (suc fuel) f = do
    (polled, f') ← consume_boundary f
    on_start (read_start fuel) polled f'

  -- the match of the second loop
  unfoldable pub on_data :
      (Bytes → Finder E → Outcome (Option (Finder E)))
      → Bytes
      → PollOpt Bytes (Error E)
      → Finder E
      → Outcome (Option (Finder E))
  on_data loop remaining (ready (some (ok chunk))) f = do
    assert (not (is_empty chunk))
    assert (starts_with remaining chunk)
    remaining' ← slice_from remaining (length chunk)
    loop remaining' f
  on_data loop remaining (ready (some (err e))) f = value none
  on_data loop remaining (ready none) f = do assert (is_empty remaining); value (some f)
  on_data loop remaining pending f = loop remaining f

  -- the second loop, which reads the data
  unfoldable pub read_data : ℕ → Bytes → Finder E → Outcome (Option (Finder E))
  unfolding body_chunk on_data
  read_data zero remaining f = out_of_fuel
  read_data (suc fuel) remaining f = do
    (polled, f') ← body_chunk f
    on_data (read_data fuel) remaining polled f'

  -- the match of the third loop
  unfoldable pub on_end :
      (Finder E → Outcome (Unit {0})) → Poll (Result Bool (Error E)) → Finder E → Outcome (Unit {0})
  on_end loop (ready (ok false)) f = value tt
  on_end loop (ready (ok true)) f = panic explicit_panic
  on_end loop (ready (err e)) f = value tt
  on_end loop pending f = loop f

  -- the third loop, which reads the ending boundary
  unfoldable pub read_end : ℕ → Finder E → Outcome (Unit {0})
  unfolding consume_boundary on_end
  read_end zero f = out_of_fuel
  read_end (suc fuel) f = do (polled, f') ← consume_boundary f; on_end (read_end fuel) polled f'

  -- goes on behind a loop, unless the function has returned in it
  abbrev pub unless_returned :
      Option (Finder E) → (Finder E → Outcome (Unit {0})) → Outcome (Unit {0})
  unless_returned none rest = value tt
  unless_returned (some f) rest = rest f

  -- the three loops
  unfoldable pub read_field : Bytes → Finder E → Outcome (Unit {0})
  unfolding read_start read_data read_end
  read_field fuzz_data finder = do
    started ← read_start (consume_fuel finder) finder
    unless_returned started (λ f. do
      read ← read_data (consume_fuel f) fuzz_data f
      unless_returned read (λ g. read_end (consume_fuel g) g))

module _ ⦃il : Interleave⦄ where
  -- the stream of `fuzz_boundary_finder_field`
  unfoldable pub field_stream : {E : Type 0} → Bytes → List (Event E)
  unfolding chunk_fuzz_data
  field_stream fuzz_data =
      chunk_fuzz_data field_start ++ (chunk_fuzz_data fuzz_data ++ chunk_fuzz_data field_end)

  -- `fuzz_boundary_finder_field`
  unfoldable pub fuzz_boundary_finder_field : ⦃tw : Twoway⦄ → Type 0 → Bytes → Outcome (Unit {0})
  unfolding field_stream Finder.new read_field
  fuzz_boundary_finder_field ⦃tw⦄ E fuzz_data = elim (tw.find_bytes fuzz_data test_boundary) [
    | some i ↦ value tt
    | none ↦ read_field fuzz_data (Finder.new {E = E} (field_stream fuzz_data) test_boundary)
  ]
