-- ===== src/Fuzzing.antt =====
-- src/fuzzing.rs: the drivers of the fuzz targets. A loop of a driver is a recursion on fuel.
pub mod Ends
pub mod Asserted
pub mod Field
pub mod Pieces
pub mod Chunked
pub mod FieldRead
pub mod Whole
pub mod Endless
use multipart_async.Base.{
  ℕ, zero, suc, ◌+◌, ◌-◌, Bool, true, false, List, [], ◌∷◌, Bytes, length, take, drop, Option, none,
  some, Outcome, value, out_of_fuel, ◌>>=◌, ◌>>◌, assert, is_empty, not, if◌then◌else◌,
}
use multipart_async.Stream.{Event, Poll, ready, pending, Result, ok, err, Error, PollOpt}
use multipart_async.Search.{Twoway}
use multipart_async.Finder
use multipart_async.Finder.{Finder, body_chunk, consume_boundary, consume_fuel}
use multipart_async.Push
use multipart_async.Push.{PushChunk}
use multipart_async.Fields.{Crates, FieldHeaders}
use multipart_async.Headers.{ReadHeaders, read_headers}
use multipart_async.ReadString
use multipart_async.ReadString.{event_stream}
use multipart_async.TestUtil.{test_boundary, Interleave, iter_ok, until_ready}

-- `<[u8]>::chunks`, with as much fuel as there are bytes
unfoldable chunks_within : ℕ → ℕ → Bytes → List Bytes
chunks_within zero size bytes = []
chunks_within (suc fuel) size [] = []
chunks_within (suc fuel) size (x ∷ xs) =
    take size (x ∷ xs) ∷ chunks_within fuel size (drop size (x ∷ xs))

unfoldable chunks : ℕ → Bytes → List Bytes
unfolding chunks_within
chunks size bytes = chunks_within (length bytes) size bytes

-- `read_headers.read_headers(finder.as_mut(), cx)`
poll_headers :
    ⦃tw : Twoway⦄ (crates : Crates) {E : Type 0}
    → ReadHeaders × PushChunk E
    → Outcome (Poll (Result (FieldHeaders crates) (Error (Error E))) × (ReadHeaders × PushChunk E))
unfolding read_headers
poll_headers crates (read, finder) = do
  (polled, read', finder') ← read_headers crates read finder
  value (polled, (read', finder'))

pub is_none : Option ℕ → Bool
is_none none = true
is_none (some i) = false

module _ ⦃tw : Twoway⦄ {E : Type 0} where
  -- the body of the inner loop of `fuzz_boundary_finder`, behind the call of `body_chunk`
  on_chunk :
      (Finder E → Outcome (Unit {0})) → PollOpt Bytes (Error E) → Finder E → Outcome (Unit {0})
  unfolding is_none
  on_chunk loop pending f = loop f
  on_chunk loop (ready none) f = value tt
  on_chunk loop (ready (some (err e))) f = value tt
  on_chunk loop (ready (some (ok chunk))) f = do
    assert (not (is_empty chunk))
    assert (is_none (tw.find_bytes chunk test_boundary))
    loop f

  -- the inner loop of `fuzz_boundary_finder`
  check_chunks : ℕ → Finder E → Outcome (Unit {0})
  unfolding body_chunk on_chunk
  check_chunks zero f = out_of_fuel
  check_chunks (suc fuel) f = do (polled, f') ← body_chunk f; on_chunk (check_chunks fuel) polled f'

  -- what follows the call of `consume_boundary` in `fuzz_boundary_finder`
  on_boundary :
      (Finder E → Outcome (Unit {0})) → Poll (Result Bool (Error E)) → Finder E → Outcome (Unit {0})
  unfolding check_chunks
  on_boundary loop pending f = loop f
  on_boundary loop (ready (ok false)) f = value tt
  on_boundary loop (ready (err e)) f = value tt
  on_boundary loop (ready (ok true)) f = check_chunks (consume_fuel f) f

  -- the outer loop of `fuzz_boundary_finder`
  find_fields : ℕ → Finder E → Outcome (Unit {0})
  unfolding consume_boundary on_boundary
  find_fields zero f = out_of_fuel
  find_fields (suc fuel) f = do
    (polled, f') ← consume_boundary f
    on_boundary (find_fields fuel) polled f'

module _ ⦃il : Interleave⦄ where
  -- `chunk_fuzz_data`
  unfoldable pub chunk_fuzz_data : {E : Type 0} → Bytes → List (Event E)
  unfolding chunks iter_ok
  chunk_fuzz_data data' = il.interleave_pending (iter_ok (chunks (length test_boundary - 1) data'))

  -- `fuzz_boundary_finder`
  pub fuzz_boundary_finder : ⦃tw : Twoway⦄ → Type 0 → Bytes → Outcome (Unit {0})
  unfolding chunk_fuzz_data Finder.new find_fields
  fuzz_boundary_finder E fuzz_data =
      let finder : Finder E = Finder.new (chunk_fuzz_data fuzz_data) test_boundary in
      find_fields (consume_fuel finder) finder

  -- `fuzz_read_to_string`
  pub fuzz_read_to_string : Type 0 → ℕ → Bytes → Outcome (Unit {0})
  unfolding chunk_fuzz_data ReadString.new ReadString.poll until_ready
  fuzz_read_to_string E fuel fuzz_data = do
    _ ←
        until_ready fuel (ReadString.poll event_stream)
          (ReadString.new (chunk_fuzz_data {E = E} fuzz_data))
    value tt

  -- `fuzz_read_headers`
  pub fuzz_read_headers : ⦃tw : Twoway⦄ → Crates → Type 0 → ℕ → Bytes → Outcome (Unit {0})
  unfolding chunk_fuzz_data Push.new Finder.new until_ready poll_headers
  fuzz_read_headers ⦃tw⦄ crates E fuel fuzz_data = elim (tw.find_bytes fuzz_data test_boundary) [
    | some i ↦ value tt
    | none ↦ do
      _ ← until_ready fuel (poll_headers crates) (
        record { accumulator = [] },
        Push.new (Finder.new {E = E} (chunk_fuzz_data fuzz_data) test_boundary),
      )
      value tt
  ]
