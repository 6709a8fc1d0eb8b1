-- ===== src/Fuzzing/Whole.antt =====
-- src/fuzzing.rs: `fuzz_whole_request`, which reads all the fields of a request. Each of its loops is a
-- recursion on fuel: `polls` for the loops that poll, one more number for the outer loop.
use multipart_async.Base.{
  ℕ, zero, suc, Bytes, Option, none, some, Outcome, value, out_of_fuel, ◌>>=◌, if◌then◌else◌,
}
use multipart_async.Stream.{Result, ok, err, Error}
use multipart_async.Search.{Twoway}
use multipart_async.Fields.{Crates, FieldHeaders, is_text}
use multipart_async.ReadString
use multipart_async.Multipart.{Multipart, with_body}
use multipart_async.Multipart.Data.{
  FieldData, Field, poll_data, field_stream, read_to_string, next_field, poll_unpin,
}
use multipart_async.TestUtil.{test_boundary, Interleave, until_ready}
use multipart_async.Fuzzing.{chunk_fuzz_data}

module _ ⦃tw : Twoway⦄ {E : Type 0} where
  -- the match of the `while let`
  unfoldable pub on_item :
      (FieldData E → Outcome (FieldData E))
      → Option (Result Bytes (Error E))
      → FieldData E
      → Outcome (FieldData E)
  on_item loop (some (ok chunk)) d = loop d
  on_item loop (some (err e)) d = value d
  on_item loop none d = value d

  -- `while let Some(Ok(_)) = until_ready!(..) {}`
  unfoldable pub drain : ℕ → ℕ → FieldData E → Outcome (FieldData E)
  unfolding until_ready on_item
  drain polls zero d = out_of_fuel
  drain polls (suc fuel) d = do
    (item, d') ← until_ready polls poll_data d
    on_item (drain polls fuel) item d'

module _ (crates : Crates) ⦃tw : Twoway⦄ {E : Type 0} where
  -- the body of the `if let`; the field gives back the `Multipart` that it borrows
  unfoldable pub read_field_data : ℕ → Field crates E → Outcome (Multipart E)
  unfolding is_text read_to_string drain
  read_field_data polls field =
      if is_text crates field.headers
      then (do
        (result, r) ← until_ready polls (ReadString.poll field_stream) (read_to_string field.data')
        value r.stream.multipart)
      else do d ← drain polls polls field.data'; value d.multipart

  -- `if let Ok(Some(mut field))`
  unfoldable pub on_field :
      ℕ → Result (Option (FieldHeaders crates)) (Error E) → Multipart E → Outcome (Multipart E)
  unfolding read_field_data
  on_field polls (ok (some h)) m =
      read_field_data polls (record { headers = h; data' = record { multipart = m } })
  on_field polls (ok none) m = value m
  on_field polls (err e) m = value m

  -- the outer loop
  unfoldable pub read_fields : ℕ → ℕ → Multipart E → Outcome (Unit {0})
  unfolding on_field next_field
  read_fields polls zero m = out_of_fuel
  read_fields polls (suc fuel) m = do
    (result, (n, m')) ← until_ready polls (poll_unpin crates) (next_field m)
    m'' ← on_field polls result m'
    read_fields polls fuel m''

-- `fuzz_whole_request`
unfoldable pub fuzz_whole_request :
    ⦃il : Interleave⦄ ⦃tw : Twoway⦄ → Crates → Type 0 → ℕ → ℕ → Bytes → Outcome (Unit {0})
unfolding with_body chunk_fuzz_data read_fields
fuzz_whole_request crates E polls fuel fuzz_data =
    read_fields crates {E = E} polls fuel (with_body (chunk_fuzz_data fuzz_data) test_boundary)
