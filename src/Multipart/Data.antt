-- ===== src/Multipart/Data.antt =====
-- src/server/field/mod.rs: `Field` and `FieldData`, and the methods of src/server/mod.rs that make a
-- `NextField`. A field borrows its `Multipart`, and so holds it here.
use multipart_async.Base.{◌*◌, ◌+◌, Bytes, length, Option, Outcome, value, ◌>>=◌}
use multipart_async.Stream.{Poll, Result, Error, PollOpt}
use multipart_async.Search.{Twoway}
use multipart_async.Fields.{Crates, FieldHeaders}
use multipart_async.ReadString
use multipart_async.ReadString.{ReadToString, TryStream}
use multipart_async.Multipart.{
  Multipart, NextField, new_next_field, poll_field_chunk, poll_next_field,
}

-- `struct FieldData`
pub record FieldData (E : Type 0) : Type 0 where
  pub multipart : Multipart E

-- `struct Field`
pub record Field (crates : Crates) (E : Type 0) : Type 0 where
  pub headers : FieldHeaders crates
  pub data' : FieldData E

module _ {E : Type 0} where
  -- `Multipart::next_field_pinned`
  unfoldable next_field_pinned : Multipart E → NextField × Multipart E
  next_field_pinned m = (new_next_field, m)

  -- `Multipart::next_field`
  unfoldable pub next_field : Multipart E → NextField × Multipart E
  next_field m = (new_next_field, m)

  -- `FieldData::read_to_string`
  unfoldable pub read_to_string : FieldData E → ReadToString (FieldData E)
  unfolding ReadString.new
  read_to_string data' = ReadString.new data'

module _ ⦃tw : Twoway⦄ {E : Type 0} where
  -- `<FieldData as Stream>::poll_next`
  unfoldable pub poll_data : FieldData E → Outcome (PollOpt Bytes (Error E) × FieldData E)
  unfolding poll_field_chunk
  poll_data data' = do
    (polled, m) ← poll_field_chunk data'.multipart
    value (polled, record { multipart = m })

  -- `FieldData` as a stream. No more answers follow than the body stream, the state of the finder and the
  -- chunk that was handed back can give, then the end or an error.
  abbrev pub field_stream : TryStream (FieldData E) (Error E)
  field_stream = record {
    try_poll_next = poll_data;
    enough = λ data'. 2 * length data'.multipart.inner.stream.stream + 4;
  }

-- `poll_unpin` of the future of `next_field`, with the `Multipart` that it borrows beside it
unfoldable pub poll_unpin :
    (crates : Crates) ⦃tw : Twoway⦄ {E : Type 0}
    → NextField × Multipart E
    → Outcome (Poll (Result (Option (FieldHeaders crates)) (Error E)) × (NextField × Multipart E))
unfolding poll_next_field
poll_unpin crates (n, m) = do
  (polled, n', m') ← poll_next_field crates n m
  value (polled, (n', m'))
