-- ===== src/Multipart.antt =====
-- src/server/mod.rs: `Multipart`, and src/server/field/mod.rs: `NextField` and `FieldData`.
pub mod Left
pub mod Steps
pub mod Whole
pub mod Data
pub mod Text
pub mod Next
pub mod Accept
use multipart_async.Base.{
  Bool, true, false, not, List, [], ◌++◌, Bytes, Option, none, some, Outcome, value, ◌>>=◌,
  if◌then◌else◌,
}
use multipart_async.Stream.{
  Poll, ready, pending, Result, ok, err, Error, Event, flatten_error, PollOpt,
}
use multipart_async.Search.{Twoway, dashes}
use multipart_async.Finder
use multipart_async.Finder.{Finder, consume_boundary}
use multipart_async.Push
use multipart_async.Push.{PushChunk, poll_next}
use multipart_async.Fields.{Crates, FieldHeaders}
use multipart_async.Headers.{ReadHeaders, is_reading_headers, read_headers}

-- `struct Multipart`
pub record Multipart (E : Type 0) : Type 0 where
  pub inner : PushChunk E
  pub read_hdr : ReadHeaders

module _ {E : Type 0} where
  -- `Multipart::with_body`
  unfoldable pub with_body : List (Event E) → Bytes → Multipart E
  unfolding Finder.new Push.new
  with_body stream boundary = record {
    inner = Push.new (Finder.new stream (dashes ++ boundary));
    read_hdr = record { accumulator = [] };
  }

module _ ⦃tw : Twoway⦄ {E : Type 0} where
  -- `Multipart::poll_has_next_field`
  unfoldable pub poll_has_next_field :
      Multipart E → Outcome (Poll (Result Bool (Error E)) × Multipart E)
  unfolding consume_boundary
  poll_has_next_field m = do
    (polled, f) ← consume_boundary m.inner.stream
    value (polled, record m { inner = record m.inner { stream = f } })

  -- `Multipart::poll_field_chunk`
  pub poll_field_chunk : Multipart E → Outcome (PollOpt Bytes (Error E) × Multipart E)
  unfolding poll_next is_reading_headers
  poll_field_chunk m =
      if not (is_reading_headers m.read_hdr)
      then (do (polled, p) ← poll_next m.inner; value (polled, record m { inner = p }))
      else value (ready none, m)

module _ (crates : Crates) ⦃tw : Twoway⦄ {E : Type 0} where
  -- `?` on the result of `read_headers`
  flatten_poll :
      Poll (Result (FieldHeaders crates) (Error (Error E)))
      → Poll (Result (FieldHeaders crates) (Error E))
  unfolding flatten_error
  flatten_poll pending = pending
  flatten_poll (ready (ok h)) = ready (ok h)
  flatten_poll (ready (err e)) = ready (err (flatten_error e))

  -- `Multipart::poll_field_headers`
  pub poll_field_headers :
      Multipart E → Outcome (Poll (Result (FieldHeaders crates) (Error E)) × Multipart E)
  unfolding flatten_poll read_headers
  poll_field_headers m = do
    (polled, r, p) ← read_headers crates m.read_hdr m.inner
    value (flatten_poll polled, record { inner = p; read_hdr = r })

-- `struct NextField`: whether it still holds the `Multipart`, which is given back beside it.
pub record NextField : Type 0 where
  pub holds_multipart : Bool
  pub has_next_field : Bool

-- `NextField::new`
abbrev pub new_next_field : NextField
new_next_field = record { holds_multipart = true; has_next_field = false }

-- The result of a poll of `NextField`, the future, and the `Multipart`.
abbrev pub Next : Crates → Type 0 → Type 0
Next crates E = Poll (Result (Option (FieldHeaders crates)) (Error E)) × NextField × Multipart E

module _ (crates : Crates) ⦃tw : Twoway⦄ {E : Type 0} where
  -- the headers of the next field; with them the future gives up the `Multipart`
  next_headers : NextField → Multipart E → Outcome (Next crates E)
  next_headers n m = do
    (polled, m') ← poll_field_headers crates m
    value (elim polled [
      | pending ↦ (pending, n, m')
      | ready (err e) ↦ (ready (err e), n, m')
      | ready (ok h) ↦ (ready (ok (some h)), record n { holds_multipart = false }, m')
    ])

  -- what follows the poll for the boundary
  after_boundary : NextField → Poll (Result Bool (Error E)) → Multipart E → Outcome (Next crates E)
  unfolding next_headers
  after_boundary n pending m = value (pending, n, m)
  after_boundary n (ready (err e)) m = value (ready (err e), n, m)
  after_boundary n (ready (ok true)) m = next_headers (record n { has_next_field = true }) m
  after_boundary n (ready (ok false)) m =
      value (ready (ok none), record { holds_multipart = false; has_next_field = false }, m)

  -- `<NextField as Future>::poll`. A field that is returned holds the `Multipart` from then on.
  pub poll_next_field : NextField → Multipart E → Outcome (Next crates E)
  unfolding after_boundary next_headers poll_has_next_field
  poll_next_field n m =
      if not n.holds_multipart
      then value (ready (ok none), n, m)
      else if n.has_next_field
      then next_headers n m
      else do (polled, m') ← poll_has_next_field m; after_boundary n polled m'
