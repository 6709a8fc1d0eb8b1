-- ===== src/Push.antt =====
-- src/server/mod.rs: `PushChunk`, a stream to which a chunk can be handed back. The stream behind it
-- is the `BoundaryFinder`, as in `Multipart`.
pub mod Handed
pub mod Spec
pub mod Stops
use multipart_async.Base.{
  Bytes, not, is_empty, Option, none, some, Outcome, value, panic, debug_assertion, ◌>>=◌, ◌>>◌,
  assert,
}
use multipart_async.Stream.{ready, ok, Error, PollOpt}
use multipart_async.Search.{Twoway}
use multipart_async.Finder.{Finder, body_chunk}

-- `struct PushChunk`
pub record PushChunk (E : Type 0) : Type 0 where
  pub stream : Finder E
  pub pushed : Option Bytes

-- `debug_panic!` on a chunk that is pushed already
assert_unpushed : Option Bytes → Outcome (Unit {0})
assert_unpushed none = value tt
assert_unpushed (some c) = panic debug_assertion

module _ {E : Type 0} where
  -- `PushChunk::new`
  unfoldable pub new : Finder E → PushChunk E
  new stream = record { stream = stream; pushed = none }

  -- `PushChunk::push_chunk`, in a build with debug assertions
  pub push_chunk : PushChunk E → Bytes → Outcome (PushChunk E)
  unfolding assert_unpushed
  push_chunk p c = do
    assert_unpushed p.pushed
    assert (not (is_empty c))
    value (record p { pushed = some c })

module _ ⦃tw : Twoway⦄ {E : Type 0} where
  poll_stream : Option Bytes → PushChunk E → Outcome (PollOpt Bytes (Error E) × PushChunk E)
  poll_stream (some c) p = value (ready (some (ok c)), record p { pushed = none })
  poll_stream none p = do (polled, f) ← body_chunk p.stream; value (polled, record p { stream = f })

  -- `impl Stream for PushChunk`: the chunk that was pushed comes first.
  unfoldable pub poll_next : PushChunk E → Outcome (PollOpt Bytes (Error E) × PushChunk E)
  unfolding poll_stream
  poll_next p = poll_stream p.pushed p
