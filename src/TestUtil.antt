-- ===== src/TestUtil.antt =====
-- src/test_util.rs: the boundary of the tests, their stream, and the loops that drive a future or a stream
-- to its answer. Such a loop is a recursion on fuel. `interleave_pending` is of the crate futures-test: an
-- argument.
pub mod Driven
use multipart_async.Base.{
  ℕ, zero, suc, ◌≡◌, List, [], ◌∷◌, Bytes, codes, Outcome, value, out_of_fuel, ◌>>=◌,
}
use multipart_async.Stream.{Poll, ready, pending, Event, not_ready, chunk, failed}

-- `BOUNDARY`
abbrev pub test_boundary : Bytes
test_boundary = codes "--boundary"

-- The answers that are ready.
abbrev pub items : {E : Type 0} → List (Event E) → List (Event E)
items [] = []
items (not_ready ∷ events) = items events
items (chunk c ∷ events) = chunk c ∷ items events
items (failed e ∷ events) = failed e ∷ items events

-- `StreamTestExt::interleave_pending`, as documented: it puts answers that are not ready between the items of
-- a stream, and changes none of these.
pub record Interleave : Type 1 where
  pub interleave_pending : {E : Type 0} → List (Event E) → List (Event E)
  pub same_items :
      {E : Type 0} (events : List (Event E)) → items (interleave_pending events) ≡ items events

-- `stream::iter(..).map(Ok)` on byte strings
unfoldable pub iter_ok : {E : Type 0} → List Bytes → List (Event E)
iter_ok [] = []
iter_ok (c ∷ cs) = chunk c ∷ iter_ok cs

-- `mock_stream`. Its `Infallible`, a type without values, is any type here: no answer holds an error.
unfoldable pub mock_stream : ⦃il : Interleave⦄ {E : Type 0} → List Bytes → List (Event E)
unfolding iter_ok
mock_stream ⦃il⦄ test_data = il.interleave_pending (iter_ok test_data)

module _ {S A : Type 0} where
  -- `until_ready!`
  unfoldable pub until_ready : ℕ → (S → Outcome (Poll A × S)) → S → Outcome (A × S)
  until_ready zero poll s = out_of_fuel
  until_ready (suc fuel) poll s = do
    (polled, s') ← poll s
    elim polled [ ready a ↦ value (a, s') | pending ↦ until_ready fuel poll s' ]

  -- `run_future_hot`
  unfoldable pub run_future_hot : ℕ → (S → Outcome (Poll A × S)) → S → Outcome (A × S)
  unfolding until_ready
  run_future_hot fuel poll f = until_ready fuel poll f
