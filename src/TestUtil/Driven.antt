-- ===== src/TestUtil/Driven.antt =====
-- What the loops of src/test_util.rs come to, and what their streams hold.
use multipart_async.Base.{
  ℕ, zero, suc, ◌<◌, ◌≡◌, refl, sym, ap, ◌∙◌, false, List, [], ◌∷◌, ◌++◌, Bytes, Outcome, value,
  Returns, Returns->>=, arith,
}
use multipart_async.Stream.{Poll, ready, pending, Event, not_ready, chunk, failed}
use multipart_async.Finder.Spec.{payload}
use multipart_async.ReadString.Whole.{fails}
use multipart_async.TestUtil.{items, Interleave, iter_ok, until_ready}

module _ {S A : Type 0} (Good : S → Type 0) (measure : S → ℕ) (Done : A → S → Type 0) where
  -- An answer that is ready is as wanted; a pause comes closer to one.
  abbrev pub Advances : S → Poll A × S → Type 0
  Advances s (ready a, s') = Done a s'
  Advances s (pending, s') = Good s' × (measure s' < measure s)

  driven :
      (poll : S → Outcome (Poll A × S)) (fuel : ℕ) (s : S) (polled : Poll A) (s' : S)
      → Advances s (polled, s')
      → (Good s' → measure s' < measure s → Returns (λ (a, t). Done a t) (until_ready fuel poll s'))
      → Returns
          (λ (a, t). Done a t)
          (elim polled [ ready a ↦ value (a, s') | pending ↦ until_ready fuel poll s' ])
  driven poll fuel s (ready a) s' h rest = h
  driven poll fuel s pending s' (good', lower) rest = rest good' lower

  -- A poll that does not panic, and of which every pause lowers a measure, is driven to its answer.
  pub until_ready-Returns :
      (poll : S → Outcome (Poll A × S))
      → ((s : S) → Good s → Returns (Advances s) (poll s))
      → (fuel : ℕ) (s : S) → Good s
      → measure s < fuel
      → Returns (λ (a, s'). Done a s') (until_ready fuel poll s)
  unfolding until_ready
  until_ready-Returns poll step zero s good le = absurd (omega arith)
  until_ready-Returns poll step (suc fuel) s good le =
      Returns->>= (Advances s) (λ (a, s'). Done a s') (poll s) _ (step s good)
        (λ (polled, s') h.
          driven poll fuel s polled s' h
            (λ good' lower. until_ready-Returns poll step fuel s' good' (omega arith)))

module _ {E : Type 0} where
  -- Pauses carry no bytes and no errors.
  pub payload-items : (events : List (Event E)) → payload (items events) ≡ payload events
  payload-items [] = refl
  payload-items (not_ready ∷ events) = payload-items events
  payload-items (chunk c ∷ events) = ap (λ x. c ++ x) (payload-items events)
  payload-items (failed e ∷ events) = payload-items events

  pub fails-items : (events : List (Event E)) → fails (items events) ≡ fails events
  fails-items [] = refl
  fails-items (not_ready ∷ events) = fails-items events
  fails-items (chunk c ∷ events) = fails-items events
  fails-items (failed e ∷ events) = refl

  pub payload-interleave_pending :
      ⦃il : Interleave⦄ (events : List (Event E))
      → payload (il.interleave_pending events) ≡ payload events
  payload-interleave_pending ⦃il⦄ events =
      sym (payload-items (il.interleave_pending events))
      ∙ ap payload (il.same_items events)
      ∙ payload-items events

  pub fails-interleave_pending :
      ⦃il : Interleave⦄ (events : List (Event E))
      → fails (il.interleave_pending events) ≡ fails events
  fails-interleave_pending ⦃il⦄ events =
      sym (fails-items (il.interleave_pending events))
      ∙ ap fails (il.same_items events)
      ∙ fails-items events

pub fails-iter_ok : (E : Type 0) (cs : List Bytes) → fails (iter_ok {E = E} cs) ≡ false
unfolding iter_ok
fails-iter_ok E [] = refl
fails-iter_ok E (c ∷ cs) = fails-iter_ok E cs
