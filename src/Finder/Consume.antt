-- ===== src/Finder/Consume.antt =====
-- `consume_boundary`: the loop over `body_chunk`, and the confirmation behind it.
use multipart_async.Base.{
  ℕ, zero, suc, ◌≤◌, ◌<◌, sym, ◌∙◌, [], ◌++◌, Bytes, none, some, Outcome, value, panic, out_of_fuel,
  arith, append_assoc, subst,
}
use multipart_async.Stream.{ready, pending, ok, err, Error, PollOpt}
use multipart_async.Search.{Twoway}
use multipart_async.Finder.{
  watching, Finder, set_state, confirm_in, after_body, body_chunk, consume_loop, consume_fuel,
  consume_boundary,
}
use multipart_async.Finder.Spec.{total, AtEnd, supply, Kept, Inv, BodySpec}
use multipart_async.Finder.Body.{body_chunk-BodySpec, rank_le}
use multipart_async.Finder.Passed.{
  ConsumeSpec, Confirms, confirm_in-Confirms, ConsumeSpec-before, confirmed-ConsumeSpec,
}
use multipart_async.Finder.Spec.{Gap-newline}

module _ ⦃tw : Twoway⦄ {E : Type 0} where
  confirm-AtEnd :
      (boundary : Bytes) (f g : Finder E)
      → Inv boundary g
      → Kept f [] g
      → AtEnd g.state
      → ConsumeSpec boundary f (confirm_in g.state (set_state g watching))
  confirm-AtEnd boundary f g inv k at_end =
      confirmed-ConsumeSpec boundary f g k.gap (confirm_in g.state (set_state g watching))
        (Gap-newline g.state k.gap k.only_newline) k.bytes
        (subst (λ b. Confirms b (total g) (confirm_in g.state (set_state g watching)))
          inv.same_boundary
          (confirm_in-Confirms g.state g.stream g.boundary (rw inv.same_boundary inv.good_boundary)
            (rw inv.same_boundary inv.good_state) at_end))

  after_body-ConsumeSpec :
      (boundary : Bytes) (f : Finder E) (fuel : ℕ)
      (r : Outcome (PollOpt Bytes (Error E) × Finder E))
      → BodySpec boundary f r
      → supply f ≤ fuel
      → ((g : Finder E)
          → Inv boundary g
          → supply g < fuel
          → ConsumeSpec boundary g (consume_loop fuel g))
      → ConsumeSpec boundary f (after_body (consume_loop fuel) r)
  unfolding after_body
  after_body-ConsumeSpec boundary f fuel (value (pending, g)) (inv, (k, less)) le ih =
      (inv, less, [], k.gap, Gap-newline g.state k.gap k.only_newline, k.bytes)
  after_body-ConsumeSpec boundary f fuel (value (ready none, g)) (inv, (k, at_end)) le ih =
      confirm-AtEnd boundary f g inv k at_end
  after_body-ConsumeSpec boundary f fuel (value (ready (some (ok c)), g)) (inv, (k, less)) le ih =
      ConsumeSpec-before boundary f g (c ++ k.gap) _
        (k.bytes ∙ sym (append_assoc c k.gap (total g))) (omega (arith, less))
        (ih g inv (omega (arith, less, le)))
  after_body-ConsumeSpec boundary f fuel (value (ready (some (err e)), g)) (inv, bad) le ih =
      (inv, bad)
  after_body-ConsumeSpec boundary f fuel (panic p) h le ih = absurd h
  after_body-ConsumeSpec boundary f fuel out_of_fuel h le ih = absurd h

  consume_loop-ConsumeSpec :
      (fuel : ℕ) (boundary : Bytes) (f : Finder E)
      → Inv boundary f
      → supply f < fuel
      → ConsumeSpec boundary f (consume_loop fuel f)
  unfolding consume_loop
  consume_loop-ConsumeSpec zero boundary f inv le = absurd (omega arith)
  consume_loop-ConsumeSpec (suc fuel) boundary f inv le =
      after_body-ConsumeSpec boundary f fuel (body_chunk f) (body_chunk-BodySpec boundary f inv)
        (omega arith) (λ g. consume_loop-ConsumeSpec fuel boundary g)

  -- From any finder that is in order (its boundary begins with neither CR nor LF, and its state is one
  -- that the methods make), `consume_boundary` neither panics nor runs out of its calls of `body_chunk`,
  -- and leaves the finder in order. If it is pending, it has passed over some bytes and perhaps a newline,
  -- and fewer chunks may follow. If it answers that a field follows, what was to come out of the finder is some bytes, perhaps a
  -- newline, the boundary with two more bytes, and what comes out now. If it answers that none follows,
  -- the finder is at its end. Its errors are those of `body_chunk`: it never finds that a boundary it has
  -- located is too short.
  pub consume_boundary-ConsumeSpec :
      (boundary : Bytes) (f : Finder E)
      → Inv boundary f
      → ConsumeSpec boundary f (consume_boundary f)
  unfolding consume_boundary
  consume_boundary-ConsumeSpec boundary f inv =
      consume_loop-ConsumeSpec (consume_fuel f) boundary f inv (omega (arith, rank_le f.state))
