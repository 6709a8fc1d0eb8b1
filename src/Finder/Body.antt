-- ===== src/Finder/Body.antt =====
-- `body_chunk`, the whole loop.
use multipart_async.Base.{
  ℕ, zero, suc, ◌≤◌, ◌≡◌, ◌⊎◌, inl, inr, refl, ap, ◌∙◌, List, [], ◌++◌, Bytes, none, some, Outcome,
  value, panic, out_of_fuel, arith,
}
use multipart_async.Stream.{ready, pending, ok, err, Event, Error, PollOpt}
use multipart_async.Search.{Twoway}
use multipart_async.Finder.{
  State, watching, partial, found, split, remainder, end, Finder, Round, return, again, round,
  round_in, after_round, body_loop, body_chunk,
}
use multipart_async.Finder.Spec.{
  total, Gap, AtEnd, rank, supply, Kept, Inv, Returned, RoundSpec, BodySpec,
}
use multipart_async.Finder.Rounds.{round-RoundSpec}

pub Gap-cases : (s : State) (gap : Bytes) → Gap s gap → (gap ≡ []) ⊎ AtEnd s
Gap-cases (found bnd) gap h = inr tt
Gap-cases (split first second) gap h = inr tt
Gap-cases watching gap h = inl h
Gap-cases (partial p res) gap h = inl h
Gap-cases (remainder rem) gap h = inl h
Gap-cases end gap h = inl h

rank_pos : (s : State) → 1 ≤ rank s
rank_pos watching = omega arith
rank_pos (remainder rem) = omega arith
rank_pos _ = omega arith

pub rank_le : (s : State) → rank s ≤ 3
rank_le watching = omega arith
rank_le (remainder rem) = omega arith
rank_le _ = omega arith

module _ ⦃tw : Twoway⦄ {E : Type 0} where
  AtEnd-in :
      (s : State) (fuel : ℕ) (events : List (Event E)) (boundary : Bytes)
      → AtEnd s
      → let f : Finder E = record { stream = events; state = s; boundary = boundary } in
        body_loop (suc fuel) f ≡ value (ready none, f)
  unfolding body_loop round_in
  AtEnd-in (found bnd) fuel events boundary h = refl
  AtEnd-in (split first second) fuel events boundary h = refl
  AtEnd-in end fuel events boundary h = refl
  AtEnd-in watching fuel events boundary h = absurd h
  AtEnd-in (partial p res) fuel events boundary h = absurd h
  AtEnd-in (remainder rem) fuel events boundary h = absurd h

  pub body_loop-AtEnd :
      (fuel : ℕ) (f : Finder E) → AtEnd f.state → body_loop (suc fuel) f ≡ value (ready none, f)
  body_loop-AtEnd fuel f h = AtEnd-in f.state fuel f.stream f.boundary h

  -- `f` did a round without loss, and then `g` returned.
  Kept-before : (f g h : Finder E) (c : Bytes) → total f ≡ total g → Kept g c h → Kept f c h
  Kept-before f g h c e k = record {
    gap = k.gap;
    only_newline = k.only_newline;
    bytes = e ∙ k.bytes;
  }

  Returned-before :
      (boundary : Bytes) (f g : Finder E) (polled : PollOpt Bytes (Error E)) (h : Finder E)
      → total f ≡ total g
      → supply g ≤ supply f
      → Returned boundary g polled h
      → Returned boundary f polled h
  Returned-before boundary f g pending h e le (k, less) =
      (Kept-before f g h [] e k, omega (arith, less, le))
  Returned-before boundary f g (ready none) h e le (k, at_end) = (Kept-before f g h [] e k, at_end)
  Returned-before boundary f g (ready (some (ok c))) h e le (k, less) =
      (Kept-before f g h c e k, omega (arith, less, le))
  Returned-before boundary f g (ready (some (err x))) h e le r = r

  BodySpec-before :
      (boundary : Bytes) (f g : Finder E) (r : Outcome (PollOpt Bytes (Error E) × Finder E))
      → total f ≡ total g
      → supply g ≤ supply f
      → BodySpec boundary g r
      → BodySpec boundary f r
  BodySpec-before boundary f g (value (polled, h)) e le (inv, r) =
      (inv, Returned-before boundary f g polled h e le r)
  BodySpec-before boundary f g (panic p) e le r = r
  BodySpec-before boundary f g out_of_fuel e le r = r

  after_round-BodySpec :
      (boundary : Bytes) (f : Finder E) (fuel : ℕ) (r : Outcome (Round E))
      → RoundSpec boundary f r
      → rank f.state ≤ suc fuel
      → ((g : Finder E)
          → Inv boundary g
          → rank g.state ≤ fuel
          → BodySpec boundary g (body_loop fuel g))
      → BodySpec boundary f (after_round (body_loop fuel) r)
  unfolding after_round
  after_round-BodySpec boundary f fuel (value (return polled g)) h le ih = h
  after_round-BodySpec boundary f zero (value (again g)) (inv, k, lower, less) le ih =
      absurd (omega (arith, rank_pos g.state, lower, le))
  after_round-BodySpec boundary f (suc fuel) (value (again g)) (inv, k, lower, less) le ih =
      elim (Gap-cases g.state k.gap k.only_newline) [
        | inl no_gap ↦
            BodySpec-before boundary f g _ (k.bytes ∙ ap (λ x. x ++ total g) no_gap) less
              (ih g inv (omega (arith, lower, le)))
        | inr at_end ↦ rw (body_loop-AtEnd fuel g at_end) (inv, (k, at_end))
      ]
  after_round-BodySpec boundary f fuel (panic p) h le ih = absurd h
  after_round-BodySpec boundary f fuel out_of_fuel h le ih = absurd h

  body_loop-BodySpec :
      (fuel : ℕ) (boundary : Bytes) (f : Finder E)
      → Inv boundary f
      → rank f.state ≤ fuel
      → BodySpec boundary f (body_loop fuel f)
  unfolding body_loop
  body_loop-BodySpec zero boundary f inv le = absurd (omega (arith, rank_pos f.state, le))
  body_loop-BodySpec (suc fuel) boundary f inv le =
      after_round-BodySpec boundary f fuel (round f) (round-RoundSpec boundary f inv) le
        (λ g. body_loop-BodySpec fuel boundary g)

  -- From any finder that is in order (its boundary begins with neither CR nor LF, and its state is one
  -- that the methods make), `body_chunk` neither panics nor runs out of its four rounds. Whatever it
  -- returns, it leaves the finder in order. Unless that is an error, what it returns and what it keeps
  -- are all the bytes that were to come, in their order, less at most the newline in front of a boundary,
  -- and it ends only in a state where a field ends. Each chunk that it returns, and each pause, lowers the
  -- number of those that may follow, and an error is the stream's or one of a boundary that is cut short.
  pub body_chunk-BodySpec :
      (boundary : Bytes) (f : Finder E) → Inv boundary f → BodySpec boundary f (body_chunk f)
  unfolding body_chunk
  body_chunk-BodySpec boundary f inv =
      body_loop-BodySpec 4 boundary f inv (omega (arith, rank_le f.state))

  -- Once a field has ended, `body_chunk` says so at every call, and neither polls the stream nor changes
  -- the state.
  pub body_chunk-AtEnd : (f : Finder E) → AtEnd f.state → body_chunk f ≡ value (ready none, f)
  unfolding body_chunk
  body_chunk-AtEnd f h = body_loop-AtEnd 3 f h
