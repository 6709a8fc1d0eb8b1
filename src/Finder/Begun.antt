-- ===== src/Finder/Begun.antt =====
-- The finder in `fuzz_boundary_finder_field` of src/fuzzing.rs, while it reads the delimiter in front of the
-- data, and at the one behind it.
use multipart_async.Base.{
  ℕ, zero, suc, ◌*◌, ◌+◌, ◌≡◌, refl, sym, ap, ◌∙◌, subst, true, false, List, [], ◌∷◌, ◌++◌, Bytes,
  none, some, Outcome, value, panic, out_of_fuel, arith, length, Bool,
}
use multipart_async.Stream.{
  Event, not_ready, chunk, failed, Poll, ready, pending, Result, ok, err, Error, PollOpt,
}
use multipart_async.Chunk.{split_into-value}
use multipart_async.Search.{
  Twoway, starts_with, boundary_size, boundary_start, zip_all_eq, check_boundary_split,
  is_boundary_prefix, check_last_two, ends_with, bytes_eq,
}
use multipart_async.Search.Cases.{at_boundary}
use multipart_async.Finder.{
  State, watching, partial, found, split, remainder, end, Finder, Round, return, again, set_state,
  poll_watching, second_chunk, poll_partial, round_in, round, after_round, body_loop, body_chunk,
  consume_boundary, consume_loop, after_body, confirm_in,
}
use multipart_async.Finder.Spec.{AtEnd, IsWhole}
use multipart_async.Finder.Body.{body_chunk-AtEnd}
use multipart_async.Finder.Confirm.{confirm_boundary_split-eq}
use multipart_async.Finder.Given.{Data, with_end, Fed, cut_short, chunk_inj, over}
use multipart_async.TestUtil.{test_boundary, items}
use multipart_async.Fuzzing.Pieces.{start1, start2, end1_rest, end2, find_boundary-start1}

consume_boundary-eq :
    ⦃tw : Twoway⦄ {E : Type 0} (f : Finder E)
    → consume_boundary f ≡ after_body (consume_loop (2 * length f.stream + 1)) (body_chunk f)
unfolding consume_boundary consume_loop
consume_boundary-eq f =
    let n = length f.stream in
    let more : 2 * n + 2 ≡ suc (2 * n + 1) = omega arith in ap (λ fuel. consume_loop fuel f) more

start-IsWhole : IsWhole test_boundary (start1 ++ start2)
unfolding starts_with
start-IsWhole = record { starts = refl; long = omega arith }

end-IsWhole : IsWhole test_boundary (end1_rest ++ end2)
unfolding starts_with
end-IsWhole = record { starts = refl; long = omega arith }

module _ ⦃tw : Twoway⦄ {E : Type 0} (ds : List Bytes) where
  -- The state and the stream hold the starting delimiter, the data and the end.
  abbrev Begins : State → List (Event E) → Type 0
  Begins watching events = items events ≡ chunk start1 ∷ chunk start2 ∷ with_end ds
  Begins (partial p res) events =
      (p ≡ start1) × (res ≡ at_boundary 0) × (items events ≡ chunk start2 ∷ with_end ds)
  Begins _ events = ⊥

  pub record Begun (f : Finder E) : Type 0 where
    pub same_boundary : f.boundary ≡ test_boundary
    pub begins : Begins f.state f.stream

  -- what `body_chunk` may return in front of the data
  abbrev Start : PollOpt Bytes (Error E) → Finder E → Type 0
  Start pending g = Begun g
  Start (ready none) g =
      (g.boundary ≡ test_boundary)
      × (g.state ≡ split start1 start2)
      × (items g.stream ≡ with_end ds)
  Start (ready (some (ok c))) g = ⊥
  Start (ready (some (err e))) g = Unit

  abbrev StartRound : Outcome (Round E) → Type 0
  StartRound (value (return polled g)) = Start polled g
  StartRound (value (again g)) = Begun g
  StartRound _ = Unit

  first-Start :
      (events : List (Event E))
      → items events ≡ chunk start2 ∷ with_end ds
      → StartRound (poll_watching (over events) (ready (some (ok start1))))
  unfolding poll_watching boundary_size
  first-Start events e =
      subst StartRound (sym (cut_short (over events) start1 refl find_boundary-start1 refl))
        (record { same_boundary = refl; begins = (refl, refl, e) })

  watching-Start :
      (events : List (Event E))
      → Begins watching events
      → StartRound (round_in watching (over events))
  unfolding round_in poll_watching
  watching-Start [] e = ground arith
  watching-Start (not_ready ∷ events) e = record { same_boundary = refl; begins = e }
  watching-Start (chunk c ∷ events) e =
      let (is_start, rest) = chunk_inj e in
      subst (λ c'. StartRound (poll_watching (over events) (ready (some (ok c'))))) (sym is_start)
        (first-Start events rest)
  watching-Start (failed x ∷ events) e = tt

  start-Start :
      (events : List (Event E))
      → items events ≡ with_end ds
      → StartRound (second_chunk (over events) start1 (at_boundary 0) start2)
  unfolding second_chunk is_boundary_prefix zip_all_eq boundary_size boundary_start
      check_boundary_split
  start-Start events e = rw (split_into-value start1 0 (omega arith)) (refl, refl, e)

  partial-Start :
      (events : List (Event E))
      → items events ≡ chunk start2 ∷ with_end ds
      → StartRound (round_in (partial start1 (at_boundary 0)) (over events))
  unfolding round_in poll_partial
  partial-Start [] e = tt
  partial-Start (not_ready ∷ events) e = record { same_boundary = refl; begins = (refl, refl, e) }
  partial-Start (chunk c ∷ events) e =
      let (is_start, rest) = chunk_inj e in rw is_start (start-Start events rest)
  partial-Start (failed x ∷ events) e = tt

  round_in-Start :
      (s : State) (events : List (Event E))
      → Begins s events
      → StartRound (round_in s (over events))
  round_in-Start watching events h = watching-Start events h
  round_in-Start (partial p res) events (e, e', h) = rw (e, e') (partial-Start events h)
  round_in-Start (remainder rem) events h = absurd h
  round_in-Start (found bnd) events h = absurd h
  round_in-Start (split first second) events h = absurd h
  round_in-Start end events h = absurd h

  round-Start : (f : Finder E) → Begun f → StartRound (round f)
  unfolding round
  round-Start f begun =
      subst
        (λ b.
          StartRound
            (round_in f.state (record { stream = f.stream; state = watching; boundary = b })))
        (sym begun.same_boundary) (round_in-Start f.state f.stream begun.begins)

  abbrev StartSpec : Outcome (PollOpt Bytes (Error E) × Finder E) → Type 0
  StartSpec (value (polled, g)) = Start polled g
  StartSpec _ = Unit

  after_round-Start :
      (fuel : ℕ) (r : Outcome (Round E))
      → StartRound r
      → ((g : Finder E) → Begun g → StartSpec (body_loop fuel g))
      → StartSpec (after_round (body_loop fuel) r)
  unfolding after_round
  after_round-Start fuel (value (return polled g)) h ih = h
  after_round-Start fuel (value (again g)) h ih = ih g h
  after_round-Start fuel (panic p) h ih = tt
  after_round-Start fuel out_of_fuel h ih = tt

  body_loop-Start : (fuel : ℕ) (f : Finder E) → Begun f → StartSpec (body_loop fuel f)
  unfolding body_loop
  body_loop-Start zero f begun = tt
  body_loop-Start (suc fuel) f begun =
      after_round-Start fuel (round f) (round-Start f begun) (body_loop-Start fuel)

  body_chunk-Start : (f : Finder E) → Begun f → StartSpec (body_chunk f)
  unfolding body_chunk
  body_chunk-Start = body_loop-Start 4

  -- what `consume_boundary` may return in front of the data
  abbrev pub StartConsumed : Outcome (Poll (Result Bool (Error E)) × Finder E) → Type 0
  StartConsumed (value (pending, g)) = Begun g
  StartConsumed (value (ready (ok true), g)) = Fed ds g
  StartConsumed (value (ready (ok false), g)) = ⊥
  StartConsumed (value (ready (err e), g)) = Unit
  StartConsumed _ = Unit

  confirm-start :
      (events : List (Event E))
      → Data ds
      → items events ≡ with_end ds
      → StartConsumed (confirm_in (split start1 start2) (over events))
  unfolding confirm_in check_last_two ends_with bytes_eq
  confirm-start events good e =
      subst StartConsumed
        (sym (
          confirm_boundary_split-eq (over events) start1 start2 (omega arith, omega arith)
            (omega arith) start-IsWhole))
        (record { same_boundary = refl; good_data = good; holds = e })

  after_body-Start :
      (loop : Finder E → Outcome (Poll (Result Bool (Error E)) × Finder E))
      (r : Outcome (PollOpt Bytes (Error E) × Finder E))
      → Data ds
      → StartSpec r
      → StartConsumed (after_body loop r)
  unfolding after_body
  after_body-Start loop (value (pending, g)) good h = h
  after_body-Start loop (value (ready none, g)) good (same, at_split, e) = rw at_split (
      subst
        (λ b. StartConsumed (
          confirm_in (split start1 start2)
            (record { stream = g.stream; state = watching; boundary = b })))
        (sym same) (confirm-start g.stream good e))
  after_body-Start loop (value (ready (some (ok c)), g)) good h = absurd h
  after_body-Start loop (value (ready (some (err e)), g)) good h = tt
  after_body-Start loop (panic p) good h = tt
  after_body-Start loop out_of_fuel good h = tt

  pub consume_boundary-Start :
      (f : Finder E) → Data ds → Begun f → StartConsumed (consume_boundary f)
  unfolding consume_boundary
  consume_boundary-Start f good begun = subst StartConsumed (sym (consume_boundary-eq f)) (
      after_body-Start (consume_loop (2 * length f.stream + 1)) (body_chunk f) good
        (body_chunk-Start f begun))

module _ ⦃tw : Twoway⦄ {E : Type 0} where
  confirm-end :
      (boundary : Bytes) (events : List (Event E))
      → boundary ≡ test_boundary
      → let f : Finder E = record { stream = events; state = watching; boundary = boundary } in
        confirm_in (split end1_rest end2) f ≡ value (ready (ok false), set_state f end)
  unfolding confirm_in check_last_two ends_with bytes_eq
  confirm-end boundary events same = rw same (
      confirm_boundary_split-eq (over events) end1_rest end2 (omega arith, omega arith)
        (omega arith) end-IsWhole)

  pub consume_boundary-end :
      (f : Finder E)
      → f.boundary ≡ test_boundary
      → f.state ≡ split end1_rest end2
      → consume_boundary f ≡ value (ready (ok false), set_state f end)
  unfolding consume_boundary
  consume_boundary-end f same at_split =
      consume_boundary-eq f
      ∙ ap (after_body (consume_loop (2 * length f.stream + 1)))
          (body_chunk-AtEnd f (subst AtEnd (sym at_split) tt))
      ∙ rw at_split (confirm-end f.boundary f.stream same)
