-- ===== src/Finder/Rounds.antt =====
-- One round of the loop in `body_chunk`.
use multipart_async.Base.{
  ◌+◌, ◌*◌, ◌≤◌, ◌<◌, ◌≡◌, inl, refl, sym, ap, ◌∙◌, false, List, [], ◌∷◌, ◌++◌, Bytes, length,
  is_empty, Option, none, some, Outcome, value, panic, out_of_fuel, arith, append_assoc, subst,
  ◌>>=◌, length-append,
}
use multipart_async.Stream.{Event, not_ready, chunk, failed}
use multipart_async.Search.{Twoway, SearchResult, boundary_size}
use multipart_async.Search.Zero.{IsBoundary}
use multipart_async.Finder.{
  State, watching, partial, found, split, remainder, end, Finder, Round, return, again, some_ok,
  check_chunk, return_checked, poll_watching, poll_partial, round_in, round,
}
use multipart_async.Finder.Spec.{
  payload, held, total, Gap, rank, supply, Kept, StateInv, Inv, RoundSpec,
}
use multipart_async.Finder.Checked.{Checked, CheckSpec, yielded, check_chunk-CheckSpec}
use multipart_async.Finder.Second.{
  confirmed_state, confirmed-IsWhole, confirmed-AtEnd, confirmed-StateInv, newline_of,
  newline_of-cases, Second, no_boundary, too_short, confirmed, second_chunk-Second,
}

module _ ⦃tw : Twoway⦄ {E : Type 0} (g : Finder E) where
  -- What was to come out of `g` is the chunk `c` and what `f` has still to read.
  record Drawn (f : Finder E) (c : Bytes) : Type 0 where
    same_boundary : f.boundary ≡ g.boundary
    is_watching : f.state ≡ watching
    bytes : total g ≡ c ++ payload f.stream
    fewer : 2 * length f.stream < supply g
    lower : (s : State) → rank s ≤ 2 → (is_empty c ≡ false → rank s ≤ 1) → rank s < rank g.state

  abbrev after_check : Outcome (Option Bytes × Finder E) → Outcome (Round E)
  after_check r =
      r >>= λ (ret, f'). value (elim ret [ some c ↦ return (some_ok c) f' | none ↦ again f' ])

  Checked-Kept :
      {f f' : Finder E} {c : Bytes} {ret : Option Bytes}
      → Drawn f c
      → Checked g.boundary f c ret f'
      → Kept g (yielded ret) f'
  Checked-Kept {f} {f'} {c} {ret} d k = record {
    gap = k.gap;
    only_newline = k.only_newline;
    bytes =
        d.bytes ∙ ap (λ x. x ++ payload f.stream) k.bytes ∙ rw k.same_stream (simp append_assoc);
  }

  after_check-RoundSpec :
      (f : Finder E) (c : Bytes) (r : Outcome (Option Bytes × Finder E))
      → Drawn f c
      → CheckSpec g.boundary f c r
      → RoundSpec g.boundary g (after_check r)
  after_check-RoundSpec f c (value (some y, f')) d k =
      (k.inv, (Checked-Kept d k, omega (arith, k.no_remainder, d.fewer, ap length k.same_stream)))
  after_check-RoundSpec f c (value (none, f')) d k = (
    k.inv,
    Checked-Kept d k,
    d.lower f'.state k.no_remainder (λ some_byte. k.settled some_byte refl),
    omega (arith, k.no_remainder, d.fewer, ap length k.same_stream),
  )
  after_check-RoundSpec f c (panic p) d k = absurd k
  after_check-RoundSpec f c out_of_fuel d k = absurd k

  return_checked-RoundSpec :
      (f : Finder E) (c : Bytes)
      → IsBoundary g.boundary
      → Drawn f c
      → RoundSpec g.boundary g (return_checked f c)
  unfolding return_checked
  return_checked-RoundSpec f c good d =
      let check = check_chunk-CheckSpec f c (rw d.same_boundary good) d.is_watching in
      after_check-RoundSpec f c (check_chunk f c) d
        (subst (λ b. CheckSpec b f c (check_chunk f c)) d.same_boundary check)

  -- A finder that is left in a state that holds what was to come out of `g`.
  unread-Kept :
      (f' : Finder E) (c : Bytes) → Gap f'.state [] → total g ≡ c ++ total f' → Kept g c f'
  unread-Kept f' c only e = record { gap = []; only_newline = only; bytes = e }

module _ ⦃tw : Twoway⦄ {E : Type 0} where
  -- the arm `Watching`
  watching-RoundSpec :
      (events : List (Event E)) (boundary : Bytes)
      → IsBoundary boundary
      → let g : Finder E = record { stream = events; state = watching; boundary = boundary } in
        RoundSpec boundary g (round g)
  unfolding round round_in poll_watching
  watching-RoundSpec [] boundary good = (
    record { same_boundary = refl; good_boundary = good; good_state = tt },
    (record { gap = []; only_newline = refl; bytes = refl }, tt),
  )
  watching-RoundSpec (not_ready ∷ events) boundary good = (
    record { same_boundary = refl; good_boundary = good; good_state = tt },
    (record { gap = []; only_newline = refl; bytes = refl }, omega arith),
  )
  watching-RoundSpec (failed e ∷ events) boundary good =
      (record { same_boundary = refl; good_boundary = good; good_state = tt }, tt)
  watching-RoundSpec (chunk [] ∷ events) boundary good = (
    record { same_boundary = refl; good_boundary = good; good_state = tt },
    (record { gap = []; only_newline = refl; bytes = refl }, omega arith),
  )
  watching-RoundSpec (chunk (x ∷ xs) ∷ events) boundary good =
      let g : Finder E = record {
        stream = chunk (x ∷ xs) ∷ events;
        state = watching;
        boundary = boundary;
      } in
      return_checked-RoundSpec g (record { stream = events; state = watching; boundary = boundary })
        (x ∷ xs) good
        (record {
          same_boundary = refl;
          is_watching = refl;
          bytes = refl;
          fewer = omega arith;
          lower = λ s le settled. omega (arith, settled refl);
        })

  -- the arm `Remainder`
  remainder-RoundSpec :
      (rem : Bytes) (events : List (Event E)) (boundary : Bytes)
      → IsBoundary boundary
      → let g : Finder E = record { stream = events; state = remainder rem; boundary = boundary } in
        RoundSpec boundary g (round g)
  unfolding round round_in
  remainder-RoundSpec rem events boundary good =
      let g : Finder E = record { stream = events; state = remainder rem; boundary = boundary } in
      return_checked-RoundSpec g (record { stream = events; state = watching; boundary = boundary })
        rem good
        (record {
          same_boundary = refl;
          is_watching = refl;
          bytes = refl;
          fewer = omega arith;
          lower = λ s le settled. omega arith;
        })

  -- the arm `Partial`
  Second-RoundSpec :
      (events : List (Event E)) (boundary first : Bytes) (res : SearchResult) (second : Bytes)
      (r : Outcome (Round E))
      → IsBoundary boundary
      → length first < res.idx + boundary_size boundary res.incl_crlf
      → Second
          (record { stream = events; state = watching; boundary = boundary })
          first
          res
          second
          r
      → let g : Finder E = record {
        stream = chunk second ∷ events;
        state = partial first res;
        boundary = boundary;
      } in
        RoundSpec boundary g r
  Second-RoundSpec events boundary first res second r good lt no_boundary = (
    record { same_boundary = refl; good_boundary = good; good_state = tt },
    (record { gap = []; only_newline = refl; bytes = refl }, omega arith),
  )
  Second-RoundSpec events boundary first res second r good lt (too_short n less) =
      (record { same_boundary = refl; good_boundary = good; good_state = tt }, less)
  Second-RoundSpec events boundary first res second r good lt (confirmed at_zero agrees room) =
      let size : boundary_size boundary res.incl_crlf ≤ length (first ++ second) =
        omega (arith, room, length-append first second) in
      let (whole, bytes) = confirmed-IsWhole boundary first second res.incl_crlf agrees size in
      let s = confirmed_state first second res.incl_crlf in
      let (at_end, newline, _) =
        confirmed-AtEnd first second res.incl_crlf (newline_of res.incl_crlf)
          (newline_of-cases res.incl_crlf) in
      (
        record {
          same_boundary = refl;
          good_boundary = good;
          good_state =
              confirmed-StateInv boundary first second res.incl_crlf (omega (arith, lt, at_zero))
                whole;
        },
        (
          record {
            gap = newline_of res.incl_crlf;
            only_newline = newline;
            bytes =
                sym (append_assoc first second (payload events))
                ∙ ap (λ x. x ++ payload events) bytes
                ∙ append_assoc (newline_of res.incl_crlf) (held s) (payload events);
          },
          at_end,
        ),
      )

  partial-RoundSpec :
      (events : List (Event E)) (boundary first : Bytes) (res : SearchResult)
      → IsBoundary boundary
      → StateInv boundary (partial first res)
      → let g : Finder E = record {
        stream = events;
        state = partial first res;
        boundary = boundary;
      } in
        RoundSpec boundary g (round g)
  unfolding round round_in poll_partial
  partial-RoundSpec [] boundary first res good (e, lt) =
      (record { same_boundary = refl; good_boundary = good; good_state = tt }, tt)
  partial-RoundSpec (not_ready ∷ events) boundary first res good (e, lt) = (
    record { same_boundary = refl; good_boundary = good; good_state = (e, lt) },
    (record { gap = []; only_newline = refl; bytes = refl }, omega arith),
  )
  partial-RoundSpec (failed x ∷ events) boundary first res good (e, lt) =
      (record { same_boundary = refl; good_boundary = good; good_state = tt }, tt)
  partial-RoundSpec (chunk second ∷ events) boundary first res good (e, lt) =
      Second-RoundSpec events boundary first res second _ good lt (
        second_chunk-Second (record { stream = events; state = watching; boundary = boundary })
          first res second good e)

  by_state :
      (s : State) (events : List (Event E)) (boundary : Bytes)
      → IsBoundary boundary
      → StateInv boundary s
      → let g : Finder E = record { stream = events; state = s; boundary = boundary } in
        RoundSpec boundary g (round g)
  by_state watching events boundary good _ = watching-RoundSpec events boundary good
  by_state (remainder rem) events boundary good _ = remainder-RoundSpec rem events boundary good
  by_state (partial first res) events boundary good inv =
      partial-RoundSpec events boundary first res good inv
  by_state (found bnd) events boundary good inv =
      unfold round round_in in
      (
        record { same_boundary = refl; good_boundary = good; good_state = inv },
        (record { gap = []; only_newline = inl refl; bytes = refl }, tt),
      )
  by_state (split first second) events boundary good inv =
      unfold round round_in in
      (
        record { same_boundary = refl; good_boundary = good; good_state = inv },
        (record { gap = []; only_newline = inl refl; bytes = refl }, tt),
      )
  by_state end events boundary good _ =
      unfold round round_in in
      (
        record { same_boundary = refl; good_boundary = good; good_state = tt },
        (record { gap = []; only_newline = refl; bytes = refl }, tt),
      )

  -- One round from a finder that is in order.
  pub round-RoundSpec :
      (boundary : Bytes) (f : Finder E) → Inv boundary f → RoundSpec boundary f (round f)
  round-RoundSpec boundary f inv =
      subst (λ b. RoundSpec b f (round f)) inv.same_boundary
        (by_state f.state f.stream f.boundary (rw inv.same_boundary inv.good_boundary)
          (rw inv.same_boundary inv.good_state))
