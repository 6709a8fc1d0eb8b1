-- ===== src/Finder/Pauses.antt =====
-- A round of `body_chunk` over a stream without its pauses.
use multipart_async.Base.{
  ◌≡◌, refl, ap, ◌∙◌, not, List, [], ◌∷◌, Bytes, length, is_empty, ◌-◌, Option, none, some, Outcome,
  value, panic, out_of_fuel, ◌>>=◌, if◌then◌else◌, ltb,
}
use multipart_async.Stream.{ready, pending, ok, Event, not_ready, chunk, failed}
use multipart_async.Search.{
  Twoway, SearchResult, find_boundary, boundary_size, boundary_start, is_boundary_prefix,
}
use multipart_async.Finder.{
  State, watching, partial, found, split, remainder, end, Finder, set_state, Round, return, again,
  is_boundary, cut_boundary, check_found, check_chunk, return_checked, poll_watching, poll_partial,
  confirm_second, second_chunk, round_in, round,
}
use multipart_async.Finder.Skip.{
  skip, skip_checked, skip_round, if-skip_checked, Answers, bind-Answers, if-Answers,
  check_found-skip, second_chunk-skip,
}

module _ ⦃tw : Twoway⦄ {E : Type 0} where
  check_chunk-skip :
      (f : Finder E) (c : Bytes) → check_chunk (skip f) c ≡ skip_checked (check_chunk f c)
  unfolding check_chunk skip_checked
  check_chunk-skip f c =
      if-skip_checked (is_empty c) _ _ refl (by_search (find_boundary f.boundary c))
    where
      by_search :
          (o : Option SearchResult)
          → (elim o [ some res ↦ check_found (skip f) c res | none ↦ value (some c, skip f) ])
            ≡ skip_checked (elim o [ some res ↦ check_found f c res | none ↦ value (some c, f) ])
      by_search none = refl
      by_search (some res) = check_found-skip f c res

  after_check-skip :
      (r : Outcome (Option Bytes × Finder E))
      → (skip_checked r >>= λ (ret, f').
          value (elim ret [ some c ↦ return (ready (some (ok c))) f' | none ↦ again f' ]))
        ≡ skip_round (
            r >>= λ (ret, f').
            value (elim ret [ some c ↦ return (ready (some (ok c))) f' | none ↦ again f' ]))
  unfolding skip_checked skip_round
  after_check-skip (value (some c, f)) = refl
  after_check-skip (value (none, f)) = refl
  after_check-skip (panic p) = refl
  after_check-skip out_of_fuel = refl

  return_checked-skip :
      (f : Finder E) (c : Bytes) → return_checked (skip f) c ≡ skip_round (return_checked f c)
  unfolding return_checked
  return_checked-skip f c =
      ap
        (λ r. r >>= λ (ret, f').
          value (elim ret [ some c ↦ return (ready (some (ok c))) f' | none ↦ again f' ]))
        (check_chunk-skip f c)
      ∙ after_check-skip (check_chunk f c)

  -- What a round does without the pauses: the same, or it is the pause that is gone.
  abbrev pub RoundSkips : Finder E → Outcome (Round E) → Type 0
  RoundSkips f (value (return pending g)) = skip f ≡ skip g
  RoundSkips f (value (return (ready a) g)) = round (skip f) ≡ value (return (ready a) (skip g))
  RoundSkips f (value (again g)) = round (skip f) ≡ value (again (skip g))
  RoundSkips f (panic p) = Unit
  RoundSkips f out_of_fuel = Unit

  skip_round-RoundSkips :
      (f : Finder E) (r : Outcome (Round E))
      → Answers r
      → round (skip f) ≡ skip_round r
      → RoundSkips f r
  unfolding skip_round
  skip_round-RoundSkips f (value (return pending g)) answers e = absurd answers
  skip_round-RoundSkips f (value (return (ready a) g)) answers e = e
  skip_round-RoundSkips f (value (again g)) answers e = e
  skip_round-RoundSkips f (panic p) answers e = tt
  skip_round-RoundSkips f out_of_fuel answers e = tt

  return_checked-Answers : (f : Finder E) (c : Bytes) → Answers (return_checked f c)
  unfolding return_checked
  return_checked-Answers f c = bind-Answers (check_chunk f c) _ (λ (ret, f'). by_ret ret f')
    where
      by_ret :
          (ret : Option Bytes) (f' : Finder E)
          → Answers
              (value (elim ret [ some c ↦ return (ready (some (ok c))) f' | none ↦ again f' ]))
      by_ret none f' = tt
      by_ret (some c) f' = tt

  second_chunk-Answers :
      (f : Finder E) (first : Bytes) (res : SearchResult) (second : Bytes)
      → Answers (second_chunk f first res second)
  unfolding second_chunk confirm_second
  second_chunk-Answers f first res second =
      let needed_len = boundary_size f.boundary res.incl_crlf - length first in
      if-Answers (not (is_boundary_prefix f.boundary first second res)) _ _ tt (
        if-Answers (ltb (length second) needed_len) _ _ tt (
          bind-Answers (is_boundary f.boundary first second (boundary_start res)) _ (λ confirmed.
            if-Answers (not confirmed) _ _ tt (
              bind-Answers (cut_boundary first second res (boundary_start res)) _
                (λ (ret, s). cut_answer ret (set_state f s))))))
    where
      cut_answer :
          (ret : Bytes) (g : Finder E)
          → Answers (value (return (if is_empty ret then ready none else ready (some (ok ret))) g))
      cut_answer [] g = tt
      cut_answer (x ∷ ret) g = tt

  round_in-Skips :
      (s : State) (events : List (Event E)) (boundary : Bytes)
      → let f : Finder E = record { stream = events; state = s; boundary = boundary } in
        RoundSkips f (round f)
  unfolding round round_in poll_watching poll_partial
  round_in-Skips watching [] boundary = refl
  round_in-Skips watching (not_ready ∷ events) boundary = refl
  round_in-Skips watching (failed e ∷ events) boundary = refl
  round_in-Skips watching (chunk [] ∷ events) boundary = refl
  round_in-Skips watching (chunk (x ∷ xs) ∷ events) boundary =
      let f : Finder E = record { stream = events; state = watching; boundary = boundary } in
      let g : Finder E = record {
        stream = chunk (x ∷ xs) ∷ events;
        state = watching;
        boundary = boundary;
      } in
      skip_round-RoundSkips g _ (return_checked-Answers f (x ∷ xs)) (return_checked-skip f (x ∷ xs))
  round_in-Skips (remainder rem) events boundary =
      let f : Finder E = record { stream = events; state = watching; boundary = boundary } in
      let g : Finder E = record { stream = events; state = remainder rem; boundary = boundary } in
      skip_round-RoundSkips g _ (return_checked-Answers f rem) (return_checked-skip f rem)
  round_in-Skips (partial first res) [] boundary = refl
  round_in-Skips (partial first res) (not_ready ∷ events) boundary = refl
  round_in-Skips (partial first res) (failed e ∷ events) boundary = refl
  round_in-Skips (partial first res) (chunk second ∷ events) boundary =
      let f : Finder E = record { stream = events; state = watching; boundary = boundary } in
      let g : Finder E = record {
        stream = chunk second ∷ events;
        state = partial first res;
        boundary = boundary;
      } in
      skip_round-RoundSkips g _ (second_chunk-Answers f first res second)
        (second_chunk-skip f first res second)
  round_in-Skips (found bnd) events boundary = refl
  round_in-Skips (split first second) events boundary = refl
  round_in-Skips end events boundary = refl

  pub round-RoundSkips : (f : Finder E) → RoundSkips f (round f)
  round-RoundSkips f = round_in-Skips f.state f.stream f.boundary
