-- ===== src/Finder/Given.antt =====
-- The chunks that `fuzz_boundary_finder_field` of src/fuzzing.rs gives to a finder: those of its data, and
-- those of the end.
use multipart_async.Base.{
  ◌+◌, ◌-◌, ◌≤◌, ◌≡◌, refl, sym, ap, subst, true, false, List, [], ◌∷◌, ◌++◌, Bytes, length,
  is_empty, none, some, arith, Option-cases, Bool-cases, inl, inr, ltb, Outcome, value,
}
use multipart_async.Stream.{Event, chunk, ready, pending, ok, err, Error, PollOpt}
use multipart_async.Search.{
  Twoway, SearchResult, boundary_size, boundary_start, zip_all_eq, check_boundary_split,
  is_boundary_prefix, find_boundary,
}
use multipart_async.Search.Cases.{at_newline}
use multipart_async.Chunk.{split_into-value}
use multipart_async.Finder.{
  State, watching, partial, split, remainder, Finder, Round, return, again, check_chunk,
  check_found, return_checked, set_state, some_ok, second_chunk,
}
use multipart_async.TestUtil.{test_boundary, items, iter_ok}
use multipart_async.Fuzzing.Pieces.{
  end1, end2, end1_rest, joined, AllSmall, Without, Without-tail, end1_not_prefix,
  no_boundary_across, find_boundary-end1,
}

-- the chunks of the data, none empty and none of more than nine bytes, and without the boundary
abbrev pub Data : List Bytes → Type 0
Data ds = AllSmall ds × Without (joined ds)

pub Data-tail : (d : Bytes) (ds : List Bytes) → Data (d ∷ ds) → Data ds
Data-tail d ds ((small, smalls), without) = (smalls, Without-tail d (joined ds) without)

module _ {E : Type 0} where
  abbrev pub with_end : List Bytes → List (Event E)
  with_end ds = iter_ok (ds ++ (end1 ∷ end2 ∷ []))

  module _ ⦃tw : Twoway⦄ where
    -- The state and the stream hold `ds` and the end.
    abbrev pub Holds : State → List (Event E) → List Bytes → Type 0
    Holds watching events ds = items events ≡ with_end ds
    Holds (remainder []) events ds = items events ≡ with_end ds
    Holds (remainder (x ∷ r)) events ds = chunk (x ∷ r) ∷ items events ≡ with_end ds
    Holds (partial p res) events ds =
        (chunk p ∷ items events ≡ with_end ds) × (find_boundary test_boundary p ≡ some res)
    Holds _ events ds = ⊥

    pub record Fed (ds : List Bytes) (f : Finder E) : Type 0 where
      pub same_boundary : f.boundary ≡ test_boundary
      pub good_data : Data ds
      pub holds : Holds f.state f.stream ds

    -- what `body_chunk` may return while it reads the data
    abbrev pub Read : List Bytes → PollOpt Bytes (Error E) → Finder E → Type 0
    Read ds pending g = Fed ds g
    Read ds (ready none) g =
        (ds ≡ []) × (g.boundary ≡ test_boundary) × (g.state ≡ split end1_rest end2)
    Read ds (ready (some (ok c))) g = (ds' : List Bytes) × (ds ≡ c ∷ ds') × Fed ds' g
    Read ds (ready (some (err e))) g = Unit

    abbrev pub ReadRound : List Bytes → Outcome (Round E) → Type 0
    ReadRound ds (value (return polled g)) = Read ds polled g
    ReadRound ds (value (again g)) = Fed ds g
    ReadRound ds _ = Unit

    abbrev pub over : List (Event E) → Finder E
    over events = record { stream = events; state = watching; boundary = test_boundary }

    remainder-Fed :
        (ds : List Bytes) (rem : Bytes) (events : List (Event E))
        → is_empty rem ≡ false
        → Data ds
        → chunk rem ∷ items events ≡ with_end ds
        → Fed ds (record { stream = events; state = remainder rem; boundary = test_boundary })
    remainder-Fed ds [] events some_byte good e = cc
    remainder-Fed ds (x ∷ rem) events some_byte good e = record {
      same_boundary = refl;
      good_data = good;
      holds = e;
    }

    pub some_byte :
        (ds : List Bytes) (c : Bytes) (events : List (Event E))
        → Data ds
        → chunk c ∷ events ≡ with_end ds
        → is_empty c ≡ false
    unfolding iter_ok
    some_byte [] c events good e = ground arith
    some_byte (d ∷ ds) c events ((small, smalls), without) e = ground (arith, small)

    pub chunk_inj :
        {c d : Bytes} {xs ys : List (Event E)} → chunk c ∷ xs ≡ chunk d ∷ ys → (c ≡ d) × (xs ≡ ys)
    chunk_inj e = ground arith

    nothing_located :
        (f : Finder E) (c : Bytes)
        → is_empty c ≡ false
        → find_boundary f.boundary c ≡ none
        → return_checked f c ≡ value (return (some_ok c) f)
    unfolding return_checked check_chunk
    nothing_located f c full e = rw (full, e) refl

    pub cut_short :
        (f : Finder E) (c : Bytes) {res : SearchResult}
        → is_empty c ≡ false
        → find_boundary f.boundary c ≡ some res
        → ltb (length c) (res.idx + boundary_size f.boundary res.incl_crlf) ≡ true
        → return_checked f c ≡ value (again (set_state f (partial c res)))
    unfolding return_checked check_chunk check_found
    cut_short f c full e short = rw (full, e) (rw short refl)

    located-Read :
        (ds : List Bytes) (c : Bytes) (events : List (Event E)) (res : SearchResult)
        → Data ds
        → chunk c ∷ items events ≡ with_end ds
        → length c ≤ 9
        → find_boundary test_boundary c ≡ some res
        → ReadRound ds (return_checked (over events) c)
    located-Read ds c events res good e le located =
        subst (ReadRound ds)
          (sym (
            cut_short (over events) c (some_byte ds c (items events) good e) located
              (unfold boundary_size in ground arith)))
          (record { same_boundary = refl; good_data = good; holds = (e, located) })

    pub checked-Read :
        (ds : List Bytes) (c : Bytes) (events : List (Event E))
        → Data ds
        → chunk c ∷ items events ≡ with_end ds
        → ReadRound ds (return_checked (over events) c)
    unfolding iter_ok
    checked-Read [] c events good e =
        let (is_end, _) = chunk_inj e in
        located-Read [] c events (at_newline 0) good e (rw is_end (omega arith))
          (rw is_end find_boundary-end1)
    checked-Read (d ∷ ds) c events good e =
        let (is_data, rest) = chunk_inj e in
        let ((small, _), _) = good in
        elim (Option-cases (find_boundary test_boundary c)) [
          | inl absent ↦
              subst (ReadRound (d ∷ ds))
                (sym (
                  nothing_located (over events) c (some_byte (d ∷ ds) c (items events) good e)
                    absent))
                (
                  ds,
                  ap (λ x. x ∷ ds) (sym is_data),
                  record { same_boundary = refl; good_data = Data-tail d ds good; holds = rest },
                )
          | inr (res, located) ↦
              located-Read (d ∷ ds) c events res good e (rw is_data small.1) located
        ]

    not_followed :
        (f : Finder E) (p : Bytes) (res : SearchResult) (second : Bytes)
        → is_boundary_prefix f.boundary p second res ≡ false
        → second_chunk f p res second ≡ value (return (some_ok p) (set_state f (remainder second)))
    unfolding second_chunk
    not_followed f p res second e = rw e refl

    -- With too few bytes behind the first part of a boundary the answer is an error.
    second_short :
        (ds : List Bytes) (f : Finder E) (p : Bytes) (res : SearchResult) (second : Bytes)
        → is_boundary_prefix f.boundary p second res ≡ true
        → ltb (length second) (boundary_size f.boundary res.incl_crlf - length p) ≡ true
        → ReadRound ds (second_chunk f p res second)
    unfolding second_chunk
    second_short ds f p res second e short = rw (e, short) tt

    end-Read :
        (events : List (Event E))
        → ReadRound [] (second_chunk (over events) end1 (at_newline 0) end2)
    unfolding second_chunk is_boundary_prefix zip_all_eq boundary_size boundary_start
        check_boundary_split
    end-Read events =
        rw (split_into-value end1 0 (omega arith))
          (rw (split_into-value end1 2 (omega arith)) (refl, refl, refl))

    followed-Read :
        (d : Bytes) (ds : List Bytes) (res : SearchResult) (second : Bytes)
        (events : List (Event E))
        → Data (d ∷ ds)
        → chunk second ∷ items events ≡ with_end ds
        → (is_boundary_prefix test_boundary d second res ≡ true
            → boundary_size test_boundary res.incl_crlf ≤ length d + length second
            → ⊥)
        → ReadRound (d ∷ ds) (second_chunk (over events) d res second)
    followed-Read d ds res second events good e not_whole =
        elim (Bool-cases (is_boundary_prefix test_boundary d second res)) [
          | inl prefix ↦
              elim (Bool-cases
                (ltb (length second) (boundary_size test_boundary res.incl_crlf - length d))) [
                  | inl short ↦ second_short (d ∷ ds) (over events) d res second prefix short
                  | inr long ↦ absurd (not_whole prefix (ground arith))
                ]
          | inr other ↦
              subst (ReadRound (d ∷ ds)) (sym (not_followed (over events) d res second other)) (
                ds,
                refl,
                remainder-Fed ds second events
                    (some_byte ds second (items events) (Data-tail d ds good) e)
                    (Data-tail d ds good) e,
              )
        ]

    -- A boundary does not begin in the data.
    never_whole :
        (d : Bytes) (ds : List Bytes) (res : SearchResult) (second : Bytes)
        (events : List (Event E))
        → Data (d ∷ ds)
        → chunk second ∷ events ≡ with_end ds
        → is_boundary_prefix test_boundary d second res ≡ true
        → boundary_size test_boundary res.incl_crlf ≤ length d + length second
        → ⊥
    unfolding iter_ok
    never_whole d [] res second events ((small, _), without) e prefix long =
        let (is_end, _) = chunk_inj e in
        let not_prefix = end1_not_prefix d res small in cc (not_prefix, prefix, is_end)
    never_whole d (d2 ∷ ds) res second events (_, without) e prefix long =
        let (is_data, _) = chunk_inj e in
        no_boundary_across d d2 (joined ds) res without (rw is_data at prefix) (rw is_data at long)

    pub second-Read :
        (ds : List Bytes) (p : Bytes) (res : SearchResult) (second : Bytes)
        (events : List (Event E))
        → Data ds
        → chunk p ∷ chunk second ∷ items events ≡ with_end ds
        → find_boundary test_boundary p ≡ some res
        → ReadRound ds (second_chunk (over events) p res second)
    unfolding iter_ok
    second-Read [] p res second events good e located =
        let (is_end1, rest) = chunk_inj e in
        let (is_end2, _) = chunk_inj rest in
        let is_res : res ≡ at_newline 0 = cc (located, is_end1, find_boundary-end1) in
        rw (is_end1, is_end2, is_res) (end-Read events)
    second-Read (d ∷ ds) p res second events good e located =
        let (is_data, rest) = chunk_inj e in
        rw is_data (
          followed-Read d ds res second events good rest
            (never_whole d ds res second (items events) good rest))
