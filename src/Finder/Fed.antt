-- ===== src/Finder/Fed.antt =====
-- The finder in `fuzz_boundary_finder_field` of src/fuzzing.rs, while it reads the data: the state and the
-- stream hold the chunks of the data that are left, and those of the ending delimiter.
use multipart_async.Base.{
  ℕ, zero, suc, ◌≡◌, refl, sym, subst, List, [], ◌∷◌, Bytes, some, arith, if◌then◌else◌, Outcome,
  value, panic, out_of_fuel,
}
use multipart_async.Stream.{Event, not_ready, chunk, failed, Error, PollOpt}
use multipart_async.Search.{Twoway, SearchResult, find_boundary}
use multipart_async.Finder.{
  State, watching, partial, found, split, remainder, end, Finder, Round, return, again, check_chunk,
  return_checked, some_ok, poll_watching, poll_partial, round_in, round, after_round, body_loop,
  body_chunk,
}
use multipart_async.TestUtil.{test_boundary, items, iter_ok}
use multipart_async.Finder.Given.{
  Data, with_end, Holds, Fed, Read, ReadRound, over, some_byte, checked-Read, second-Read,
}

module _ {E : Type 0} ⦃tw : Twoway⦄ where
  partial-Read :
      (ds : List Bytes) (p : Bytes) (res : SearchResult) (events : List (Event E))
      → Data ds
      → chunk p ∷ items events ≡ with_end ds
      → find_boundary test_boundary p ≡ some res
      → ReadRound ds (round_in (partial p res) (over events))
  unfolding round_in poll_partial iter_ok
  partial-Read ds p res [] good e located = tt
  partial-Read ds p res (not_ready ∷ events) good e located = record {
    same_boundary = refl;
    good_data = good;
    holds = (e, located);
  }
  partial-Read ds p res (chunk second ∷ events) good e located =
      second-Read ds p res second events good e located
  partial-Read ds p res (failed x ∷ events) good e located = tt

  watching-Read :
      (ds : List Bytes) (events : List (Event E))
      → Data ds
      → items events ≡ with_end ds
      → ReadRound ds (round_in watching (over events))
  unfolding round_in poll_watching iter_ok
  watching-Read [] [] good e = ground arith
  watching-Read (d ∷ ds) [] good e = ground arith
  watching-Read ds (not_ready ∷ events) good e = record {
    same_boundary = refl;
    good_data = good;
    holds = e;
  }
  watching-Read ds (chunk c ∷ events) good e =
      subst
        (λ b.
          ReadRound ds (
            if b then value (return (some_ok c) (over events)) else return_checked (over events) c))
        (sym (some_byte ds c (items events) good e)) (checked-Read ds c events good e)
  watching-Read ds (failed x ∷ events) good e = tt

  round_in-Read :
      (s : State) (events : List (Event E)) (ds : List Bytes)
      → Data ds
      → Holds s events ds
      → ReadRound ds (round_in s (over events))
  unfolding round_in return_checked check_chunk
  round_in-Read watching events ds good h = watching-Read ds events good h
  round_in-Read (remainder []) events ds good h = record {
    same_boundary = refl;
    good_data = good;
    holds = h;
  }
  round_in-Read (remainder (x ∷ r)) events ds good h = checked-Read ds (x ∷ r) events good h
  round_in-Read (partial p res) events ds good (h, located) =
      partial-Read ds p res events good h located
  round_in-Read (found bnd) events ds good h = absurd h
  round_in-Read (split first second) events ds good h = absurd h
  round_in-Read end events ds good h = absurd h

  abbrev pub ReadSpec : List Bytes → Outcome (PollOpt Bytes (Error E) × Finder E) → Type 0
  ReadSpec ds (value (polled, g)) = Read ds polled g
  ReadSpec ds _ = Unit

  round-Read : (ds : List Bytes) (f : Finder E) → Fed ds f → ReadRound ds (round f)
  unfolding round
  round-Read ds f fed =
      subst
        (λ b.
          ReadRound ds
            (round_in f.state (record { stream = f.stream; state = watching; boundary = b })))
        (sym fed.same_boundary) (round_in-Read f.state f.stream ds fed.good_data fed.holds)

  after_round-Read :
      (ds : List Bytes) (fuel : ℕ) (r : Outcome (Round E))
      → ReadRound ds r
      → ((g : Finder E) → Fed ds g → ReadSpec ds (body_loop fuel g))
      → ReadSpec ds (after_round (body_loop fuel) r)
  unfolding after_round
  after_round-Read ds fuel (value (return polled g)) h ih = h
  after_round-Read ds fuel (value (again g)) h ih = ih g h
  after_round-Read ds fuel (panic p) h ih = tt
  after_round-Read ds fuel out_of_fuel h ih = tt

  body_loop-Read :
      (fuel : ℕ) (ds : List Bytes) (f : Finder E) → Fed ds f → ReadSpec ds (body_loop fuel f)
  unfolding body_loop
  body_loop-Read zero ds f fed = tt
  body_loop-Read (suc fuel) ds f fed =
      after_round-Read ds fuel (round f) (round-Read ds f fed) (λ g. body_loop-Read fuel ds g)

  pub body_chunk-Read : (ds : List Bytes) (f : Finder E) → Fed ds f → ReadSpec ds (body_chunk f)
  unfolding body_chunk
  body_chunk-Read ds f fed = body_loop-Read 4 ds f fed
