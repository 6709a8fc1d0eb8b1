-- ===== src/Finder/Skip.antt =====
-- The steps behind a poll, over a stream without its pauses.
use multipart_async.Base.{
  ◌≡◌, refl, Bool, true, false, not, Bytes, length, ◌-◌, ◌+◌, Option, Outcome, value, panic,
  out_of_fuel, ◌>>=◌, if◌then◌else◌, ltb,
}
use multipart_async.Stream.{pending}
use multipart_async.Search.{SearchResult, boundary_size, boundary_start, is_boundary_prefix}
use multipart_async.Chunk.{slice_chunk}
use multipart_async.Finder.{
  Finder, Round, return, again, trim_crlf, is_boundary, cut_boundary, check_found, confirm_second,
  second_chunk,
}
use multipart_async.TestUtil.{items}

module _ {E : Type 0} where
  -- the finder over the same stream without its pauses
  abbrev pub skip : Finder E → Finder E
  skip f = record f { stream = items f.stream }

  unfoldable pub skip_checked :
      Outcome (Option Bytes × Finder E) → Outcome (Option Bytes × Finder E)
  skip_checked (value (ret, f)) = value (ret, skip f)
  skip_checked (panic p) = panic p
  skip_checked out_of_fuel = out_of_fuel

  unfoldable pub skip_round : Outcome (Round E) → Outcome (Round E)
  skip_round (value (return polled f)) = value (return polled (skip f))
  skip_round (value (again f)) = value (again (skip f))
  skip_round (panic p) = panic p
  skip_round out_of_fuel = out_of_fuel

  bind-skip_checked :
      {A : Type 0} (o : Outcome A) (k k' : A → Outcome (Option Bytes × Finder E))
      → ((a : A) → k' a ≡ skip_checked (k a))
      → (o >>= k') ≡ skip_checked (o >>= k)
  unfolding skip_checked
  bind-skip_checked (value a) k k' e = e a
  bind-skip_checked (panic p) k k' e = refl
  bind-skip_checked out_of_fuel k k' e = refl

  bind-skip_round :
      {A : Type 0} (o : Outcome A) (k k' : A → Outcome (Round E))
      → ((a : A) → k' a ≡ skip_round (k a))
      → (o >>= k') ≡ skip_round (o >>= k)
  unfolding skip_round
  bind-skip_round (value a) k k' e = e a
  bind-skip_round (panic p) k k' e = refl
  bind-skip_round out_of_fuel k k' e = refl

  pub if-skip_checked :
      (b : Bool) (x y : Outcome (Option Bytes × Finder E))
      {x' y' : Outcome (Option Bytes × Finder E)}
      → x' ≡ skip_checked x
      → y' ≡ skip_checked y
      → (if b then x' else y') ≡ skip_checked (if b then x else y)
  if-skip_checked true x y e e' = e
  if-skip_checked false x y e e' = e'

  if-skip_round :
      (b : Bool) (x y : Outcome (Round E)) {x' y' : Outcome (Round E)}
      → x' ≡ skip_round x
      → y' ≡ skip_round y
      → (if b then x' else y') ≡ skip_round (if b then x else y)
  if-skip_round true x y e e' = e
  if-skip_round false x y e e' = e'

  -- no pause
  abbrev pub Answers : Outcome (Round E) → Type 0
  Answers (value (return pending g)) = ⊥
  Answers _ = Unit

  pub bind-Answers :
      {A : Type 0} (o : Outcome A) (k : A → Outcome (Round E))
      → ((a : A) → Answers (k a))
      → Answers (o >>= k)
  bind-Answers (value a) k h = h a
  bind-Answers (panic p) k h = tt
  bind-Answers out_of_fuel k h = tt

  pub if-Answers :
      (b : Bool) (x y : Outcome (Round E)) → Answers x → Answers y → Answers (if b then x else y)
  if-Answers true x y h h' = h
  if-Answers false x y h h' = h'

  pub check_found-skip :
      (f : Finder E) (c : Bytes) (res : SearchResult)
      → check_found (skip f) c res ≡ skip_checked (check_found f c res)
  unfolding check_found skip_checked
  check_found-skip f c res =
      if-skip_checked (ltb (length c) (res.idx + boundary_size f.boundary res.incl_crlf)) _ _ refl (
        bind-skip_checked (slice_chunk.split_into c res.idx) _ _
          (λ (ret, bnd). bind-skip_checked (trim_crlf res.incl_crlf bnd) _ _ (λ bnd'. refl)))

  confirm_second-skip :
      (f : Finder E) (first : Bytes) (res : SearchResult) (second : Bytes)
      → confirm_second (skip f) first res second ≡ skip_round (confirm_second f first res second)
  unfolding confirm_second skip_round
  confirm_second-skip f first res second =
      bind-skip_round (is_boundary f.boundary first second (boundary_start res)) _ _ (λ confirmed.
        if-skip_round (not confirmed) _ _ refl (
          bind-skip_round (cut_boundary first second res (boundary_start res)) _ _
            (λ (ret, s). refl)))

  pub second_chunk-skip :
      (f : Finder E) (first : Bytes) (res : SearchResult) (second : Bytes)
      → second_chunk (skip f) first res second ≡ skip_round (second_chunk f first res second)
  unfolding second_chunk skip_round
  second_chunk-skip f first res second =
      let needed_len = boundary_size f.boundary res.incl_crlf - length first in
      if-skip_round (not (is_boundary_prefix f.boundary first second res)) _ _ refl (
        if-skip_round (ltb (length second) needed_len) _ _ refl
          (confirm_second-skip f first res second))
