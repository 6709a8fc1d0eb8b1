-- ===== src/Fuzzing/Pieces.antt =====
-- The chunks that `fuzz_boundary_finder_field` of src/fuzzing.rs feeds to the finder: those of the
-- delimiters, and those of the data.
use multipart_async.Base.{
  ℕ, ◌+◌, ◌≤◌, ◌<◌, ◌≡◌, refl, Bool, true, false, ◌||◌, ◌==◌, List, [], ◌∷◌, ◌++◌, Bytes, codes,
  length, drop, none, some, arith, Bool-cases, inl, inr, length-append, drop-append, drop-drop,
  drop-length, length-drop, append_assoc, Option,
}
use multipart_async.Search.{
  Twoway, SearchResult, starts_with, zip_all_eq, crlf, check_crlf, boundary_size,
  is_boundary_prefix, partial_rmatch, partial_find_boundary, find_boundary,
}
use multipart_async.Search.Slices.{starts_with_of_zip, zip_all_eq-drop}
use multipart_async.Search.Cases.{at_newline, at_boundary}
use multipart_async.Search.Zero.{find-eq, rmatch_behind_newline}
use multipart_async.Finder.Sized.{Sized}
use multipart_async.TestUtil.{test_boundary}
use multipart_async.Fuzzing.{is_none}
use multipart_async.Fuzzing.Asserted.{find_bytes-short}

-- `field_start` and `field_end` in chunks of nine bytes
abbrev pub start1 : Bytes
start1 = codes "--boundar"

abbrev pub start2 : Bytes
start2 = codes "y\r\n"

abbrev pub end1 : Bytes
end1 = codes "\r\n--bound"

abbrev pub end2 : Bytes
end2 = codes "ary--"

-- what is left of `end1` behind its newline
abbrev pub end1_rest : Bytes
end1_rest = codes "--bound"

abbrev pub joined : List Bytes → Bytes
joined [] = []
joined (d ∷ ds) = d ++ joined ds

abbrev pub AllSmall : List Bytes → Type 0
AllSmall [] = Unit
AllSmall (d ∷ ds) = Sized 9 d × AllSmall ds

-- the boundary is nowhere in the bytes
abbrev pub Without : Bytes → Type 0
Without bytes = (j : ℕ) → j ≤ length bytes → starts_with (drop j bytes) test_boundary ≡ false

pub Without-tail : (d rest : Bytes) → Without (d ++ rest) → Without rest
Without-tail d rest h j le =
    let at_j = h (j + length d) (omega (arith, length-append d rest)) in
    rw (← drop-drop j (length d) (d ++ rest), drop-length d rest) at at_j

starts_with-more : (xs ys zs : Bytes) → starts_with xs ys ≡ true → starts_with (xs ++ zs) ys ≡ true
unfolding starts_with
starts_with-more xs [] zs h = refl
starts_with-more [] (y ∷ ys) zs h = cc
starts_with-more (x ∷ xs) (y ∷ ys) zs h = ground (arith, starts_with-more xs ys zs)

has_cr : Bytes → Bool
has_cr [] = false
has_cr (b ∷ bs) = b == b'\r' || has_cr bs

zip_all_eq-cr :
    (p rest bs : Bytes)
    → has_cr bs ≡ false
    → length p < length bs
    → zip_all_eq (p ++ b'\r' ∷ rest) bs ≡ false
unfolding has_cr zip_all_eq
zip_all_eq-cr p rest [] plain lt = absurd (omega arith)
zip_all_eq-cr [] rest (b ∷ bs) plain lt = ground arith
zip_all_eq-cr (x ∷ p) rest (b ∷ bs) plain lt = ground (arith, zip_all_eq-cr p rest bs)

plain_boundary : has_cr test_boundary ≡ false
unfolding has_cr
plain_boundary = refl

plain_newline : has_cr (b'\n' ∷ test_boundary) ≡ false
unfolding has_cr
plain_newline = refl

-- The data is followed by a CR, which the boundary does not have: no boundary begins in the data.
pub end1_not_prefix :
    (p : Bytes) (res : SearchResult)
    → Sized 9 p
    → is_boundary_prefix test_boundary p end1 res ≡ false
unfolding is_boundary_prefix
end1_not_prefix [] res (some_byte, le) = cc
end1_not_prefix (x ∷ p) res (some_byte, le) =
    let behind_newline =
      zip_all_eq-cr p (codes "\n--bound") (b'\n' ∷ test_boundary) plain_newline (omega arith) in
    let plain =
      zip_all_eq-cr (x ∷ p) (codes "\n--bound") test_boundary plain_boundary (omega arith) in
    unfold zip_all_eq in ground (arith, behind_newline, plain)

across :
    (n : ℕ) (p second rest : Bytes)
    → Without (p ++ (second ++ rest))
    → n + 10 ≤ length p + length second
    → zip_all_eq (drop n (p ++ second)) test_boundary ≡ true
    → ⊥
across n p second rest without le h =
    let both = length-append p second in
    let starts =
      starts_with_of_zip (drop n (p ++ second)) test_boundary h
        (omega (arith, length-drop n (p ++ second), both)) in
    let more = starts_with-more (drop n (p ++ second)) test_boundary rest starts in
    let here =
      rw (← drop-append n (p ++ second) rest (omega (arith, both)), append_assoc p second rest) at
        more in
    let not_here =
      without n (omega (arith, length-append p (second ++ rest), length-append second rest)) in
    cc (here, not_here)

-- A boundary that lies in two chunks of the data is in the data.
pub no_boundary_across :
    (p second rest : Bytes) (res : SearchResult)
    → Without (p ++ (second ++ rest))
    → is_boundary_prefix test_boundary p second res ≡ true
    → boundary_size test_boundary res.incl_crlf ≤ length p + length second
    → ⊥
unfolding is_boundary_prefix boundary_size
no_boundary_across p second rest res without h le = elim (Bool-cases res.incl_crlf) [
  | inl newline ↦
      across 2 p second rest without (omega (arith, rw newline at le))
        (zip_all_eq-drop 2 (p ++ second) (crlf ++ test_boundary) (rw newline at h))
  | inr plain ↦ across 0 p second rest without (omega (arith, rw plain at le)) (rw plain at h)
]

is_none-eq : (o : Option ℕ) → is_none o ≡ true → o ≡ none
unfolding is_none
is_none-eq none h = refl
is_none-eq (some i) h = cc

module _ ⦃tw : Twoway⦄ where
  pub find_boundary-start1 : find_boundary test_boundary start1 ≡ some (at_boundary 0)
  unfolding find_boundary partial_find_boundary partial_rmatch check_crlf
  find_boundary-start1 =
      let absent =
        is_none-eq (tw.find_bytes start1 test_boundary)
          (find_bytes-short start1 test_boundary (omega arith)) in
      let first =
        find-eq start1 (b'-' ∷ []) 0 (omega arith) (unfold starts_with in refl)
          (λ j lt. absurd (omega arith)) in
      rw (find_boundary, absent)
        (rw (partial_find_boundary, partial_rmatch, first) (unfold zip_all_eq in refl))

  pub find_boundary-end1 : find_boundary test_boundary end1 ≡ some (at_newline 0)
  unfolding find_boundary partial_find_boundary check_crlf
  find_boundary-end1 =
      let absent =
        is_none-eq (tw.find_bytes end1 test_boundary)
          (find_bytes-short end1 test_boundary (omega arith)) in
      let tail =
        rmatch_behind_newline end1 test_boundary (omega arith, omega arith) absent (omega arith)
          (unfold zip_all_eq in refl) in
      rw (find_boundary, absent) (rw (partial_find_boundary, tail) refl)
