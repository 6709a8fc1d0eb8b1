-- ===== src/Search/Locate.antt =====
-- What `find_boundary` finds: a place from which the rest of the chunk agrees with the boundary,
-- with the newline in front of it if the result says so.
use multipart_async.Base.{
  ℕ, ◌+◌, ◌-◌, ◌≤◌, ◌≡◌, refl, true, [], ◌∷◌, ◌++◌, Bytes, length, take, drop, arith, inl, inr,
  some, if◌then◌else◌, drop-drop,
}
use multipart_async.Search.{
  Twoway, SearchResult, zip_all_eq, crlf, check_crlf, find_newline_at_end, find_boundary,
}
use multipart_async.Search.Slices.{zip_all_eq_of_starts_with}
use multipart_async.Search.Cases.{
  check_crlf-cases, find_newline-cases, partial_rmatch-RMatch, RMatch-lt, find_boundary-cases,
}

-- The delimiter that a result speaks of.
abbrev pub delimiter : Bytes → SearchResult → Bytes
delimiter boundary res = if res.incl_crlf then crlf ++ boundary else boundary

pub record Located (boundary chunk : Bytes) (res : SearchResult) : Type 0 where
  pub in_range : res.idx ≤ length chunk
  pub agrees : zip_all_eq (drop res.idx chunk) (delimiter boundary res) ≡ true

zip_crlf :
    (boundary xs : Bytes)
    → take 2 xs ≡ crlf
    → zip_all_eq (drop 2 xs) boundary ≡ true
    → zip_all_eq xs (crlf ++ boundary) ≡ true
unfolding zip_all_eq
zip_crlf boundary [] t h = refl
zip_crlf boundary (x ∷ []) t h = cc
zip_crlf boundary (x ∷ y ∷ xs) t h = ground arith

check_crlf-Located :
    (boundary chunk : Bytes) (i : ℕ)
    → i ≤ length chunk
    → zip_all_eq (drop i chunk) boundary ≡ true
    → Located boundary chunk (check_crlf chunk i)
check_crlf-Located boundary chunk i le h = elim (check_crlf-cases chunk i) [
  | inl e ↦ rw e (record { in_range = le; agrees = h })
  | inr (two, newline, e) ↦
      let after : 2 + (i - 2) ≡ i = omega arith in
      rw e (record {
        in_range = omega arith;
        agrees =
            zip_crlf boundary (drop (i - 2) chunk) newline
              (rw (drop-drop 2 (i - 2) chunk, after) h);
      })
]

newline-Located :
    (boundary chunk : Bytes) {res : SearchResult}
    → find_newline_at_end chunk ≡ some res
    → Located boundary chunk res
newline-Located boundary chunk h = elim (find_newline-cases chunk h) [
  | inl (le, tail, e) ↦
      rw e (record { in_range = omega arith; agrees = rw tail (unfold zip_all_eq in refl) })
  | inr (le, tail, e) ↦
      rw e (record { in_range = omega arith; agrees = rw tail (unfold zip_all_eq in refl) })
]

module _ ⦃tw : Twoway⦄ where
  -- Whatever `find_boundary` reports lies in the chunk, and from there on the chunk agrees with the
  -- delimiter as far as both go, the newline included if the result says so.
  pub find_boundary-Located :
      (boundary chunk : Bytes) {res : SearchResult}
      → find_boundary boundary chunk ≡ some res
      → Located boundary chunk res
  find_boundary-Located boundary chunk h = elim (find_boundary-cases boundary chunk h) [
    | inl (i, whole, e) ↦
        let (le, starts) = tw.find-starts_with chunk boundary i whole in
        rw e (check_crlf-Located boundary chunk i le (zip_all_eq_of_starts_with _ _ starts))
    | inr (inl (i, absent, tail, e)) ↦
        let m = partial_rmatch-RMatch chunk boundary tail in
        let lt = RMatch-lt m in rw e (check_crlf-Located boundary chunk i (omega arith) m.agrees)
    | inr (inr (absent, no_tail, newline)) ↦ newline-Located boundary chunk newline
  ]
