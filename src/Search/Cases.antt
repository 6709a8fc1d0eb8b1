-- ===== src/Search/Cases.antt =====
-- What a result of each search says: the inversions that the proofs about searches share.
use multipart_async.Base.{
  ℕ, ◌+◌, ◌-◌, ◌≤◌, ◌<◌, ◌≡◌, ◌⊎◌, inl, inr, true, false, ◌&&◌, [], ◌∷◌, Bytes, length, take, drop,
  is_empty, none, some, arith, leb, Bool-cases, Option-cases, length-drop, drop-drop,
}
use multipart_async.Search.{
  Twoway, SearchResult, starts_with, zip_all_eq, bytes_eq, crlf, check_crlf, find_newline_at_end,
  partial_rmatch, partial_find_boundary, find_boundary,
}
use multipart_async.Search.Slices.{bytes_eq→eq, starts_with-length}

abbrev pub at_newline : ℕ → SearchResult
at_newline i = record { idx = i; incl_crlf = true }

abbrev pub at_boundary : ℕ → SearchResult
at_boundary i = record { idx = i; incl_crlf = false }

pub check_crlf-cases :
    (chunk : Bytes) (i : ℕ)
    → (check_crlf chunk i ≡ at_boundary i)
      ⊎ ((2 ≤ i) × (take 2 (drop (i - 2) chunk) ≡ crlf) × (check_crlf chunk i ≡ at_newline (i - 2)))
unfolding check_crlf
check_crlf-cases chunk i =
    elim (Bool-cases (leb 2 i && bytes_eq (take 2 (drop (i - 2) chunk)) crlf)) [
      | inl e ↦
          inr (ground arith, bytes_eq→eq (take 2 (drop (i - 2) chunk)) crlf (ground arith), rw e)
      | inr e ↦ inl (rw e)
    ]

pub find_newline-cases :
    (chunk : Bytes) {res : SearchResult}
    → find_newline_at_end chunk ≡ some res
    → ((2 ≤ length chunk)
        × (drop (length chunk - 2) chunk ≡ crlf)
        × (res ≡ at_newline (length chunk - 2)))
      ⊎ ((1 ≤ length chunk)
          × (drop (length chunk - 1) chunk ≡ b'\r' ∷ [])
          × (res ≡ at_newline (length chunk - 1)))
unfolding find_newline_at_end
find_newline-cases chunk h =
    let two = bytes_eq→eq (drop (length chunk - 2) chunk) crlf in
    let one = bytes_eq→eq (drop (length chunk - 1) chunk) (b'\r' ∷ []) in ground (arith, two, one)

-- where `partial_rmatch` begins to look
abbrev pub trim_start : Bytes → Bytes → ℕ
trim_start haystack needle = length haystack - (length needle - 1)

module _ ⦃tw : Twoway⦄ where
  pub record RMatch (haystack needle : Bytes) (i : ℕ) : Type 0 where
    pub some_needle : is_empty needle ≡ false
    pub some_haystack : is_empty haystack ≡ false
    pub trimmed : trim_start haystack needle ≤ i
    pub first :
        tw.find_bytes (drop (trim_start haystack needle) haystack) (take 1 needle)
        ≡ some (i - trim_start haystack needle)
    pub agrees : zip_all_eq (drop i haystack) needle ≡ true

  pub partial_rmatch-RMatch :
      (haystack needle : Bytes) {i : ℕ}
      → partial_rmatch haystack needle ≡ some i
      → RMatch haystack needle i
  unfolding partial_rmatch
  partial_rmatch-RMatch haystack needle h = ground arith

  -- The three ways in which `find_boundary` can succeed.
  pub find_boundary-cases :
      (boundary chunk : Bytes) {res : SearchResult}
      → find_boundary boundary chunk ≡ some res
      → ((i : ℕ) × (tw.find_bytes chunk boundary ≡ some i) × (res ≡ check_crlf chunk i))
        ⊎ ((i : ℕ) × (tw.find_bytes chunk boundary ≡ none)
            × (partial_rmatch chunk boundary ≡ some i)
            × (res ≡ check_crlf chunk i))
        ⊎ ((tw.find_bytes chunk boundary ≡ none)
            × (partial_rmatch chunk boundary ≡ none)
            × (find_newline_at_end chunk ≡ some res))
  unfolding find_boundary partial_find_boundary
  find_boundary-cases boundary chunk h = elim (Option-cases (tw.find_bytes chunk boundary)) [
    | inl absent ↦ elim (Option-cases (partial_rmatch chunk boundary)) [
      | inl no_tail ↦ inr (inr (absent, no_tail, ground arith))
      | inr (i, tail) ↦ inr (inl (i, absent, tail, ground arith))
    ]
    | inr (i, present) ↦ inl (i, present, ground arith)
  ]

  -- `partial_rmatch` finds the first byte of the needle.
  pub RMatch-head :
      {haystack needle : Bytes} {i : ℕ}
      → RMatch haystack needle i
      → starts_with (drop i haystack) (take 1 needle) ≡ true
  RMatch-head {haystack} {needle} {i} m =
      let t = trim_start haystack needle in
      let found = (tw.find-starts_with (drop t haystack) (take 1 needle) (i - t) m.first).1 in
      let same : i - t + t ≡ i = omega (arith, m.trimmed) in
      rw (drop-drop (i - t) t haystack, same) at found

  pub RMatch-lt : {haystack needle : Bytes} {i : ℕ} → RMatch haystack needle i → i < length haystack
  RMatch-lt {needle = []} m = cc (m.some_needle)
  RMatch-lt {haystack} {needle = b ∷ bs} {i} m =
      omega (
        arith,
        starts_with-length (drop i haystack) (b ∷ []) (RMatch-head m),
        length-drop i haystack,
      )
