-- ===== src/Search/Zero.antt =====
-- When a chunk agrees with the boundary from its first byte on, and holds not the whole of it, the
-- search finds it there: `is_boundary_prefix` compares from the first byte of the chunk, so this
-- decides for which results of the search it can hold.
use multipart_async.Base.{
  ℕ, zero, suc, ◌+◌, ◌-◌, ◌≤◌, ◌<◌, ◌≡◌, ◌≢◌, true, false, [], ◌∷◌, ◌++◌, Bytes, length, drop,
  arith, inl, inr, Option-cases, none, some, drop-drop, length-drop,
}
use multipart_async.Search.{
  Twoway, SearchResult, starts_with, zip_all_eq, crlf, check_crlf, find_newline_at_end,
  partial_rmatch, find_boundary,
}
use multipart_async.Search.Slices.{zip_all_eq-drop, starts_with_of_zip, starts_with-length}
use multipart_async.Search.Cases.{
  check_crlf-cases, find_newline-cases, RMatch, partial_rmatch-RMatch, RMatch-lt,
  find_boundary-cases, trim_start,
}
use multipart_async.Search.Locate.{delimiter}

-- A boundary is not empty and begins neither with CR nor with LF; `Multipart::with_body` puts "--"
-- in front of every boundary.
abbrev pub IsBoundary : Bytes → Type 0
IsBoundary [] = ⊥
IsBoundary (b ∷ bs) = (b ≢ b'\r') × (b ≢ b'\n')

-- Two bytes that agree with CRLF do not end in CR.
cr_at_end :
    (p boundary : Bytes)
    → zip_all_eq p (crlf ++ boundary) ≡ true
    → length p ≡ 2
    → drop (length p - 1) p ≢ b'\r' ∷ []
unfolding zip_all_eq
cr_at_end [] boundary h two = absurd (omega arith)
cr_at_end (x ∷ []) boundary h two = absurd (omega arith)
cr_at_end (x ∷ y ∷ []) boundary h two = ground arith
cr_at_end (x ∷ y ∷ z ∷ p) boundary h two = absurd (omega arith)

module _ ⦃tw : Twoway⦄ where
  -- A search for one byte stops at the first place that holds it.
  pub find-eq :
      (hay needle : Bytes) (i : ℕ)
      → i ≤ length hay
      → starts_with (drop i hay) needle ≡ true
      → ((j : ℕ) → j < i → starts_with (drop j hay) needle ≡ false)
      → tw.find_bytes hay needle ≡ some i
  find-eq hay needle i le here before = elim (Option-cases (tw.find_bytes hay needle)) [
    | inl absent ↦ cc (here, tw.find-none hay needle i absent le)
    | inr (k, present) ↦
        let at_k = (tw.find-starts_with hay needle k present).1 in
        ground (arith, at_k, before k, tw.find-first hay needle k i present)
  ]

  -- The whole boundary stands at `k`, so `k` is not before the first one.
  first-le :
      (chunk boundary : Bytes) (i k : ℕ)
      → tw.find_bytes chunk boundary ≡ some i
      → starts_with (drop k chunk) boundary ≡ true
      → i ≤ k
  first-le chunk boundary i k present here =
      ground (arith, tw.find-first chunk boundary i k present)

  zero_whole :
      (p boundary : Bytes) (i : ℕ)
      → tw.find_bytes p boundary ≡ some i
      → zip_all_eq p (delimiter boundary (check_crlf p i)) ≡ true
      → (check_crlf p i).idx ≡ 0
  zero_whole p boundary i present h =
      let (le, here) = tw.find-starts_with p boundary i present in
      let fits = starts_with-length (drop i p) boundary here in
      elim (check_crlf-cases p i) [
        | inl e ↦
            let starts =
              starts_with_of_zip p boundary (rw e at h) (omega (arith, fits, length-drop i p)) in
            rw e (omega (arith, first-le p boundary i 0 present starts))
        | inr (two, newline, e) ↦
            let tail = zip_all_eq-drop 2 p (crlf ++ boundary) (rw e at h) in
            let starts =
              starts_with_of_zip (drop 2 p) boundary tail
                (omega (arith, fits, length-drop i p, length-drop 2 p)) in
            rw e (omega (arith, first-le p boundary i 2 present starts))
      ]

  -- A chunk without the whole boundary that agrees with it is shorter.
  short :
      (p boundary : Bytes) (k : ℕ)
      → tw.find_bytes p boundary ≡ none
      → zip_all_eq (drop k p) boundary ≡ true
      → k ≤ length p
      → length p < length boundary + k
  short p boundary k absent h le =
      let starts = starts_with_of_zip (drop k p) boundary h in
      ground (arith, starts, tw.find-none p boundary k absent le, length-drop k p)

  zero_tail :
      (p boundary : Bytes) (i : ℕ)
      → tw.find_bytes p boundary ≡ none
      → RMatch p boundary i
      → zip_all_eq p boundary ≡ true
      → i ≡ 0
  zero_tail [] boundary i absent m h = cc (m.some_haystack)
  zero_tail (x ∷ xs) [] i absent m h = cc (m.some_needle)
  zero_tail (x ∷ xs) (b ∷ bs) i absent m h =
      let less = short (x ∷ xs) (b ∷ bs) 0 absent h (omega arith) in
      let none_trimmed : trim_start (x ∷ xs) (b ∷ bs) ≡ 0 = omega (arith, less) in
      let first = rw none_trimmed at m.first in
      let here : starts_with (x ∷ xs) (b ∷ []) ≡ true =
        unfold starts_with zip_all_eq in ground arith in
      omega (arith, first-le (x ∷ xs) (b ∷ []) (i - 0) 0 first here)

  head_ne :
      (k b : ℕ) (rest : Bytes)
      → k < 2
      → b ≢ b'\r'
      → b ≢ b'\n'
      → starts_with (drop k (b'\r' ∷ b'\n' ∷ rest)) (b ∷ []) ≡ false
  unfolding starts_with
  head_ne zero b rest lt h k = ground arith
  head_ne (suc zero) b rest lt h k = ground arith
  head_ne (suc (suc k)) b rest lt h h' = absurd (omega arith)

  -- Behind a newline at the front of the chunk `partial_rmatch` finds the boundary.
  partial_rmatch_at_two :
      (b : ℕ) (bs ps : Bytes)
      → IsBoundary (b ∷ bs)
      → length ps < length bs
      → zip_all_eq (b ∷ ps) (b ∷ bs) ≡ true
      → partial_rmatch (b'\r' ∷ b'\n' ∷ b ∷ ps) (b ∷ bs) ≡ some 2
  partial_rmatch_at_two b bs ps (no_cr, no_lf) lt h =
      let p = b'\r' ∷ b'\n' ∷ b ∷ ps in
      let t = trim_start p (b ∷ bs) in
      let back : 2 - t + t ≡ 2 = omega arith in
      let here : starts_with (drop 2 p) (b ∷ []) ≡ true = unfold starts_with in ground arith in
      let found =
        find-eq (drop t p) (b ∷ []) (2 - t) (omega (arith, length-drop t p))
          (rw (drop-drop (2 - t) t p, back) here)
          (λ j less. rw (drop-drop j t p) (head_ne (j + t) b (b ∷ ps) (omega arith) no_cr no_lf)) in
      unfold partial_rmatch in ground (arith, found, back, h)

  pub rmatch_behind_newline :
      (p boundary : Bytes)
      → IsBoundary boundary
      → tw.find_bytes p boundary ≡ none
      → 3 ≤ length p
      → zip_all_eq p (crlf ++ boundary) ≡ true
      → partial_rmatch p boundary ≡ some 2
  rmatch_behind_newline p [] good absent le h = absurd good
  rmatch_behind_newline [] (b ∷ bs) good absent le h = absurd (omega arith)
  rmatch_behind_newline (x ∷ []) (b ∷ bs) good absent le h = absurd (omega arith)
  rmatch_behind_newline (x ∷ y ∷ []) (b ∷ bs) good absent le h = absurd (omega arith)
  rmatch_behind_newline (x ∷ y ∷ z ∷ ps) (b ∷ bs) good absent le h =
      let tail = zip_all_eq-drop 2 (x ∷ y ∷ z ∷ ps) (crlf ++ b ∷ bs) h in
      let less = short (x ∷ y ∷ z ∷ ps) (b ∷ bs) 2 absent tail (omega arith) in
      let same : (x ≡ b'\r') × (y ≡ b'\n') × (z ≡ b) = unfold zip_all_eq in ground arith in
      let aligned = partial_rmatch_at_two b bs ps good (omega (arith, less)) in
      rw (same.0, same.1, same.2) (aligned (rw same.2 at tail))

  zero_newline :
      (p boundary : Bytes) {res : SearchResult}
      → IsBoundary boundary
      → tw.find_bytes p boundary ≡ none
      → partial_rmatch p boundary ≡ none
      → find_newline_at_end p ≡ some res
      → zip_all_eq p (delimiter boundary res) ≡ true
      → res.idx ≡ 0
  zero_newline p boundary good absent no_tail newline h = elim (find_newline-cases p newline) [
    | inl (le, tail, e) ↦
        let at_two =
          λ (big : 3 ≤ length p). rmatch_behind_newline p boundary good absent big (rw e at h) in
        rw e (ground (arith, at_two, no_tail))
    | inr (le, tail, e) ↦
        let at_two =
          λ (big : 3 ≤ length p). rmatch_behind_newline p boundary good absent big (rw e at h) in
        let one = cr_at_end p boundary (rw e at h) in
        rw e (ground (arith, at_two, no_tail, one, tail))
  ]

  -- If a chunk agrees from its first byte on with the delimiter that a result of `find_boundary` speaks of,
  -- as far as both go, then the result is at the first byte. The boundary begins with neither CR nor LF.
  pub find_boundary_prefix :
      (boundary p : Bytes) {res : SearchResult}
      → IsBoundary boundary
      → find_boundary boundary p ≡ some res
      → zip_all_eq p (delimiter boundary res) ≡ true
      → res.idx ≡ 0
  find_boundary_prefix boundary p {res} good found h = elim (find_boundary-cases boundary p found) [
    | inl (i, present, e) ↦ rw e (zero_whole p boundary i present (rw e at h))
    | inr (inl (i, absent, tail, e)) ↦ elim (check_crlf-cases p i) [
      | inl e' ↦
          rw (e, e')
            (zero_tail p boundary i absent (partial_rmatch-RMatch p boundary tail)
              (rw (e, e') at h))
      | inr (two, newline, e') ↦
          let lt = RMatch-lt (partial_rmatch-RMatch p boundary tail) in
          let at_two =
            rmatch_behind_newline p boundary good absent (omega (arith, lt)) (rw (e, e') at h) in
          rw (e, e') (ground (arith, at_two, tail))
    ]
    | inr (inr (absent, no_tail, newline)) ↦ zero_newline p boundary good absent no_tail newline h
  ]
