-- ===== src/Headers/End.antt =====
-- `header_end_split`: the end of the header section across two chunks.
use multipart_async.Base.{
  ℕ, ◌-◌, ◌≤◌, ◌≡◌, ◌∙◌, ap, sym, refl, Bool, true, false, ◌++◌, Bytes, length, take, drop, arith,
  inl, inr, ◌⊎◌, none, some, leb, if◌then◌else◌, take-append-drop, append_assoc, length-drop,
  length-append, length-take, take-append_right, drop-length, subst,
}
use multipart_async.Search.{ends_with}
use multipart_async.Search.Slices.{bytes_eq→eq, bytes_eq_refl}
use multipart_async.Fields.{crlf2}
use multipart_async.Headers.{split_subcheck, header_end_split}

-- What a check that holds says: the last `start` bytes and the first of the next chunk are the end of the
-- headers.
pub record EndsAcross (start : ℕ) (first second : Bytes) : Type 0 where
  pub room : start ≤ length first
  pub bytes : take 4 (drop (length first - start) first ++ second) ≡ crlf2

split_subcheck-EndsAcross :
    (start : ℕ) (first second : Bytes)
    → split_subcheck start first second ≡ true
    → EndsAcross start first second
unfolding split_subcheck
split_subcheck-EndsAcross start first second h = record {
  room = ground arith;
  bytes = bytes_eq→eq (take 4 (drop (length first - start) first ++ second)) crlf2 (ground arith);
}

choice :
    (a b c : Bool) {i : ℕ}
    → (if a then some 1 else if b then some 2 else if c then some 3 else none) ≡ some i
    → ((i ≡ 1) × (a ≡ true)) ⊎ (((i ≡ 2) × (b ≡ true)) ⊎ ((i ≡ 3) × (c ≡ true)))
choice true b c h = inl (cc, refl)
choice false true c h = inr (inl (cc, refl))
choice false false true h = inr (inr (cc, refl))
choice false false false h = cc

header_end_split-cases :
    (first second : Bytes) {i : ℕ}
    → header_end_split first second ≡ some i
    → (i ≤ 3) × (1 ≤ i) × EndsAcross (4 - i) first second
unfolding header_end_split
header_end_split-cases first second h =
    elim (choice (split_subcheck 3 first second) (split_subcheck 2 first second)
      (split_subcheck 1 first second) h) [
        | inl (e, here) ↦
            rw e ((omega arith), (omega arith), split_subcheck-EndsAcross 3 first second here)
        | inr (inl (e, here)) ↦
            rw e ((omega arith), (omega arith), split_subcheck-EndsAcross 2 first second here)
        | inr (inr (e, here)) ↦
            rw e ((omega arith), (omega arith), split_subcheck-EndsAcross 1 first second here)
      ]

pub ends_with-append : (xs ys : Bytes) → ends_with (xs ++ ys) ys ≡ true
unfolding ends_with
ends_with-append xs ys =
    let size = length-append xs ys in
    let before : length (xs ++ ys) - length ys ≡ length xs = omega (arith, size) in
    let fits : leb (length ys) (length (xs ++ ys)) ≡ true = ground (arith, size) in
    rw (fits, before, drop-length xs ys) (bytes_eq_refl ys)

-- If the end of the headers is reported across two chunks, so many bytes of the second are there, and
-- with them the first ends in two newlines: the split of the chunk and the assertion of `parse_headers`
-- cannot panic.
pub ends_with-header_end_split :
    (first second : Bytes) {i : ℕ}
    → header_end_split first second ≡ some i
    → (i ≤ length second) × (ends_with (first ++ take i second) crlf2 ≡ true)
ends_with-header_end_split first second {i} h =
    let (small, pos, across) = header_end_split-cases first second h in
    let start = 4 - i in
    let front = take (length first - start) first in
    let tail = drop (length first - start) first in
    let size : length tail ≡ start =
      omega (arith, length-drop (length first - start) first, across.room) in
    let rest : 4 - length tail ≡ i = omega (arith, size, small) in
    let whole : tail ++ take i second ≡ crlf2 =
      ap (λ k. tail ++ take k second) (sym rest)
      ∙ sym (take-append_right 4 tail second (omega (arith, size)))
      ∙ across.bytes in
    let joined : front ++ crlf2 ≡ first ++ take i second =
      ap (λ x. front ++ x) (sym whole)
      ∙ sym (append_assoc front tail (take i second))
      ∙ ap (λ x. x ++ take i second) (take-append-drop (length first - start) first) in
    (
      omega (
        arith,
        ap length whole,
        length-append tail (take i second),
        length-take i second,
        size,
        small,
        pos,
      ),
      subst (λ x. ends_with x crlf2 ≡ true) joined (ends_with-append front crlf2),
    )
