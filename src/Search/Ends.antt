-- ===== src/Search/Ends.antt =====
-- Where a boundary and the two bytes behind it lie in one chunk, or across two: the tests of
-- src/server/boundary.rs against the bytes.
use multipart_async.Base.{
  ℕ, ◌+◌, ◌-◌, ◌≤◌, ◌<◌, ◌≡◌, refl, sym, ap, ◌∙◌, subst, ◌⊎◌, inl, inr, true, false, [], ◌∷◌, ◌++◌,
  Bytes, length, take, drop, arith, leb, ◌==◌, ◌&&◌, Bool-cases, length-append, length-take,
  take-append-drop, drop-length, append_assoc, take-nil, take-length, suc, tests,
}
use multipart_async.Search.{
  starts_with, ends_with, bytes_eq, zip_all_eq, check_boundary_split, check_last_two,
}
use multipart_async.Search.Slices.{
  starts_with-append, starts_with-split, starts_with-take, starts_with_of_zip,
}

-- Two bytes that are not "--".
abbrev pub NotDashes : ℕ → ℕ → Type 0
NotDashes a b = ¬ ((a ≡ b'-') × (b ≡ b'-'))

pub check_last_two-eq :
    (bytes : Bytes) (a b : ℕ) → check_last_two (bytes ++ (a ∷ b ∷ [])) ≡ (a == b'-' && b == b'-')
unfolding check_last_two ends_with bytes_eq
check_last_two-eq bytes a b =
    let before : length (bytes ++ (a ∷ b ∷ [])) - 2 ≡ length bytes =
      omega (arith, length-append bytes (a ∷ b ∷ [])) in
    rw (before, drop-length bytes (a ∷ b ∷ []), length-append bytes (a ∷ b ∷ [])) (ground arith)

pub check_last_two-NotDashes :
    (bytes : Bytes) (a b : ℕ) → NotDashes a b → check_last_two (bytes ++ (a ∷ b ∷ [])) ≡ false
check_last_two-NotDashes bytes a b ne = check_last_two-eq bytes a b ∙ ground arith

pub dashes-cases : (a b : ℕ) → ((a ≡ b'-') × (b ≡ b'-')) ⊎ NotDashes a b
dashes-cases a b = ground arith

pub starts_with-left :
    (xs zs ys : Bytes) → starts_with xs ys ≡ true → starts_with (xs ++ zs) ys ≡ true
starts_with-left xs zs ys h =
    subst (λ x. starts_with (x ++ zs) ys ≡ true) (sym (starts_with-split xs ys h))
      (rw (append_assoc ys (drop (length ys) xs) zs) (starts_with-append ys _))

pub starts_with_of_take :
    (k : ℕ) (xs ys : Bytes) → starts_with (take k xs) ys ≡ true → starts_with xs ys ≡ true
starts_with_of_take k xs ys h =
    subst (λ x. starts_with x ys ≡ true) (take-append-drop k xs)
      (starts_with-left (take k xs) (drop k xs) ys h)

pub true_ne_false : true ≡ false → ⊥
true_ne_false e = cc

pub starts_with_of_front :
    (k : ℕ) (first second ys : Bytes)
    → starts_with (first ++ take k second) ys ≡ true
    → starts_with (first ++ second) ys ≡ true
starts_with_of_front k first second ys h =
    subst (λ x. starts_with x ys ≡ true)
      (append_assoc first (take k second) (drop k second)
        ∙ ap (λ x. first ++ x) (take-append-drop k second))
      (starts_with-left (first ++ take k second) (drop k second) ys h)

pub starts_with-take_eq :
    (k : ℕ) (xs ys : Bytes) → length ys ≤ k → starts_with (take k xs) ys ≡ starts_with xs ys
starts_with-take_eq k xs ys le = elim (Bool-cases (starts_with xs ys)) [
  | inl h ↦ starts_with-take k xs ys h le ∙ sym h
  | inr absent ↦ elim (Bool-cases (starts_with (take k xs) ys)) [
    | inl h ↦ absurd (true_ne_false (sym (starts_with_of_take k xs ys h) ∙ absent))
    | inr cut_absent ↦ cut_absent ∙ sym absent
  ]
]

pub drop-take : (k : ℕ) (xs : Bytes) → drop 2 (take (k + 2) xs) ≡ take k (drop 2 xs)
drop-take k [] = rw (take-nil (k + 2), take-nil k) refl
drop-take k (x ∷ []) =
    let two : k + 2 ≡ suc (suc k) = omega arith in rw (two, take-nil (suc k), take-nil k) refl
drop-take k (x ∷ y ∷ xs) = let two : k + 2 ≡ suc (suc k) = omega arith in rw two refl

-- a list of two bytes or more
pub two_more :
    (xs : Bytes) → 2 ≤ length xs → (a : ℕ) × (b : ℕ) × (rest : Bytes) × (xs ≡ a ∷ b ∷ rest)
two_more [] le = absurd (omega arith)
two_more (a ∷ []) le = absurd (omega arith)
two_more (a ∷ b ∷ rest) le = (a, b, rest, refl)

-- chunks that do not begin with the boundary do not pass the assertion
pub disagrees :
    (boundary first second : Bytes) (size : ℕ)
    → starts_with (first ++ second) boundary ≡ false
    → check_boundary_split boundary first (take size second) ≡ false
unfolding check_boundary_split
disagrees boundary first second size absent =
    let cut = take size second in
    let k = length boundary - length first in
    elim (Bool-cases (leb k (length cut))) [
      | inr short ↦ rw short refl
      | inl room ↦ elim (Bool-cases (zip_all_eq (first ++ take k cut) boundary)) [
        | inr differs ↦ rw (room, differs) refl
        | inl agrees ↦
            let enough : length boundary ≤ length (first ++ take k cut) =
              omega (tests, room, length-append first (take k cut), length-take k cut) in
            let starts =
              starts_with_of_front k first cut boundary
                (starts_with_of_zip (first ++ take k cut) boundary agrees enough) in
            absurd (
              true_ne_false (sym (starts_with_of_front size first second boundary starts) ∙ absent))
      ]
    ]

-- less than two bytes are not "--"
pub check_last_two-short : (bytes : Bytes) → length bytes ≤ 1 → check_last_two bytes ≡ false
unfolding check_last_two ends_with
check_last_two-short bytes le = ground arith

-- how a boundary lies across two chunks
pub boundary_tail :
    (first second boundary : Bytes)
    → starts_with (first ++ second) boundary ≡ true
    → length first ≤ length boundary
    → (tail : Bytes) × (boundary ≡ first ++ tail) × (starts_with second tail ≡ true)
unfolding starts_with
boundary_tail [] second boundary h le = (boundary, refl, h)
boundary_tail (x ∷ xs) second [] h le = absurd (omega arith)
boundary_tail (x ∷ xs) second (y ∷ ys) h le =
    let same : x ≡ y = ground arith in
    let more : starts_with (xs ++ second) ys ≡ true = ground arith in
    let (tail, e, starts) = boundary_tail xs second ys more (omega arith) in
    (tail, ap (λ z. z ∷ ys) (sym same) ∙ ap (◌∷◌ x) e, starts)

pub boundary_in_first :
    (first second boundary : Bytes)
    → starts_with (first ++ second) boundary ≡ true
    → length boundary ≤ length first
    → starts_with first boundary ≡ true
boundary_in_first first second boundary h le =
    subst (λ x. starts_with x boundary ≡ true) (take-length first second)
      (starts_with-take (length first) (first ++ second) boundary h le)

pub nonempty_head : (xs : Bytes) → 0 < length xs → (x : ℕ) × (rest : Bytes) × (xs ≡ x ∷ rest)
nonempty_head [] lt = absurd (omega arith)
nonempty_head (x ∷ rest) lt = (x, rest, refl)
