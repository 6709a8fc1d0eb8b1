-- ===== src/Search/Slices.antt =====
-- Laws of the tests on slices: `starts_with` and `zip(..).all(==)`.
use multipart_async.Base.{
  ℕ, zero, suc, ◌≤◌, ◌≡◌, refl, true, [], ◌∷◌, ◌++◌, Bytes, length, take, drop, arith,
}
use multipart_async.Search.{starts_with, zip_all_eq, bytes_eq}

pub starts_with-append : (ys rest : Bytes) → starts_with (ys ++ rest) ys ≡ true
unfolding starts_with
starts_with-append [] rest = refl
starts_with-append (y ∷ ys) rest = ground (arith, starts_with-append ys rest)

pub starts_with-split : (xs ys : Bytes) → starts_with xs ys ≡ true → xs ≡ ys ++ drop (length ys) xs
unfolding starts_with
starts_with-split xs [] h = refl
starts_with-split [] (y ∷ ys) h = cc
starts_with-split (x ∷ xs) (y ∷ ys) h = ground (arith, starts_with-split xs ys)

pub starts_with-length : (xs ys : Bytes) → starts_with xs ys ≡ true → length ys ≤ length xs
unfolding starts_with
starts_with-length xs [] h = omega arith
starts_with-length [] (y ∷ ys) h = cc
starts_with-length (x ∷ xs) (y ∷ ys) h = ground (arith, starts_with-length xs ys)

pub zip_all_eq_of_starts_with : (xs ys : Bytes) → starts_with xs ys ≡ true → zip_all_eq xs ys ≡ true
unfolding starts_with zip_all_eq
zip_all_eq_of_starts_with [] [] h = refl
zip_all_eq_of_starts_with (x ∷ xs) [] h = refl
zip_all_eq_of_starts_with [] (y ∷ ys) h = refl
zip_all_eq_of_starts_with (x ∷ xs) (y ∷ ys) h = ground (arith, zip_all_eq_of_starts_with xs ys)

pub starts_with_of_zip :
    (xs ys : Bytes) → zip_all_eq xs ys ≡ true → length ys ≤ length xs → starts_with xs ys ≡ true
unfolding starts_with zip_all_eq
starts_with_of_zip xs [] h le = refl
starts_with_of_zip [] (y ∷ ys) h le = absurd (omega arith)
starts_with_of_zip (x ∷ xs) (y ∷ ys) h le = ground (arith, starts_with_of_zip xs ys)

-- A prefix of what agrees agrees.
pub zip_all_eq_left : (xs ys zs : Bytes) → zip_all_eq (xs ++ ys) zs ≡ true → zip_all_eq xs zs ≡ true
unfolding zip_all_eq
zip_all_eq_left [] ys zs h = refl
zip_all_eq_left (x ∷ xs) ys [] h = refl
zip_all_eq_left (x ∷ xs) ys (z ∷ zs) h = ground (arith, zip_all_eq_left xs ys zs)

pub zip_all_eq-take :
    (xs ys zs : Bytes) (k : ℕ)
    → zip_all_eq (xs ++ ys) zs ≡ true
    → zip_all_eq (xs ++ take k ys) zs ≡ true
unfolding zip_all_eq
zip_all_eq-take (x ∷ xs) ys [] k h = refl
zip_all_eq-take (x ∷ xs) ys (z ∷ zs) k h = ground (arith, zip_all_eq-take xs ys zs k)
zip_all_eq-take [] ys zs zero h = refl
zip_all_eq-take [] [] zs (suc k) h = refl
zip_all_eq-take [] (y ∷ ys) [] (suc k) h = refl
zip_all_eq-take [] (y ∷ ys) (z ∷ zs) (suc k) h = ground (arith, zip_all_eq-take [] ys zs k)

pub zip_all_eq_nil : (xs : Bytes) → zip_all_eq xs [] ≡ true
unfolding zip_all_eq
zip_all_eq_nil [] = refl
zip_all_eq_nil (x ∷ xs) = refl

pub zip_all_eq-drop :
    (k : ℕ) (xs ys : Bytes) → zip_all_eq xs ys ≡ true → zip_all_eq (drop k xs) (drop k ys) ≡ true
unfolding zip_all_eq
zip_all_eq-drop zero xs ys h = h
zip_all_eq-drop (suc k) [] ys h = refl
zip_all_eq-drop (suc k) (x ∷ xs) [] h = zip_all_eq_nil (drop k xs)
zip_all_eq-drop (suc k) (x ∷ xs) (y ∷ ys) h = ground (arith, zip_all_eq-drop k xs ys)

pub bytes_eq→eq : (xs ys : Bytes) → bytes_eq xs ys ≡ true → xs ≡ ys
unfolding bytes_eq
bytes_eq→eq [] [] h = refl
bytes_eq→eq (x ∷ xs) (y ∷ ys) h = ground (arith, bytes_eq→eq xs ys)
bytes_eq→eq [] (y ∷ ys) h = cc
bytes_eq→eq (x ∷ xs) [] h = cc

pub bytes_eq_refl : (xs : Bytes) → bytes_eq xs xs ≡ true
unfolding bytes_eq
bytes_eq_refl [] = refl
bytes_eq_refl (x ∷ xs) = ground (arith, bytes_eq_refl xs)

pub starts_with-take :
    (k : ℕ) (xs ys : Bytes)
    → starts_with xs ys ≡ true
    → length ys ≤ k
    → starts_with (take k xs) ys ≡ true
unfolding starts_with
starts_with-take k xs [] h le = refl
starts_with-take k [] (y ∷ ys) h le = cc
starts_with-take zero (x ∷ xs) (y ∷ ys) h le = absurd (omega arith)
starts_with-take (suc k) (x ∷ xs) (y ∷ ys) h le = ground (arith, starts_with-take k xs ys)
