-- ===== src/Search/Naive.antt =====
-- A search that meets the documentation of `twoway::find_bytes`, by trying every position.
use multipart_async.Base.{
  ℕ, zero, suc, ◌≤◌, ◌<◌, ◌≡◌, refl, true, false, [], ◌∷◌, Bytes, length, drop, is_empty, Option,
  none, some, arith, if◌then◌else◌,
}
use multipart_async.Search.{Twoway, starts_with}

shift : Option ℕ → Option ℕ
shift none = none
shift (some i) = some (suc i)

unfoldable pub find_naive : Bytes → Bytes → Option ℕ
unfolding shift starts_with
find_naive [] needle = if is_empty needle then some 0 else none
find_naive (x ∷ xs) needle =
    if starts_with (x ∷ xs) needle then some 0 else shift (find_naive xs needle)

pub find_naive-starts_with :
    (hay needle : Bytes) (i : ℕ)
    → find_naive hay needle ≡ some i
    → (i ≤ length hay) × (starts_with (drop i hay) needle ≡ true)
unfolding find_naive
find_naive-starts_with [] [] i h = ground arith
find_naive-starts_with [] (y ∷ ys) i h = ground arith
find_naive-starts_with (x ∷ xs) needle zero h = ground arith
find_naive-starts_with (x ∷ xs) needle (suc i) h =
    ground (arith, find_naive-starts_with xs needle i)

pub find_naive-first :
    (hay needle : Bytes) (i j : ℕ)
    → find_naive hay needle ≡ some i
    → j < i
    → starts_with (drop j hay) needle ≡ false
unfolding find_naive
find_naive-first [] needle i j h lt = ground arith
find_naive-first (x ∷ xs) needle zero j h lt = absurd (omega arith)
find_naive-first (x ∷ xs) needle (suc i) zero h lt = ground arith
find_naive-first (x ∷ xs) needle (suc i) (suc j) h lt =
    ground (arith, find_naive-first xs needle i j)

pub find_naive-none :
    (hay needle : Bytes) (j : ℕ)
    → find_naive hay needle ≡ none
    → j ≤ length hay
    → starts_with (drop j hay) needle ≡ false
unfolding find_naive
find_naive-none [] [] j h le = ground arith
find_naive-none [] (y ∷ ys) zero h le = unfold starts_with in refl
find_naive-none [] (y ∷ ys) (suc j) h le = absurd (omega arith)
find_naive-none (x ∷ xs) needle zero h le = ground arith
find_naive-none (x ∷ xs) needle (suc j) h le = ground (arith, find_naive-none xs needle j)

abbrev pub naive : Twoway
naive = record {
  find_bytes = find_naive;
  find-starts_with = find_naive-starts_with;
  find-first = find_naive-first;
  find-none = find_naive-none;
}
