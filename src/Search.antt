-- ===== src/Search.antt =====
-- src/server/boundary.rs: `SearchResult` and the searches of the boundary in one chunk, or in a
-- chunk and its successor. `find_bytes` is `twoway::find_bytes`, of another crate: an argument.
--
-- A slice whose bounds the code has just tested, or has from `find_bytes`, is written with `take`
-- and `drop`; where the bound is not evident the slice is one that may panic (in Finder).
pub mod Naive
pub mod Slices
pub mod Cases
pub mod Locate
pub mod Zero
pub mod Ends
use multipart_async.Base.{
  ℕ, ◌+◌, ◌-◌, ◌≤◌, ◌<◌, Bool, true, false, ◌&&◌, ◌||◌, ◌≡◌, [], ◌∷◌, Bytes, length, take, drop,
  ◌++◌, is_empty, Option, none, some, leb, ◌==◌, if◌then◌else◌,
}

abbrev pub crlf : Bytes
crlf = b'\r' ∷ b'\n' ∷ []

abbrev pub dashes : Bytes
dashes = b'-' ∷ b'-' ∷ []

-- `bytes.starts_with(needle)`
unfoldable pub starts_with : Bytes → Bytes → Bool
starts_with bytes [] = true
starts_with [] (y ∷ ys) = false
starts_with (x ∷ xs) (y ∷ ys) = x == y && starts_with xs ys

-- `left.zip(right).all(|(l, r)| l == r)`
unfoldable pub zip_all_eq : Bytes → Bytes → Bool
zip_all_eq [] right = true
zip_all_eq (x ∷ xs) [] = true
zip_all_eq (x ∷ xs) (y ∷ ys) = x == y && zip_all_eq xs ys

-- `==` on slices
unfoldable pub bytes_eq : Bytes → Bytes → Bool
bytes_eq [] [] = true
bytes_eq (x ∷ xs) (y ∷ ys) = x == y && bytes_eq xs ys
bytes_eq _ _ = false

-- `bytes.ends_with(needle)`
unfoldable pub ends_with : Bytes → Bytes → Bool
unfolding bytes_eq
ends_with bytes needle =
    leb (length needle) (length bytes)
    && bytes_eq (drop (length bytes - length needle) bytes) needle

-- `twoway::find_bytes`, as documented: the index of the first occurrence, if there is one.
pub record Twoway : Type 0 where
  pub find_bytes : Bytes → Bytes → Option ℕ
  pub find-starts_with :
      (hay needle : Bytes) (i : ℕ)
      → find_bytes hay needle ≡ some i
      → (i ≤ length hay) × (starts_with (drop i hay) needle ≡ true)
  pub find-first :
      (hay needle : Bytes) (i j : ℕ)
      → find_bytes hay needle ≡ some i
      → j < i
      → starts_with (drop j hay) needle ≡ false
  pub find-none :
      (hay needle : Bytes) (j : ℕ)
      → find_bytes hay needle ≡ none
      → j ≤ length hay
      → starts_with (drop j hay) needle ≡ false

pub record SearchResult : Type 0 where
  pub idx : ℕ
  pub incl_crlf : Bool

-- `SearchResult::boundary_start`
unfoldable pub boundary_start : SearchResult → ℕ
boundary_start res = if res.incl_crlf then res.idx + 2 else res.idx

-- `check_crlf`
unfoldable pub check_crlf : Bytes → ℕ → SearchResult
unfolding bytes_eq
check_crlf chunk idx =
    if leb 2 idx && bytes_eq (take 2 (drop (idx - 2) chunk)) crlf
    then record { idx = idx - 2; incl_crlf = true }
    else record { idx = idx; incl_crlf = false }

-- `check_last_two`, less its warning
unfoldable pub check_last_two : Bytes → Bool
unfolding ends_with
check_last_two boundary = ends_with boundary dashes

-- `BoundaryFinder::boundary_size`
unfoldable pub boundary_size : Bytes → Bool → ℕ
boundary_size boundary incl_crlf = length boundary + (if incl_crlf then 4 else 2)

-- `BoundaryFinder::is_boundary_prefix`
unfoldable pub is_boundary_prefix : Bytes → Bytes → Bytes → SearchResult → Bool
is_boundary_prefix boundary first second res =
    if res.incl_crlf
    then zip_all_eq (first ++ second) (crlf ++ boundary)
    else zip_all_eq (first ++ second) boundary

-- `BoundaryFinder::check_boundary`
unfoldable pub check_boundary : Bytes → Bytes → Bool
check_boundary boundary bytes =
    (leb 2 (length bytes) && starts_with (drop 2 bytes) boundary) || starts_with bytes boundary

-- `BoundaryFinder::check_boundary_split`
unfoldable pub check_boundary_split : Bytes → Bytes → Bytes → Bool
check_boundary_split boundary first second =
    let check_len = length boundary - length first in
    leb check_len (length second) && zip_all_eq (first ++ take check_len second) boundary

-- The newline before the boundary, at the end of a chunk: the edge case of `partial_find_boundary`.
unfoldable pub find_newline_at_end : Bytes → Option SearchResult
unfolding bytes_eq
find_newline_at_end chunk =
    let len = length chunk in
    if leb 2 len && bytes_eq (drop (len - 2) chunk) crlf
    then some (record { idx = len - 2; incl_crlf = true })
    else if leb 1 len && bytes_eq (drop (len - 1) chunk) (b'\r' ∷ [])
    then some (record { idx = len - 1; incl_crlf = true })
    else none

module _ ⦃tw : Twoway⦄ where
  -- `partial_rmatch`
  unfoldable pub partial_rmatch : Bytes → Bytes → Option ℕ
  partial_rmatch haystack needle =
      if is_empty haystack || is_empty needle
      then none
      else let trim_start = length haystack - (length needle - 1) in
        elim (tw.find_bytes (drop trim_start haystack) (take 1 needle)) [
          | none ↦ none
          | some i ↦
              if zip_all_eq (drop (i + trim_start) haystack) needle
              then some (i + trim_start)
              else none
        ]

  -- `BoundaryFinder::partial_find_boundary`
  unfoldable pub partial_find_boundary : Bytes → Bytes → Option SearchResult
  partial_find_boundary boundary chunk = elim (partial_rmatch chunk boundary) [
    | some idx ↦ some (check_crlf chunk idx)
    | none ↦ find_newline_at_end chunk
  ]

  -- `BoundaryFinder::find_boundary`
  unfoldable pub find_boundary : Bytes → Bytes → Option SearchResult
  find_boundary boundary chunk = elim (tw.find_bytes chunk boundary) [
    | some idx ↦ some (check_crlf chunk idx)
    | none ↦ partial_find_boundary boundary chunk
  ]
