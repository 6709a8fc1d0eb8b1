-- ===== src/Finder/Confirm.antt =====
-- `confirm_boundary` and `confirm_boundary_split`: from a finder in order neither can fail.
use multipart_async.Base.{
  ◌+◌, ◌-◌, ◌≤◌, ◌≡◌, refl, true, false, not, [], ◌∷◌, ◌++◌, Bytes, length, take, drop, is_empty,
  value, arith, append-nil, ltb, leb, if◌then◌else◌, length-take, length-append,
}
use multipart_async.Chunk.{split_into-value}
use multipart_async.Stream.{ready, ok}
use multipart_async.Search.{crlf, starts_with, boundary_size, check_boundary, check_last_two}
use multipart_async.Search.Slices.{starts_with-take, zip_all_eq_of_starts_with, zip_all_eq-take}
use multipart_async.Search.Zero.{IsBoundary}
use multipart_async.Finder.{
  State, watching, remainder, end, Finder, set_state, confirm_boundary, confirm_boundary_split,
}
use multipart_async.Finder.Spec.{IsWhole}
use multipart_async.Finder.Second.{agrees-split}

-- A boundary begins with no newline, nor does any first part of it.
no_newline :
    (boundary first second : Bytes)
    → IsBoundary boundary
    → starts_with (first ++ second) boundary ≡ true
    → starts_with first crlf ≡ false
unfolding starts_with
no_newline [] first second good h = absurd good
no_newline (b ∷ bs) [] second good h = refl
no_newline (b ∷ bs) (x ∷ xs) second good h = ground arith

-- The state behind a boundary that is not the last one.
abbrev pub next_state : Bytes → State
next_state rem = if is_empty rem then watching else remainder rem

module _ {E : Type 0} where
  -- A whole boundary in one chunk, with two bytes behind it, is taken off the chunk without a panic: if
  -- the two bytes are "--" the finder is at its end, else a field follows and what is left of the chunk
  -- comes next. The boundary begins with neither CR nor LF.
  pub confirm_boundary-eq :
      (f : Finder E) (bnd : Bytes)
      → IsBoundary f.boundary
      → IsWhole f.boundary bnd
      → let size = length f.boundary + 2 in
        let is_end = check_last_two (take size bnd) in
        confirm_boundary f bnd
        ≡ value (
          ready (ok (not is_end)),
          set_state f (if is_end then end else next_state (drop size bnd)),
        )
  unfolding confirm_boundary boundary_size check_boundary
  confirm_boundary-eq f bnd good whole =
      let size = length f.boundary + 2 in
      let starts = starts_with-take size bnd f.boundary whole.starts (omega arith) in
      let plain = no_newline f.boundary (take size bnd) [] good (rw append-nil starts) in
      rw (split_into-value bnd size whole.long, plain) (ground (arith, whole.long, starts))

  -- A whole boundary across two chunks, the first no longer than the boundary and two bytes, is taken
  -- off the second without a panic. The answer depends on whether the part that lies in the second chunk
  -- ends with "--". The boundary begins with neither CR nor LF.
  pub confirm_boundary_split-eq :
      (f : Finder E) (first second : Bytes)
      → IsBoundary f.boundary
      → length first ≤ length f.boundary + 2
      → IsWhole f.boundary (first ++ second)
      → let size = length f.boundary + 2 - length first in
        let is_end = check_last_two (take size second) in
        confirm_boundary_split f first second
        ≡ value (
          ready (ok (not is_end)),
          set_state f (if is_end then end else remainder (drop size second)),
        )
  unfolding confirm_boundary_split boundary_size
  confirm_boundary_split-eq f first second good le whole =
      let size = length f.boundary + 2 - length first in
      let room : size ≤ length second = omega (arith, whole.long, length-append first second) in
      let plain = no_newline f.boundary first second good whole.starts in
      let agrees =
        zip_all_eq-take first second f.boundary size (zip_all_eq_of_starts_with _ _ whole.starts) in
      let enough : length f.boundary ≤ length first + length (take size second) =
        omega (arith, length-take size second, room) in
      let split_agrees = agrees-split f.boundary first (take size second) agrees enough in
      let fits : leb (length first) (length f.boundary + 2) ≡ true = ground arith in
      let long : ltb (length second) size ≡ false = ground arith in
      rw (fits, long, split_into-value second size room, plain, split_agrees)
