-- ===== src/Finder/Confirmed.antt =====
-- What `confirm_boundary` of src/server/boundary.rs does with any chunk.
use multipart_async.Base.{
  ℕ, ◌+◌, ◌-◌, ◌≤◌, ◌<◌, ◌≡◌, sym, ap, ◌∙◌, subst, ◌⊎◌, inl, inr, Bool, true, false, [], ◌∷◌, ◌++◌,
  Bytes, length, take, drop, Outcome, value, panic, arith, ltb, leb, Bool-cases, length-append,
  length-take, length-drop, take-append_right, drop-append_right, tests, debug_assertion,
}
use multipart_async.Chunk.{split_into-value}
use multipart_async.Stream.{Poll, Result, ready, ok, err, Error, parsing, boundary_too_short}
use multipart_async.Search.{crlf, dashes, starts_with, boundary_size, check_boundary}
use multipart_async.Search.Slices.{starts_with-append, starts_with-split}
use multipart_async.Search.Zero.{IsBoundary}
use multipart_async.Finder.{State, end, Finder, set_state, confirm_boundary}
use multipart_async.Finder.Spec.{IsWhole}
use multipart_async.Finder.Confirm.{next_state, confirm_boundary-eq}
use multipart_async.Search.Ends.{
  check_last_two-eq, check_last_two-NotDashes, dashes-cases, starts_with-take_eq, drop-take,
  two_more, NotDashes,
}

module _ {E : Type 0} (f : Finder E) where
  -- What `confirm_boundary` returns of a chunk.
  pub data Confirmed : Bytes → Outcome (Poll (Result Bool (Error E)) × Finder E) → Type 0 where
    too_short :
        (bnd : Bytes)
        → length bnd < length f.boundary + 2
        → Confirmed bnd (value (ready (err (parsing (boundary_too_short bnd))), f))
    last_boundary :
        (rest : Bytes)
        → Confirmed (f.boundary ++ (dashes ++ rest)) (value (ready (ok false), set_state f end))
    next_field :
        (a b : ℕ) (rest : Bytes)
        → NotDashes a b
        → Confirmed
            (f.boundary ++ (a ∷ b ∷ rest))
            (value (ready (ok true), set_state f (next_state rest)))
    -- two bytes that are no newline stand in front of the boundary
    two_bytes_late :
        (bnd : Bytes) (answer : Bool) (s : State)
        → starts_with bnd crlf ≡ false
        → starts_with bnd f.boundary ≡ false
        → starts_with (drop 2 bnd) f.boundary ≡ true
        → Confirmed bnd (value (ready (ok answer), set_state f s))
    refused :
        (bnd : Bytes)
        → length f.boundary + 2 ≤ length bnd
        → starts_with bnd f.boundary ≡ false
        → (starts_with bnd crlf ≡ true) ⊎ (starts_with (drop 2 bnd) f.boundary ≡ false)
        → Confirmed bnd (panic debug_assertion)

  front-Confirmed :
      (a b : ℕ) (rest : Bytes)
      → IsBoundary f.boundary
      → Confirmed (f.boundary ++ (a ∷ b ∷ rest)) (confirm_boundary f (f.boundary ++ (a ∷ b ∷ rest)))
  front-Confirmed a b rest good =
      let bnd = f.boundary ++ (a ∷ b ∷ rest) in
      let size = length f.boundary + 2 in
      let two : size - length f.boundary ≡ 2 = omega arith in
      let front : take size bnd ≡ f.boundary ++ (a ∷ b ∷ []) =
        take-append_right size f.boundary (a ∷ b ∷ rest) (omega arith)
        ∙ ap (λ k. f.boundary ++ take k (a ∷ b ∷ rest)) two in
      let back : drop size bnd ≡ rest =
        drop-append_right size f.boundary (a ∷ b ∷ rest) (omega arith)
        ∙ ap (λ k. drop k (a ∷ b ∷ rest)) two in
      let whole : IsWhole f.boundary bnd = record {
        starts = starts_with-append f.boundary (a ∷ b ∷ rest);
        long = omega (arith, length-append f.boundary (a ∷ b ∷ rest));
      } in
      rw (confirm_boundary-eq f bnd good whole, front, back)
        (elim (dashes-cases a b) [
          | inl (e, e') ↦ rw (e, e', check_last_two-eq f.boundary b'-' b'-') (last_boundary rest)
          | inr ne ↦ rw (check_last_two-NotDashes f.boundary a b ne) (next_field a b rest ne)
        ])

  -- the boundary is not at the beginning
  late-Confirmed :
      (bnd : Bytes)
      → length f.boundary + 2 ≤ length bnd
      → starts_with bnd f.boundary ≡ false
      → Confirmed bnd (confirm_boundary f bnd)
  unfolding confirm_boundary boundary_size check_boundary
  late-Confirmed bnd long absent =
      let len = length f.boundary in
      let fits : ltb (length bnd) (len + 2) ≡ false = ground arith in
      let two : leb 2 (length (take (len + 2) bnd)) ≡ true =
        ground (arith, length-take (len + 2) bnd, long) in
      let front = starts_with-take_eq (len + 2) bnd f.boundary (omega arith) ∙ absent in
      let newline = starts_with-take_eq (len + 2) bnd crlf (omega arith) in
      let back : starts_with (drop 2 (take (len + 2) bnd)) f.boundary
          ≡ starts_with (drop 2 bnd) f.boundary =
        ap (λ x. starts_with x f.boundary) (drop-take len bnd)
        ∙ starts_with-take_eq len (drop 2 bnd) f.boundary (omega arith) in
      rw (fits, split_into-value bnd (len + 2) long, newline, two, back, front)
        (elim (Bool-cases (starts_with bnd crlf)) [
          | inl begins ↦ rw begins (refused bnd long absent (inl begins))
          | inr plain ↦ elim (Bool-cases (starts_with (drop 2 bnd) f.boundary)) [
            | inl present ↦ rw (plain, present) (two_bytes_late bnd _ _ plain absent present)
            | inr none_there ↦ rw (plain, none_there) (refused bnd long absent (inr none_there))
          ]
        ])

  whole-Confirmed :
      (bnd tail : Bytes)
      → IsBoundary f.boundary
      → bnd ≡ f.boundary ++ tail
      → 2 ≤ length tail
      → Confirmed bnd (confirm_boundary f bnd)
  whole-Confirmed bnd tail good e le =
      let (a, b, rest, e') = two_more tail le in
      subst (λ x. Confirmed x (confirm_boundary f x)) (sym (e ∙ ap (λ t. f.boundary ++ t) e'))
        (front-Confirmed a b rest good)

  short-Confirmed :
      (bnd : Bytes) → length bnd < length f.boundary + 2 → Confirmed bnd (confirm_boundary f bnd)
  unfolding confirm_boundary boundary_size
  short-Confirmed bnd short =
      let fits : ltb (length bnd) (length f.boundary + 2) ≡ true = ground arith in
      rw fits (too_short bnd short)

  -- `confirm_boundary` of a chunk that begins with the boundary takes it off with the two bytes behind it, and
  -- answers that a field follows unless these are "--"; then the finder is at its end. A chunk that is
  -- too short is an error. A chunk that begins with a newline, or has the boundary neither at the beginning
  -- nor behind two bytes, is refused by the debug assertion. If the boundary stands behind two other bytes
  -- only, the method returns without an error; its answer is not stated. The boundary begins with neither CR
  -- nor LF.
  pub confirm_boundary-Confirmed :
      (bnd : Bytes) → IsBoundary f.boundary → Confirmed bnd (confirm_boundary f bnd)
  confirm_boundary-Confirmed bnd good =
      elim (Bool-cases (ltb (length bnd) (length f.boundary + 2))) [
        | inl short ↦ short-Confirmed bnd (omega (tests, short))
        | inr enough ↦
            let long : length f.boundary + 2 ≤ length bnd = ground arith in
            elim (Bool-cases (starts_with bnd f.boundary)) [
              | inl starts ↦
                  whole-Confirmed bnd (drop (length f.boundary) bnd) good
                    (starts_with-split bnd f.boundary starts)
                    (omega (arith, long, length-drop (length f.boundary) bnd))
              | inr absent ↦ late-Confirmed bnd long absent
            ]
      ]
