-- ===== src/Finder/ConfirmedSplit.antt =====
-- What `confirm_boundary_split` of src/server/boundary.rs does with any two chunks.
use multipart_async.Base.{
  ℕ, ◌+◌, ◌-◌, ◌≤◌, ◌<◌, ◌≡◌, sym, ap, ◌∙◌, subst, inl, inr, Bool, true, false, [], ◌∷◌, ◌++◌,
  Bytes, length, take, drop, Outcome, value, panic, arith, ltb, leb, Bool-cases, length-append,
  length-take, length-drop, take-append_right, drop-append_right, append_assoc, suc, tests,
  debug_assertion, sub_overflow,
}
use multipart_async.Chunk.{split_into-value}
use multipart_async.Stream.{Poll, Result, ready, ok, err, Error, parsing, split_boundary_too_short}
use multipart_async.Search.{crlf, dashes, starts_with, boundary_size}
use multipart_async.Search.Slices.{starts_with-append, starts_with-split}
use multipart_async.Search.Zero.{IsBoundary}
use multipart_async.Finder.{remainder, end, Finder, set_state, confirm_boundary_split}
use multipart_async.Finder.Spec.{IsWhole}
use multipart_async.Finder.Confirm.{confirm_boundary_split-eq}
use multipart_async.Search.Ends.{
  check_last_two-eq, check_last_two-NotDashes, dashes-cases, two_more, disagrees,
  check_last_two-short, boundary_tail, boundary_in_first, nonempty_head, NotDashes,
}

module _ {E : Type 0} (f : Finder E) where
  -- What `confirm_boundary_split` returns of two chunks.
  pub data SplitConfirmed (first : Bytes)
      : Bytes → Outcome (Poll (Result Bool (Error E)) × Finder E) → Type 0 where
    first_too_long :
        (second : Bytes)
        → length f.boundary + 2 < length first
        → SplitConfirmed first second (panic sub_overflow)
    both_too_short :
        (second : Bytes)
        → length first + length second < length f.boundary + 2
        → SplitConfirmed first second
            (value (ready (err (parsing (split_boundary_too_short first second))), f))
    last_boundary_split :
        (tail rest : Bytes)
        → f.boundary ≡ first ++ tail
        → SplitConfirmed first
            (tail ++ (dashes ++ rest))
            (value (ready (ok false), set_state f end))
    next_field_split :
        (tail : Bytes) (a b : ℕ) (rest : Bytes)
        → f.boundary ≡ first ++ tail
        → NotDashes a b
        → SplitConfirmed first
            (tail ++ (a ∷ b ∷ rest))
            (value (ready (ok true), set_state f (remainder rest)))
    -- a byte behind the boundary lies in the first chunk already, and is not looked at
    behind_boundary :
        (x : ℕ) (xs second : Bytes)
        → first ≡ f.boundary ++ (x ∷ xs)
        → length xs ≤ 1
        → length f.boundary + 2 ≤ length first + length second
        → SplitConfirmed first second
            (value (ready (ok true), set_state f (remainder (drop (1 - length xs) second))))
    refused_split :
        (second : Bytes)
        → length first ≤ length f.boundary + 2
        → length f.boundary + 2 ≤ length first + length second
        → starts_with (first ++ second) f.boundary ≡ false
        → SplitConfirmed first second (panic debug_assertion)

  -- the first chunk lies within the boundary
  tail-SplitConfirmed :
      (first tail : Bytes) (a b : ℕ) (rest : Bytes)
      → IsBoundary f.boundary
      → f.boundary ≡ first ++ tail
      → SplitConfirmed first
          (tail ++ (a ∷ b ∷ rest))
          (confirm_boundary_split f first (tail ++ (a ∷ b ∷ rest)))
  tail-SplitConfirmed first tail a b rest good e =
      let second = tail ++ (a ∷ b ∷ rest) in
      let len : length f.boundary ≡ length first + length tail =
        ap length e ∙ length-append first tail in
      let size : length f.boundary + 2 - length first ≡ length tail + 2 = omega (arith, len) in
      let two : length tail + 2 - length tail ≡ 2 = omega arith in
      let front : take (length tail + 2) second ≡ tail ++ (a ∷ b ∷ []) =
        take-append_right (length tail + 2) tail (a ∷ b ∷ rest) (omega arith)
        ∙ ap (λ k. tail ++ take k (a ∷ b ∷ rest)) two in
      let back : drop (length tail + 2) second ≡ rest =
        drop-append_right (length tail + 2) tail (a ∷ b ∷ rest) (omega arith)
        ∙ ap (λ k. drop k (a ∷ b ∷ rest)) two in
      let whole : IsWhole f.boundary (first ++ second) = record {
        starts =
            subst (λ x. starts_with x f.boundary ≡ true)
              (ap (λ x. x ++ (a ∷ b ∷ rest)) e ∙ append_assoc first tail (a ∷ b ∷ rest))
              (starts_with-append f.boundary (a ∷ b ∷ rest));
        long = omega (arith, len, length-append first second, length-append tail (a ∷ b ∷ rest));
      } in
      rw
        (
          confirm_boundary_split-eq f first second good (omega (arith, len)) whole,
          size,
          front,
          back,
        )
        (elim (dashes-cases a b) [
          | inl (is_dash, is_dash') ↦
              rw (is_dash, is_dash', check_last_two-eq tail b'-' b'-')
                (last_boundary_split tail rest e)
          | inr ne ↦ rw (check_last_two-NotDashes tail a b ne) (next_field_split tail a b rest e ne)
        ])

  within-SplitConfirmed :
      (first second : Bytes)
      → IsBoundary f.boundary
      → starts_with (first ++ second) f.boundary ≡ true
      → length first ≤ length f.boundary
      → length f.boundary + 2 ≤ length first + length second
      → SplitConfirmed first second (confirm_boundary_split f first second)
  within-SplitConfirmed first second good starts within long =
      let (tail, e, follows) = boundary_tail first second f.boundary starts within in
      let parts = starts_with-split second tail follows in
      let (a, b, rest, e') = two_more (drop (length tail) second) (
        omega
          (arith, long, ap length e, length-append first tail, length-drop (length tail) second)) in
      subst (λ x. SplitConfirmed first x (confirm_boundary_split f first x))
        (sym (parts ∙ ap (λ t. tail ++ t) e')) (tail-SplitConfirmed first tail a b rest good e)

  -- the first chunk holds the boundary and a byte more
  behind-SplitConfirmed :
      (first second : Bytes)
      → IsBoundary f.boundary
      → starts_with (first ++ second) f.boundary ≡ true
      → length f.boundary < length first
      → length first ≤ length f.boundary + 2
      → length f.boundary + 2 ≤ length first + length second
      → SplitConfirmed first second (confirm_boundary_split f first second)
  behind-SplitConfirmed first second good starts more le long =
      let len = length f.boundary in
      let in_first = boundary_in_first first second f.boundary starts (omega arith) in
      let parts = starts_with-split first f.boundary in_first in
      let (x, xs, e) = nonempty_head (drop len first) (omega (arith, length-drop len first)) in
      let lengths : length first - len ≡ suc (length xs) =
        sym (length-drop len first) ∙ ap length e in
      let size : len + 2 - length first ≡ 1 - length xs = omega (arith, lengths, more) in
      let whole : IsWhole f.boundary (first ++ second) = record {
        starts = starts;
        long = omega (arith, length-append first second, long);
      } in
      let not_last =
        check_last_two-short (take (1 - length xs) second)
          (omega (arith, length-take (1 - length xs) second)) in
      rw (confirm_boundary_split-eq f first second good le whole, size, not_last)
        (behind_boundary x xs second (parts ∙ ap (λ t. f.boundary ++ t) e)
          (omega (arith, lengths, more, le)) long)

  -- the boundary is not at the beginning, or there is no room for the two bytes behind it
  absent-SplitConfirmed :
      (first second : Bytes)
      → IsBoundary f.boundary
      → length first ≤ length f.boundary + 2
      → length f.boundary + 2 ≤ length first + length second
      → starts_with (first ++ second) f.boundary ≡ false
      → SplitConfirmed first second (confirm_boundary_split f first second)
  unfolding confirm_boundary_split boundary_size
  absent-SplitConfirmed first second good le long absent =
      let len = length f.boundary in
      let size = len + 2 - length first in
      let fits : leb (length first) (len + 2) ≡ true = ground arith in
      let room : ltb (length second) size ≡ false = ground arith in
      rw
        (
          fits,
          room,
          split_into-value second size (omega arith),
          disagrees f.boundary first second size absent,
        )
        (elim (Bool-cases (starts_with first crlf)) [
          | inl begins ↦ rw begins (refused_split second le long absent)
          | inr plain ↦ rw plain (refused_split second le long absent)
        ])

  short-SplitConfirmed :
      (first second : Bytes)
      → length first ≤ length f.boundary + 2
      → length first + length second < length f.boundary + 2
      → SplitConfirmed first second (confirm_boundary_split f first second)
  unfolding confirm_boundary_split boundary_size
  short-SplitConfirmed first second le short =
      let size = length f.boundary + 2 - length first in
      let fits : leb (length first) (length f.boundary + 2) ≡ true = ground arith in
      let room : ltb (length second) size ≡ true = ground arith in
      rw (fits, room) (both_too_short second short)

  long-SplitConfirmed :
      (first second : Bytes)
      → length f.boundary + 2 < length first
      → SplitConfirmed first second (confirm_boundary_split f first second)
  unfolding confirm_boundary_split boundary_size
  long-SplitConfirmed first second more =
      let fits : leb (length first) (length f.boundary + 2) ≡ false = ground arith in
      rw fits (first_too_long second more)

  -- From any two chunks `confirm_boundary_split` takes off the boundary across both and the two bytes behind
  -- it. If these are in the second chunk, it answers that a field follows unless they are "--"; then the
  -- finder is at its end. If one of them is in the first chunk, it answers that a field follows, whatever they
  -- are. Chunks that are too short are an error, and the debug assertion refuses chunks that do not begin with
  -- the boundary. If the first chunk is longer than the boundary and two bytes, a subtraction overflows. The
  -- boundary begins with neither CR nor LF.
  pub confirm_boundary_split-SplitConfirmed :
      (first second : Bytes)
      → IsBoundary f.boundary
      → SplitConfirmed first second (confirm_boundary_split f first second)
  confirm_boundary_split-SplitConfirmed first second good =
      let size = length f.boundary + 2 in
      elim (Bool-cases (leb (length first) size)) [
        | inr more ↦ long-SplitConfirmed first second (ground arith)
        | inl fits ↦
            let le : length first ≤ size = omega (tests, fits) in
            elim (Bool-cases (leb size (length first + length second))) [
              | inr short ↦ short-SplitConfirmed first second le (ground arith)
              | inl enough ↦
                  let long : size ≤ length first + length second = omega (tests, enough) in
                  elim (Bool-cases (starts_with (first ++ second) f.boundary)) [
                    | inr absent ↦ absent-SplitConfirmed first second good le long absent
                    | inl starts ↦ elim (Bool-cases (leb (length first) (length f.boundary))) [
                      | inl within ↦
                          within-SplitConfirmed first second good starts (omega (tests, within))
                            long
                      | inr behind ↦
                          behind-SplitConfirmed first second good starts (ground arith) le long
                    ]
                  ]
            ]
      ]
