-- ===== src/Finder/Walk.antt =====
-- A body that lies in one chunk, from boundary to boundary.
use multipart_async.Base.{
  ℕ, zero, suc, ◌+◌, ◌-◌, ◌≤◌, ◌<◌, ◌≡◌, ◌≢◌, refl, sym, ap, ◌∙◌, subst, true, false, not,
  if◌then◌else◌, List, [], ◌∷◌, ◌++◌, Bytes, length, take, drop, some, none, value, arith, ltb, leb,
  length-append, is_empty, drop-length, take-append_right, drop-append_right, append_assoc,
  drop-append, Option-cases, inl, inr, ◌⊎◌, Bool-cases, length-drop,
}
use multipart_async.Chunk.{split_into-value}
use multipart_async.Stream.{ready, ok, Event, chunk}
use multipart_async.Search.{
  Twoway, crlf, dashes, starts_with, boundary_size, find_boundary, check_crlf, check_last_two,
  ends_with, bytes_eq,
}
use multipart_async.Search.Slices.{starts_with-append, starts_with-length}
use multipart_async.Search.Zero.{IsBoundary}
use multipart_async.Finder.{
  State, set_state, watching, found, remainder, end, Finder, body_chunk, body_loop, round_in,
  check_chunk, check_found, after_round, trim_crlf, confirm_in, return_checked, after_body,
  consume_loop, consume_fuel, consume_boundary,
}
use multipart_async.Headers.End.{ends_with-append}
use multipart_async.Finder.Body.{body_chunk-AtEnd}
use multipart_async.Finder.Confirm.{next_state, confirm_boundary-eq}
use multipart_async.Finder.Whole.{append_nonempty, check_crlf_behind, check_found_whole}

true≢false : true ≢ false
true≢false e = cc

le_or_lt : (m n : ℕ) → (m ≤ n) ⊎ (n < m)
le_or_lt m n = elim (Bool-cases (leb m n)) [
  | inl le ↦ inl (ground arith)
  | inr gt ↦ inr (ground arith)
]

starts_with-longer :
    (xs tail ys : Bytes) → starts_with xs ys ≡ true → starts_with (xs ++ tail) ys ≡ true
unfolding starts_with
starts_with-longer xs tail [] h = refl
starts_with-longer [] tail (y ∷ ys) h = cc
starts_with-longer (x ∷ xs) tail (y ∷ ys) h = ground (arith, starts_with-longer xs tail ys)

starts_with-shorter :
    (xs tail ys : Bytes)
    → length ys ≤ length xs
    → starts_with xs ys ≡ false
    → starts_with (xs ++ tail) ys ≡ false
unfolding starts_with
starts_with-shorter xs tail [] le h = h
starts_with-shorter [] tail (y ∷ ys) le h = absurd (omega arith)
starts_with-shorter (x ∷ xs) tail (y ∷ ys) le h = ground (arith, starts_with-shorter xs tail ys)

check_found_front :
    {E : Type 0} (f : Finder E) (tail : Bytes)
    → 2 ≤ length tail
    → check_found f (f.boundary ++ tail) (record { idx = 0; incl_crlf = false })
      ≡ value (none, set_state f (found (f.boundary ++ tail)))
unfolding check_found boundary_size trim_crlf
check_found_front f tail long =
    let fits : ltb (length (f.boundary ++ tail)) (0 + (length f.boundary + 2)) ≡ false =
      ground (arith, length-append f.boundary tail) in
    rw (fits, split_into-value (f.boundary ++ tail) 0 (omega arith)) refl

module _ ⦃tw : Twoway⦄ where
  -- Where the first occurrence is, by what stands at each place.
  find_bytes-first :
      (hay needle : Bytes) (i : ℕ)
      → i ≤ length hay
      → starts_with (drop i hay) needle ≡ true
      → ((j : ℕ) → j < i → starts_with (drop j hay) needle ≡ false)
      → tw.find_bytes hay needle ≡ some i
  find_bytes-first hay needle i le at before = elim (Option-cases (tw.find_bytes hay needle)) [
    | inl absent ↦ absurd (true≢false (sym at ∙ tw.find-none hay needle i absent le))
    | inr (k, present) ↦ elim (le_or_lt i k) [
      | inl up ↦ elim (le_or_lt k i) [
        | inl down ↦ let same : k ≡ i = omega (arith, up, down) in present ∙ ap some same
        | inr less ↦ absurd (true≢false (sym at ∙ tw.find-first hay needle k i present less))
      ]
      | inr less ↦
          absurd (true≢false (sym (tw.find-starts_with hay needle k present).1 ∙ before k less))
    ]
  ]

  -- What is found first is found first in front of more bytes, too.
  pub find_bytes-append :
      (hay needle tail : Bytes) (i : ℕ)
      → tw.find_bytes hay needle ≡ some i
      → tw.find_bytes (hay ++ tail) needle ≡ some i
  find_bytes-append hay needle tail i e =
      let (le, at) = tw.find-starts_with hay needle i e in
      let room = starts_with-length (drop i hay) needle at in
      find_bytes-first (hay ++ tail) needle i (omega (arith, length-append hay tail))
        (rw (drop-append i hay tail le) (starts_with-longer (drop i hay) tail needle at))
        (λ j less. rw (drop-append j hay tail (omega arith)) (
          starts_with-shorter (drop j hay) tail needle
            (omega (arith, room, length-drop i hay, length-drop j hay))
            (tw.find-first hay needle i j e less)))

  find_bytes-front : (needle tail : Bytes) → tw.find_bytes (needle ++ tail) needle ≡ some 0
  find_bytes-front needle tail =
      find_bytes-first (needle ++ tail) needle 0 (omega arith) (starts_with-append needle tail)
        (λ j less. absurd (omega arith))

module _ ⦃tw : Twoway⦄ {E : Type 0} where
  -- the finder with nothing but this state
  abbrev pub left : Bytes → List (Event E) → State → Finder E
  left boundary events s = record { stream = events; state = s; boundary = boundary }

  -- A chunk that begins with the boundary: it is held, and a field ends.
  body_chunk_front :
      (events : List (Event E)) (boundary tail : Bytes)
      → is_empty (boundary ++ tail) ≡ false
      → 2 ≤ length tail
      → body_chunk (left boundary (chunk (boundary ++ tail) ∷ events) watching)
        ≡ value (ready none, left boundary events (found (boundary ++ tail)))
  unfolding body_chunk body_loop round_in check_chunk after_round
  body_chunk_front events boundary tail some_byte long =
      let located : find_boundary boundary (boundary ++ tail)
          ≡ some (record { idx = 0; incl_crlf = false }) =
        unfold find_boundary check_crlf in
        rw (find_bytes-front boundary tail, find_boundary) refl in
      rw (some_byte, located, check_found_front (left boundary events watching) tail long) refl

  -- The same for what is left of a chunk: content, a newline, and the next boundary.
  pub body_chunk_rest :
      (events : List (Event E)) (boundary content tail : Bytes)
      → content ≢ []
      → tw.find_bytes (content ++ (crlf ++ boundary)) boundary ≡ some (length content + 2)
      → 2 ≤ length tail
      → body_chunk (left boundary events (remainder (content ++ (crlf ++ (boundary ++ tail)))))
        ≡ value (ready (some (ok content)), left boundary events (found (boundary ++ tail)))
  unfolding body_chunk body_loop round_in return_checked check_chunk after_round
  body_chunk_rest events boundary content tail ne present long =
      let c = content ++ (crlf ++ (boundary ++ tail)) in
      let some_byte : is_empty c ≡ false =
        append_nonempty content (crlf ++ (boundary ++ tail)) ne in
      let longer : tw.find_bytes c boundary ≡ some (length content + 2) =
        subst (λ hay. tw.find_bytes hay boundary ≡ some (length content + 2))
          (append_assoc content (crlf ++ boundary) tail)
          (find_bytes-append (content ++ (crlf ++ boundary)) boundary tail (length content + 2)
            present) in
      let located : find_boundary boundary c
          ≡ some (record { idx = length content; incl_crlf = true }) =
        unfold find_boundary in
        rw (longer, find_boundary) (ap some (check_crlf_behind content (boundary ++ tail))) in
      rw
        (some_byte, located, check_found_whole (left boundary events watching) content tail ne long)

  consume_loop-none :
      (fuel : ℕ) (f g : Finder E)
      → 0 < fuel
      → body_chunk f ≡ value (ready none, g)
      → consume_loop fuel f ≡ confirm_in g.state (set_state g watching)
  unfolding consume_loop after_body
  consume_loop-none zero f g some_fuel e = absurd (omega arith)
  consume_loop-none (suc fuel) f g some_fuel e = rw e refl

  -- Behind a boundary that is held whole: the answer, and what is left.
  confirm_in_found :
      (events : List (Event E)) (boundary : Bytes) (x y : ℕ) (rest : Bytes)
      → IsBoundary boundary
      → let is_end = check_last_two (boundary ++ (x ∷ y ∷ [])) in
        confirm_in (found (boundary ++ (x ∷ y ∷ rest))) (left boundary events watching)
        ≡ value (
          ready (ok (not is_end)),
          left boundary events (if is_end then end else next_state rest),
        )
  unfolding confirm_in
  confirm_in_found events boundary x y rest good =
      let bnd = boundary ++ (x ∷ y ∷ rest) in
      let two : length boundary + 2 - length boundary ≡ 2 = omega arith in
      let front : take (length boundary + 2) bnd ≡ boundary ++ (x ∷ y ∷ []) =
        take-append_right (length boundary + 2) boundary (x ∷ y ∷ rest) (omega arith)
        ∙ ap (λ k. boundary ++ take k (x ∷ y ∷ rest)) two in
      let back : drop (length boundary + 2) bnd ≡ rest =
        drop-append_right (length boundary + 2) boundary (x ∷ y ∷ rest) (omega arith)
        ∙ ap (λ k. drop k (x ∷ y ∷ rest)) two in
      rw (front, back) at
        (confirm_boundary-eq (left boundary events watching) bnd good (record {
          starts = starts_with-append boundary (x ∷ y ∷ rest);
          long = omega (arith, length-append boundary (x ∷ y ∷ rest));
        }))

  pub consume_boundary_found :
      (events : List (Event E)) (boundary : Bytes) (x y : ℕ) (rest : Bytes)
      → IsBoundary boundary
      → let is_end = check_last_two (boundary ++ (x ∷ y ∷ [])) in
        consume_boundary (left boundary events (found (boundary ++ (x ∷ y ∷ rest))))
        ≡ value (
          ready (ok (not is_end)),
          left boundary events (if is_end then end else next_state rest),
        )
  unfolding consume_boundary
  consume_boundary_found events boundary x y rest good =
      let f = left boundary events (found (boundary ++ (x ∷ y ∷ rest))) in
      consume_loop-none (consume_fuel f) f f (omega arith) (body_chunk-AtEnd f tt)
      ∙ confirm_in_found events boundary x y rest good

  pub consume_boundary_front :
      (events : List (Event E)) (boundary : Bytes) (x y : ℕ) (rest : Bytes)
      → IsBoundary boundary
      → boundary ≢ []
      → let is_end = check_last_two (boundary ++ (x ∷ y ∷ [])) in
        consume_boundary (left boundary (chunk (boundary ++ (x ∷ y ∷ rest)) ∷ events) watching)
        ≡ value (
          ready (ok (not is_end)),
          left boundary events (if is_end then end else next_state rest),
        )
  unfolding consume_boundary
  consume_boundary_front events boundary x y rest good ne =
      let f = left boundary (chunk (boundary ++ (x ∷ y ∷ rest)) ∷ events) watching in
      consume_loop-none (consume_fuel f) f
        (left boundary events (found (boundary ++ (x ∷ y ∷ rest)))) (omega arith)
        (body_chunk_front events boundary (x ∷ y ∷ rest)
          (append_nonempty boundary (x ∷ y ∷ rest) ne) (omega arith))
      ∙ confirm_in_found events boundary x y rest good

pub check_last_two-dashes : (boundary : Bytes) → check_last_two (boundary ++ dashes) ≡ true
unfolding check_last_two
check_last_two-dashes boundary = ends_with-append boundary dashes

pub check_last_two-crlf : (boundary : Bytes) → check_last_two (boundary ++ crlf) ≡ false
unfolding check_last_two ends_with bytes_eq
check_last_two-crlf boundary =
    let before : length (boundary ++ crlf) - 2 ≡ length boundary =
      omega (arith, length-append boundary crlf) in
    rw (before, drop-length boundary crlf) (ground arith)
