-- ===== src/Finder/Second.antt =====
-- The arm `Partial` of `body_chunk`: a chunk that may end in the first part of a boundary, and the
-- chunk behind it.
use multipart_async.Base.{
  ℕ, ◌+◌, ◌-◌, ◌≤◌, ◌<◌, ◌≡◌, ◌⊎◌, inl, inr, refl, sym, ap, ◌∙◌, Bool, true, false, [], ◌++◌, Bytes,
  length, drop, none, some, Outcome, value, arith, ltb, if◌then◌else◌, Bool-cases, length-drop,
  take-append-drop, drop-append, drop-append_right, length-append,
}
use multipart_async.Chunk.{split_into-value}
use multipart_async.Stream.{ready, parsing, needed_more}
use multipart_async.Search.{
  Twoway, SearchResult, crlf, zip_all_eq, boundary_size, find_boundary, boundary_start,
  is_boundary_prefix, check_boundary, check_boundary_split,
}
use multipart_async.Search.Slices.{
  zip_all_eq-drop, starts_with_of_zip, zip_all_eq_left, zip_all_eq-take,
}
use multipart_async.Search.Locate.{delimiter}
use multipart_async.Search.Zero.{IsBoundary, find_boundary_prefix}
use multipart_async.Finder.{
  State, found, split, remainder, Finder, Round, return, set_state, some_ok, some_err, second_chunk,
  confirm_second, is_boundary, cut_boundary,
}
use multipart_async.Finder.Spec.{held, IsWhole, Gap, AtEnd, rank, StateInv}
use multipart_async.Finder.Checked.{delimiter_tail, newline_len, take_newline}

-- The newline that belongs to a result.
abbrev pub newline_of : Bool → Bytes
newline_of incl_crlf = if incl_crlf then crlf else []

pub newline_of-cases :
    (incl_crlf : Bool) → (newline_of incl_crlf ≡ []) ⊎ (newline_of incl_crlf ≡ crlf)
newline_of-cases false = inl refl
newline_of-cases true = inr refl

-- The state once the boundary that begins in `first` is confirmed.
unfoldable pub confirmed_state : Bytes → Bytes → Bool → State
confirmed_state first second false = split first second
confirmed_state first second true =
    if ltb (length first) 2
    then found (drop (2 - length first) second)
    else split (drop 2 first) second

pub agrees-split :
    (boundary first second : Bytes)
    → zip_all_eq (first ++ second) boundary ≡ true
    → length boundary ≤ length first + length second
    → check_boundary_split boundary first second ≡ true
unfolding check_boundary_split
agrees-split boundary first second h le =
    let cut = zip_all_eq-take first second boundary (length boundary - length first) h in
    ground (arith, cut)

is_boundary_plain :
    (boundary first second : Bytes)
    → zip_all_eq (first ++ second) boundary ≡ true
    → length boundary ≤ length first + length second
    → is_boundary boundary first second 0 ≡ value true
unfolding is_boundary
is_boundary_plain boundary first second h le =
    ground (arith, agrees-split boundary first second h le)

is_boundary_newline :
    (boundary first second : Bytes)
    → zip_all_eq (first ++ second) (crlf ++ boundary) ≡ true
    → 2 + length boundary ≤ length first + length second
    → is_boundary boundary first second 2 ≡ value true
unfolding is_boundary
is_boundary_newline boundary first second h le =
    let behind = zip_all_eq-drop 2 (first ++ second) (crlf ++ boundary) h in
    elim (Bool-cases (ltb (length first) 2)) [
      | inl cr_only ↦
          let lt : length first < 2 = ground arith in
          let tail = rw (drop-append_right 2 first second (omega arith)) at behind in
          let starts =
            starts_with_of_zip (drop (2 - length first) second) boundary tail
              (omega (arith, length-drop (2 - length first) second)) in
          unfold check_boundary in ground (arith, starts)
      | inr both ↦
          let two : 2 ≤ length first = ground arith in
          let tail = rw (drop-append 2 first second two) at behind in
          ground (arith, agrees-split boundary (drop 2 first) second tail, length-drop 2 first)
    ]

cut_boundary-value :
    (first second : Bytes) (incl_crlf : Bool)
    → newline_len incl_crlf ≤ length first + length second
    → cut_boundary first second (record { idx = 0; incl_crlf = incl_crlf }) (newline_len incl_crlf)
      ≡ value ([], confirmed_state first second incl_crlf)
unfolding cut_boundary confirmed_state
cut_boundary-value first second false le = rw (split_into-value first 0 (omega arith))
cut_boundary-value first second true le = elim (Bool-cases (ltb (length first) 2)) [
  | inl cr_only ↦
      let room : 2 - length first ≤ length second = ground arith in
      rw (
        cr_only,
        split_into-value second (2 - length first) room,
        split_into-value first 0 (omega arith),
      )
  | inr both ↦
      let room : 2 ≤ length first = ground arith in
      rw (both, split_into-value first 0 (omega arith), split_into-value first 2 room)
]

newline_first :
    (boundary xs : Bytes) (incl_crlf : Bool)
    → zip_all_eq xs (delimiter boundary (record { idx = 0; incl_crlf = incl_crlf })) ≡ true
    → boundary_size boundary incl_crlf ≤ length xs
    → xs ≡ newline_of incl_crlf ++ drop (newline_len incl_crlf) xs
unfolding boundary_size
newline_first boundary xs false h le = refl
newline_first boundary xs true h le =
    sym (take-append-drop 2 xs)
    ∙ ap (λ t. t ++ drop 2 xs) (take_newline xs boundary h (omega arith))

held-confirmed :
    (first second : Bytes) (incl_crlf : Bool)
    → newline_len incl_crlf ≤ length first + length second
    → held (confirmed_state first second incl_crlf) ≡ drop (newline_len incl_crlf) (first ++ second)
unfolding confirmed_state
held-confirmed first second false le = refl
held-confirmed first second true le = elim (Bool-cases (ltb (length first) 2)) [
  | inl cr_only ↦
      let short : length first ≤ 2 = ground arith in
      rw (cr_only, drop-append_right 2 first second short)
  | inr both ↦
      let room : 2 ≤ length first = ground arith in rw (both, drop-append 2 first second room)
]

-- Both chunks together begin with the delimiter: they are its newline, and what the new state holds,
-- which begins with the whole boundary.
pub confirmed-IsWhole :
    (boundary first second : Bytes) (incl_crlf : Bool)
    → zip_all_eq (first ++ second) (delimiter boundary (record { idx = 0; incl_crlf = incl_crlf }))
      ≡ true
    → boundary_size boundary incl_crlf ≤ length (first ++ second)
    → IsWhole boundary (held (confirmed_state first second incl_crlf))
      × (first ++ second ≡ newline_of incl_crlf ++ held (confirmed_state first second incl_crlf))
unfolding boundary_size
confirmed-IsWhole boundary first second incl_crlf h le =
    let (whole, _) = delimiter_tail (first ++ second) boundary 0 incl_crlf h le in
    let room : newline_len incl_crlf ≤ length first + length second =
      ground (arith, length-append first second) in
    rw (held-confirmed first second incl_crlf room)
      (whole, newline_first boundary (first ++ second) incl_crlf h le)

-- The state is one where a field ends.
pub confirmed-AtEnd :
    (first second : Bytes) (incl_crlf : Bool) (gap : Bytes)
    → (gap ≡ []) ⊎ (gap ≡ crlf)
    → AtEnd (confirmed_state first second incl_crlf)
      × Gap (confirmed_state first second incl_crlf) gap
      × (rank (confirmed_state first second incl_crlf) ≡ 1)
unfolding confirmed_state
confirmed-AtEnd first second false gap g = (tt, g, refl)
confirmed-AtEnd first second true gap g = elim (Bool-cases (ltb (length first) 2)) [
  | inl cr_only ↦ rw cr_only (tt, g, refl)
  | inr both ↦ rw both (tt, g, refl)
]

pub confirmed-StateInv :
    ⦃tw : Twoway⦄ (boundary first second : Bytes) (incl_crlf : Bool)
    → length first < boundary_size boundary incl_crlf
    → IsWhole boundary (held (confirmed_state first second incl_crlf))
    → StateInv boundary (confirmed_state first second incl_crlf)
unfolding confirmed_state boundary_size
confirmed-StateInv boundary first second false lt whole = (lt, whole)
confirmed-StateInv boundary first second true lt whole = elim (Bool-cases (ltb (length first) 2)) [
  | inl cr_only ↦ rw cr_only (rw cr_only at whole)
  | inr both ↦ rw both (omega (arith, length-drop 2 first), rw both at whole)
]

module _ {E : Type 0} where
  -- Both chunks together begin with the delimiter: the field ends here.
  pub confirm_second-eq :
      (f : Finder E) (first second : Bytes) (incl_crlf : Bool)
      → zip_all_eq
          (first ++ second)
          (delimiter f.boundary (record { idx = 0; incl_crlf = incl_crlf }))
        ≡ true
      → boundary_size f.boundary incl_crlf ≤ length first + length second
      → confirm_second f first (record { idx = 0; incl_crlf = incl_crlf }) second
        ≡ value (return (ready none) (set_state f (confirmed_state first second incl_crlf)))
  unfolding confirm_second boundary_start boundary_size
  confirm_second-eq f first second false h le = rw (
    is_boundary_plain f.boundary first second h (omega arith),
    cut_boundary-value first second false (omega arith),
  )
  confirm_second-eq f first second true h le = rw (
    is_boundary_newline f.boundary first second h (omega arith),
    cut_boundary-value first second true (omega arith),
  )

pub prefix_agrees :
    (boundary first second : Bytes) (res : SearchResult)
    → is_boundary_prefix boundary first second res ≡ true
    → zip_all_eq (first ++ second) (delimiter boundary res) ≡ true
unfolding is_boundary_prefix
prefix_agrees boundary first second res h = ground arith

-- What the second chunk can lead to. Whatever it is, no slice is out of range.
pub data Second {E : Type 0} (f : Finder E) (first : Bytes) (res : SearchResult) (second : Bytes)
    : Outcome (Round E) → Type 0 where
  no_boundary :
      Second f first res second (value (return (some_ok first) (set_state f (remainder second))))
  too_short :
      (n : ℕ)
      → length second < n
      → Second f first res second
          (value (return (some_err (parsing (needed_more n (length second)))) f))
  confirmed :
      res.idx ≡ 0
      → zip_all_eq (first ++ second) (delimiter f.boundary res) ≡ true
      → boundary_size f.boundary res.incl_crlf ≤ length first + length second
      → Second f first res second
          (value (return (ready none) (set_state f (confirmed_state first second res.incl_crlf))))

module _ ⦃tw : Twoway⦄ {E : Type 0} where
  -- Behind a chunk in which `find_boundary` reports a boundary, a second chunk leads to one of three
  -- things, and to no panic: the first chunk is returned as data; the second is too short, an error; or
  -- both begin with the whole delimiter, it is reported at the first byte, and the field ends in a state
  -- that holds the boundary without its newline. The boundary begins with neither CR nor LF.
  pub second_chunk-Second :
      (f : Finder E) (first : Bytes) (res : SearchResult) (second : Bytes)
      → IsBoundary f.boundary
      → find_boundary f.boundary first ≡ some res
      → Second f first res second (second_chunk f first res second)
  unfolding second_chunk
  second_chunk-Second f first res second good e =
      elim (Bool-cases (is_boundary_prefix f.boundary first second res)) [
        | inr mismatch ↦ rw mismatch no_boundary
        | inl agrees ↦
            let whole = prefix_agrees f.boundary first second res agrees in
            let at_zero =
              find_boundary_prefix f.boundary first good e
                (zip_all_eq_left first second (delimiter f.boundary res) whole) in
            let needed = boundary_size f.boundary res.incl_crlf - length first in
            elim (Bool-cases (ltb (length second) needed)) [
              | inl short ↦ rw (agrees, short) (too_short needed (ground arith))
              | inr enough ↦
                  let room : boundary_size f.boundary res.incl_crlf ≤ length first + length second =
                    ground arith in
                  rw
                    (
                      agrees,
                      enough,
                      at_zero,
                      confirm_second-eq f first second res.incl_crlf whole room,
                    )
                    (confirmed refl whole room)
            ]
      ]
