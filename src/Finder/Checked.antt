-- ===== src/Finder/Checked.antt =====
-- `check_chunk`: what it does to a chunk.
use multipart_async.Base.{
  ℕ, ◌+◌, ◌≤◌, ◌≡◌, ◌⊎◌, inl, inr, refl, sym, Bool, true, false, [], ◌∷◌, ◌++◌, Bytes, length, take,
  drop, is_empty, Option, none, some, Outcome, value, panic, out_of_fuel, arith, append-nil, ltb,
  if◌then◌else◌, Bool-cases, Option-cases, length-drop, take-append-drop,
}
use multipart_async.Chunk.{split_into-value}
use multipart_async.Search.{Twoway, SearchResult, crlf, zip_all_eq, boundary_size, find_boundary}
use multipart_async.Search.Slices.{zip_all_eq-drop, starts_with_of_zip}
use multipart_async.Search.Locate.{delimiter, find_boundary-Located}
use multipart_async.Search.Zero.{IsBoundary}
use multipart_async.Finder.{watching, partial, Finder, trim_crlf, check_found, check_chunk}
use multipart_async.Finder.Spec.{held, IsWhole, Gap, rank, Inv}

abbrev pub newline_len : Bool → ℕ
newline_len incl_crlf = if incl_crlf then 2 else 0

pub trim_crlf-value :
    (incl_crlf : Bool) (bnd : Bytes)
    → newline_len incl_crlf ≤ length bnd
    → trim_crlf incl_crlf bnd ≡ value (drop (newline_len incl_crlf) bnd)
unfolding trim_crlf
trim_crlf-value true bnd le = rw (split_into-value bnd 2 le)
trim_crlf-value false bnd le = refl

-- What agrees with a delimiter begins with its newline, and goes on with the boundary.
pub take_newline :
    (xs boundary : Bytes)
    → zip_all_eq xs (crlf ++ boundary) ≡ true
    → 2 ≤ length xs
    → take 2 xs ≡ crlf
unfolding zip_all_eq
take_newline [] boundary h le = absurd (omega arith)
take_newline (x ∷ []) boundary h le = absurd (omega arith)
take_newline (x ∷ y ∷ xs) boundary h le = ground arith

pub delimiter_tail :
    (xs boundary : Bytes) (i : ℕ) (incl_crlf : Bool)
    → zip_all_eq xs (delimiter boundary (record { idx = i; incl_crlf = incl_crlf })) ≡ true
    → boundary_size boundary incl_crlf ≤ length xs
    → IsWhole boundary (drop (newline_len incl_crlf) xs)
      × ((take (newline_len incl_crlf) xs ≡ []) ⊎ (take (newline_len incl_crlf) xs ≡ crlf))
unfolding boundary_size
delimiter_tail xs boundary i true h le =
    let tail = zip_all_eq-drop 2 xs (crlf ++ boundary) h in
    let starts = starts_with_of_zip (drop 2 xs) boundary tail (omega (arith, length-drop 2 xs)) in
    (
      record { starts = starts; long = omega (arith, length-drop 2 xs) },
      inr (take_newline xs boundary h (omega arith)),
    )
delimiter_tail xs boundary i false h le = (
  record { starts = starts_with_of_zip xs boundary h (omega arith); long = omega arith },
  inl refl,
)

abbrev pub yielded : Option Bytes → Bytes
yielded none = []
yielded (some r) = r

yielded_nonempty : (r : Bytes) → yielded (if is_empty r then none else some r) ≡ r
yielded_nonempty [] = refl
yielded_nonempty (x ∷ r) = refl

yielded_some : (r s : Bytes) → (if is_empty r then none else some r) ≡ some s → is_empty s ≡ false
yielded_some [] s h = cc
yielded_some (x ∷ r) s h = cc

newline_fits :
    (boundary : Bytes) (incl_crlf : Bool) (n : ℕ)
    → boundary_size boundary incl_crlf ≤ n
    → newline_len incl_crlf ≤ n
unfolding boundary_size
newline_fits boundary incl_crlf n h = ground arith

module _ ⦃tw : Twoway⦄ {E : Type 0} where
  -- `check_chunk` splits the chunk between what it returns, a newline, and the new state.
  pub record Checked (boundary : Bytes) (f : Finder E) (c : Bytes) (ret : Option Bytes)
      (f' : Finder E) : Type 0 where
    pub inv : Inv boundary f'
    pub same_stream : f'.stream ≡ f.stream
    pub gap : Bytes
    pub only_newline : Gap f'.state gap
    pub bytes : c ≡ yielded ret ++ (gap ++ held f'.state)
    pub no_remainder : rank f'.state ≤ 2
    pub settled : is_empty c ≡ false → ret ≡ none → rank f'.state ≤ 1
    pub some_byte : (r : Bytes) → ret ≡ some r → is_empty r ≡ false
    pub partial_whole : (p : Bytes) (res : SearchResult) → f'.state ≡ partial p res → p ≡ c

  abbrev pub CheckSpec : Bytes → Finder E → Bytes → Outcome (Option Bytes × Finder E) → Type 0
  CheckSpec boundary f c (value (ret, f')) = Checked boundary f c ret f'
  CheckSpec boundary f c (panic p) = ⊥
  CheckSpec boundary f c out_of_fuel = ⊥

  check_found-CheckSpec :
      (f : Finder E) (c : Bytes) (res : SearchResult)
      → IsBoundary f.boundary
      → find_boundary f.boundary c ≡ some res
      → CheckSpec f.boundary f c (check_found f c res)
  unfolding check_found
  check_found-CheckSpec f c res good e =
      elim (Bool-cases (ltb (length c) (res.idx + boundary_size f.boundary res.incl_crlf))) [
        | inl cut ↦ rw cut (record {
          inv = record {
            same_boundary = refl;
            good_boundary = good;
            good_state = (e, ground arith);
          };
          same_stream = refl;
          gap = [];
          only_newline = refl;
          bytes = refl;
          no_remainder = omega arith;
          settled = λ _ _. omega arith;
          some_byte = λ r h. cc;
          partial_whole = λ p res' h. cc;
        })
        | inr whole ↦
            let at = find_boundary-Located f.boundary c e in
            let room : res.idx + boundary_size f.boundary res.incl_crlf ≤ length c = ground arith in
            let rest = drop res.idx c in
            let k = newline_len res.incl_crlf in
            let size : boundary_size f.boundary res.incl_crlf ≤ length rest =
              omega (arith, length-drop res.idx c) in
            let (tail, newline) =
              delimiter_tail rest f.boundary res.idx res.incl_crlf at.agrees size in
            rw
              (
                whole,
                split_into-value c res.idx at.in_range,
                trim_crlf-value res.incl_crlf rest (newline_fits f.boundary res.incl_crlf _ size),
              )
              (record {
                inv = record { same_boundary = refl; good_boundary = good; good_state = tail };
                same_stream = refl;
                gap = take k rest;
                only_newline = newline;
                bytes = sym (
                    rw (yielded_nonempty (take res.idx c), take-append-drop k rest)
                      (take-append-drop res.idx c));
                no_remainder = omega arith;
                settled = λ _ _. omega arith;
                some_byte = yielded_some (take res.idx c);
                partial_whole = λ p res' h. cc;
              })
      ]

  pub check_chunk-CheckSpec :
      (f : Finder E) (c : Bytes)
      → IsBoundary f.boundary
      → f.state ≡ watching
      → CheckSpec f.boundary f c (check_chunk f c)
  unfolding check_chunk
  check_chunk-CheckSpec f [] good w = record {
    inv = record { same_boundary = refl; good_boundary = good; good_state = rw w tt };
    same_stream = refl;
    gap = [];
    only_newline = rw w refl;
    bytes = rw w refl;
    no_remainder = rw w (omega arith);
    settled = λ nonempty _. cc;
    some_byte = λ r h. cc;
    partial_whole = λ p res h. cc;
  }
  check_chunk-CheckSpec f (x ∷ xs) good w =
      elim (Option-cases (find_boundary f.boundary (x ∷ xs))) [
        | inl absent ↦ rw absent (record {
          inv = record { same_boundary = refl; good_boundary = good; good_state = rw w tt };
          same_stream = refl;
          gap = [];
          only_newline = rw w refl;
          bytes = rw w (sym (append-nil (x ∷ xs)));
          no_remainder = rw w (omega arith);
          settled = λ _ returned. cc;
          some_byte = λ r h. cc;
          partial_whole = λ p res h. cc;
        })
        | inr (res, present) ↦ rw present (check_found-CheckSpec f (x ∷ xs) res good present)
      ]
