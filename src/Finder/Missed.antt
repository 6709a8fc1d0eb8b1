-- ===== src/Finder/Missed.antt =====
-- Boundaries that `BoundaryFinder` does not recognise, because of where the chunks are cut.
use multipart_async.Base.{
  ℕ, ◌+◌, ◌-◌, ◌<◌, ◌≡◌, inl, inr, refl, true, false, List, [], ◌∷◌, ◌++◌, Bytes, length, some,
  value, arith, ltb, Bool-cases, length-append, append_assoc, is_empty,
}
use multipart_async.Stream.{ready, ok, Event, chunk}
use multipart_async.Search.{
  Twoway, SearchResult, boundary_size, find_boundary, is_boundary_prefix, check_last_two, ends_with,
}
use multipart_async.Search.Slices.{zip_all_eq_left, starts_with-append}
use multipart_async.Search.Locate.{delimiter, find_boundary-Located}
use multipart_async.Search.Zero.{IsBoundary, find_boundary_prefix}
use multipart_async.Finder.{
  watching, remainder, Finder, set_state, second_chunk, body_chunk, body_loop, round_in,
  poll_partial, check_chunk, check_found, after_round, confirm_boundary_split,
}
use multipart_async.Finder.Spec.{IsWhole}
use multipart_async.Finder.Second.{prefix_agrees}
use multipart_async.Finder.Confirm.{confirm_boundary_split-eq}

nonempty : (xs : Bytes) → 0 < length xs → is_empty xs ≡ false
nonempty [] h = absurd (omega arith)
nonempty (x ∷ xs) h = refl

module _ ⦃tw : Twoway⦄ where
  -- The comparison with the second chunk begins at the first byte of the first, so it fails wherever
  -- the search put the boundary further on.
  not_prefix :
      (boundary first second : Bytes) (res : SearchResult)
      → IsBoundary boundary
      → find_boundary boundary first ≡ some res
      → 0 < res.idx
      → is_boundary_prefix boundary first second res ≡ false
  not_prefix boundary first second res good e pos =
      elim (Bool-cases (is_boundary_prefix boundary first second res)) [
        | inr mismatch ↦ mismatch
        | inl agrees ↦
            let whole = prefix_agrees boundary first second res agrees in
            let at_zero =
              find_boundary_prefix boundary first good e
                (zip_all_eq_left first second (delimiter boundary res) whole) in
            absurd (omega (arith, at_zero, pos))
      ]

module _ ⦃tw : Twoway⦄ {E : Type 0} where
  -- A chunk in which a boundary is reported behind its first byte, without room for the whole of it, is
  -- returned as data with the first part of the boundary in it, whatever the next chunk holds, which is
  -- then searched by itself. The boundary begins with neither CR nor LF.
  pub body_chunk_missed :
      (events : List (Event E)) (boundary first second : Bytes) (res : SearchResult)
      → IsBoundary boundary
      → find_boundary boundary first ≡ some res
      → 0 < res.idx
      → length first < res.idx + boundary_size boundary res.incl_crlf
      → body_chunk (record {
        stream = chunk first ∷ chunk second ∷ events;
        state = watching;
        boundary = boundary;
      })
        ≡ value (
          ready (some (ok first)),
          record { stream = events; state = remainder second; boundary = boundary },
        )
  unfolding body_chunk body_loop round_in check_chunk check_found poll_partial second_chunk
      after_round
  body_chunk_missed events boundary first second res good e pos lt =
      let in_range = (find_boundary-Located boundary first e).in_range in
      let some_byte = nonempty first (omega (arith, in_range, pos)) in
      let cut : ltb (length first) (res.idx + boundary_size boundary res.incl_crlf) ≡ true =
        ground arith in
      rw (some_byte, e, cut, not_prefix boundary first second res good e pos)

-- One byte is not "--".
not_dashes : (c : ℕ) → check_last_two (c ∷ []) ≡ false
unfolding check_last_two ends_with
not_dashes c = refl

module _ {E : Type 0} where
  -- The first of the two bytes behind the boundary is the last of its chunk: the second is looked at
  -- alone, so "--" too is taken for the start of another field. The boundary begins with neither CR nor LF.
  pub confirm_boundary_split_dashes :
      (f : Finder E) (a c : ℕ) (rest : Bytes)
      → IsBoundary f.boundary
      → confirm_boundary_split f (f.boundary ++ a ∷ []) (c ∷ rest)
        ≡ value (ready (ok true), set_state f (remainder rest))
  confirm_boundary_split_dashes f a c rest good =
      let first = f.boundary ++ a ∷ [] in
      let long = length-append f.boundary (a ∷ []) in
      let one : length f.boundary + 2 - length first ≡ 1 = omega (arith, long) in
      let whole : IsWhole f.boundary (first ++ c ∷ rest) = record {
        starts =
            rw (append_assoc f.boundary (a ∷ []) (c ∷ rest))
              (starts_with-append f.boundary (a ∷ c ∷ rest));
        long = omega (arith, long, length-append first (c ∷ rest));
      } in
      let confirmed =
        confirm_boundary_split-eq f first (c ∷ rest) good (omega (arith, long)) whole in
      rw (one, not_dashes c) at confirmed
