-- ===== src/Finder/Whole.antt =====
-- A boundary that lies whole in one chunk, with the two bytes behind it.
use multipart_async.Base.{
  suc, ◌+◌, ◌-◌, ◌≤◌, ◌≡◌, ◌≢◌, refl, ap, true, false, List, [], ◌∷◌, ◌++◌, Bytes, length, some,
  value, arith, ltb, length-append, is_empty, none, leb, drop-length, take-length,
}
use multipart_async.Stream.{ready, ok, Event, chunk}
use multipart_async.Search.{Twoway, crlf, boundary_size, find_boundary, check_crlf, bytes_eq}
use multipart_async.Chunk.{split_into-value}
use multipart_async.Finder.Checked.{trim_crlf-value}
use multipart_async.Finder.{
  set_state, watching, found, Finder, body_chunk, body_loop, round_in, check_chunk, check_found,
  after_round,
}

pub append_nonempty : (xs ys : Bytes) → xs ≢ [] → is_empty (xs ++ ys) ≡ false
append_nonempty [] ys ne = absurd (ne refl)
append_nonempty (x ∷ xs) ys ne = refl

pub check_crlf_behind :
    (content rest : Bytes)
    → check_crlf (content ++ (crlf ++ rest)) (length content + 2)
      ≡ record { idx = length content; incl_crlf = true }
unfolding check_crlf bytes_eq
check_crlf_behind content rest =
    let back : length content + 2 - 2 ≡ length content = omega arith in
    let two : leb 2 (length content + 2) ≡ true = ground arith in
    rw (two, back, drop-length content (crlf ++ rest))

pub check_found_whole :
    {E : Type 0} (f : Finder E) (content tail : Bytes)
    → content ≢ []
    → 2 ≤ length tail
    → check_found f
        (content ++ (crlf ++ (f.boundary ++ tail)))
        (record { idx = length content; incl_crlf = true })
      ≡ value (some content, set_state f (found (f.boundary ++ tail)))
unfolding check_found boundary_size
check_found_whole f [] tail ne long = absurd (ne refl)
check_found_whole f (x ∷ xs) tail ne long =
    let c = x ∷ (xs ++ (crlf ++ (f.boundary ++ tail))) in
    let size : length c ≡ suc (length xs) + (2 + (length f.boundary + length tail)) =
      omega
        (arith, length-append xs (crlf ++ (f.boundary ++ tail)), length-append f.boundary tail) in
    let fits : ltb (length c) (suc (length xs) + (length f.boundary + 4)) ≡ false = ground arith in
    let behind = drop-length (x ∷ xs) (crlf ++ (f.boundary ++ tail)) in
    rw (
      fits,
      split_into-value c (suc (length xs)) (omega (arith, size)),
      behind,
      trim_crlf-value true (crlf ++ (f.boundary ++ tail)) (omega arith),
      take-length (x ∷ xs) (crlf ++ (f.boundary ++ tail)),
    )

module _ ⦃tw : Twoway⦄ {E : Type 0} where
  -- A chunk that is not empty, and in which no boundary nor the start of one is reported, comes out as it
  -- is, and the finder watches on.
  body_chunk_plain :
      (events : List (Event E)) (boundary c : Bytes)
      → c ≢ []
      → find_boundary boundary c ≡ none
      → body_chunk (record { stream = chunk c ∷ events; state = watching; boundary = boundary })
        ≡ value
            (ready (some (ok c)), record { stream = events; state = watching; boundary = boundary })
  unfolding body_chunk body_loop round_in check_chunk after_round
  body_chunk_plain events boundary [] ne e = absurd (ne refl)
  body_chunk_plain events boundary (x ∷ xs) ne e = rw e

  -- The first boundary of the chunk stands behind content that is not empty and a newline, with at least
  -- two bytes behind it: the content comes out without the newline, and the finder holds the boundary and
  -- what is behind it.
  pub body_chunk_whole :
      (events : List (Event E)) (boundary content tail : Bytes)
      → content ≢ []
      → tw.find_bytes (content ++ (crlf ++ (boundary ++ tail))) boundary ≡ some (length content + 2)
      → 2 ≤ length tail
      → body_chunk (record {
        stream = chunk (content ++ (crlf ++ (boundary ++ tail))) ∷ events;
        state = watching;
        boundary = boundary;
      })
        ≡ value (
          ready (some (ok content)),
          record { stream = events; state = found (boundary ++ tail); boundary = boundary },
        )
  unfolding body_chunk body_loop round_in check_chunk check_found after_round
  body_chunk_whole events boundary content tail ne present long =
      let c = content ++ (crlf ++ (boundary ++ tail)) in
      let some_byte : is_empty c ≡ false =
        append_nonempty content (crlf ++ (boundary ++ tail)) ne in
      let located : find_boundary boundary c
          ≡ some (record { idx = length content; incl_crlf = true }) =
        unfold find_boundary in
        rw (present, find_boundary) (ap some (check_crlf_behind content (boundary ++ tail))) in
      let f : Finder E = record { stream = events; state = watching; boundary = boundary } in
      rw (some_byte, located, check_found_whole f content tail ne long)
