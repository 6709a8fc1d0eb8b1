-- ===== src/Fields/Total.antt =====
-- `parse_headers` and the ways in which it might not return.
use multipart_async.Base.{
  true, List, [], ◌∷◌, Bytes, codes, ◌≡◌, is_empty, value, Bool-cases, Option-cases, inl, inr,
  IsValue, IsValue-value, Returns->>=,
}
use multipart_async.Search.{ends_with}
use multipart_async.Stream.{Result, ok, err, HeaderError}
use multipart_async.Text.{from_utf8, trim, eq_ignore_ascii_case}
use multipart_async.Disposition.Loop.{parse_cont_disp_val_total}
use multipart_async.Fields.{
  Header, Parsed, complete, incomplete, malformed, Crates, FieldHeaders, Reading, add_disposition,
  add_header, add_headers, read_parsed, parse_headers, crlf2, max_headers,
}

module _ (crates : Crates) where
  add_disposition-IsValue :
      (r : Reading crates) (val : Bytes) → IsValue (add_disposition crates r val)
  unfolding add_disposition
  add_disposition-IsValue r val = elim (Bool-cases (is_empty r.out.names.name)) [
    | inr twice ↦ rw twice tt
    | inl first ↦ elim (Option-cases (from_utf8 val)) [
      | inl bad ↦ rw (first, bad) tt
      | inr (s, text) ↦
          let (parsed, e) = parse_cont_disp_val_total (trim s) r.out.names in rw (first, text, e) tt
    ]
  ]

  add_header-IsValue :
      (bytes : Bytes) (r : Reading crates) (h : Header) → IsValue (add_header crates bytes r h)
  unfolding add_header
  add_header-IsValue bytes r h =
      elim (Bool-cases (eq_ignore_ascii_case (codes "Content-Disposition") h.header_name)) [
        | inl disposition ↦ rw disposition (add_disposition-IsValue r h.header_value)
        | inr other ↦
            elim (Bool-cases (eq_ignore_ascii_case (codes "Content-Type") h.header_name)) [
              | inl content_type ↦ rw (other, content_type) tt
              | inr extra ↦ rw (other, extra) tt
            ]
      ]

  added-IsValue :
      (bytes : Bytes) (hs : List Header) (added : Result (Reading crates) HeaderError)
      → ((r : Reading crates) → IsValue (add_headers crates bytes hs r))
      → IsValue (elim added [ ok r' ↦ add_headers crates bytes hs r' | err e ↦ value (err e) ])
  added-IsValue bytes hs (ok r) rest = rest r
  added-IsValue bytes hs (err e) rest = tt

  add_headers-IsValue :
      (bytes : Bytes) (hs : List Header) (r : Reading crates)
      → IsValue (add_headers crates bytes hs r)
  unfolding add_headers
  add_headers-IsValue bytes [] r = tt
  add_headers-IsValue bytes (h ∷ hs) r =
      Returns->>= (λ _. Unit {0}) (λ _. Unit {0}) (add_header crates bytes r h) _
        (add_header-IsValue bytes r h)
        (λ added _. added-IsValue bytes hs added (add_headers-IsValue bytes hs))

  read_parsed-IsValue :
      (bytes : Bytes) (parsed : Parsed) → IsValue (read_parsed crates bytes parsed)
  unfolding read_parsed
  read_parsed-IsValue bytes (complete headers) =
      Returns->>= (λ _. Unit {0}) (λ _. Unit {0}) (add_headers crates bytes headers _) _
        (add_headers-IsValue bytes headers _) (λ _ _. tt)
  read_parsed-IsValue bytes incomplete = tt
  read_parsed-IsValue bytes malformed = tt

  -- On a section that ends in two newlines, whatever else is in it, `parse_headers` comes to a result:
  -- its assertion holds, and its loops end.
  pub parse_headers_total :
      (bytes : Bytes)
      → ends_with bytes crlf2 ≡ true
      → (r : Result (FieldHeaders crates) HeaderError) × (parse_headers crates bytes ≡ value r)
  unfolding parse_headers
  parse_headers_total bytes h =
      let (r, e) =
        IsValue-value (read_parsed crates bytes (crates.httparse_headers max_headers bytes))
          (read_parsed-IsValue bytes (crates.httparse_headers max_headers bytes)) in
      (r, rw h e)
