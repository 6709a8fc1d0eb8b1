-- ===== src/Fields/Extra.antt =====
-- What becomes of headers other than Content-Disposition and Content-Type.
use multipart_async.Base.{
  Bool, true, false, List, [], ◌∷◌, Bytes, codes, ◌≡◌, refl, is_empty, none, Outcome, value, panic,
  out_of_fuel, ◌>>=◌, ◌>>◌, assert, Bool-cases, Option-cases, subst, inl, inr,
}
use multipart_async.Search.{ends_with}
use multipart_async.Stream.{Result, ok, err, HeaderError}
use multipart_async.Text.{from_utf8, trim, eq_ignore_ascii_case}
use multipart_async.Disposition.{Names, parse_cont_disp_val}
use multipart_async.Fields.{
  Header, Parsed, complete, incomplete, malformed, Crates, FieldHeaders, Reading, add_disposition,
  add_content_type, add_ext_header, add_header, add_headers, finish_headers, read_parsed,
  parse_headers, crlf2, max_headers,
}

module _ (crates : Crates) where
  -- the extra headers are those of `map`, if there is no error
  abbrev Holds : crates.HeaderMap → Outcome (Result (Reading crates) HeaderError) → Type 0
  Holds map (value (ok r)) = r.out.ext_headers ≡ map
  Holds map (value (err e)) = Unit
  Holds map (panic p) = Unit
  Holds map out_of_fuel = Unit

  -- the same of the headers that are returned
  abbrev HeadersHold :
      crates.HeaderMap → Outcome (Result (FieldHeaders crates) HeaderError) → Type 0
  HeadersHold map (value (ok h)) = h.ext_headers ≡ map
  HeadersHold map (value (err e)) = Unit
  HeadersHold map (panic p) = Unit
  HeadersHold map out_of_fuel = Unit

  with_names :
      (r : Reading crates) (parsed : Outcome (Result Names HeaderError))
      → Holds r.out.ext_headers (
          parsed >>= λ p. value (elim p [
            | ok names ↦ ok (record r { out = record r.out { names = names } })
            | err e ↦ err e
          ]))
  with_names r (value (ok names)) = refl
  with_names r (value (err e)) = tt
  with_names r (panic p) = tt
  with_names r out_of_fuel = tt

  add_disposition-Holds :
      (r : Reading crates) (val : Bytes) → Holds r.out.ext_headers (add_disposition crates r val)
  unfolding add_disposition
  add_disposition-Holds r val = elim (Bool-cases (is_empty r.out.names.name)) [
    | inr twice ↦ rw twice tt
    | inl first ↦ elim (Option-cases (from_utf8 val)) [
      | inl bad ↦ rw (first, bad) tt
      | inr (s, text) ↦ rw (first, text) (with_names r (parse_cont_disp_val (trim s) r.out.names))
    ]
  ]

  add_content_type-Holds :
      (r : Reading crates) (val : Bytes)
      → Holds r.out.ext_headers (value (add_content_type crates r val))
  unfolding add_content_type
  add_content_type-Holds r val = elim (Option-cases r.out.content_type) [
    | inr (ct, twice) ↦ rw twice refl
    | inl first ↦ elim (Option-cases (from_utf8 val)) [
      | inl bad ↦ rw (first, add_content_type, bad) tt
      | inr (s, text) ↦ elim (Option-cases (crates.parse_mime (trim s))) [
        | inl bad ↦ rw (first, add_content_type, text, bad) tt
        | inr (ct, mime) ↦ rw (first, add_content_type, text, mime) refl
      ]
    ]
  ]

  module _ (bytes : Bytes) (rejected : crates.header_value_from_bytes bytes ≡ none) where
    add_ext_header-Holds :
        (r : Reading crates) (name : Bytes)
        → Holds r.out.ext_headers (value (add_ext_header crates bytes r name))
    unfolding add_ext_header
    add_ext_header-Holds r name = elim (Option-cases (crates.header_name_from_bytes name)) [
      | inl bad ↦ rw (add_ext_header, bad) tt
      | inr (hdr_name, good) ↦ rw (add_ext_header, good, rejected) tt
    ]

    add_header-Holds :
        (r : Reading crates) (h : Header) → Holds r.out.ext_headers (add_header crates bytes r h)
    unfolding add_header
    add_header-Holds r h =
        elim (Bool-cases (eq_ignore_ascii_case (codes "Content-Disposition") h.header_name)) [
          | inl disposition ↦ rw disposition (add_disposition-Holds r h.header_value)
          | inr other ↦
              elim (Bool-cases (eq_ignore_ascii_case (codes "Content-Type") h.header_name)) [
                | inl content_type ↦
                    rw (other, content_type) (add_content_type-Holds r h.header_value)
                | inr extra ↦ rw (other, extra) (add_ext_header-Holds r h.header_name)
              ]
        ]

    added :
        (map : crates.HeaderMap) (hs : List Header)
        (r : Outcome (Result (Reading crates) HeaderError))
        → Holds map r
        → ((x : Reading crates)
            → x.out.ext_headers ≡ map
            → Holds map (add_headers crates bytes hs x))
        → Holds map
            (r >>= λ a. elim a [ ok x ↦ add_headers crates bytes hs x | err e ↦ value (err e) ])
    added map hs (value (ok x)) h step = step x h
    added map hs (value (err e)) h step = tt
    added map hs (panic p) h step = tt
    added map hs out_of_fuel h step = tt

    add_headers-Holds :
        (map : crates.HeaderMap) (hs : List Header) (r : Reading crates)
        → r.out.ext_headers ≡ map
        → Holds map (add_headers crates bytes hs r)
    unfolding add_headers
    add_headers-Holds map [] r e = e
    add_headers-Holds map (h ∷ hs) r e =
        added map hs (add_header crates bytes r h)
          (subst (λ m. Holds m (add_header crates bytes r h)) e (add_header-Holds r h))
          (λ x. add_headers-Holds map hs x)

    finish_headers-HeadersHold :
        (map : crates.HeaderMap) (r : Reading crates)
        → r.out.ext_headers ≡ map
        → HeadersHold map (value (finish_headers crates r))
    unfolding finish_headers
    finish_headers-HeadersHold map r e = elim (Bool-cases (is_empty r.out.names.name)) [
      | inl blank ↦ elim (Option-cases r.out.names.filename) [
        | inr (filename, given) ↦ rw (blank, given) tt
        | inl no_file ↦ elim (Option-cases r.out.content_type) [
          | inr (ct, given) ↦ rw (blank, no_file, given) tt
          | inl no_type ↦ rw (blank, no_file, no_type) tt
        ]
      ]
      | inr named ↦ elim (Bool-cases r.dupe_cont_type) [
        | inl dupe ↦ rw (named, dupe) tt
        | inr single ↦ rw (named, single) e
      ]
    ]

    finished :
        (map : crates.HeaderMap) (r : Outcome (Result (Reading crates) HeaderError))
        → Holds map r
        → HeadersHold map
            (r >>= λ read. value (elim read [ ok x ↦ finish_headers crates x | err e ↦ err e ]))
    finished map (value (ok r)) h = finish_headers-HeadersHold map r h
    finished map (value (err e)) h = tt
    finished map (panic p) h = tt
    finished map out_of_fuel h = tt

    read_parsed-HeadersHold :
        (parsed : Parsed) → HeadersHold crates.empty_map (read_parsed crates bytes parsed)
    unfolding read_parsed
    read_parsed-HeadersHold (complete headers) =
        finished crates.empty_map _ (add_headers-Holds crates.empty_map headers _ refl)
    read_parsed-HeadersHold incomplete = tt
    read_parsed-HeadersHold malformed = tt

  checked_end :
      (bytes : Bytes) (b : Bool) (parsed : Parsed)
      → (b ≡ true → crates.header_value_from_bytes bytes ≡ none)
      → HeadersHold crates.empty_map (assert b >> read_parsed crates bytes parsed)
  checked_end bytes true parsed rejects = read_parsed-HeadersHold bytes (rejects refl) parsed
  checked_end bytes false parsed rejects = tt

  -- If the crate http takes no bytes that end in two newlines for the value of a header, then no field
  -- ever has an extra header: the headers that `parse_headers` returns hold none.
  pub parse_headers_extra :
      (bytes : Bytes) {h : FieldHeaders crates}
      → (rejects : (section : Bytes)
          → ends_with section crlf2 ≡ true
          → crates.header_value_from_bytes section ≡ none)
      → parse_headers crates bytes ≡ value (ok h)
      → h.ext_headers ≡ crates.empty_map
  unfolding parse_headers
  parse_headers_extra bytes rejects e = subst (HeadersHold crates.empty_map) e (
      checked_end bytes (ends_with bytes crlf2) (crates.httparse_headers max_headers bytes)
        (rejects bytes))
