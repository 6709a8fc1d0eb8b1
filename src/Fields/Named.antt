-- ===== src/Fields/Named.antt =====
-- What `parse_headers` returns without an error.
use multipart_async.Base.{
  Bool, true, false, Bytes, ◌≡◌, is_empty, Outcome, value, panic, out_of_fuel, ◌>>=◌, ◌>>◌, assert,
  Bool-cases, Option-cases, subst, inl, inr,
}
use multipart_async.Search.{ends_with}
use multipart_async.Stream.{Result, ok, err, HeaderError}
use multipart_async.Fields.{
  Parsed, complete, incomplete, malformed, Crates, FieldHeaders, Reading, finish_headers,
  read_parsed, parse_headers, crlf2, max_headers,
}

-- no result without an error lacks a name
abbrev IsNamed : {crates : Crates} → Outcome (Result (FieldHeaders crates) HeaderError) → Type 0
IsNamed (value (ok h)) = is_empty h.names.name ≡ false
IsNamed (value (err e)) = Unit
IsNamed (panic p) = Unit
IsNamed out_of_fuel = Unit

module _ (crates : Crates) where
  finish_headers-IsNamed : (r : Reading crates) → IsNamed (value (finish_headers crates r))
  unfolding finish_headers
  finish_headers-IsNamed r = elim (Bool-cases (is_empty r.out.names.name)) [
    | inl blank ↦ elim (Option-cases r.out.names.filename) [
      | inr (filename, given) ↦ rw (blank, given) tt
      | inl no_file ↦ elim (Option-cases r.out.content_type) [
        | inr (ct, given) ↦ rw (blank, no_file, given) tt
        | inl no_type ↦ rw (blank, no_file, no_type) tt
      ]
    ]
    | inr named ↦ elim (Bool-cases r.dupe_cont_type) [
      | inl dupe ↦ rw (named, dupe) tt
      | inr single ↦ rw (named, single) named
    ]
  ]

  finish_read-IsNamed :
      (r : Outcome (Result (Reading crates) HeaderError))
      → IsNamed (r >>= λ read. value (elim read [ ok x ↦ finish_headers crates x | err e ↦ err e ]))
  finish_read-IsNamed (value (ok r)) = finish_headers-IsNamed r
  finish_read-IsNamed (value (err e)) = tt
  finish_read-IsNamed (panic p) = tt
  finish_read-IsNamed out_of_fuel = tt

  read_parsed-IsNamed :
      (bytes : Bytes) (parsed : Parsed) → IsNamed (read_parsed crates bytes parsed)
  unfolding read_parsed
  read_parsed-IsNamed bytes (complete headers) = finish_read-IsNamed _
  read_parsed-IsNamed bytes incomplete = tt
  read_parsed-IsNamed bytes malformed = tt

  assert-IsNamed :
      (b : Bool) (r : Outcome (Result (FieldHeaders crates) HeaderError))
      → IsNamed r
      → IsNamed (assert b >> r)
  assert-IsNamed true r h = h
  assert-IsNamed false r h = tt

  -- Headers that `parse_headers` returns without an error have a field name that is not empty, whatever
  -- headers the section holds and in whatever order.
  pub parse_headers_name :
      (bytes : Bytes) {h : FieldHeaders crates}
      → parse_headers crates bytes ≡ value (ok h)
      → is_empty h.names.name ≡ false
  unfolding parse_headers
  parse_headers_name bytes e = subst IsNamed e (
      assert-IsNamed (ends_with bytes crlf2) _
        (read_parsed-IsNamed bytes (crates.httparse_headers max_headers bytes)))
