-- ===== src/Fields.antt =====
-- src/server/field/headers.rs: `FieldHeaders` and `parse_headers`. The crates `httparse`, `http` and
-- `mime` are arguments.
pub mod Named
pub mod Extra
pub mod Total
use multipart_async.Base.{
  ℕ, Bool, true, false, not, List, [], ◌∷◌, Bytes, codes, is_empty, Option, none, some,
  if◌then◌else◌, Outcome, value, ◌>>=◌, ◌>>◌, assert,
}
use multipart_async.Stream.{
  Text, Result, ok, err, HeaderError, headers_incomplete, headers_malformed, duplicate_disposition,
  disposition_not_utf8, content_type_not_utf8, bad_mime, bad_header_name, bad_header_value,
  missing_disposition_of_file, missing_disposition_of_type, missing_disposition,
  duplicate_content_type,
}
use multipart_async.Search.{ends_with}
use multipart_async.Text.{from_utf8, trim, eq_ignore_ascii_case}
use multipart_async.Disposition.{Names, parse_cont_disp_val}

abbrev pub max_headers : ℕ
max_headers = 4

abbrev pub crlf2 : Bytes
crlf2 = b'\r' ∷ b'\n' ∷ b'\r' ∷ b'\n' ∷ []

-- `httparse::Header`
pub record Header : Type 0 where
  pub header_name : Bytes
  pub header_value : Bytes

-- `httparse::Result<Status<..>>`
pub data Parsed : Type 0 where
  complete : List Header → Parsed
  incomplete : Parsed
  malformed : Parsed

-- What the crates `httparse`, `http` and `mime` do for `parse_headers`.
pub record Crates : Type 1 where
  pub Mime : Type 0
  pub HeaderName : Type 0
  pub HeaderValue : Type 0
  pub HeaderMap : Type 0
  pub httparse_headers : ℕ → Bytes → Parsed
  pub parse_mime : Text → Option Mime
  pub is_text_mime : Mime → Bool
  pub header_name_from_bytes : Bytes → Option HeaderName
  pub header_value_from_bytes : Bytes → Option HeaderValue
  pub empty_map : HeaderMap
  pub append : HeaderMap → HeaderName → HeaderValue → HeaderMap

module _ (crates : Crates) where
  open crates use {
    Mime, HeaderName, HeaderValue, HeaderMap, httparse_headers, parse_mime, is_text_mime,
    header_name_from_bytes, header_value_from_bytes, empty_map, append,
  }

  -- `struct FieldHeaders`
  pub record FieldHeaders : Type 0 where
    pub names : Names
    pub content_type : Option Mime
    pub ext_headers : HeaderMap

  -- `FieldHeaders::is_text`
  unfoldable pub is_text : FieldHeaders → Bool
  is_text h = elim h.content_type [ none ↦ true | some ct ↦ is_text_mime ct ]

  -- `FieldHeaders::default`
  abbrev pub default_headers : FieldHeaders
  default_headers = record {
    names = record { name = []; filename = none };
    content_type = none;
    ext_headers = empty_map;
  }

  -- The variables of the loop over the headers.
  pub record Reading : Type 0 where
    pub out : FieldHeaders
    pub dupe_cont_type : Bool

  -- the arm `Content-Disposition`
  add_disposition : Reading → Bytes → Outcome (Result Reading HeaderError)
  unfolding trim from_utf8
  add_disposition r val =
      if not (is_empty r.out.names.name)
      then value (err (duplicate_disposition r.out.names.name))
      else elim (from_utf8 val) [
        | none ↦ value (err disposition_not_utf8)
        | some s ↦ parse_cont_disp_val (trim s) r.out.names >>= λ parsed. value (elim parsed [
          | ok names ↦ ok (record r { out = record r.out { names = names } })
          | err e ↦ err e
        ])
      ]

  -- the arm `Content-Type`
  add_content_type : Reading → Bytes → Result Reading HeaderError
  unfolding trim from_utf8
  add_content_type r val = elim r.out.content_type [
    | some ct ↦ ok (record r { dupe_cont_type = true })
    | none ↦ elim (from_utf8 val) [
      | none ↦ err content_type_not_utf8
      | some s ↦ elim (parse_mime (trim s)) [
        | none ↦ err (bad_mime (trim s))
        | some ct ↦ ok (record r { out = record r.out { content_type = some ct } })
      ]
    ]
  ]

  -- any other header; the value is made from `bytes`, the whole header section, as in the source
  add_ext_header : Bytes → Reading → Bytes → Result Reading HeaderError
  add_ext_header bytes r name = elim (header_name_from_bytes name) [
    | none ↦ err (bad_header_name name)
    | some hdr_name ↦ elim (header_value_from_bytes bytes) [
      | none ↦ err (bad_header_value name)
      | some hdr_val ↦ ok (record r {
        out = record r.out { ext_headers = append r.out.ext_headers hdr_name hdr_val };
      })
    ]
  ]

  -- one round of the loop over the headers
  add_header : Bytes → Reading → Header → Outcome (Result Reading HeaderError)
  unfolding add_disposition add_content_type add_ext_header eq_ignore_ascii_case
  add_header bytes r h =
      if eq_ignore_ascii_case (codes "Content-Disposition") h.header_name
      then add_disposition r h.header_value
      else if eq_ignore_ascii_case (codes "Content-Type") h.header_name
      then value (add_content_type r h.header_value)
      else value (add_ext_header bytes r h.header_name)

  -- `for header in headers`
  add_headers : Bytes → List Header → Reading → Outcome (Result Reading HeaderError)
  unfolding add_header
  add_headers bytes [] r = value (ok r)
  add_headers bytes (h ∷ hs) r = add_header bytes r h >>= λ added. elim added [
    | ok r' ↦ add_headers bytes hs r'
    | err e ↦ value (err e)
  ]

  -- what follows the loop
  finish_headers : Reading → Result FieldHeaders HeaderError
  finish_headers r =
      if is_empty r.out.names.name
      then elim r.out.names.filename [
        | some filename ↦ err (missing_disposition_of_file filename)
        | none ↦ elim r.out.content_type [
          | some ct ↦ err missing_disposition_of_type
          | none ↦ err missing_disposition
        ]
      ]
      else if r.dupe_cont_type
      then err (duplicate_content_type r.out.names.name)
      else ok r.out

  read_parsed : Bytes → Parsed → Outcome (Result FieldHeaders HeaderError)
  unfolding add_headers finish_headers
  read_parsed bytes (complete headers) =
      add_headers bytes headers (record { out = default_headers; dupe_cont_type = false })
      >>= λ read. value (elim read [ ok r ↦ finish_headers r | err e ↦ err e ])
  read_parsed bytes incomplete = value (err (headers_incomplete bytes))
  read_parsed bytes malformed = value (err (headers_malformed bytes))

  -- `parse_headers`
  unfoldable pub parse_headers : Bytes → Outcome (Result FieldHeaders HeaderError)
  unfolding read_parsed ends_with
  parse_headers bytes = do
    assert (ends_with bytes crlf2)
    read_parsed bytes (httparse_headers max_headers bytes)
