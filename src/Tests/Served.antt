-- ===== src/Tests/Served.antt =====
-- A request from the client to the server at a concrete input.
use multipart_async.Base.{
  inr, Bytes, length, arith, ℕ, ◌≡◌, refl, codes, drop, true, [], ◌∷◌, List, none, ◌++◌, some,
  value,
}
use multipart_async.Stream.{ok, chunk}
use multipart_async.Search.{Twoway, starts_with}
use multipart_async.Search.Naive.{naive, find_naive}
use multipart_async.Fields.{FieldHeaders, parse_headers}
use multipart_async.Disposition.{parse_cont_disp_val}
use multipart_async.Multipart.{with_body}
use multipart_async.Writer
use multipart_async.Writer.{done, vec_sink, Writer, get_field_header}
use multipart_async.Exchange.{Field, write_request, headers_of, part}
use multipart_async.Exchange.Served.{
  Received, fields_of, answers_of, ReadsFields, ReadsFields-write_request,
}
use multipart_async.Exchange.Texts.{AllUtf8, ReadsTexts, ReadsTexts-write_request}
use multipart_async.Search.{dashes}
use multipart_async.Text.{trim, check_utf8}
use multipart_async.Disposition.Written.{disposition, IsQuotable}
use multipart_async.Exchange.Named.{header_end, parse_cont_disp_val-get_field_header}
use multipart_async.Tests.Fields.{one_header, a_headers}
use multipart_async.Writer.Request
use multipart_async.Http.{HeaderValues, Requests}
use multipart_async.Multipart.{Multipart}
use multipart_async.Multipart.Accept.{try_from_request}
use multipart_async.Exchange.Posted.{try_from_request-ReadsTexts}
use multipart_async.Exchange.Steps.{delimiter}
use multipart_async.Exchange.Served.{AllReceived}
use multipart_async.Writer.Request.{
  Samples, wrap_writer, get_content_type, get_content_type-wrap_writer,
}

instance abbrev tw : Twoway
tw = naive

abbrev text_field : Field
text_field = record {
  name = codes "a";
  filename = none;
  content_type = none;
  buffers = codes "field data" ∷ [];
}

-- a field without content
abbrev empty_field : Field
empty_field = record { name = codes "a"; filename = none; content_type = none; buffers = [] }

text-Received : Received one_header (codes "--boundary") text_field a_headers
unfolding part headers_of get_field_header find_naive starts_with parse_headers parse_cont_disp_val
text-Received = record { end_idx = 40; ends = refl; size = refl; parsed = refl; apart = refl }

empty-Received : Received one_header (codes "--boundary") empty_field a_headers
unfolding part headers_of get_field_header find_naive starts_with parse_headers parse_cont_disp_val
empty-Received = record { end_idx = 40; ends = refl; size = refl; parsed = refl; apart = refl }

abbrev exchanged : List (Field × FieldHeaders one_header)
exchanged = (empty_field, a_headers) ∷ []

ReadsFields-write_request_example :
    (w : Writer vec_sink) × (write_request
        (text_field ∷ fields_of one_header exchanged)
        (Writer.new vec_sink [] (codes "boundary"))
      ≡ (done tt, w))
    × ReadsFields one_header {E = ℕ}
        (with_body (chunk w.inner ∷ []) (codes "boundary"))
        (answers_of one_header ((text_field, a_headers) ∷ exchanged))
ReadsFields-write_request_example =
    ReadsFields-write_request one_header ℕ (codes "boundary") text_field a_headers exchanged
      (text-Received, (empty-Received, tt))

texts-AllUtf8 : AllUtf8 (answers_of one_header ((text_field, a_headers) ∷ exchanged))
unfolding check_utf8 answers_of
texts-AllUtf8 = (refl, (refl, tt))

ReadsTexts-write_request_example :
    (w : Writer vec_sink) × (write_request
        (text_field ∷ fields_of one_header exchanged)
        (Writer.new vec_sink [] (codes "boundary"))
      ≡ (done tt, w))
    × ReadsTexts one_header {E = ℕ}
        (with_body (chunk w.inner ∷ []) (codes "boundary"))
        (answers_of one_header ((text_field, a_headers) ∷ exchanged))
ReadsTexts-write_request_example =
    ReadsTexts-write_request one_header ℕ (codes "boundary") text_field a_headers exchanged
      (text-Received, (empty-Received, tt)) texts-AllUtf8

foo-IsQuotable : IsQuotable (codes "foo")
unfolding trim
foo-IsQuotable = ((refl, (refl, (refl, tt))), refl)

file-IsQuotable : IsQuotable (codes "a b; c.txt")
unfolding trim
file-IsQuotable =
    ((refl, (refl, (refl, (refl, (refl, (refl, (refl, (refl, (refl, (refl, tt)))))))))), refl)

parse_cont_disp_val-get_field_header_example :
    (get_field_header vec_sink (codes "boundary") (codes "foo") (some (codes "a b; c.txt")) none
      ≡ dashes
        ++ (codes "boundary"
            ++ (codes "\r\nContent-Disposition: "
                ++ (disposition (codes "foo") (some (codes "a b; c.txt")) ++ header_end none))))
    × (parse_cont_disp_val
          (disposition (codes "foo") (some (codes "a b; c.txt")))
          (record { name = []; filename = none })
        ≡ value (ok (record { name = codes "foo"; filename = some (codes "a b; c.txt") })))
parse_cont_disp_val-get_field_header_example =
    parse_cont_disp_val-get_field_header (codes "boundary") (codes "foo")
      (some (codes "a b; c.txt")) none (λ e. cc) foo-IsQuotable file-IsQuotable

-- the client does not escape quotes: of a name with one, the part in front of it is read
quoted_name :
    parse_cont_disp_val (disposition (codes "a\"b") none) (record { name = []; filename = none })
    ≡ value (ok (record { name = codes "a"; filename = none }))
unfolding parse_cont_disp_val
quoted_name = refl

-- a generator that draws one letter for ever
abbrev letters : Samples
letters = record {
  sample = λ i. b'a';
  alphanumeric = λ i. inr (inr ((omega arith), (omega arith)));
}

-- texts as header values
abbrev texts : HeaderValues
texts = record {
  HeaderValue = Bytes;
  parse = λ bytes. some bytes;
  to_str = λ bytes. some bytes;
  parses = λ bytes visible. (bytes, refl, refl);
}

get_content_type-wrap_writer_example :
    let req = Request.new letters in
    let w = wrap_writer vec_sink req [] in
    (v : Bytes) × (get_content_type texts req ≡ value v)
    × (some (codes "multipart/form-data; boundary=" ++ w.boundary) ≡ some v)
    × (length w.boundary ≡ 32)
get_content_type-wrap_writer_example = get_content_type-wrap_writer letters texts vec_sink []

-- requests by POST with a content type, whose parameter stands behind the name of its type
abbrev posts : Requests texts
posts = record {
  Parts = Bytes;
  is_post = λ parts. true;
  content_type = λ parts. some parts;
  Mime = Bytes;
  parse_mime = λ bytes. some bytes;
  boundary_param = λ mime. some (drop 30 mime);
  parses_form =
      λ boundary letters positive. (codes "multipart/form-data; boundary=" ++ boundary, refl, refl);
}

abbrev drawn : Bytes
drawn = codes "aaaaaaaaaaaaaaaaaaaaaaaaaaaaaaaa"

abbrev drawn_type : Bytes
drawn_type = codes "multipart/form-data; boundary=" ++ drawn

drawn-AllReceived :
    AllReceived one_header
      (delimiter (Request.new letters).boundary)
      ((text_field, a_headers) ∷ exchanged)
unfolding part headers_of get_field_header find_naive starts_with parse_headers parse_cont_disp_val
    Request.new
drawn-AllReceived = (
  record { end_idx = 40; ends = refl; size = refl; parsed = refl; apart = refl },
  (record { end_idx = 40; ends = refl; size = refl; parsed = refl; apart = refl }, tt),
)

try_from_request-ReadsTexts_example :
    (w : Writer vec_sink) × (write_request
        (text_field ∷ fields_of one_header exchanged)
        (wrap_writer vec_sink (Request.new letters) [])
      ≡ (done tt, w))
    × (m : Multipart ℕ) × (try_from_request texts posts
          (record { parts = drawn_type; body = chunk w.inner ∷ [] })
        ≡ ok m)
    × ReadsTexts one_header m (answers_of one_header ((text_field, a_headers) ∷ exchanged))
unfolding get_content_type Request.new
try_from_request-ReadsTexts_example =
    try_from_request-ReadsTexts texts posts letters one_header ℕ text_field a_headers exchanged
      drawn_type drawn_type drawn-AllReceived texts-AllUtf8 refl refl refl
