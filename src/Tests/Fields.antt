-- ===== src/Tests/Fields.antt =====
-- The theorems on `PushChunk`, `Multipart` and the headers at concrete inputs.
use multipart_async.Base.{
  ℕ, ◌≤◌, ◌≡◌, codes, [], ◌∷◌, ◌++◌, List, some, none, true, false, refl, value, length, take,
  is_empty, ◌>>=◌,
}
use multipart_async.Stream.{ready, ok, Event}
use multipart_async.Search.{Twoway, ends_with}
use multipart_async.Search.Naive.{naive}
use multipart_async.Finder.{Finder, watching, end}
use multipart_async.Push.{PushChunk, push_chunk, poll_next}
use multipart_async.Push.Handed.{poll_next-push_chunk}
use multipart_async.Headers.{is_reading_headers, header_end_split}
use multipart_async.Headers.End.{ends_with-header_end_split}
use multipart_async.Fields.{complete, Crates, FieldHeaders, parse_headers, crlf2}
use multipart_async.Fields.Extra.{parse_headers_extra}
use multipart_async.Fields.Named.{parse_headers_name}
use multipart_async.Multipart.{Multipart, poll_has_next_field, poll_field_chunk}
use multipart_async.Multipart.Left.{poll_field_chunk-poll_has_next_field}
use multipart_async.Disposition.{parse_cont_disp_val}

instance abbrev tw : Twoway
tw = naive

abbrev over : List (Event ℕ) → Finder ℕ
over stream = record { stream = stream; state = watching; boundary = codes "--boundary" }

abbrev empty_push : PushChunk ℕ
empty_push = record { stream = over []; pushed = none }

poll_next-push_chunk_example :
    (push_chunk empty_push (codes "data") >>= poll_next)
    ≡ value (ready (some (ok (codes "data"))), empty_push)
poll_next-push_chunk_example = poll_next-push_chunk empty_push (codes "data") refl (cc)

-- the data of a field that was handed back with its headers, and nothing behind it
abbrev before : Multipart ℕ
before = record {
  inner = record { stream = over []; pushed = some (codes "data") };
  read_hdr = record { accumulator = [] };
}

abbrev after : Multipart ℕ
after = record before { inner = record before.inner { stream = record (over []) { state = end } } }

polled-after : poll_has_next_field before ≡ value (ready (ok false), after)
unfolding poll_has_next_field
polled-after = refl

poll_field_chunk-poll_has_next_field_example :
    poll_field_chunk after
    ≡ value (
      ready (some (ok (codes "data"))),
      record after { inner = record after.inner { pushed = none } },
    )
poll_field_chunk-poll_has_next_field_example =
    poll_field_chunk-poll_has_next_field before after (ready (ok false)) (codes "data") refl
      (unfold is_reading_headers in refl) polled-after

end-found : header_end_split (codes "a: b\r\n\r") (codes "\nrest") ≡ some 1
unfolding header_end_split
end-found = refl

ends_with-header_end_split_example :
    (1 ≤ length (codes "\nrest"))
    × (ends_with (codes "a: b\r\n\r" ++ take 1 (codes "\nrest")) crlf2 ≡ true)
ends_with-header_end_split_example =
    ends_with-header_end_split (codes "a: b\r\n\r") (codes "\nrest") end-found

-- crates that read one header, whatever the bytes are
abbrev pub one_header : Crates
one_header = record {
  Mime = Unit;
  HeaderName = Unit;
  HeaderValue = Unit;
  HeaderMap = Unit;
  httparse_headers = λ max bytes. complete (
      record { header_name = codes "Content-Disposition"; header_value = codes "form-data; name=a" }
      ∷ []);
  parse_mime = λ text. none;
  is_text_mime = λ mime. false;
  header_name_from_bytes = λ bytes. none;
  header_value_from_bytes = λ bytes. none;
  empty_map = tt;
  append = λ map name val. map;
}

abbrev pub a_headers : FieldHeaders one_header
a_headers = record {
  names = record { name = codes "a"; filename = none };
  content_type = none;
  ext_headers = tt;
}

headers-read :
    parse_headers one_header (codes "Content-Disposition: form-data; name=a\r\n\r\n")
    ≡ value (ok a_headers)
unfolding parse_headers parse_cont_disp_val
headers-read = refl

parse_headers_name_example : is_empty (codes "a") ≡ false
parse_headers_name_example =
    parse_headers_name one_header (codes "Content-Disposition: form-data; name=a\r\n\r\n")
      headers-read

parse_headers_extra_example : tt ≡ one_header.empty_map
parse_headers_extra_example =
    parse_headers_extra one_header (codes "Content-Disposition: form-data; name=a\r\n\r\n")
      (λ section h. refl) headers-read
