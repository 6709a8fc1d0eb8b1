-- ===== src/Tests/Boundary.antt =====
-- Runs of src/server/boundary.rs, and of the writer, on the inputs of the repository's tests.
use multipart_async.Base.{ℕ, Bytes, codes, [], ◌∷◌, some, true, ◌≡◌, refl, value}
use multipart_async.Stream.{chunk, ready, ok}
use multipart_async.Search.{
  Twoway, find_boundary, check_crlf, boundary_size, starts_with, zip_all_eq, check_boundary,
  check_last_two,
}
use multipart_async.Chunk.{slice_split_at}
use multipart_async.Search.Naive.{naive, find_naive}
use multipart_async.Finder.{Finder, watching, remainder, found, consume_boundary, body_chunk}

abbrev boundary : Bytes
boundary = codes "--boundary"

instance abbrev search_tw : Twoway
search_tw = naive

abbrev start : Finder ℕ
start = record {
  stream = chunk (codes "--boundary\r\nfield data\r\n--boundary--") ∷ [];
  state = watching;
  boundary = boundary;
}

abbrev in_field : Finder ℕ
in_field = record {
  stream = [];
  state = remainder (codes "field data\r\n--boundary--");
  boundary = boundary;
}

-- the newline behind the first boundary is left to the reader of the headers
first_boundary :
    consume_boundary start
    ≡ value (
      ready (ok true),
      record {
        stream = [];
        state = remainder (codes "field data\r\n--boundary--");
        boundary = boundary;
      },
    )
unfolding consume_boundary find_boundary find_naive check_crlf boundary_size slice_split_at
    starts_with zip_all_eq check_boundary check_last_two
first_boundary = refl

-- the data of the field, without the newline in front of the next boundary
field_data :
    body_chunk in_field
    ≡ value (
      ready (some (ok (codes "field data"))),
      record in_field { state = found (codes "--boundary--") },
    )
unfolding body_chunk find_boundary find_naive check_crlf boundary_size slice_split_at starts_with
    zip_all_eq check_boundary check_last_two
field_data = refl
