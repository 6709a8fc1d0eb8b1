-- ===== src/Tests/Witnesses.antt =====
-- The theorems at concrete inputs.
use multipart_async.Base.{
  ℕ, ◌≡◌, Bytes, codes, [], ◌∷◌, ◌++◌, List, some, none, true, false, refl, value, arith,
}
use multipart_async.Stream.{chunk, ready, ok, Text, Event, Result, HeaderError}
use multipart_async.Search.{
  Twoway, SearchResult, find_boundary, partial_find_boundary, partial_rmatch, check_crlf,
  boundary_size, zip_all_eq,
}
use multipart_async.Search.Naive.{naive, find_naive}
use multipart_async.Search.Zero.{IsBoundary, find_boundary_prefix}
use multipart_async.Search.Locate.{Located, find_boundary-Located}
use multipart_async.Finder.{
  Finder, watching, partial, found, remainder, set_state, consume_boundary, body_chunk,
  second_chunk, confirm_boundary, confirm_boundary_split,
}
use multipart_async.Finder.Spec.{Inv, BodySpec}
use multipart_async.Finder.Second.{Second, second_chunk-Second}
use multipart_async.Finder.Body.{body_chunk-BodySpec}
use multipart_async.Finder.Confirmed.{Confirmed, confirm_boundary-Confirmed}
use multipart_async.Finder.ConfirmedSplit.{SplitConfirmed, confirm_boundary_split-SplitConfirmed}
use multipart_async.Finder.Passed.{ConsumeSpec}
use multipart_async.Finder.Consume.{consume_boundary-ConsumeSpec}
use multipart_async.Finder.Missed.{body_chunk_missed, confirm_boundary_split_dashes}
use multipart_async.Finder.Whole.{body_chunk_whole}
use multipart_async.Disposition.{Names, parse_keyval, parse_cont_disp_val}
use multipart_async.Disposition.Loop.{parse_cont_disp_val_total}
use multipart_async.Writer.{
  Writer, vec_sink, done, get_field_header, write_field, write_stream, finish,
}
use multipart_async.Writer.Output.{wrote, write_field-wrote, write_stream-wrote, finish-wrote}

abbrev boundary : Bytes
boundary = codes "--boundary"

boundary-IsBoundary : IsBoundary boundary
boundary-IsBoundary = ((omega arith), (omega arith))

instance abbrev tw : Twoway
tw = naive

-- data, and a boundary that is cut off by the end of the chunk
abbrev cut : Bytes
cut = codes "data\r\n--bou"

abbrev cut_res : SearchResult
cut_res = record { idx = 4; incl_crlf = true }

cut-found : find_boundary boundary cut ≡ some cut_res
unfolding find_boundary find_naive partial_find_boundary partial_rmatch zip_all_eq check_crlf
cut-found = refl

-- a boundary that begins its chunk and is cut off by the end of it
abbrev head : Bytes
head = codes "\r\n--bou"

abbrev head_res : SearchResult
head_res = record { idx = 0; incl_crlf = true }

head-found : find_boundary boundary head ≡ some head_res
unfolding find_boundary find_naive partial_find_boundary partial_rmatch zip_all_eq check_crlf
head-found = refl

abbrev events : List (Event ℕ)
events = chunk (codes "ndary\r\n\r\n") ∷ []

abbrev over : List (Event ℕ) → Finder ℕ
over stream = record { stream = stream; state = watching; boundary = boundary }

abbrev half : Finder ℕ
half = record { stream = events; state = partial head head_res; boundary = boundary }

half-Inv : Inv boundary half
unfolding boundary_size
half-Inv = record {
  same_boundary = refl;
  good_boundary = boundary-IsBoundary;
  good_state = (head-found, (omega arith));
}

body_chunk-BodySpec_example : BodySpec boundary half (body_chunk half)
body_chunk-BodySpec_example = body_chunk-BodySpec boundary half half-Inv

consume_boundary-ConsumeSpec_example : ConsumeSpec boundary half (consume_boundary half)
consume_boundary-ConsumeSpec_example = consume_boundary-ConsumeSpec boundary half half-Inv

second_chunk-Second_example :
    Second
      (over [])
      head
      head_res
      (codes "ndary\r\n\r\n")
      (second_chunk (over []) head head_res (codes "ndary\r\n\r\n"))
second_chunk-Second_example =
    second_chunk-Second (over []) head head_res (codes "ndary\r\n\r\n") boundary-IsBoundary
      head-found

abbrev whole : Bytes
whole = codes "data\r\n--boundary\r\nrest"

whole-found : find_naive whole boundary ≡ some 6
unfolding find_naive
whole-found = refl

body_chunk_whole_example :
    body_chunk (over (chunk whole ∷ []))
    ≡ value (
      ready (some (ok (codes "data"))),
      record { stream = []; state = found (codes "--boundary\r\nrest"); boundary = boundary },
    )
body_chunk_whole_example =
    body_chunk_whole [] boundary (codes "data") (codes "\r\nrest") (cc) whole-found (omega arith)

body_chunk_missed_example :
    body_chunk (over (chunk cut ∷ events))
    ≡ value (
      ready (some (ok cut)),
      record { stream = []; state = remainder (codes "ndary\r\n\r\n"); boundary = boundary },
    )
body_chunk_missed_example =
    body_chunk_missed [] boundary cut (codes "ndary\r\n\r\n") cut_res boundary-IsBoundary cut-found
      (omega arith) (unfold boundary_size in omega arith)

confirm_boundary_split_dashes_example :
    confirm_boundary_split (over []) (codes "--boundary-") (codes "-")
    ≡ value (ready (ok true), set_state (over []) (remainder []))
confirm_boundary_split_dashes_example =
    confirm_boundary_split_dashes (over []) b'-' b'-' [] boundary-IsBoundary

confirm_boundary-Confirmed_example :
    Confirmed
      (over [])
      (codes "--boundary\r\nrest")
      (confirm_boundary (over []) (codes "--boundary\r\nrest"))
confirm_boundary-Confirmed_example =
    confirm_boundary-Confirmed (over []) (codes "--boundary\r\nrest") boundary-IsBoundary

confirm_boundary_split-SplitConfirmed_example :
    SplitConfirmed
      (over [])
      (codes "--bou")
      (codes "ndary--")
      (confirm_boundary_split (over []) (codes "--bou") (codes "ndary--"))
confirm_boundary_split-SplitConfirmed_example =
    confirm_boundary_split-SplitConfirmed (over []) (codes "--bou") (codes "ndary--")
      boundary-IsBoundary

find_boundary-Located_example : Located boundary cut cut_res
find_boundary-Located_example = find_boundary-Located boundary cut cut-found

find_boundary_prefix_example : head_res.idx ≡ 0
find_boundary_prefix_example =
    find_boundary_prefix boundary head boundary-IsBoundary head-found (unfold zip_all_eq in refl)

abbrev params : Text
params = codes " name=\"field\"; filename=a.txt"

abbrev no_names : Names
no_names = record { name = []; filename = none }

parse_cont_disp_val_total_example :
    (r : Result Names HeaderError) × (parse_cont_disp_val (codes "form-data; name=field") no_names
      ≡ value r)
parse_cont_disp_val_total_example =
    parse_cont_disp_val_total (codes "form-data; name=field") no_names

-- a parameter, and the one behind it
params-read : parse_keyval params ≡ some (codes "name", codes "field", codes "filename=a.txt")
unfolding parse_keyval
params-read = refl

abbrev writer : Writer vec_sink
writer = record { inner = []; boundary = codes "boundary"; data_written = false }

write_field-wrote_example :
    write_field vec_sink
      (codes "name")
      none
      none
      (record { buffers = codes "a" ∷ codes "b" ∷ []; fails = false })
      writer
    ≡ (
      done tt,
      record (wrote writer (
          get_field_header vec_sink (codes "boundary") (codes "name") none none
          ++ codes "ab\r\n")) { data_written = true },
    )
write_field-wrote_example =
    write_field-wrote writer (codes "name") none none (codes "a" ∷ codes "b" ∷ [])

write_stream-wrote_example :
    write_stream vec_sink
      (codes "name")
      none
      none
      (record { buffers = codes "a" ∷ codes "b" ∷ []; fails = false })
      writer
    ≡ (done tt, wrote writer (codes "ab\r\n"))
write_stream-wrote_example =
    write_stream-wrote writer (codes "name") none none (codes "a" ∷ codes "b" ∷ [])

finish-wrote_example :
    finish vec_sink (record writer { data_written = true })
    ≡ (done tt, wrote (record writer { data_written = true }) (codes "--boundary--\r\n"))
finish-wrote_example = finish-wrote (record writer { data_written = true })
