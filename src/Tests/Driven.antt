-- ===== src/Tests/Driven.antt =====
-- The theorems on `ReadToString`, and on the drivers of futures and streams, at concrete inputs.
use multipart_async.Base.{
  ℕ, ◌≡◌, refl, ap, inl, inr, codes, [], ◌∷◌, List, some, none, arith, Returns, value, out_of_fuel,
}
use multipart_async.Stream.{ready, ok, Event, not_ready, chunk, failed}
use multipart_async.Search.{Twoway}
use multipart_async.Search.Naive.{naive}
use multipart_async.Finder.{Finder, watching, body_chunk}
use multipart_async.Finder.Sized.{BodySized, body_chunk-BodySized}
use multipart_async.Text.{check_utf8}
use multipart_async.ReadString
use multipart_async.ReadString.{ReadToString, event_stream}
use multipart_async.ReadString.Spec.{Decoded}
use multipart_async.ReadString.Whole.{TextSpec, poll-TextSpec, event_stream-Gives}
use multipart_async.ReadString.Driven.{text_of}
use multipart_async.ReadString.Content.{content_text, run_future_hot-content_text}
use mathlib.Core.Quot
use multipart_async.TestUtil.{until_ready, mock_stream, items, Interleave, run_future_hot}
use multipart_async.Fuzzing.{chunk_fuzz_data, fuzz_boundary_finder, fuzz_read_headers}
use multipart_async.Fuzzing.Ends.{fuzz_read_headers-value}
use multipart_async.Fuzzing.Asserted.{fuzz_boundary_finder-value}
use multipart_async.Fuzzing.Field.{fuzz_boundary_finder_field}
use multipart_async.Fuzzing.Whole.{fuzz_whole_request}
use multipart_async.Fuzzing.Endless.{fuzz_whole_request-endless}
use multipart_async.Fuzzing.FieldRead.{fuzz_boundary_finder_field-value}
use multipart_async.Search.{starts_with}
use multipart_async.Search.Naive.{find_naive}
use multipart_async.Finder
use multipart_async.Writer
use multipart_async.Writer.{done, vec_sink, Writer, get_field_header}
use multipart_async.Exchange.{
  Field, write_request, headers_of, part, parts, ReadsParts, AllSeparate,
}
use multipart_async.Exchange.RoundTrip.{ReadsParts-write_request}
use multipart_async.Finder.Skip.{skip}
use multipart_async.Finder.Unpaused.{until_ready-skip}
use multipart_async.Chunk.{slice_chunk, vec_chunk, cow_chunk, owned}
use multipart_async.Chunk.Cuts.{Cuts, KeepsKind, chunks-Cuts}
use multipart_async.Tests.Fields.{one_header}

instance abbrev tw : Twoway
tw = naive

-- A pause before every item and before the end.
abbrev pauses : {E : Type 0} → List (Event E) → List (Event E)
pauses [] = not_ready ∷ []
pauses (not_ready ∷ events) = not_ready ∷ pauses events
pauses (chunk c ∷ events) = not_ready ∷ chunk c ∷ pauses events
pauses (failed e ∷ events) = not_ready ∷ failed e ∷ pauses events

items-pauses : {E : Type 0} (events : List (Event E)) → items (pauses events) ≡ items events
items-pauses [] = refl
items-pauses (not_ready ∷ events) = items-pauses events
items-pauses (chunk c ∷ events) = ap (λ es. chunk c ∷ es) (items-pauses events)
items-pauses (failed e ∷ events) = ap (λ es. failed e ∷ es) (items-pauses events)

instance abbrev il : Interleave
il = record { interleave_pending = pauses; same_items = items-pauses }

-- "a", and a character of three bytes that is cut behind its first
abbrev euro : List (Event ℕ)
euro = chunk (0x61 ∷ 0xE2 ∷ []) ∷ not_ready ∷ chunk (0x82 ∷ 0xAC ∷ []) ∷ []

-- the same bytes, and then an error
abbrev broken : List (Event ℕ)
broken = chunk (0x61 ∷ 0xE2 ∷ []) ∷ not_ready ∷ chunk (0x82 ∷ 0xAC ∷ []) ∷ failed 7 ∷ []

run_future_hot-content_text_example :
    Returns
      (λ (result, r). text_of result ≡ content_text ℕ (Quot.mk broken))
      (run_future_hot 5 (ReadString.poll event_stream) (ReadString.new broken))
run_future_hot-content_text_example =
    run_future_hot-content_text event_stream (λ _. Unit) broken broken 5 (event_stream-Gives broken)
      (omega arith)

-- behind the first of its chunks
abbrev begun : ReadToString (List (Event ℕ))
begun = record {
  stream = chunk (0x82 ∷ 0xAC ∷ []) ∷ [];
  string = codes "a";
  surrogate = some (0xE2 ∷ 0 ∷ 0 ∷ [], 1);
}

begun-Decoded : Decoded (0x61 ∷ 0xE2 ∷ []) begun
unfolding check_utf8
begun-Decoded = record {
  text = refl;
  held = (
    record {
      lead = 0xE2;
      rest = [];
      pad = 0 ∷ 0 ∷ [];
      wants = 2;
      leads = inr (inr (inl ((omega arith), (omega arith), refl)));
      short = omega arith;
      start_eq = refl;
      size = refl;
      len_eq = refl;
    },
    refl,
  );
}

poll-TextSpec_example :
    TextSpec event_stream
      (λ _. Unit)
      (0x61 ∷ 0xE2 ∷ [])
      begun.stream
      (ReadString.poll event_stream begun)
poll-TextSpec_example =
    poll-TextSpec event_stream (λ _. Unit) (0x61 ∷ 0xE2 ∷ []) begun.stream begun
      (event_stream-Gives begun.stream) begun-Decoded

fuzz_boundary_finder-value_example : fuzz_boundary_finder ℕ (codes "--boundary\r\n") ≡ value tt
fuzz_boundary_finder-value_example = fuzz_boundary_finder-value ℕ (codes "--boundary\r\n")

fuzz_boundary_finder_field-value_example :
    fuzz_boundary_finder_field ℕ (codes "\r\n--boundar") ≡ value tt
fuzz_boundary_finder_field-value_example =
    fuzz_boundary_finder_field-value ℕ (codes "\r\n--boundar")

fuzz_whole_request-endless_example :
    fuzz_whole_request one_header ℕ 30 3 (codes "----boundary--") ≡ out_of_fuel
fuzz_whole_request-endless_example =
    fuzz_whole_request-endless one_header ℕ 30 3 (codes "----boundary--")

fuzz_read_headers-value_example :
    fuzz_read_headers one_header ℕ 30 (codes "Content-Disposition: multipart/form-data; name=foo")
    ≡ value tt
unfolding chunk_fuzz_data
fuzz_read_headers-value_example =
    fuzz_read_headers-value one_header ℕ
      (codes "Content-Disposition: multipart/form-data; name=foo") 30 (omega arith)

abbrev short_chunks : Finder ℕ
short_chunks = record {
  stream = chunk (codes "ab\r\n--bou") ∷ chunk (codes "ndary--") ∷ [];
  state = watching;
  boundary = codes "--boundary";
}

body_chunk-BodySized_example : BodySized 9 (body_chunk short_chunks)
body_chunk-BodySized_example =
    body_chunk-BodySized 9 (codes "--boundary") short_chunks
      (record {
        same_boundary = refl;
        good_boundary = ((omega arith), (omega arith));
        good_state = tt;
      })
      (((refl, (omega arith)), ((refl, (omega arith)), tt)), tt)

-- a text and a file in two buffers
abbrev text_field : Field
text_field = record {
  name = codes "foo";
  filename = none;
  content_type = none;
  buffers = codes "field data" ∷ [];
}

abbrev file_field : Field
file_field = record {
  name = codes "bar";
  filename = some (codes "quux.txt");
  content_type = some (codes "text/plain");
  buffers = codes "more\r\n" ∷ codes "data --" ∷ [];
}

apart : AllSeparate (codes "--boundary") (parts (text_field ∷ file_field ∷ []))
unfolding parts part headers_of get_field_header find_naive starts_with
apart = (refl, (refl, tt))

ReadsParts-write_request_example :
    (w : Writer vec_sink) × (write_request
        (text_field ∷ file_field ∷ [])
        (Writer.new vec_sink [] (codes "boundary"))
      ≡ (done tt, w))
    × ReadsParts {E = ℕ}
        (Finder.new (chunk w.inner ∷ []) (codes "--boundary"))
        (parts (text_field ∷ file_field ∷ []))
ReadsParts-write_request_example =
    ReadsParts-write_request ℕ (codes "boundary") text_field (file_field ∷ []) apart

-- `test_read_to_string`
read_to_string_test :
    (b : ReadToString (List (Event ℕ))) × (run_future_hot 9 (ReadString.poll event_stream) (
        ReadString.new
          (mock_stream {E = ℕ} (codes "Hello" ∷ codes "," ∷ codes " " ∷ codes "world!" ∷ [])))
      ≡ value (ok (codes "Hello, world!"), b))
unfolding run_future_hot ReadString.poll ReadString.new mock_stream check_utf8
read_to_string_test = (record { stream = []; string = []; surrogate = none }, refl)

-- a boundary across two chunks, with a pause before each
abbrev paused_chunks : Finder ℕ
paused_chunks = record short_chunks {
  stream = not_ready ∷ chunk (codes "\r\n--bou") ∷ not_ready ∷ chunk (codes "ndary--") ∷ [];
}

until_ready-skip_example :
    Returns
      (λ (a, g). body_chunk (skip paused_chunks) ≡ value (ready a, skip g))
      (until_ready 10 body_chunk paused_chunks)
until_ready-skip_example =
    until_ready-skip (codes "--boundary") paused_chunks 10
      (record {
        same_boundary = refl;
        good_boundary = ((omega arith), (omega arith));
        good_state = tt;
      })
      (omega arith)

chunks-Cuts_example :
    Cuts slice_chunk (codes "field data") 5 (slice_chunk.split_into (codes "field data") 5)
    × Cuts vec_chunk (codes "field data") 5 (vec_chunk.split_into (codes "field data") 5)
    × Cuts cow_chunk (owned (codes "abc")) 5 (cow_chunk.split_into (owned (codes "abc")) 5)
    × KeepsKind (owned (codes "abc")) (cow_chunk.split_into (owned (codes "abc")) 5)
chunks-Cuts_example = chunks-Cuts (codes "field data") (owned (codes "abc")) 5
