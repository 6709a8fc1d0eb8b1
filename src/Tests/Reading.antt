-- ===== src/Tests/Reading.antt =====
-- The theorems on the reading of headers and fields at concrete inputs.
use multipart_async.Base.{ℕ, ◌≡◌, refl, codes, [], ◌∷◌, List, some, none, value, arith, Returns}
use multipart_async.Stream.{Event, pending, not_ready, chunk, failed, Result, HeaderError}
use multipart_async.Search.{Twoway, ends_with}
use multipart_async.Search.Naive.{naive}
use multipart_async.Finder.{watching, remainder}
use multipart_async.Finder.Spec.{Inv}
use multipart_async.Push.{PushChunk, poll_next}
use multipart_async.Push.Spec.{PollSpec, poll_next-PollSpec}
use multipart_async.Fields.{FieldHeaders, parse_headers}
use multipart_async.Fields.Total.{parse_headers_total}
use multipart_async.Headers.{ReadHeaders, read_headers}
use multipart_async.Headers.Spec.{ReadSpec}
use multipart_async.Headers.Read.{read_headers-ReadSpec}
use multipart_async.Multipart.{Multipart, with_body, poll_has_next_field}
use multipart_async.Multipart.Steps.{
  with_body-InOrder, Reach, here, further, has_next, NeverPanics, Reach-NeverPanics,
}
use multipart_async.Tests.Fields.{one_header}
use multipart_async.ReadString
use multipart_async.TestUtil.{run_future_hot, until_ready}
use multipart_async.Multipart.Next.{Answered, next_field-Answered}
use multipart_async.Multipart.Data.{field_stream, read_to_string, next_field, poll_unpin}
use multipart_async.Multipart.Text.{ReadsText, read_to_string-ReadsText}
use multipart_async.Headers.{is_reading_headers}

instance abbrev tw : Twoway
tw = naive

-- a part of the headers, and a pause in the next
abbrev in_headers : PushChunk ℕ
in_headers = record {
  stream = record {
    stream = not_ready ∷ chunk (codes "name=a\r\n\r\ndata") ∷ [];
    state = remainder (codes "Content-Disposition: form-data;");
    boundary = codes "--boundary";
  };
  pushed = none;
}

in_headers-Inv : Inv (codes "--boundary") in_headers.stream
in_headers-Inv = record {
  same_boundary = refl;
  good_boundary = ((omega arith), (omega arith));
  good_state = tt;
}

abbrev begun : ReadHeaders
begun = record { accumulator = codes "X: y\r\n" }

read_headers-ReadSpec_example :
    Returns
      (ReadSpec one_header begun in_headers (codes "--boundary"))
      (read_headers one_header begun in_headers)
read_headers-ReadSpec_example =
    read_headers-ReadSpec one_header (codes "--boundary") begun in_headers in_headers-Inv

abbrev handed : PushChunk ℕ
handed = record in_headers { pushed = some (codes "data") }

poll_next-PollSpec_example : Returns (PollSpec handed (codes "--boundary")) (poll_next handed)
poll_next-PollSpec_example = poll_next-PollSpec (codes "--boundary") handed in_headers-Inv

parse_headers_total_example :
    (r : Result (FieldHeaders one_header) HeaderError) × (parse_headers one_header
        (codes "Content-Disposition: form-data; name=a\r\n\r\n")
      ≡ value r)
parse_headers_total_example =
    parse_headers_total one_header (codes "Content-Disposition: form-data; name=a\r\n\r\n")
      (unfold ends_with in refl)

-- a body that breaks off in its first boundary
abbrev events : List (Event ℕ)
events = not_ready ∷ chunk (codes "--boun") ∷ failed 7 ∷ []

-- behind the first poll, which is pending
abbrev polled : Multipart ℕ
polled = record {
  inner = record {
    stream = record {
      stream = chunk (codes "--boun") ∷ failed 7 ∷ [];
      state = watching;
      boundary = codes "--boundary";
    };
    pushed = none;
  };
  read_hdr = record { accumulator = [] };
}

reached : Reach one_header (with_body events (codes "boundary")) polled
unfolding with_body poll_has_next_field
reached = further here (has_next pending refl)

Reach-NeverPanics_example : NeverPanics one_header polled
Reach-NeverPanics_example = Reach-NeverPanics one_header events (codes "boundary") polled reached

-- behind the headers of a field: "ab" was handed back, and "c" and the boundary are in the next chunks
abbrev in_text : Multipart ℕ
in_text = record {
  inner = record {
    stream = record {
      stream = chunk (codes "c\r\n--bound") ∷ not_ready ∷ chunk (codes "ary--") ∷ [];
      state = watching;
      boundary = codes "--boundary";
    };
    pushed = some (codes "ab");
  };
  read_hdr = record { accumulator = [] };
}

read_to_string-ReadsText_example :
    Returns
      (λ (result, r). ReadsText (codes "--boundary") in_text result r.stream)
      (run_future_hot 10
        (ReadString.poll field_stream)
        (read_to_string (record { multipart = in_text })))
read_to_string-ReadsText_example =
    read_to_string-ReadsText (codes "--boundary") in_text 10
      (record {
        in_order = record {
          same_boundary = refl;
          good_boundary = ((omega arith), (omega arith));
          good_state = tt;
        };
        idle = unfold is_reading_headers in refl;
      })
      (omega arith)

next_field-Answered_example :
    (polls : ℕ) × Returns
      (λ (result, s). Answered one_header {E = ℕ} (codes "--boundary") result s)
      (until_ready polls (poll_unpin one_header) (next_field (with_body events (codes "boundary"))))
next_field-Answered_example =
    next_field-Answered one_header (codes "--boundary") (with_body events (codes "boundary"))
      (with_body-InOrder events (codes "boundary"))
