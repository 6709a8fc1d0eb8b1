-- ===== src/Exchange/Steps.antt =====
-- The steps of a reader through a request of one chunk.
use multipart_async.Base.{
  some, ◌+◌, ◌≤◌, ◌≡◌, ◌≢◌, refl, ap, ◌∙◌, true, false, List, [], ◌∷◌, ◌++◌, Bytes, length, value,
  arith,
}
use multipart_async.Stream.{ready, ok, chunk}
use multipart_async.Search.{Twoway, crlf, dashes}
use multipart_async.Search.Zero.{IsBoundary}
use multipart_async.Finder
use multipart_async.Finder.{Finder, watching, found, remainder, end, body_chunk, consume_boundary}
use multipart_async.Finder.Confirm.{next_state}
use multipart_async.Finder.Whole.{append_nonempty}
use multipart_async.Finder.Walk.{
  left, body_chunk_rest, consume_boundary_found, consume_boundary_front, check_last_two-dashes,
  check_last_two-crlf,
}
use multipart_async.Writer
use multipart_async.Writer.{
  Io, done, vec_sink, Writer, continue, get_field_header, write_field, finish,
}
use multipart_async.Writer.Output.{joined}
use multipart_async.Exchange.{
  Field, write_request, headers_of, part, behind, part-eq, writer, sent, write_request-first,
  write_request-sent,
}

behind-length : (boundary : Bytes) (fs : List Field) → 2 ≤ length (behind boundary fs)
unfolding behind
behind-length boundary [] = omega arith
behind-length boundary (f ∷ fs) = omega arith

part-nonempty : (f : Field) → part f ≢ []
unfolding part headers_of get_field_header
part-nonempty f e = cc

-- the boundary as it stands in the body
abbrev pub delimiter : Bytes → Bytes
delimiter boundary = dashes ++ boundary

delimiter-IsBoundary : (boundary : Bytes) → IsBoundary (delimiter boundary)
delimiter-IsBoundary boundary = ((omega arith), (omega arith))

-- the writer behind a request
abbrev pub written : Bytes → Field → List Field → Writer vec_sink
written boundary f fs = writer boundary (delimiter boundary ++ behind boundary (f ∷ fs)) true

pub write_request-written :
    (boundary : Bytes) (f : Field) (fs : List Field)
    → write_request (f ∷ fs) (Writer.new vec_sink [] boundary) ≡ (done tt, written boundary f fs)
unfolding Writer.new behind
write_request-written boundary f fs =
    write_request-first boundary f fs [] false
    ∙ write_request-sent boundary fs (
        get_field_header vec_sink boundary f.name f.filename f.content_type
        ++ (joined f.buffers ++ crlf))
    ∙ ap (sent boundary) (part-eq boundary f (delimiter boundary ++ behind boundary fs))

module _ ⦃tw : Twoway⦄ (E : Type 0) (boundary : Bytes) where
  -- the finder behind the boundary in front of `fs`, as the answers of the poll have it
  abbrev pub next_in : List Field → Finder E
  next_in fs = left (delimiter boundary) [] (found (delimiter boundary ++ behind boundary fs))

  -- before the first poll
  abbrev pub front : Field → List Field → Finder E
  front f fs = Finder.new (chunk (written boundary f fs).inner ∷ []) (delimiter boundary)

  -- behind the poll that announces the field `f`
  abbrev pub in_field : Field → List Field → Finder E
  in_field f fs =
      left (delimiter boundary) []
        (remainder (part f ++ (crlf ++ (delimiter boundary ++ behind boundary fs))))

  some_rest : (f : Field) (rest : Bytes) → next_state (part f ++ rest) ≡ remainder (part f ++ rest)
  some_rest f rest = rw (append_nonempty (part f) rest (part-nonempty f)) refl

  -- The field comes in one chunk.
  pub in_field-chunk :
      (f : Field) (fs : List Field)
      → tw.find_bytes (part f ++ (crlf ++ delimiter boundary)) (delimiter boundary)
        ≡ some (length (part f) + 2)
      → body_chunk (in_field f fs) ≡ value (ready (some (ok (part f))), next_in fs)
  in_field-chunk f fs apart =
      body_chunk_rest [] (delimiter boundary) (part f) (behind boundary fs) (part-nonempty f) apart
        (behind-length boundary fs)

  -- No field follows the last one.
  pub next_in-end :
      consume_boundary (next_in []) ≡ value (ready (ok false), left (delimiter boundary) [] end)
  unfolding behind
  next_in-end = rw (check_last_two-dashes (delimiter boundary)) at (
      consume_boundary_found {E = E} [] (delimiter boundary) b'-' b'-' crlf
        (delimiter-IsBoundary boundary))

  -- A field is announced: behind another one, and at the front.
  pub next_in-field :
      (f : Field) (fs : List Field)
      → consume_boundary (next_in (f ∷ fs)) ≡ value (ready (ok true), in_field f fs)
  unfolding behind
  next_in-field f fs =
      let rest = crlf ++ (delimiter boundary ++ behind boundary fs) in
      rw (check_last_two-crlf (delimiter boundary), some_rest f rest) at
        (consume_boundary_found {E = E} [] (delimiter boundary) b'\r' b'\n' (part f ++ rest)
          (delimiter-IsBoundary boundary))

  pub front-field :
      (f : Field) (fs : List Field)
      → consume_boundary (front f fs) ≡ value (ready (ok true), in_field f fs)
  unfolding Finder.new behind
  front-field f fs =
      let rest = crlf ++ (delimiter boundary ++ behind boundary fs) in
      rw (check_last_two-crlf (delimiter boundary), some_rest f rest) at
        (consume_boundary_front {E = E} [] (delimiter boundary) b'\r' b'\n' (part f ++ rest)
          (delimiter-IsBoundary boundary) (λ e. cc))
