-- ===== src/Exchange/RoundTrip.antt =====
-- What the client of src/client/writer.rs writes, read by the finder of src/server/boundary.rs.
use multipart_async.Base.{◌≡◌, true, List, [], ◌∷◌, Bytes, value}
use multipart_async.Stream.{ready, ok, chunk}
use multipart_async.Search.{Twoway}
use multipart_async.Finder
use multipart_async.Finder.{Finder, watching, found, remainder, end, body_chunk, consume_boundary}
use multipart_async.Finder.Body.{body_chunk-AtEnd}
use multipart_async.Finder.Walk.{left}
use multipart_async.Writer
use multipart_async.Writer.{
  Io, done, vec_sink, Writer, continue, get_field_header, write_field, finish,
}
use multipart_async.Exchange.{
  Field, write_request, part, parts, ReadsParts, no_field, one_field, AllSeparate,
}
use multipart_async.Exchange.Steps.{
  delimiter, written, write_request-written, next_in, front, in_field, in_field-chunk, next_in-end,
  next_in-field, front-field,
}

module _ ⦃tw : Twoway⦄ (E : Type 0) (boundary : Bytes) where
  -- the steps behind the announcement of the first field
  reads_field :
      (g : Finder E) (f : Field) (fs : List Field)
      → AllSeparate (delimiter boundary) (parts (f ∷ fs))
      → consume_boundary g ≡ value (ready (ok true), in_field E boundary f fs)
      → ReadsParts (next_in E boundary fs) (parts fs)
      → ReadsParts g (parts (f ∷ fs))
  unfolding parts
  reads_field g f fs (apart, _) announced rest =
      one_field g (in_field E boundary f fs) (next_in E boundary fs) (part f) (parts fs) announced
        (in_field-chunk E boundary f fs apart) (body_chunk-AtEnd (next_in E boundary fs) tt) rest

  reads_found :
      (fs : List Field)
      → AllSeparate (delimiter boundary) (parts fs)
      → ReadsParts (next_in E boundary fs) (parts fs)
  unfolding parts
  reads_found [] apart =
      no_field (next_in E boundary []) (left (delimiter boundary) [] end) (next_in-end E boundary)
  reads_found (f ∷ fs) (apart, more) =
      reads_field (next_in E boundary (f ∷ fs)) f fs (apart, more) (next_in-field E boundary f fs)
        (reads_found fs more)

  -- What a `MultipartWriter` over a `Vec<u8>` writes for one field or more, whose readers do not fail, and
  -- `finish` behind them, a `BoundaryFinder` that gets it in one chunk takes apart again: each field, its
  -- headers and its content, is one chunk, without the newline behind it, and after the last one no field
  -- follows. Of no field the boundary may be found before the one that follows it.
  pub ReadsParts-write_request :
      (f : Field) (fs : List Field)
      → AllSeparate (delimiter boundary) (parts (f ∷ fs))
      → (w : Writer vec_sink) × (write_request (f ∷ fs) (Writer.new vec_sink [] boundary)
          ≡ (done tt, w))
        × ReadsParts {E = E} (Finder.new (chunk w.inner ∷ []) (delimiter boundary)) (parts (f ∷ fs))
  unfolding parts
  ReadsParts-write_request f fs (apart, more) = (
    written boundary f fs,
    write_request-written boundary f fs,
    reads_field (front E boundary f fs) f fs (apart, more) (front-field E boundary f fs)
        (reads_found fs more),
  )
