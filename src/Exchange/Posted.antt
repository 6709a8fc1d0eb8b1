-- ===== src/Exchange/Posted.antt =====
-- A request of src/client/mod.rs with the body that src/client/writer.rs writes, posted to a server that takes
-- it with `try_from_request` of src/server/mod.rs and reads its texts.
use multipart_async.Base.{◌≡◌, refl, true, List, [], ◌∷◌, length, ◌<◌, some, value, arith}
use multipart_async.Stream.{ok, chunk}
use multipart_async.Search.{Twoway}
use multipart_async.Http.{HeaderValues, Requests}
use multipart_async.Fields.{Crates, FieldHeaders}
use multipart_async.Multipart.{Multipart, with_body}
use multipart_async.Multipart.Accept.{get_boundary, try_from_request}
use multipart_async.Writer.{done, vec_sink, Writer}
use multipart_async.Writer.Request.{
  Samples, new, wrap_writer, get_content_type, to_str-get_content_type, new-AllAlphanumeric,
  length-new,
}
use multipart_async.Exchange.{Field, write_request}
use multipart_async.Exchange.Steps.{delimiter}
use multipart_async.Exchange.Served.{AllReceived, fields_of, answers_of}
use multipart_async.Exchange.Texts.{AllUtf8, ReadsTexts, ReadsTexts-write_request}

module _ (http : HeaderValues) (requests : Requests http) (samples : Samples) where
  -- the server finds the boundary of the client
  get_boundary-get_content_type :
      (parts : requests.Parts) (v : http.HeaderValue)
      → get_content_type http (new samples) ≡ value v
      → requests.content_type parts ≡ some v
      → get_boundary http requests parts ≡ some (new samples).boundary
  unfolding get_boundary
  get_boundary-get_content_type parts v sent content_type =
      let boundary = (new samples).boundary in
      let long : 0 < length boundary = rw (length-new samples) (omega arith) in
      let (mime, parsed, param) =
        requests.parses_form boundary (new-AllAlphanumeric samples) long in
      rw (content_type, to_str-get_content_type samples http v sent, parsed) param

module _ (http : HeaderValues) (requests : Requests http) (samples : Samples) (crates : Crates)
    ⦃tw : Twoway⦄ (E : Type 0) where
  -- A client makes a request, whatever letters and digits its boundary is drawn from, writes one field or more
  -- through the writer of `wrap_writer` into a `Vec<u8>`, and posts what was written, in one chunk, under the
  -- `Content-Type` that `get_content_type` gives. The readers of the fields do not fail and their contents are
  -- valid UTF-8; the headers of no field hold two newlines before their end, and of no field the boundary is
  -- found before the one that follows it. Then `try_from_request` takes the request, and the `Multipart` that
  -- it returns gives back for each field its headers, as the crates parse them, and by `read_to_string` its
  -- content, and behind the last field none.
  pub try_from_request-ReadsTexts :
      (f : Field) (h : FieldHeaders crates) (rest : List (Field × FieldHeaders crates))
      (parts : requests.Parts) (v : http.HeaderValue)
      → AllReceived crates (delimiter (new samples).boundary) ((f, h) ∷ rest)
      → AllUtf8 (answers_of crates ((f, h) ∷ rest))
      → get_content_type http (new samples) ≡ value v
      → requests.content_type parts ≡ some v
      → requests.is_post parts ≡ true
      → (w : Writer vec_sink) × (write_request
            (f ∷ fields_of crates rest)
            (wrap_writer vec_sink (new samples) [])
          ≡ (done tt, w))
        × (m : Multipart E) × (try_from_request http requests
              (record { parts = parts; body = chunk w.inner ∷ [] })
            ≡ ok m)
        × ReadsTexts crates m (answers_of crates ((f, h) ∷ rest))
  unfolding wrap_writer try_from_request
  try_from_request-ReadsTexts f h rest parts v received texts sent content_type post =
      let boundary = (new samples).boundary in
      let (w, written, reads) =
        ReadsTexts-write_request crates E boundary f h rest received texts in
      (
        w,
        written,
        with_body (chunk w.inner ∷ []) boundary,
        rw (post, get_boundary-get_content_type http requests samples parts v sent content_type)
            refl,
        reads,
      )
