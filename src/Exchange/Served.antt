-- ===== src/Exchange/Served.antt =====
-- What the client of src/client/writer.rs writes, read by the `Multipart` of src/server/mod.rs.
use multipart_async.Base.{ℕ, ◌+◌, ◌≡◌, true, List, [], ◌∷◌, ◌++◌, Bytes, length, none, some, value}
use multipart_async.Stream.{ready, ok, chunk}
use multipart_async.Search.{Twoway, crlf}
use multipart_async.Finder.{Finder, end, consume_boundary}
use multipart_async.Finder.Body.{body_chunk-AtEnd}
use multipart_async.Finder.Walk.{left}
use multipart_async.Fields.{Crates, FieldHeaders, crlf2, parse_headers}
use multipart_async.Headers.Whole.{handed, read_headers-whole}
use multipart_async.Multipart.{Multipart, NextField, new_next_field, with_body, poll_next_field}
use multipart_async.Multipart.Whole.{
  resting, poll_next_field-some, poll_next_field-none, ReadsData, handed-ReadsData,
}
use multipart_async.Writer
use multipart_async.Writer.{done, vec_sink, Writer}
use multipart_async.Writer.Output.{joined}
use multipart_async.Exchange.{Field, write_request, headers_of, part}
use multipart_async.Exchange.Steps.{
  delimiter, front, next_in, in_field, in_field-chunk, next_in-field, next_in-end, front-field,
  written, write_request-written,
}

module _ (crates : Crates) ⦃tw : Twoway⦄ {E : Type 0} where
  -- The calls of a server: a future of `next_field`, the data of the field that it gives, and so on until it
  -- gives none.
  pub data ReadsFields : Multipart E → List (FieldHeaders crates × Bytes) → Type 0 where
    no_field :
        (m m' : Multipart E) (n : NextField)
        → poll_next_field crates new_next_field m ≡ value (ready (ok none), n, m')
        → ReadsFields m []
    one_field :
        (m m' m'' : Multipart E) (n : NextField) (h : FieldHeaders crates) (c : Bytes)
        (rest : List (FieldHeaders crates × Bytes))
        → poll_next_field crates new_next_field m ≡ value (ready (ok (some h)), n, m')
        → ReadsData m' c m''
        → ReadsFields m'' rest
        → ReadsFields m ((h, c) ∷ rest)

-- The field is read back with the headers `h`: they end with the first two newlines, the crates parse them
-- to `h`, and the next boundary is the first behind them.
pub record Received (crates : Crates) ⦃tw : Twoway⦄ (boundary : Bytes) (f : Field)
    (h : FieldHeaders crates) : Type 0 where
  pub end_idx : ℕ
  pub ends : tw.find_bytes (headers_of f) crlf2 ≡ some end_idx
  pub size : length (headers_of f) ≡ end_idx + 4
  pub parsed : parse_headers crates (headers_of f) ≡ value (ok h)
  pub apart : tw.find_bytes (part f ++ (crlf ++ boundary)) boundary ≡ some (length (part f) + 2)

module _ (crates : Crates) where
  pub fields_of : List (Field × FieldHeaders crates) → List Field
  fields_of [] = []
  fields_of ((f, h) ∷ rest) = f ∷ fields_of rest

  unfoldable pub answers_of :
      List (Field × FieldHeaders crates) → List (FieldHeaders crates × Bytes)
  answers_of [] = []
  answers_of ((f, h) ∷ rest) = (h, joined f.buffers) ∷ answers_of rest

  abbrev pub AllReceived : ⦃tw : Twoway⦄ → Bytes → List (Field × FieldHeaders crates) → Type 0
  AllReceived boundary [] = Unit
  AllReceived boundary ((f, h) ∷ rest) = Received crates boundary f h × AllReceived boundary rest

module _ (crates : Crates) ⦃tw : Twoway⦄ (E : Type 0) (boundary : Bytes) where
  -- from the poll that announces the field on
  serves_field :
      (g : Finder E) (f : Field) (h : FieldHeaders crates)
      (rest : List (Field × FieldHeaders crates))
      → Received crates (delimiter boundary) f h
      → consume_boundary g ≡ value (ready (ok true), in_field E boundary f (fields_of crates rest))
      → ReadsFields crates
          (resting (next_in E boundary (fields_of crates rest)) none)
          (answers_of crates rest)
      → ReadsFields crates (resting g none) (answers_of crates ((f, h) ∷ rest))
  unfolding answers_of part
  serves_field g f h rest k announced more =
      let fs = fields_of crates rest in
      one_field (resting g none) (resting (next_in E boundary fs) (handed (joined f.buffers)))
        (resting (next_in E boundary fs) none) _ h (joined f.buffers) (answers_of crates rest)
        (poll_next_field-some crates g (in_field E boundary f fs) (next_in E boundary fs)
          (handed (joined f.buffers)) h announced
          (read_headers-whole crates (in_field E boundary f fs) (next_in E boundary fs)
            (headers_of f) (joined f.buffers) k.end_idx h (in_field-chunk E boundary f fs k.apart)
            k.ends k.size k.parsed))
        (handed-ReadsData (next_in E boundary fs) (joined f.buffers)
          (body_chunk-AtEnd (next_in E boundary fs) tt))
        more

  serves_found :
      (fhs : List (Field × FieldHeaders crates))
      → AllReceived crates (delimiter boundary) fhs
      → ReadsFields crates
          (resting (next_in E boundary (fields_of crates fhs)) none)
          (answers_of crates fhs)
  unfolding fields_of answers_of
  serves_found [] received =
      no_field (resting (next_in E boundary []) none)
        (resting (left (delimiter boundary) [] end) none) _
        (poll_next_field-none crates (next_in E boundary []) (left (delimiter boundary) [] end)
          (next_in-end E boundary))
  serves_found ((f, h) ∷ rest) (k, more) =
      serves_field (next_in E boundary (f ∷ fields_of crates rest)) f h rest k
        (next_in-field E boundary f (fields_of crates rest)) (serves_found rest more)

  -- What a `MultipartWriter` over a `Vec<u8>` writes for one field or more, whose readers do not fail, and
  -- `finish` behind them, a `Multipart` with the same boundary that gets it in one chunk gives back: for each
  -- field the future of `next_field` returns its headers, as the crates parse them, and the polls for data
  -- its content, in one chunk or none; behind the last field it returns none. The headers of no field may
  -- hold two newlines before their end, and of no field the boundary may be found before the one that
  -- follows it.
  pub ReadsFields-write_request :
      (f : Field) (h : FieldHeaders crates) (rest : List (Field × FieldHeaders crates))
      → AllReceived crates (delimiter boundary) ((f, h) ∷ rest)
      → (w : Writer vec_sink) × (write_request
            (f ∷ fields_of crates rest)
            (Writer.new vec_sink [] boundary)
          ≡ (done tt, w))
        × ReadsFields crates {E = E}
            (with_body (chunk w.inner ∷ []) boundary)
            (answers_of crates ((f, h) ∷ rest))
  unfolding with_body fields_of
  ReadsFields-write_request f h rest (k, more) =
      let fs = fields_of crates rest in
      (
        written boundary f fs,
        write_request-written boundary f fs,
        serves_field (front E boundary f fs) f h rest k (front-field E boundary f fs)
            (serves_found rest more),
      )
