-- ===== src/Writer.antt =====
-- src/client/writer.rs: `MultipartWriter`, which writes a request. The output is an `AsyncWrite` of another
-- crate: an argument.
pub mod Output
pub mod Request
use multipart_async.Base.{
  ℕ, Bool, true, false, List, [], ◌∷◌, ◌++◌, Bytes, codes, Option, none, some, if◌then◌else◌,
}
use multipart_async.Search.{crlf, dashes}

-- `io::Result`: a value, or an error of the writer or of what is read from.
pub data Io (A : Type 0) : Type 0 where
  done : A → Io A
  fail : Io A

-- An `AsyncWrite`: `write_all` (also `io::copy`, of bytes that can all be read) and `flush`. What is
-- left of the output comes back beside an error too.
pub record Sink : Type 1 where
  pub Output : Type 0
  pub write_all : Output → Bytes → Io (Unit {0}) × Output
  pub flush : Output → Io (Unit {0}) × Output

-- `Vec<u8>`, which takes everything
abbrev pub vec_sink : Sink
vec_sink = record {
  Output = Bytes;
  write_all = λ out bytes. (done tt, out ++ bytes);
  flush = λ out. (done tt, out);
}

-- What a field is read from, by `io::copy` from a reader or by `write_stream` from a stream: buffers,
-- and after them perhaps an error.
pub record Source : Type 0 where
  pub buffers : List Bytes
  pub fails : Bool

module _ (sink : Sink) where
  open sink use {Output, write_all, flush}

  -- `struct MultipartWriter`
  pub record Writer : Type 0 where
    pub inner : Output
    pub boundary : Bytes
    pub data_written : Bool

  -- `MultipartWriter::new`
  unfoldable pub new : Output → Bytes → Writer
  new inner boundary = record { inner = inner; boundary = boundary; data_written = false }

  -- `MultipartWriter::get_ref`
  unfoldable get_ref : Writer → Output
  get_ref w = w.inner

  -- `MultipartWriter::get_mut`, with what its caller does to the output
  unfoldable get_mut : (Output → Output) → Writer → Writer
  get_mut change w = record w { inner = change w.inner }

  -- `MultipartWriter::into_inner`
  unfoldable into_inner : Writer → Output
  into_inner w = w.inner

  -- An action of the writer, with its state beside the result.
  abbrev pub Action : Type 0 → Type 0
  Action A = Writer → Io A × Writer

  infixl 5 ◌>>=◌ ◌>>◌
  abbrev pub continue : {A B : Type 0} → Io A × Writer → (A → Action B) → Io B × Writer
  continue (done a, w) f = f a w
  continue (fail, w) f = (fail, w)

  abbrev ◌>>=◌ : {A B : Type 0} → Action A → (A → Action B) → Action B
  ◌>>=◌ m f w = continue (m w) f

  abbrev ◌>>◌ : {A B : Type 0} → Action A → Action B → Action B
  ◌>>◌ m n w = continue (m w) (λ _. n)

  -- `MultipartWriter::get_field_header`
  unfoldable pub get_field_header : Bytes → Bytes → Option Bytes → Option Bytes → Bytes
  get_field_header boundary name filename content_type =
      dashes
      ++ (boundary
          ++ (codes "\r\nContent-Disposition: form-data; name=\""
              ++ (name
                  ++ (codes "\""
                      ++ ((elim filename [
                        | none ↦ []
                        | some f ↦ codes "; filename=\"" ++ (f ++ codes "\"")
                      ])
                          ++ ((elim content_type [
                            | none ↦ []
                            | some ct ↦ codes "\r\nContent-Type: " ++ ct
                          ])
                              ++ codes "\r\n\r\n"))))))

  -- `self.inner.write_all(bytes).await?`
  put : Bytes → Action (Unit {0})
  put bytes w = let (result, out) = write_all w.inner bytes in (result, record w { inner = out })

  -- `self.inner.flush().await?`
  flush_inner : Action (Unit {0})
  flush_inner w = let (result, out) = flush w.inner in (result, record w { inner = out })

  -- one buffer after the other, then the error of the source
  copy_buffers : List Bytes → Bool → Action (Unit {0})
  unfolding put
  copy_buffers [] true w = (fail, w)
  copy_buffers [] false w = (done tt, w)
  copy_buffers (b ∷ bs) fails w = continue (put b w) (λ _. copy_buffers bs fails)

  set_written : Action (Unit {0})
  set_written w = (done tt, record w { data_written = true })

  -- `MultipartWriter::write_field_header`
  write_field_header : Bytes → Option Bytes → Option Bytes → Action (Unit {0})
  unfolding get_field_header put set_written
  write_field_header name filename content_type w =
      (put (get_field_header w.boundary name filename content_type) >> set_written) w

  -- `MultipartWriter::write_field`
  pub write_field : Bytes → Option Bytes → Option Bytes → Source → Action (Unit {0})
  unfolding write_field_header put copy_buffers
  write_field name filename content_type contents = do
    write_field_header name filename content_type
    copy_buffers contents.buffers contents.fails
    put crlf

  -- `MultipartWriter::write_stream`, which writes no field header
  pub write_stream : Bytes → Option Bytes → Option Bytes → Source → Action (Unit {0})
  unfolding put copy_buffers
  write_stream name filename content_type contents = do
    copy_buffers contents.buffers contents.fails
    put crlf

  -- `MultipartWriter::write_text`
  unfoldable write_text : Bytes → Bytes → Action (Unit {0})
  unfolding write_field
  write_text name text = write_field name none none (record { buffers = text ∷ []; fails = false })

  -- the trailing boundary
  put_trailer : Action (Unit {0})
  unfolding put
  put_trailer w = (put dashes >> put w.boundary >> put (codes "--\r\n")) w

  -- `MultipartWriter::finish`
  pub finish : Action (Unit {0})
  unfolding put_trailer flush_inner
  finish w = ((λ w'. if w'.data_written then put_trailer w' else (done tt, w')) >> flush_inner) w
