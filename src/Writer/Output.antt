-- ===== src/Writer/Output.antt =====
-- The bytes that a `MultipartWriter` over a `Vec<u8>` writes.
use multipart_async.Base.{
  Bool, true, false, List, [], ◌∷◌, ◌++◌, Bytes, codes, Option, ◌≡◌, sym, ap, ◌∙◌, append_assoc,
  append-nil,
}
use multipart_async.Search.{crlf, dashes}
use multipart_async.Writer.{
  done, vec_sink, Writer, get_field_header, put, copy_buffers, write_field_header, write_field,
  write_stream, set_written, put_trailer, flush_inner, finish, continue,
}

abbrev pub joined : List Bytes → Bytes
joined [] = []
joined (b ∷ bs) = b ++ joined bs

-- the writer once `bytes` are written
abbrev pub wrote : Writer vec_sink → Bytes → Writer vec_sink
wrote w bytes = record w { inner = w.inner ++ bytes }

copy_buffers-wrote :
    (bs : List Bytes) (w : Writer vec_sink)
    → copy_buffers vec_sink bs false w ≡ (done tt, wrote w (joined bs))
unfolding copy_buffers
copy_buffers-wrote [] w = ap (λ out. (done tt, record w { inner = out })) (sym (append-nil w.inner))
copy_buffers-wrote (b ∷ bs) w =
    copy_buffers-wrote bs (wrote w b)
    ∙ ap (λ out. (done tt, record w { inner = out })) (append_assoc w.inner b (joined bs))

finish_in :
    (written : Bool) (inner boundary : Bytes)
    → let w : Writer vec_sink = record {
      inner = inner;
      boundary = boundary;
      data_written = written;
    } in
      finish vec_sink w ≡ (
        done tt,
        wrote w (elim written [ true ↦ dashes ++ (boundary ++ codes "--\r\n") | false ↦ [] ]),
      )
unfolding finish put_trailer flush_inner put
finish_in true inner boundary =
    let w : Writer vec_sink = record { inner = inner; boundary = boundary; data_written = true } in
    ap (λ out. (done tt, record w { inner = out }))
      (append_assoc (inner ++ dashes) boundary (codes "--\r\n")
        ∙ append_assoc inner dashes (boundary ++ codes "--\r\n"))
finish_in false inner boundary =
    let w : Writer vec_sink = record { inner = inner; boundary = boundary; data_written = false } in
    ap (λ out. (done tt, record w { inner = out })) (sym (append-nil inner))

-- Over a `Vec<u8>`, and from a source that does not fail, `write_field` appends the field header, the
-- content in whatever buffers it comes, and a newline; the writer then knows that there is something to
-- finish.
pub write_field-wrote :
    (w : Writer vec_sink) (name : Bytes) (filename content_type : Option Bytes) (bs : List Bytes)
    → write_field vec_sink name filename content_type (record { buffers = bs; fails = false }) w ≡ (
      done tt,
      record (wrote w (
          get_field_header vec_sink w.boundary name filename content_type ++ (joined bs ++ crlf))) {
            data_written = true;
          },
    )
unfolding write_field write_field_header set_written put
write_field-wrote w name filename content_type bs =
    let header = get_field_header vec_sink w.boundary name filename content_type in
    let w' = record (wrote w header) { data_written = true } in
    ap (λ r. continue vec_sink r (λ _. put vec_sink crlf)) (copy_buffers-wrote bs w')
    ∙ ap (λ out. (done tt, record w' { inner = out }))
        (append_assoc (w.inner ++ header) (joined bs) crlf
          ∙ append_assoc w.inner header (joined bs ++ crlf))

-- Over a `Vec<u8>`, `finish` appends the boundary between dashes and a newline if a field header was
-- written, and nothing otherwise.
pub finish-wrote :
    (w : Writer vec_sink)
    → finish vec_sink w ≡ (
      done tt,
      wrote w
          (elim w.data_written [ true ↦ dashes ++ (w.boundary ++ codes "--\r\n") | false ↦ [] ]),
    )
finish-wrote w = finish_in w.data_written w.inner w.boundary

-- Over a `Vec<u8>`, and from a source that does not fail, `write_stream` appends the content and a
-- newline, and no field header: the name, the file name and
-- the content type make no difference, and it does not make `finish` write the trailing boundary.
pub write_stream-wrote :
    (w : Writer vec_sink) (name : Bytes) (filename content_type : Option Bytes) (bs : List Bytes)
    → write_stream vec_sink name filename content_type (record { buffers = bs; fails = false }) w
      ≡ (done tt, wrote w (joined bs ++ crlf))
unfolding write_stream put
write_stream-wrote w name filename content_type bs =
    ap (λ r. continue vec_sink r (λ _. put vec_sink crlf)) (copy_buffers-wrote bs w)
    ∙ ap (λ out. (done tt, record w { inner = out })) (append_assoc w.inner (joined bs) crlf)
