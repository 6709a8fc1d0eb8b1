-- ===== src/Exchange.antt =====
-- A request that the client of src/client/writer.rs writes, read by the server of src/server/boundary.rs.
pub mod Steps
pub mod RoundTrip
pub mod Served
pub mod Texts
pub mod Posted
pub mod Named
use multipart_async.Base.{
  ℕ, ◌+◌, ◌≤◌, ◌≡◌, ◌≢◌, refl, sym, ap, ◌∙◌, subst, Bool, true, false, List, [], ◌∷◌, ◌++◌, Bytes,
  codes, length, drop, some, none, Option, value, arith, append_assoc,
}
use multipart_async.Stream.{ready, ok, Event, chunk}
use multipart_async.Search.{Twoway, crlf, dashes}
use multipart_async.Search.Zero.{IsBoundary}
use multipart_async.Finder
use multipart_async.Finder.{Finder, watching, found, remainder, end, body_chunk, consume_boundary}
use multipart_async.Finder.Body.{body_chunk-AtEnd}
use multipart_async.Finder.Confirm.{next_state}
use multipart_async.Finder.Whole.{append_nonempty}
use multipart_async.Finder.Walk.{
  left, body_chunk_rest, consume_boundary_found, consume_boundary_front, check_last_two-dashes,
  check_last_two-crlf,
}
use multipart_async.Writer
use multipart_async.Writer.{
  Io, done, vec_sink, Writer, continue, get_field_header, write_field, finish,
}
use multipart_async.Writer.Output.{joined, wrote, write_field-wrote, finish-wrote}

-- What a client gives for a field: the arguments of `write_field`, with the buffers of its reader.
pub record Field : Type 0 where
  pub name : Bytes
  pub filename : Option Bytes
  pub content_type : Option Bytes
  pub buffers : List Bytes

-- One `write_field` after the other, then `finish`.
pub write_request : List Field → Writer vec_sink → Io (Unit {0}) × Writer vec_sink
write_request [] w = finish vec_sink w
write_request (f ∷ fs) w =
    continue vec_sink
      (write_field vec_sink f.name f.filename f.content_type
        (record { buffers = f.buffers; fails = false }) w)
      (λ _. write_request fs)

-- The headers of a field, behind the line of the boundary.
unfoldable pub headers_of : Field → Bytes
headers_of f = drop 4 (get_field_header vec_sink [] f.name f.filename f.content_type)

-- A field between two boundaries: its headers and its content.
unfoldable pub part : Field → Bytes
unfolding headers_of
part f = headers_of f ++ joined f.buffers

unfoldable pub parts : List Field → List Bytes
unfolding part
parts [] = []
parts (f ∷ fs) = part f ∷ parts fs

-- What stands behind the boundary in front of these fields.
pub behind : Bytes → List Field → Bytes
unfolding part
behind boundary [] = codes "--\r\n"
behind boundary (f ∷ fs) =
    crlf ++ (part f ++ (crlf ++ ((dashes ++ boundary) ++ behind boundary fs)))

part-eq :
    (boundary : Bytes) (f : Field) (rest : Bytes)
    → (get_field_header vec_sink boundary f.name f.filename f.content_type
          ++ (joined f.buffers ++ crlf))
        ++ rest
      ≡ (dashes ++ boundary) ++ (crlf ++ (part f ++ (crlf ++ rest)))
unfolding part headers_of get_field_header
part-eq boundary f rest = simp append_assoc

module _ (boundary : Bytes) where
  abbrev pub writer : Bytes → Bool → Writer vec_sink
  writer inner data_written = record {
    inner = inner;
    boundary = boundary;
    data_written = data_written;
  }

  abbrev pub sent : Bytes → Io (Unit {0}) × Writer vec_sink
  sent inner = (done tt, writer inner true)

  write_request-first :
      (f : Field) (fs : List Field) (inner : Bytes) (data_written : Bool)
      → write_request (f ∷ fs) (writer inner data_written)
        ≡ write_request fs (
            writer
              (inner
                ++ (get_field_header vec_sink boundary f.name f.filename f.content_type
                    ++ (joined f.buffers ++ crlf)))
              true)
  unfolding write_request
  write_request-first f fs inner data_written =
      ap (λ r. continue vec_sink r (λ _. write_request fs))
        (write_field-wrote (writer inner data_written) f.name f.filename f.content_type f.buffers)

  write_request-sent :
      (fs : List Field) (inner : Bytes)
      → write_request fs (writer inner true)
        ≡ sent (inner ++ ((dashes ++ boundary) ++ behind boundary fs))
  unfolding write_request behind
  write_request-sent [] inner = finish-wrote (writer inner true)
  write_request-sent (f ∷ fs) inner =
      let header = get_field_header vec_sink boundary f.name f.filename f.content_type in
      write_request-first f fs inner true
      ∙ write_request-sent fs (inner ++ (header ++ (joined f.buffers ++ crlf)))
      ∙ ap sent (
          append_assoc inner (header ++ (joined f.buffers ++ crlf))
            ((dashes ++ boundary) ++ behind boundary fs)
          ∙ ap (λ x. inner ++ x) (part-eq boundary f ((dashes ++ boundary) ++ behind boundary fs)))

module _ ⦃tw : Twoway⦄ {E : Type 0} where
  -- The calls of a reader that takes fields of one chunk each: `consume_boundary` says that a field follows,
  -- `body_chunk` returns the chunk and then that the field has ended, until no field follows.
  pub data ReadsParts : Finder E → List Bytes → Type 0 where
    no_field : (f g : Finder E) → consume_boundary f ≡ value (ready (ok false), g) → ReadsParts f []
    one_field :
        (f g h : Finder E) (c : Bytes) (cs : List Bytes)
        → consume_boundary f ≡ value (ready (ok true), g)
        → body_chunk g ≡ value (ready (some (ok c)), h)
        → body_chunk h ≡ value (ready none, h)
        → ReadsParts h cs
        → ReadsParts f (c ∷ cs)

-- The first boundary behind a part is the one that follows it.
abbrev pub AllSeparate : ⦃tw : Twoway⦄ → Bytes → List Bytes → Type 0
AllSeparate boundary [] = Unit
AllSeparate ⦃tw⦄ boundary (c ∷ cs) =
    (tw.find_bytes (c ++ (crlf ++ boundary)) boundary ≡ some (length c + 2))
    × AllSeparate boundary cs
