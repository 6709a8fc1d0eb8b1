-- ===== src/Headers/Spec.antt =====
-- What a call of `read_headers` may do.
use multipart_async.Base.{suc, ◌≤◌, ◌≡◌, ◌⊎◌, true, [], ◌++◌, Bytes, length, value}
use multipart_async.Stream.{
  Poll, ready, pending, Result, ok, err, Error, Message, parsing, utf8, stream_error,
  end_in_headers, headers_too_long, bad_headers,
}
use multipart_async.Search.{Twoway, ends_with}
use multipart_async.Finder.Spec.{total, Gap, IsBodyError, Inv}
use multipart_async.Push.{PushChunk}
use multipart_async.Push.Spec.{pushed_bytes, remaining, chunks_left}
use multipart_async.Fields.{Crates, FieldHeaders, crlf2, parse_headers}
use multipart_async.Headers.{ReadHeaders, Polled, max_buf_len}

-- The errors of `read_headers`: those of `body_chunk`, and its own three.
abbrev pub IsReadMessage : Message → Type 0
IsReadMessage (end_in_headers acc) = Unit
IsReadMessage headers_too_long = Unit
IsReadMessage (bad_headers e) = Unit
IsReadMessage _ = ⊥

abbrev pub IsReadError : {E : Type 0} → Error (Error E) → Type 0
IsReadError (stream_error e) = IsBodyError e
IsReadError (parsing m) = IsReadMessage m
IsReadError (utf8 up_to len) = ⊥

module _ {E : Type 0} where
  -- `r` and `p` have given up nothing but a newline, which is cut off behind the accumulator.
  pub record Gathered (r : ReadHeaders) (p : PushChunk E) (r' : ReadHeaders) (p' : PushChunk E)
      : Type 0 where
    pub gap : Bytes
    pub only_newline : Gap p'.stream.state gap
    pub bytes : r.accumulator ++ remaining p ≡ r'.accumulator ++ (gap ++ remaining p')

  -- The headers are parsed from a section at the front, and what is behind it is still to come.
  pub record Parsed (crates : Crates) (r : ReadHeaders) (p : PushChunk E) (h : FieldHeaders crates)
      (p' : PushChunk E) : Type 0 where
    pub section : Bytes
    pub ends : ends_with section crlf2 ≡ true
    pub parsed : parse_headers crates section ≡ value (ok h)
    pub gap : Bytes
    pub only_newline : Gap p'.stream.state gap
    pub bytes :
        r.accumulator ++ remaining p
        ≡ section ++ (pushed_bytes p'.pushed ++ (gap ++ total p'.stream))

  module _ (crates : Crates) (r : ReadHeaders) (p : PushChunk E) where
    abbrev pub Reads :
        Poll (Result (FieldHeaders crates) (Error (Error E))) → ReadHeaders → PushChunk E → Type 0
    Reads pending r' p' =
        Gathered r p r' p'
        × (suc (chunks_left p') ≤ chunks_left p)
        × ((r'.accumulator ≡ r.accumulator) ⊎ (length r'.accumulator ≤ max_buf_len))
    Reads (ready (ok h)) r' p' = Parsed crates r p h p' × (r'.accumulator ≡ [])
    Reads (ready (err e)) r' p' = IsReadError e

    abbrev pub ReadSpec : ⦃tw : Twoway⦄ → Bytes → Polled crates E → Type 0
    ReadSpec boundary (polled, r', p') = Inv boundary p'.stream × Reads polled r' p'
