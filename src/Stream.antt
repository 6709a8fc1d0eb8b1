-- ===== src/Stream.antt =====
-- src/server/mod.rs, `Error`; the polls of `std::task` and the stream of body chunks that the
-- server reads, as the list of the answers that its polls will give.
use multipart_async.Base.{ℕ, Bytes, List, [], ◌∷◌, Option, none, some}

-- `std::task::Poll`
pub data Poll {ℓ} (A : Type ℓ) : Type ℓ where
  ready : A → Poll A
  pending : Poll A

-- `std::result::Result`
pub data Result {ℓ} (A X : Type ℓ) : Type ℓ where
  ok : A → Result A X
  err : X → Result A X

-- One answer of the body stream: not ready yet, a chunk, or an error of the transport. When the
-- list is used up the stream answers that it has ended.
pub data Event (E : Type 0) : Type 0 where
  not_ready : Event E
  chunk : Bytes → Event E
  failed : E → Event E

-- A text as its code points.
abbrev pub Text : Type 0
Text = List ℕ

-- The error texts of `parse_headers` and `parse_cont_disp_val`, each with the values that it shows.
pub data HeaderError : Type 0 where
  headers_incomplete : Bytes → HeaderError
  headers_malformed : Bytes → HeaderError
  duplicate_disposition : Text → HeaderError
  disposition_not_utf8 : HeaderError
  unexpected_disposition : Text → HeaderError
  expected_name : Text → HeaderError
  content_type_not_utf8 : HeaderError
  bad_mime : Text → HeaderError
  bad_header_name : Bytes → HeaderError
  bad_header_value : Bytes → HeaderError
  missing_disposition_of_file : Text → HeaderError
  missing_disposition_of_type : HeaderError
  missing_disposition : HeaderError
  duplicate_content_type : Text → HeaderError

-- The texts of `Error::Parsing`, each with the values that its format string shows.
pub data Message : Type 0 where
  unable_to_verify : Bytes → Bytes → Message
  needed_more : ℕ → ℕ → Message
  boundary_too_short : Bytes → Message
  split_boundary_too_short : Bytes → Bytes → Message
  end_in_headers : Bytes → Message
  headers_too_long : Message
  bad_headers : HeaderError → Message
  bad_surrogate_start : ℕ → Message
  incomplete_surrogate : Bytes → Message

-- `server::Error`; `Utf8Error` is given by `valid_up_to` and `error_len`.
pub data Error (E : Type 0) : Type 0 where
  parsing : Message → Error E
  utf8 : ℕ → Option ℕ → Error E
  stream_error : E → Error E

-- `type PollOpt`
abbrev pub PollOpt : Type 0 → Type 0 → Type 0
PollOpt A X = Poll (Option (Result A X))

module _ {E : Type 0} where
  -- `TryStream::try_poll_next` of the body stream
  abbrev pub poll_events : List (Event E) → PollOpt Bytes E × List (Event E)
  poll_events [] = (ready none, [])
  poll_events (not_ready ∷ events) = (pending, events)
  poll_events (chunk c ∷ events) = (ready (some (ok c)), events)
  poll_events (failed e ∷ events) = (ready (some (err e)), events)

  -- `impl From<Error<Error<E>>> for Error<E>`
  unfoldable pub flatten_error : Error (Error E) → Error E
  flatten_error (parsing m) = parsing m
  flatten_error (utf8 up_to len) = utf8 up_to len
  flatten_error (stream_error e) = e
