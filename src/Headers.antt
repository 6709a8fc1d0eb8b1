-- ===== src/Headers.antt =====
-- src/server/field/headers.rs: `ReadHeaders`, which gathers the header section of a field from the
-- chunks of a `PushChunk`.
pub mod End
pub mod Spec
pub mod Section
pub mod Read
pub mod Whole
use multipart_async.Base.{
  ℕ, zero, suc, ◌+◌, ◌-◌, ◌^◌, Bool, not, ◌&&◌, [], ◌++◌, Bytes, length, take, drop, is_empty,
  Option, none, some, ltb, leb, if◌then◌else◌, Outcome, value, panic, out_of_fuel, ◌>>=◌,
}
use Prim.Native.Nat.{min}
use multipart_async.Chunk.{slice_chunk}
use multipart_async.Stream.{
  Poll, ready, pending, Result, ok, err, Error, parsing, stream_error, end_in_headers,
  headers_too_long, bad_headers, PollOpt,
}
use multipart_async.Search.{Twoway, bytes_eq}
use multipart_async.Finder.{consume_fuel}
use multipart_async.Push.{PushChunk, push_chunk, poll_next}
use multipart_async.Fields.{Crates, FieldHeaders, crlf2, parse_headers}

abbrev pub max_buf_len : ℕ
max_buf_len = 1024

abbrev pub usize_max : ℕ
usize_max = 2 ^ 64 - 1

-- `split_subcheck`
split_subcheck : ℕ → Bytes → Bytes → Bool
unfolding bytes_eq
split_subcheck start first second =
    leb start (length first)
    && bytes_eq (take 4 (drop (length first - start) first ++ second)) crlf2

-- `header_end_split`
unfoldable pub header_end_split : Bytes → Bytes → Option ℕ
unfolding split_subcheck
header_end_split first second =
    if split_subcheck 3 first second
    then some 1
    else if split_subcheck 2 first second
    then some 2
    else if split_subcheck 1 first second
    then some 3
    else none

-- `struct ReadHeaders`
pub record ReadHeaders : Type 0 where
  pub accumulator : Bytes

-- `ReadHeaders::is_reading_headers`
unfoldable pub is_reading_headers : ReadHeaders → Bool
is_reading_headers r = not (is_empty r.accumulator)

-- The result of a poll, the reader and the stream.
abbrev pub Polled : Crates → Type 0 → Type 0
Polled crates E = Poll (Result (FieldHeaders crates) (Error (Error E))) × ReadHeaders × PushChunk E

module _ (crates : Crates) {E : Type 0} where
  -- `parse_headers(..).map_err(map_err)?`, and `accumulator.clear()` behind it
  finish_section : Bytes → ReadHeaders → PushChunk E → Outcome (Polled crates E)
  finish_section bytes r p = do
    parsed ← parse_headers crates bytes
    value (elim parsed [
      | ok headers ↦ (ready (ok headers), record { accumulator = [] }, p)
      | err e ↦ (ready (err (parsing (bad_headers e))), r, p)
    ])

  -- `if !rem.is_empty() { stream.push_chunk(rem) }`
  push_rest : PushChunk E → Bytes → Outcome (PushChunk E)
  push_rest p rem = if is_empty rem then value p else push_chunk p rem

  -- the double CRLF lies in the chunk, at `header_end`
  pub end_in_chunk : ReadHeaders → PushChunk E → Bytes → ℕ → Outcome (Polled crates E)
  unfolding finish_section push_rest
  end_in_chunk r p chunk header_end = do
    (headers, rem) ← slice_chunk.split_into chunk (header_end + 4)
    p' ← push_rest p rem
    if is_empty r.accumulator
        then finish_section headers r p'
        else (let whole = r.accumulator ++ headers in
            finish_section whole (record { accumulator = whole }) p')

  -- the double CRLF begins in the accumulator, and `split_idx` bytes of it are in the chunk
  pub end_across : ReadHeaders → PushChunk E → Bytes → ℕ → Outcome (Polled crates E)
  unfolding finish_section push_rest
  end_across r p chunk split_idx = do
    (head, tail) ← slice_chunk.split_into chunk split_idx
    let whole = r.accumulator ++ head
    p' ← push_rest p tail
    finish_section whole (record { accumulator = whole }) p'

module _ (crates : Crates) ⦃tw : Twoway⦄ {E : Type 0} where
  -- one chunk of the header section; `again` is the next round of the loop
  on_chunk :
      (ReadHeaders → PushChunk E → Outcome (Polled crates E))
      → ReadHeaders
      → PushChunk E
      → Bytes
      → Outcome (Polled crates E)
  unfolding end_in_chunk end_across
  on_chunk again r p chunk = elim (tw.find_bytes chunk crlf2) [
    | some header_end ↦ end_in_chunk crates r p chunk header_end
    | none ↦ elim (header_end_split r.accumulator chunk) [
      | some split_idx ↦ end_across crates r p chunk split_idx
      | none ↦
          if ltb max_buf_len (min usize_max (length r.accumulator + length chunk))
          then value (ready (err (parsing headers_too_long)), r, p)
          else again (record { accumulator = r.accumulator ++ chunk }) p
    ]
  ]

  -- what follows the poll of the stream
  on_poll :
      (ReadHeaders → PushChunk E → Outcome (Polled crates E))
      → ReadHeaders
      → Outcome (PollOpt Bytes (Error E) × PushChunk E)
      → Outcome (Polled crates E)
  unfolding on_chunk
  on_poll again r (value (pending, p)) = value (pending, r, p)
  on_poll again r (value (ready (some (err e)), p)) = value (ready (err (stream_error e)), r, p)
  on_poll again r (value (ready none, p)) =
      value (ready (err (parsing (end_in_headers r.accumulator))), r, p)
  on_poll again r (value (ready (some (ok chunk)), p)) = on_chunk again r p chunk
  on_poll again r (panic e) = panic e
  on_poll again r out_of_fuel = out_of_fuel

  -- the loop of `read_headers`, cut off after as many rounds as there is fuel
  read_loop : ℕ → ReadHeaders → PushChunk E → Outcome (Polled crates E)
  unfolding on_poll poll_next
  read_loop zero r p = out_of_fuel
  read_loop (suc fuel) r p = on_poll (read_loop fuel) r (poll_next p)

  -- More than the chunks that the stream can still give, the pushed one included.
  abbrev pub read_fuel : PushChunk E → ℕ
  read_fuel p = consume_fuel p.stream + 1

  -- `ReadHeaders::read_headers`
  unfoldable pub read_headers : ReadHeaders → PushChunk E → Outcome (Polled crates E)
  unfolding read_loop
  read_headers r p = read_loop (read_fuel p) r p
