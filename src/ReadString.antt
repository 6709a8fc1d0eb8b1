-- ===== src/ReadString.antt =====
-- src/server/field/mod.rs: `ReadToString`, the future that decodes the chunks of a stream as UTF-8.
-- A `String` is its bytes, and `[u8; n]` a list of n bytes.
pub mod Spec
pub mod Decode
pub mod Untouched
pub mod Whole
pub mod Safe
pub mod Driven
pub mod Content
use multipart_async.Base.{
  ℕ, zero, suc, ◌+◌, ◌-◌, ◌%◌, ◌&&◌, List, [], ◌∷◌, ◌++◌, Bytes, length, take, drop, Option, none,
  some, ltb, leb, if◌then◌else◌, Outcome, value, panic, out_of_range, expect_none, out_of_fuel,
  ◌>>=◌, ◌>>◌, assert, checked_sub, slice_from, slice_to,
}
use multipart_async.Chunk.{slice_chunk}
use multipart_async.Stream.{
  Poll, ready, pending, Result, ok, err, Event, not_ready, chunk, failed, Error, utf8, parsing,
  stream_error, PollOpt, poll_events, bad_surrogate_start, incomplete_surrogate,
}
use multipart_async.Text.{Utf8Check, valid, invalid, check_utf8}

-- A stream of chunks, as the reader uses it: `TryStream::try_poll_next`, and a bound of the number of its
-- answers, the fuel of the loop that polls it.
pub record TryStream (S E : Type 0) : Type 0 where
  pub try_poll_next : S → Outcome (PollOpt Bytes E × S)
  pub enough : S → ℕ

-- the stream that is the list of its answers
abbrev pub event_stream : {E : Type 0} → TryStream (List (Event E)) E
event_stream = record {
  try_poll_next = λ events. value (poll_events events);
  enough = λ events. suc (length events);
}

-- `struct ReadToString`
pub record ReadToString (S : Type 0) : Type 0 where
  pub stream : S
  pub string : Bytes
  pub surrogate : Option (Bytes × ℕ)

-- `utf8_char_width`
pub utf8_char_width : ℕ → Option ℕ
utf8_char_width first =
    if leb first 0x7F
    then some 1
    else if leb 0xC2 first && leb first 0xDF
    then some 2
    else if leb 0xE0 first && leb first 0xEF
    then some 3
    else if leb 0xF0 first && leb first 0xF4
    then some 4
    else none

-- `array[at..at + bytes.len()].copy_from_slice(bytes)`
copy_at : Bytes → ℕ → Bytes → Outcome Bytes
copy_at array at bytes =
    if leb (at + length bytes) (length array)
    then value (take at array ++ (bytes ++ drop (at + length bytes) array))
    else panic out_of_range

-- `array[0]`
first_byte : Bytes → Outcome ℕ
first_byte [] = panic out_of_range
first_byte (b ∷ bs) = value b

-- `.expect(..)`
expect : Option ℕ → Outcome ℕ
expect none = panic expect_none
expect (some n) = value n

abbrev checked : ℕ → ℕ → Option ℕ
checked a b = if leb b a then some (a - b) else none

-- What the body of the `while let` comes to: a return, or the next chunk.
pub data Turn (S E : Type 0) : Type 0 where
  stop : Result Bytes (Error E) → ReadToString S → Turn S E
  next : ReadToString S → Turn S E

-- `ReadToString::new`
unfoldable pub new : {S : Type 0} → S → ReadToString S
new stream = record { stream = stream; string = []; surrogate = none }

module _ {S E : Type 0} where
  -- `match str::from_utf8(data.as_slice())`
  decode_checked : ReadToString S → Bytes → Utf8Check → Outcome (Turn S E)
  unfolding copy_at
  decode_checked r data' valid = value (next (record r { string = r.string ++ data' }))
  decode_checked r data' (invalid up_to (some len)) = value (stop (err (utf8 up_to (some len))) r)
  decode_checked r data' (invalid up_to none) = do
    front ← slice_to data' up_to
    start_len ← checked_sub (length data') up_to
    tail ← slice_from data' up_to
    start ← copy_at (0 ∷ 0 ∷ 0 ∷ []) 0 tail
    value
        (next (record r { string = r.string ++ front; surrogate = some (start, start_len % 256) }))

  pub decode_chunk : ReadToString S → Bytes → Outcome (Turn S E)
  unfolding decode_checked
  decode_chunk r data' = decode_checked r data' (check_utf8 data')

  -- the decoded surrogate, and the rest of the chunk
  finish_surrogate : ReadToString S → Bytes → Bytes → ℕ → Utf8Check → Outcome (Turn S E)
  unfolding decode_chunk
  finish_surrogate r bytes data' needed (invalid up_to len) = value (stop (err (utf8 up_to len)) r)
  finish_surrogate r bytes data' needed valid = do
    (_, rem) ← slice_chunk.split_into data' needed
    decode_chunk (record r { string = r.string ++ bytes; surrogate = none }) rem

  -- `if let Some((start, start_len)) = self.surrogate`, once the width of the character is known
  pub with_width : ReadToString S → Bytes → ℕ → ℕ → Bytes → Outcome (Turn S E)
  unfolding finish_surrogate expect copy_at
  with_width r start start_len width data' = do
    needed ← expect (checked width start_len)
    if ltb (length data') needed
        then (do
          start' ← copy_at start start_len data'
          value (next (record r { surrogate = some (start', (start_len + length data') % 256) })))
        else do
          begun ← slice_to start start_len
          buffer ← copy_at (0 ∷ 0 ∷ 0 ∷ 0 ∷ []) 0 begun
          taken ← slice_to data' needed
          buffer' ← copy_at buffer start_len taken
          bytes ← slice_to buffer' width
          finish_surrogate r bytes data' needed (check_utf8 bytes)

  -- the body of the `while let`
  pub on_data : ReadToString S → Option (Bytes × ℕ) → Bytes → Outcome (Turn S E)
  unfolding with_width decode_chunk first_byte
  on_data r none data' = decode_chunk r data'
  on_data r (some (start, start_len)) data' = do
    assert (ltb 0 start_len && ltb start_len 4)
    first ← first_byte start
    elim (utf8_char_width first) [
      | none ↦ value (stop (err (parsing (bad_surrogate_start first))) r)
      | some width ↦ with_width r start start_len width data'
    ]

  -- what follows the loop
  pub finish_string : ReadToString S → Result Bytes (Error E) × ReadToString S
  finish_string r = elim r.surrogate [
    | some (start, len) ↦ (err (parsing (incomplete_surrogate start)), r)
    | none ↦ (ok r.string, record r { string = [] })
  ]

  -- `match` on the poll of the stream: `while let`, `ready!` and `?`
  on_polled :
      (ReadToString S → Outcome (Poll (Result Bytes (Error E)) × ReadToString S))
      → PollOpt Bytes E
      → ReadToString S
      → Outcome (Poll (Result Bytes (Error E)) × ReadToString S)
  unfolding on_data finish_string
  on_polled loop pending r = value (pending, r)
  on_polled loop (ready none) r = let (result, r') = finish_string r in value (ready result, r')
  on_polled loop (ready (some (err e))) r = value (ready (err (stream_error e)), r)
  on_polled loop (ready (some (ok c))) r = elim (on_data r r.surrogate c) [
    | value (next r') ↦ loop r'
    | value (stop result r') ↦ value (ready result, r')
    | panic p ↦ panic p
    | out_of_fuel ↦ out_of_fuel
  ]

  -- the loop of `poll`, cut off after as many polls of the stream as there is fuel
  poll_loop :
      TryStream S E → ℕ → ReadToString S → Outcome (Poll (Result Bytes (Error E)) × ReadToString S)
  unfolding on_polled
  poll_loop st zero r = out_of_fuel
  poll_loop st (suc fuel) r = do
    (polled, s) ← st.try_poll_next r.stream
    on_polled (poll_loop st fuel) polled (record r { stream = s })

  -- `<ReadToString as Future>::poll`
  unfoldable pub poll :
      TryStream S E → ReadToString S → Outcome (Poll (Result Bytes (Error E)) × ReadToString S)
  unfolding poll_loop
  poll st r = poll_loop st (st.enough r.stream) r
