-- ===== src/ReadString/Untouched.antt =====
-- The body of the loop of `ReadToString::poll` does not poll the stream.
use multipart_async.Base.{
  ℕ, ◌≡◌, refl, Bool, true, false, Bytes, Option, none, some, Outcome, value, panic, out_of_fuel,
  Panic, slice_to, slice_from, checked_sub, assert, ltb, ◌&&◌, length, [], ◌∷◌, ◌>>=◌,
  if◌then◌else◌, ◌++◌,
}
use multipart_async.Chunk.{slice_chunk}
use multipart_async.Stream.{Result, Error, err, parsing, bad_surrogate_start}
use multipart_async.Text.{Utf8Check, valid, invalid, check_utf8}
use multipart_async.ReadString.{
  ReadToString, Turn, stop, next, decode_checked, decode_chunk, finish_surrogate, with_width,
  on_data, utf8_char_width, first_byte, copy_at, expect, checked,
}

module _ {S : Type 0} (E : Type 0) where
  pub data SameStream (s : S) : Outcome (Turn S E) → Type 0 where
    goes_on : (r : ReadToString S) → r.stream ≡ s → SameStream s (value (next r))
    stops :
        (t : Result Bytes (Error E)) (r : ReadToString S)
        → r.stream ≡ s
        → SameStream s (value (stop t r))
    panics : (p : Panic) → SameStream s (panic p)
    runs_out : SameStream s out_of_fuel

  pub same_stream : (s : S) (r : ReadToString S) → SameStream s (value (next r)) → r.stream ≡ s
  same_stream s r (goes_on _ e) = e

  pub stopped_stream :
      (s : S) (t : Result Bytes (Error E)) (r : ReadToString S)
      → SameStream s (value (stop t r))
      → r.stream ≡ s
  stopped_stream s t r (stops _ _ e) = e

  bind-SameStream :
      {A : Type 0} (s : S) (o : Outcome A) (k : A → Outcome (Turn S E))
      → ((a : A) → SameStream s (k a))
      → SameStream s (o >>= k)
  bind-SameStream s (value a) k h = h a
  bind-SameStream s (panic p) k h = panics p
  bind-SameStream s out_of_fuel k h = runs_out

  if-SameStream :
      (s : S) (b : Bool) (x y : Outcome (Turn S E))
      → SameStream s x
      → SameStream s y
      → SameStream s (if b then x else y)
  if-SameStream s true x y h h' = h
  if-SameStream s false x y h h' = h'

  decode_checked-SameStream :
      (r : ReadToString S) (data' : Bytes) (c : Utf8Check)
      → SameStream r.stream (decode_checked r data' c)
  unfolding decode_checked copy_at
  decode_checked-SameStream r data' valid = goes_on _ refl
  decode_checked-SameStream r data' (invalid up_to (some len)) = stops _ _ refl
  decode_checked-SameStream r data' (invalid up_to none) =
      bind-SameStream r.stream (slice_to data' up_to) _ (λ front.
        bind-SameStream r.stream (checked_sub (length data') up_to) _ (λ start_len.
          bind-SameStream r.stream (slice_from data' up_to) _ (λ tail.
            bind-SameStream r.stream (copy_at (0 ∷ 0 ∷ 0 ∷ []) 0 tail) _
              (λ start. goes_on _ refl))))

  decode_chunk-SameStream :
      (r : ReadToString S) (data' : Bytes) → SameStream r.stream (decode_chunk r data')
  unfolding decode_chunk
  decode_chunk-SameStream r data' = decode_checked-SameStream r data' (check_utf8 data')

  finish_surrogate-SameStream :
      (r : ReadToString S) (bytes data' : Bytes) (needed : ℕ) (c : Utf8Check)
      → SameStream r.stream (finish_surrogate r bytes data' needed c)
  unfolding finish_surrogate
  finish_surrogate-SameStream r bytes data' needed (invalid up_to len) = stops _ _ refl
  finish_surrogate-SameStream r bytes data' needed valid =
      bind-SameStream r.stream (slice_chunk.split_into data' needed) _ (λ (_, rem).
        decode_chunk-SameStream (record r { string = r.string ++ bytes; surrogate = none }) rem)

  with_width-SameStream :
      (r : ReadToString S) (start : Bytes) (start_len width : ℕ) (data' : Bytes)
      → SameStream r.stream (with_width r start start_len width data')
  unfolding with_width expect copy_at
  with_width-SameStream r start start_len width data' =
      bind-SameStream r.stream (expect (checked width start_len)) _ (λ needed.
        if-SameStream r.stream (ltb (length data') needed) _ _
          (bind-SameStream r.stream (copy_at start start_len data') _ (λ start'. goes_on _ refl))
          (bind-SameStream r.stream (slice_to start start_len) _ (λ begun.
            bind-SameStream r.stream (copy_at (0 ∷ 0 ∷ 0 ∷ 0 ∷ []) 0 begun) _ (λ buffer.
              bind-SameStream r.stream (slice_to data' needed) _ (λ taken.
                bind-SameStream r.stream (copy_at buffer start_len taken) _ (λ buffer'.
                  bind-SameStream r.stream (slice_to buffer' width) _ (λ bytes.
                    finish_surrogate-SameStream r bytes data' needed (check_utf8 bytes))))))))

  width-SameStream :
      (r : ReadToString S) (start : Bytes) (start_len first : ℕ) (data' : Bytes) (w : Option ℕ)
      → SameStream r.stream (elim w [
        | none ↦ value (stop (err (parsing (bad_surrogate_start first))) r)
        | some width ↦ with_width r start start_len width data'
      ])
  width-SameStream r start start_len first data' none = stops _ _ refl
  width-SameStream r start start_len first data' (some width) =
      with_width-SameStream r start start_len width data'

  -- What a chunk leads to holds the same stream as before.
  pub on_data-SameStream :
      (r : ReadToString S) (o : Option (Bytes × ℕ)) (data' : Bytes)
      → SameStream r.stream (on_data r o data')
  unfolding on_data first_byte
  on_data-SameStream r none data' = decode_chunk-SameStream r data'
  on_data-SameStream r (some (start, start_len)) data' =
      bind-SameStream r.stream (assert (ltb 0 start_len && ltb start_len 4)) _ (λ in_range.
        bind-SameStream r.stream (first_byte start) _
          (λ first. width-SameStream r start start_len first data' (utf8_char_width first)))
