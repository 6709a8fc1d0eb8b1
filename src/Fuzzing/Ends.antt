-- ===== src/Fuzzing/Ends.antt =====
-- The runs of the drivers of src/fuzzing.rs, and the streams that they feed.
use multipart_async.Base.{
  ℕ, zero, suc, ◌*◌, ◌<◌, ◌≤◌, ◌≡◌, refl, ap, ◌∙◌, subst, false, [], ◌∷◌, ◌++◌, Bytes, List, Option,
  length, take, drop, arith, none, some, Outcome, value, panic, out_of_fuel, ◌>>=◌, Returns,
  Returns->>=, Returns-map, IsValue, take-append-drop, length-drop,
}
use multipart_async.Stream.{Event, Poll, ready, pending, Result, Error}
use multipart_async.Search.{Twoway}
use multipart_async.Finder
use multipart_async.Finder.Spec.{payload, Inv}
use multipart_async.Push
use multipart_async.Push.{PushChunk}
use multipart_async.Push.Spec.{chunks_left}
use multipart_async.Fields.{Crates, FieldHeaders}
use multipart_async.Headers.{ReadHeaders, read_headers}
use multipart_async.Headers.Spec.{ReadSpec, Reads}
use multipart_async.Headers.Read.{read_headers-ReadSpec}
use multipart_async.ReadString
use multipart_async.ReadString.{event_stream}
use multipart_async.ReadString.Whole.{fails, event_stream-Gives}
use multipart_async.ReadString.Driven.{
  text_of, utf8_text, run_future_hot-utf8_text, run_future_hot-Answered,
}
use multipart_async.TestUtil.{test_boundary, Interleave, iter_ok, until_ready, run_future_hot}
use multipart_async.TestUtil.Driven.{
  Advances, until_ready-Returns, payload-interleave_pending, fails-interleave_pending,
  fails-iter_ok,
}
use multipart_async.Fuzzing.{
  chunks_within, chunks, chunk_fuzz_data, poll_headers, fuzz_read_to_string, fuzz_read_headers,
}

ends : {A : Type 0} (m : Outcome A) → IsValue m → (m >>= λ _. value (tt {0})) ≡ value (tt {0})
ends (value a) h = refl
ends (panic p) h = absurd h
ends out_of_fuel h = absurd h

payload-chunks_within :
    (E : Type 0) (fuel size : ℕ) (bytes : Bytes)
    → length bytes ≤ fuel
    → payload (iter_ok {E = E} (chunks_within fuel (suc size) bytes)) ≡ bytes
unfolding chunks_within iter_ok
payload-chunks_within E zero size [] enough = refl
payload-chunks_within E zero size (x ∷ xs) enough = absurd (omega (arith, enough))
payload-chunks_within E (suc fuel) size [] enough = refl
payload-chunks_within E (suc fuel) size (x ∷ xs) enough =
    ap (λ rest. x ∷ (take size xs ++ rest))
      (payload-chunks_within E fuel size (drop size xs)
        (omega (arith, length-drop size xs, enough)))
    ∙ ap (λ rest. x ∷ rest) (take-append-drop size xs)

module _ ⦃il : Interleave⦄ where
  payload-chunk_fuzz_data :
      (E : Type 0) (data' : Bytes) → payload (chunk_fuzz_data {E = E} data') ≡ data'
  unfolding chunk_fuzz_data chunks
  payload-chunk_fuzz_data E data' =
      payload-interleave_pending (iter_ok {E = E} (chunks 9 data'))
      ∙ payload-chunks_within E (length data') 8 data' (omega arith)

  fails-chunk_fuzz_data :
      (E : Type 0) (data' : Bytes) → fails (chunk_fuzz_data {E = E} data') ≡ false
  unfolding chunk_fuzz_data
  fails-chunk_fuzz_data E data' =
      fails-interleave_pending (iter_ok {E = E} (chunks 9 data')) ∙ fails-iter_ok E (chunks 9 data')

  -- The target `fuzz_read_to_string` feeds `ReadToString` with all of its input: on a stream without errors,
  -- driven to its answer, that is the whole input if this is valid UTF-8, and an error if not.
  read_fuzzed-utf8_text :
      (E : Type 0) (data' : Bytes) (fuel : ℕ)
      → length (chunk_fuzz_data {E = E} data') < fuel
      → Returns
          (λ (result, r). text_of result ≡ utf8_text data')
          (run_future_hot fuel
            (ReadString.poll event_stream)
            (ReadString.new (chunk_fuzz_data {E = E} data')))
  read_fuzzed-utf8_text E data' fuel enough =
      subst
        (λ b.
          Returns (λ (result, r). text_of result ≡ utf8_text b)
            (run_future_hot fuel (ReadString.poll event_stream)
              (ReadString.new (chunk_fuzz_data {E = E} data'))))
        (payload-chunk_fuzz_data E data')
        (run_future_hot-utf8_text event_stream (λ _. Unit) (chunk_fuzz_data data')
          (chunk_fuzz_data data') fuel (event_stream-Gives (chunk_fuzz_data data')) enough
          (fails-chunk_fuzz_data E data'))

  -- The target `fuzz_read_to_string` returns, with more polls than its stream has answers: `ReadToString` becomes
  -- ready on any input and does not panic.
  pub fuzz_read_to_string-value :
      (E : Type 0) (data' : Bytes) (fuel : ℕ)
      → length (chunk_fuzz_data {E = E} data') < fuel
      → fuzz_read_to_string E fuel data' ≡ value tt
  unfolding fuzz_read_to_string run_future_hot
  fuzz_read_to_string-value E data' fuel enough =
      ends
        (run_future_hot fuel (ReadString.poll event_stream)
          (ReadString.new (chunk_fuzz_data {E = E} data')))
        (Returns-map (λ _ _. tt) _
          (run_future_hot-Answered event_stream (λ _. Unit) (chunk_fuzz_data {E = E} data')
            (chunk_fuzz_data {E = E} data') fuel (event_stream-Gives (chunk_fuzz_data data'))
            enough))

  module _ (crates : Crates) (E : Type 0) ⦃tw : Twoway⦄ where
    abbrev HeadersGood : ReadHeaders × PushChunk E → Type 0
    HeadersGood (r, p) = Inv test_boundary p.stream

    abbrev headers_left : ReadHeaders × PushChunk E → ℕ
    headers_left (r, p) = chunks_left p

    abbrev HeadersDone :
        Result (FieldHeaders crates) (Error (Error E)) → ReadHeaders × PushChunk E → Type 0
    HeadersDone result s = Unit

    poll_headers-Advances :
        (s : ReadHeaders × PushChunk E)
        → HeadersGood s
        → Returns (Advances HeadersGood headers_left HeadersDone s) (poll_headers crates s)
    unfolding poll_headers
    poll_headers-Advances (r, p) inv =
        Returns->>= (ReadSpec crates r p test_boundary) _ (read_headers crates r p) _
          (read_headers-ReadSpec crates test_boundary r p inv)
          (λ (polled, r', p') h. paused polled r' p' h)
      where
        paused :
            (polled : Poll (Result (FieldHeaders crates) (Error (Error E)))) (r' : ReadHeaders)
            (p' : PushChunk E)
            → Inv test_boundary p'.stream × Reads crates r p polled r' p'
            → Advances HeadersGood headers_left HeadersDone (r, p) (polled, (r', p'))
        paused pending r' p' (inv', (_, lower, _)) = (inv', lower)
        paused (ready result) r' p' h = tt

    headers_driven :
        (events : List (Event E)) (fuel : ℕ)
        → 2 * length events < fuel
        → IsValue (
            until_ready fuel
              (poll_headers crates)
              (record { accumulator = [] }, Push.new (Finder.new events test_boundary)))
    unfolding Push.new Finder.new
    headers_driven events fuel enough =
        Returns-map (λ _ _. tt) _
          (until_ready-Returns HeadersGood headers_left HeadersDone (poll_headers crates)
            poll_headers-Advances fuel
            (record { accumulator = [] }, Push.new (Finder.new events test_boundary))
            (record {
              same_boundary = refl;
              good_boundary = ((omega arith), (omega arith));
              good_state = tt;
            })
            (omega (arith, enough)))

    by_search :
        (data' : Bytes) (fuel : ℕ) (o : Option ℕ)
        → 2 * length (chunk_fuzz_data {E = E} data') < fuel
        → tw.find_bytes data' test_boundary ≡ o
        → fuzz_read_headers crates E fuel data' ≡ value tt
    unfolding fuzz_read_headers
    by_search data' fuel (some i) enough e = rw (fuzz_read_headers, e) refl
    by_search data' fuel none enough e =
        rw (fuzz_read_headers, e) (ends _ (headers_driven (chunk_fuzz_data data') fuel enough))

    -- The target `fuzz_read_headers` returns, with more polls than twice the answers of its stream:
    -- `read_headers` becomes ready on any input cut into chunks, and does not panic.
    pub fuzz_read_headers-value :
        (data' : Bytes) (fuel : ℕ)
        → 2 * length (chunk_fuzz_data {E = E} data') < fuel
        → fuzz_read_headers crates E fuel data' ≡ value tt
    fuzz_read_headers-value data' fuel enough =
        by_search data' fuel (tw.find_bytes data' test_boundary) enough refl
