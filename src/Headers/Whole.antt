-- ===== src/Headers/Whole.antt =====
-- Headers that lie whole in one chunk.
use multipart_async.Base.{
  ℕ, zero, suc, ◌+◌, ◌<◌, ◌≡◌, refl, sym, ap, ◌∙◌, [], ◌∷◌, ◌++◌, Bytes, length, is_empty, Option,
  none, some, value, arith, length-append, take-length, drop-length, if◌then◌else◌, take, drop,
}
use multipart_async.Chunk.{split_into-value}
use multipart_async.Stream.{ready, ok}
use multipart_async.Search.{Twoway}
use multipart_async.Finder.{Finder, body_chunk}
use multipart_async.Finder.Walk.{find_bytes-append}
use multipart_async.Push.{PushChunk, poll_next}
use multipart_async.Push.Spec.{push_chunk-value}
use multipart_async.Fields.{Crates, FieldHeaders, crlf2, parse_headers}
use multipart_async.Headers.{
  push_rest, finish_section, end_in_chunk, on_chunk, on_poll, read_loop, read_fuel, read_headers,
}

-- What is handed back of a chunk.
abbrev pub handed : Bytes → Option Bytes
handed rem = if is_empty rem then none else some rem

module _ {E : Type 0} (g : Finder E) (crates : Crates) where
  push_rest-handed :
      (rem : Bytes)
      → push_rest crates (record { stream = g; pushed = none }) rem
        ≡ value (record { stream = g; pushed = handed rem })
  unfolding push_rest
  push_rest-handed [] = refl
  push_rest-handed (x ∷ rem) =
      push_chunk-value (record { stream = g; pushed = none }) (x ∷ rem) refl refl

  end_in_chunk-whole :
      (section rem : Bytes) (i : ℕ) (h : FieldHeaders crates)
      → length section ≡ i + 4
      → parse_headers crates section ≡ value (ok h)
      → end_in_chunk crates
          (record { accumulator = [] })
          (record { stream = g; pushed = none })
          (section ++ rem)
          i
        ≡ value
            (ready (ok h), record { accumulator = [] }, record { stream = g; pushed = handed rem })
  unfolding end_in_chunk finish_section
  end_in_chunk-whole section rem i h size parsed =
      let front : take (i + 4) (section ++ rem) ≡ section =
        ap (λ k. take k (section ++ rem)) (sym size) ∙ take-length section rem in
      let back : drop (i + 4) (section ++ rem) ≡ rem =
        ap (λ k. drop k (section ++ rem)) (sym size) ∙ drop-length section rem in
      rw
        (
          split_into-value (section ++ rem) (i + 4)
              (omega (arith, size, length-append section rem)),
          front,
          back,
          push_rest-handed rem,
          parsed,
        )
        refl

module _ (crates : Crates) ⦃tw : Twoway⦄ {E : Type 0} where
  on_chunk-whole :
      (again : _) (g : Finder E) (section rem : Bytes) (i : ℕ) (h : FieldHeaders crates)
      → tw.find_bytes section crlf2 ≡ some i
      → length section ≡ i + 4
      → parse_headers crates section ≡ value (ok h)
      → on_chunk crates again
          (record { accumulator = [] })
          (record { stream = g; pushed = none })
          (section ++ rem)
        ≡ value
            (ready (ok h), record { accumulator = [] }, record { stream = g; pushed = handed rem })
  unfolding on_chunk
  on_chunk-whole again g section rem i h located size parsed =
      rw (find_bytes-append section crlf2 rem i located, on_chunk)
        (end_in_chunk-whole g crates section rem i h size parsed)

  read_loop-whole :
      (fuel : ℕ) (f g : Finder E) (section rem : Bytes) (i : ℕ) (h : FieldHeaders crates)
      → 0 < fuel
      → body_chunk f ≡ value (ready (some (ok (section ++ rem))), g)
      → tw.find_bytes section crlf2 ≡ some i
      → length section ≡ i + 4
      → parse_headers crates section ≡ value (ok h)
      → read_loop crates fuel (record { accumulator = [] }) (record { stream = f; pushed = none })
        ≡ value
            (ready (ok h), record { accumulator = [] }, record { stream = g; pushed = handed rem })
  unfolding read_loop on_poll poll_next
  read_loop-whole zero f g section rem i h some_fuel drawn located size parsed =
      absurd (omega arith)
  read_loop-whole (suc fuel) f g section rem i h some_fuel drawn located size parsed =
      rw drawn (on_chunk-whole (read_loop crates fuel) g section rem i h located size parsed)

  -- When the next chunk begins with a section of headers, `read_headers` returns what the section is parsed
  -- to, and hands back the rest of the chunk.
  pub read_headers-whole :
      (f g : Finder E) (section rem : Bytes) (i : ℕ) (h : FieldHeaders crates)
      → body_chunk f ≡ value (ready (some (ok (section ++ rem))), g)
      → tw.find_bytes section crlf2 ≡ some i
      → length section ≡ i + 4
      → parse_headers crates section ≡ value (ok h)
      → read_headers crates (record { accumulator = [] }) (record { stream = f; pushed = none })
        ≡ value
            (ready (ok h), record { accumulator = [] }, record { stream = g; pushed = handed rem })
  unfolding read_headers
  read_headers-whole f g section rem i h =
      let p : PushChunk E = record { stream = f; pushed = none } in
      read_loop-whole (read_fuel crates p) f g section rem i h (omega arith)
