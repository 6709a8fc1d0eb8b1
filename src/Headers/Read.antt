-- ===== src/Headers/Read.antt =====
-- `read_headers`: the loop, and the branches of its body.
use multipart_async.Base.{
  ℕ, zero, suc, ◌+◌, ◌≤◌, ◌<◌, ◌≡◌, inl, inr, refl, sym, ap, ◌∙◌, ◌++◌, Bytes, length, none, some,
  value, Returns, Returns-map, IsValue-value, arith, ltb, Bool-cases, Option-cases, append_assoc,
  length-append,
}
use Prim.Native.Nat.{min}
use multipart_async.Stream.{ready, pending, ok, err, Error, parsing, end_in_headers, PollOpt}
use multipart_async.Search.{Twoway}
use multipart_async.Finder.Spec.{AtEnd, Inv}
use multipart_async.Finder.Body.{Gap-cases, rank_le}
use multipart_async.Push.{PushChunk, poll_next}
use multipart_async.Push.Spec.{
  pushed_count-le, remaining, chunks_left, Drawn, PollSpec, poll_next-PollSpec, poll_next-AtEnd,
}
use multipart_async.Fields.{Crates, crlf2}
use multipart_async.Headers.{
  ReadHeaders, Polled, max_buf_len, usize_max, header_end_split, on_chunk, on_poll, read_loop,
  read_fuel, read_headers,
}
use multipart_async.Headers.Spec.{ReadSpec}
use multipart_async.Headers.Section.{end_across-ReadSpec, end_in_chunk-ReadSpec, short_section}

module _ (crates : Crates) ⦃tw : Twoway⦄ {E : Type 0} (boundary : Bytes) where
  -- `r` and `p` went on to `r'` and `p'` without a return.
  ReadSpec-before :
      (r : ReadHeaders) (p : PushChunk E) (r' : ReadHeaders) (p' : PushChunk E)
      (polled : Polled crates E)
      → r.accumulator ++ remaining p ≡ r'.accumulator ++ remaining p'
      → chunks_left p' ≤ chunks_left p
      → length r'.accumulator ≤ max_buf_len
      → ReadSpec crates r' p' boundary polled
      → ReadSpec crates r p boundary polled
  ReadSpec-before r p r' p' (pending, r'', p'') e less short (inv, (g, fewer, kept)) = (
    inv,
    (
      record { gap = g.gap; only_newline = g.only_newline; bytes = e ∙ g.bytes },
      (omega arith),
      inr (elim kept [ inl same ↦ rw same short | inr le ↦ le ]),
    ),
  )
  ReadSpec-before r p r' p' (ready (ok h), r'', p'') e less short (inv, (k, cleared)) = (
    inv,
    (
      record {
        section = k.section;
        ends = k.ends;
        parsed = k.parsed;
        gap = k.gap;
        only_newline = k.only_newline;
        bytes = e ∙ k.bytes;
      },
      cleared,
    ),
  )
  ReadSpec-before r p r' p' (ready (err x), r'', p'') e less short h = h

  -- At the end of a field there is no more of the section.
  read_loop-AtEnd :
      (fuel : ℕ) (r : ReadHeaders) (p : PushChunk E)
      → p.pushed ≡ none
      → AtEnd p.stream.state
      → read_loop crates (suc fuel) r p
        ≡ value (ready (err (parsing (end_in_headers r.accumulator))), r, p)
  unfolding read_loop
  read_loop-AtEnd fuel r p unpushed at_end = rw (poll_next-AtEnd p unpushed at_end)

  -- A round that goes on: no newline was cut off, or the next round fails.
  go_on :
      (fuel : ℕ) (r : ReadHeaders) (p : PushChunk E) (chunk : Bytes) (p' : PushChunk E)
      → Drawn p chunk p'
      → p'.pushed ≡ none
      → Inv boundary p'.stream
      → suc (chunks_left p') ≤ chunks_left p
      → chunks_left p < suc fuel
      → length (r.accumulator ++ chunk) ≤ max_buf_len
      → ((r' : ReadHeaders) (q : PushChunk E)
          → Inv boundary q.stream
          → chunks_left q < fuel
          → Returns (ReadSpec crates r' q boundary) (read_loop crates fuel r' q))
      → Returns
          (ReadSpec crates r p boundary)
          (read_loop crates fuel (record { accumulator = r.accumulator ++ chunk }) p')
  go_on zero r p chunk p' drawn unpushed inv fewer enough short ih = absurd (omega arith)
  go_on (suc fuel) r p chunk p' drawn unpushed inv fewer enough short ih =
      let r' : ReadHeaders = record { accumulator = r.accumulator ++ chunk } in
      elim (Gap-cases p'.stream.state drawn.gap drawn.only_newline) [
        | inr at_end ↦ rw (read_loop-AtEnd fuel r' p' unpushed at_end) (inv, tt)
        | inl no_gap ↦
            let all : r.accumulator ++ remaining p ≡ r'.accumulator ++ remaining p' =
              ap (λ x. r.accumulator ++ x)
                (drawn.bytes ∙ ap (λ g. chunk ++ (g ++ remaining p')) no_gap)
              ∙ sym (append_assoc r.accumulator chunk (remaining p')) in
            Returns-map (λ polled. ReadSpec-before r p r' p' polled all (omega arith) short)
              (read_loop crates (suc fuel) r' p') (ih r' p' inv (omega arith))
      ]

  on_chunk-ReadSpec :
      (fuel : ℕ) (r : ReadHeaders) (p : PushChunk E) (chunk : Bytes) (p' : PushChunk E)
      → Drawn p chunk p'
      → p'.pushed ≡ none
      → Inv boundary p'.stream
      → suc (chunks_left p') ≤ chunks_left p
      → chunks_left p < suc fuel
      → ((r' : ReadHeaders) (q : PushChunk E)
          → Inv boundary q.stream
          → chunks_left q < fuel
          → Returns (ReadSpec crates r' q boundary) (read_loop crates fuel r' q))
      → Returns (ReadSpec crates r p boundary) (on_chunk crates (read_loop crates fuel) r p' chunk)
  unfolding on_chunk
  on_chunk-ReadSpec fuel r p chunk p' drawn unpushed inv fewer enough ih =
      elim (Option-cases (tw.find_bytes chunk crlf2)) [
        | inr (i, present) ↦
            rw (on_chunk, present)
              (end_in_chunk-ReadSpec crates boundary r p chunk p' drawn unpushed inv i present)
        | inl absent ↦ elim (Option-cases (header_end_split r.accumulator chunk)) [
          | inr (n, across) ↦
              rw (on_chunk, absent, across)
                (end_across-ReadSpec crates boundary r p chunk p' drawn unpushed inv n across)
          | inl unended ↦
              elim (Bool-cases
                (ltb max_buf_len (min usize_max (length r.accumulator + length chunk)))) [
                  | inl long ↦ rw (on_chunk, absent, unended, long) (inv, tt)
                  | inr short ↦
                      let size = short_section (length r.accumulator) (length chunk) short in
                      rw (on_chunk, absent, unended, short)
                        (go_on fuel r p chunk p' drawn unpushed inv fewer enough
                          (omega (arith, length-append r.accumulator chunk, size)) ih)
                ]
        ]
      ]

  on_poll-ReadSpec :
      (fuel : ℕ) (r : ReadHeaders) (p : PushChunk E) (polled : PollOpt Bytes (Error E))
      (p' : PushChunk E)
      → PollSpec p boundary (polled, p')
      → chunks_left p < suc fuel
      → ((r' : ReadHeaders) (q : PushChunk E)
          → Inv boundary q.stream
          → chunks_left q < fuel
          → Returns (ReadSpec crates r' q boundary) (read_loop crates fuel r' q))
      → Returns
          (ReadSpec crates r p boundary)
          (on_poll crates (read_loop crates fuel) r (value (polled, p')))
  unfolding on_poll
  on_poll-ReadSpec fuel r p pending p' (inv, unpushed, (d, fewer)) enough ih = (
    inv,
    (
      record {
        gap = d.gap;
        only_newline = d.only_newline;
        bytes = ap (λ x. r.accumulator ++ x) d.bytes;
      },
      fewer,
      inl refl,
    ),
  )
  on_poll-ReadSpec fuel r p (ready none) p' (inv, unpushed, h) enough ih = (inv, tt)
  on_poll-ReadSpec fuel r p (ready (some (err e))) p' (inv, unpushed, bad) enough ih = (inv, bad)
  on_poll-ReadSpec fuel r p (ready (some (ok chunk))) p' (inv, unpushed, (drawn, fewer)) enough ih =
      on_chunk-ReadSpec fuel r p chunk p' drawn unpushed inv fewer enough ih

  read_loop-ReadSpec :
      (fuel : ℕ) (r : ReadHeaders) (p : PushChunk E)
      → Inv boundary p.stream
      → chunks_left p < fuel
      → Returns (ReadSpec crates r p boundary) (read_loop crates fuel r p)
  unfolding read_loop
  read_loop-ReadSpec zero r p inv enough = absurd (omega arith)
  read_loop-ReadSpec (suc fuel) r p inv enough =
      let ((polled, p'), polls) =
        IsValue-value (poll_next p)
          (Returns-map (λ _ _. tt) (poll_next p) (poll_next-PollSpec boundary p inv)) in
      let spec : PollSpec p boundary (polled, p') =
        rw polls at (poll_next-PollSpec boundary p inv) in
      rw polls
        (on_poll-ReadSpec fuel r p polled p' spec enough (λ r' q. read_loop-ReadSpec fuel r' q))

  enough_rounds : (p : PushChunk E) → chunks_left p < read_fuel crates p
  enough_rounds p = omega (arith, rank_le p.stream.state, pushed_count-le p.pushed)

  -- Over a finder in order, and whatever the crates httparse, http and mime do, `read_headers` does not
  -- panic, its loop ends, and the finder stays in order. Headers that it returns are parsed from a section
  -- that ends in two newlines and stands at the front of all that was gathered and is to come; what is
  -- behind the section, less at most the newline in front of a boundary, is still to come; and the
  -- accumulator is empty. When it is pending nothing is lost either, and the accumulator is as it was or has
  -- at most 1024 bytes. Its errors are those of the stream, of the boundary, and its own three.
  pub read_headers-ReadSpec :
      (r : ReadHeaders) (p : PushChunk E)
      → Inv boundary p.stream
      → Returns (ReadSpec crates r p boundary) (read_headers crates r p)
  unfolding read_headers
  read_headers-ReadSpec r p inv = read_loop-ReadSpec (read_fuel crates p) r p inv (enough_rounds p)
