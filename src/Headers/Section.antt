-- ===== src/Headers/Section.antt =====
-- The end of the section of headers, in one chunk or across two.
use multipart_async.Base.{
  ℕ, ◌+◌, ◌≤◌, ◌≡◌, inl, inr, refl, sym, ap, ◌∙◌, subst, true, false, [], ◌++◌, Bytes, length, take,
  drop, is_empty, none, some, value, Returns, arith, ltb, Bool-cases, append_assoc,
  take-append-drop, take-add, length-drop, ◌∷◌,
}
use Prim.Native.Nat.{min}
use multipart_async.Chunk.{split_into-value}
use multipart_async.Stream.{Result, ok, err, HeaderError}
use multipart_async.Search.{Twoway, ends_with}
use multipart_async.Search.Slices.{starts_with-split, starts_with-length}
use multipart_async.Finder.Spec.{total, Gap, Inv}
use multipart_async.Push.{PushChunk}
use multipart_async.Push.Spec.{pushed_bytes, push_chunk-value, remaining, Drawn}
use multipart_async.Fields.{Crates, FieldHeaders, crlf2, parse_headers}
use multipart_async.Fields.Total.{parse_headers_total}
use multipart_async.Headers.{
  ReadHeaders, max_buf_len, usize_max, header_end_split, finish_section, push_rest, end_in_chunk,
  end_across,
}
use multipart_async.Headers.End.{ends_with-append, ends_with-header_end_split}
use multipart_async.Headers.Spec.{ReadSpec}

-- The bytes up to the end of the first occurrence of the double CRLF.
find_bytes-ends_with :
    ⦃tw : Twoway⦄ (chunk : Bytes) (i : ℕ)
    → tw.find_bytes chunk crlf2 ≡ some i
    → (i + 4 ≤ length chunk) × (take (i + 4) chunk ≡ take i chunk ++ crlf2)
find_bytes-ends_with ⦃tw⦄ chunk i e =
    let (le, starts) = tw.find-starts_with chunk crlf2 i e in
    let long = starts_with-length (drop i chunk) crlf2 starts in
    let behind = starts_with-split (drop i chunk) crlf2 starts in
    (
      omega (arith, long, length-drop i chunk),
      take-add i 4 chunk ∙ ap (λ x. take i chunk ++ take 4 x) behind,
    )

-- A longer section ends as its last part does.
ends_with-append_left : (xs front : Bytes) → ends_with (xs ++ (front ++ crlf2)) crlf2 ≡ true
ends_with-append_left xs front = rw (← append_assoc) (ends_with-append (xs ++ front) crlf2)

empty_nil : (xs : Bytes) → is_empty xs ≡ true → xs ≡ []
empty_nil [] h = refl
empty_nil (x ∷ xs) h = cc

-- What is gathered and a chunk, cut at `n`.
cut_at :
    (n : ℕ) (acc c rest : Bytes) {all : Bytes}
    → all ≡ c ++ rest
    → acc ++ all ≡ (acc ++ take n c) ++ (drop n c ++ rest)
cut_at n acc c rest {all} e =
    ap (λ x. acc ++ x) (e ∙ ap (λ x. x ++ rest) (sym (take-append-drop n c))) ∙ simp append_assoc

module _ (crates : Crates) {E : Type 0} where
  push_rest-value :
      (p : PushChunk E) (rem : Bytes)
      → p.pushed ≡ none
      → (p' : PushChunk E) × (push_rest crates p rem ≡ value p')
        × (p'.stream ≡ p.stream)
        × (pushed_bytes p'.pushed ≡ rem)
  unfolding push_rest
  push_rest-value p [] e = (p, refl, refl, ap pushed_bytes e)
  push_rest-value p (x ∷ xs) e =
      (record p { pushed = some (x ∷ xs) }, push_chunk-value p (x ∷ xs) e refl, refl, refl)

  module _ ⦃tw : Twoway⦄ (boundary : Bytes) (r : ReadHeaders) (p : PushChunk E) where
    -- `section` is all that was gathered and drawn, `r'` and `p'` are what is left.
    module _ (section : Bytes) (r' : ReadHeaders) (p' : PushChunk E) (gap : Bytes) where
      finish_parsed :
          (parsed : Result (FieldHeaders crates) HeaderError)
          → parse_headers crates section ≡ value parsed
          → Inv boundary p'.stream
          → ends_with section crlf2 ≡ true
          → Gap p'.stream.state gap
          → r.accumulator ++ remaining p
            ≡ section ++ (pushed_bytes p'.pushed ++ (gap ++ total p'.stream))
          → Returns (ReadSpec crates r p boundary) (finish_section crates section r' p')
      unfolding finish_section
      finish_parsed (ok h) done inv ends newline e = rw done (
        inv,
        (
          record {
            section = section;
            ends = ends;
            parsed = done;
            gap = gap;
            only_newline = newline;
            bytes = e;
          },
          refl,
        ),
      )
      finish_parsed (err x) done inv ends newline e = rw done (inv, tt)

      finish_section-ReadSpec :
          Inv boundary p'.stream
          → ends_with section crlf2 ≡ true
          → Gap p'.stream.state gap
          → r.accumulator ++ remaining p
            ≡ section ++ (pushed_bytes p'.pushed ++ (gap ++ total p'.stream))
          → Returns (ReadSpec crates r p boundary) (finish_section crates section r' p')
      finish_section-ReadSpec inv ends newline e =
          let (parsed, done) = parse_headers_total crates section ends in
          finish_parsed parsed done inv ends newline e

    -- A chunk was drawn, and no chunk is handed back.
    module _ (chunk : Bytes) (p' : PushChunk E) (drawn : Drawn p chunk p')
        (unpushed : p'.pushed ≡ none) (inv : Inv boundary p'.stream) where
      finish_cut :
          (n : ℕ) (r' : ReadHeaders) (p'' : PushChunk E)
          → ends_with (r.accumulator ++ take n chunk) crlf2 ≡ true
          → p''.stream ≡ p'.stream
          → pushed_bytes p''.pushed ≡ drop n chunk
          → Returns
              (ReadSpec crates r p boundary)
              (finish_section crates (r.accumulator ++ take n chunk) r' p'')
      finish_cut n r' p'' ends same rest =
          let all : remaining p ≡ chunk ++ (drawn.gap ++ total p'.stream) =
            rw unpushed at drawn.bytes in
          finish_section-ReadSpec (r.accumulator ++ take n chunk) r' p'' drawn.gap (rw same inv)
            ends (rw same drawn.only_newline)
            (rw (same, rest) (cut_at n r.accumulator chunk (drawn.gap ++ total p'.stream) all))

      pub end_across-ReadSpec :
          (n : ℕ)
          → header_end_split r.accumulator chunk ≡ some n
          → Returns (ReadSpec crates r p boundary) (end_across crates r p' chunk n)
      unfolding end_across
      end_across-ReadSpec n e =
          let (room, ends) = ends_with-header_end_split r.accumulator chunk e in
          let (p'', pushed, same, rest) = push_rest-value p' (drop n chunk) unpushed in
          rw (split_into-value chunk n room, pushed)
            (finish_cut n (record { accumulator = r.accumulator ++ take n chunk }) p'' ends same
              rest)

      pub end_in_chunk-ReadSpec :
          (i : ℕ)
          → tw.find_bytes chunk crlf2 ≡ some i
          → Returns (ReadSpec crates r p boundary) (end_in_chunk crates r p' chunk i)
      unfolding end_in_chunk
      end_in_chunk-ReadSpec i e =
          let (room, front) = find_bytes-ends_with chunk i e in
          let (p'', pushed, same, rest) = push_rest-value p' (drop (i + 4) chunk) unpushed in
          let ends : ends_with (r.accumulator ++ take (i + 4) chunk) crlf2 ≡ true =
            rw front (ends_with-append_left r.accumulator (take i chunk)) in
          elim (Bool-cases (is_empty r.accumulator)) [
            | inr begun ↦
                rw (split_into-value chunk (i + 4) room, pushed, begun)
                  (finish_cut (i + 4) (record { accumulator = r.accumulator ++ take (i + 4) chunk })
                    p'' ends same rest)
            | inl fresh ↦
                rw (split_into-value chunk (i + 4) room, pushed, fresh)
                  (subst
                    (λ acc.
                      Returns (ReadSpec crates r p boundary)
                        (finish_section crates (acc ++ take (i + 4) chunk) r p''))
                    (empty_nil r.accumulator fresh) (finish_cut (i + 4) r p'' ends same rest))
          ]

-- The test of the length of the section, which does not wrap.
pub short_section :
    (n m : ℕ) → ltb max_buf_len (min usize_max (n + m)) ≡ false → n + m ≤ max_buf_len
short_section n m h = ground arith
