-- ===== src/Fuzzing/Chunked.antt =====
-- The stream of `fuzz_boundary_finder_field` in src/fuzzing.rs, chunk by chunk.
use multipart_async.Base.{
  ℕ, zero, suc, ◌≤◌, ◌≡◌, refl, sym, ap, ◌∙◌, List, [], ◌∷◌, ◌++◌, Bytes, length, take, drop, arith,
  length-drop, length-take, take-append-drop,
}
use multipart_async.Stream.{Event, not_ready, chunk, failed}
use multipart_async.Finder.Given.{with_end}
use multipart_async.TestUtil.{Interleave, items, iter_ok}
use multipart_async.Fuzzing.{chunks_within, chunks, chunk_fuzz_data}
use multipart_async.Fuzzing.Field.{field_stream, field_start, field_end}
use multipart_async.Fuzzing.Pieces.{start1, start2, end1, end2, joined, AllSmall}

pub chunks_within-AllSmall :
    (fuel n : ℕ) (bytes : Bytes) → n ≤ 8 → AllSmall (chunks_within fuel (suc n) bytes)
unfolding chunks_within
chunks_within-AllSmall zero n bytes le = tt
chunks_within-AllSmall (suc fuel) n [] le = tt
chunks_within-AllSmall (suc fuel) n (x ∷ xs) le =
    ((refl, omega (arith, length-take n xs)), chunks_within-AllSmall fuel n (drop n xs) le)

pub joined-chunks_within :
    (fuel n : ℕ) (bytes : Bytes)
    → length bytes ≤ fuel
    → joined (chunks_within fuel (suc n) bytes) ≡ bytes
unfolding chunks_within
joined-chunks_within zero n [] enough = refl
joined-chunks_within zero n (x ∷ xs) enough = absurd (omega (arith, enough))
joined-chunks_within (suc fuel) n [] enough = refl
joined-chunks_within (suc fuel) n (x ∷ xs) enough =
    ap (λ rest. x ∷ (take n xs ++ rest))
      (joined-chunks_within fuel n (drop n xs) (omega (arith, length-drop n xs, enough)))
    ∙ ap (λ rest. x ∷ rest) (take-append-drop n xs)

module _ {E : Type 0} where
  items-append : (xs ys : List (Event E)) → items (xs ++ ys) ≡ items xs ++ items ys
  items-append [] ys = refl
  items-append (not_ready ∷ xs) ys = items-append xs ys
  items-append (chunk c ∷ xs) ys = ap (λ zs. chunk c ∷ zs) (items-append xs ys)
  items-append (failed e ∷ xs) ys = ap (λ zs. failed e ∷ zs) (items-append xs ys)

  iter_ok-append : (cs ds : List Bytes) → iter_ok {E = E} (cs ++ ds) ≡ iter_ok cs ++ iter_ok ds
  unfolding iter_ok
  iter_ok-append [] ds = refl
  iter_ok-append (c ∷ cs) ds = ap (λ zs. chunk c ∷ zs) (iter_ok-append cs ds)

  items-iter_ok : (cs : List Bytes) → items (iter_ok {E = E} cs) ≡ iter_ok cs
  unfolding iter_ok
  items-iter_ok [] = refl
  items-iter_ok (c ∷ cs) = ap (λ zs. chunk c ∷ zs) (items-iter_ok cs)

  items-chunk_fuzz_data :
      ⦃il : Interleave⦄ (bytes : Bytes)
      → items (chunk_fuzz_data {E = E} bytes) ≡ iter_ok (chunks 9 bytes)
  unfolding chunk_fuzz_data
  items-chunk_fuzz_data ⦃il⦄ bytes =
      il.same_items (iter_ok (chunks 9 bytes)) ∙ items-iter_ok (chunks 9 bytes)

  pub items-field_stream :
      ⦃il : Interleave⦄ (bytes : Bytes)
      → items (field_stream {E = E} bytes) ≡ chunk start1 ∷ chunk start2 ∷ with_end (chunks 9 bytes)
  unfolding field_stream chunks chunks_within iter_ok
  items-field_stream bytes =
      rw
        (
          items-append (chunk_fuzz_data {E = E} field_start) _,
          items-append (chunk_fuzz_data {E = E} bytes) _,
          items-chunk_fuzz_data field_start,
          items-chunk_fuzz_data bytes,
          items-chunk_fuzz_data field_end,
        )
        (ap (λ rest. chunk start1 ∷ chunk start2 ∷ rest)
          (sym (iter_ok-append (chunks 9 bytes) (end1 ∷ end2 ∷ []))))
