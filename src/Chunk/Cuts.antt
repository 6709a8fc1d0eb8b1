-- ===== src/Chunk/Cuts.antt =====
-- The implementations of `BodyChunk` in src/lib.rs against what the server needs of a cut.
use multipart_async.Base.{
  ℕ, ◌<◌, ◌≡◌, refl, inl, inr, Bytes, ◌++◌, length, Outcome, value, panic, out_of_fuel,
  out_of_range, arith, tests, leb, Bool-cases, length-take, take-append-drop, ◌>>=◌,
}
use multipart_async.Chunk.{
  BodyChunk, chunk_len, vec_split_off, vec_chunk, slice_split_at, slice_chunk, Cow, borrowed, owned,
  cow_split_into, cow_as_slice, cow_chunk,
}

module _ {C : Type 0} (b : BodyChunk C) where
  -- A cut loses no byte, keeps their order, and has `idx` bytes in the left part; it panics exactly where the
  -- index is behind the end.
  abbrev pub Cuts : C → ℕ → Outcome (C × C) → Type 0
  Cuts c idx (value (left, right)) =
      (b.as_slice left ++ b.as_slice right ≡ b.as_slice c) × (chunk_len b left ≡ idx)
  Cuts c idx (panic p) = (p ≡ out_of_range) × (chunk_len b c < idx)
  Cuts c idx out_of_fuel = ⊥

-- Both parts of a borrowed chunk are borrowed, and of an owned one owned.
abbrev pub KeepsKind : Cow → Outcome (Cow × Cow) → Type 0
KeepsKind (borrowed s) (value (borrowed left, borrowed right)) = Unit
KeepsKind (owned v) (value (owned left, owned right)) = Unit
KeepsKind c (panic p) = Unit
KeepsKind _ _ = ⊥

slice_split_at-Cuts : (s : Bytes) (idx : ℕ) → Cuts slice_chunk s idx (slice_split_at s idx)
unfolding slice_chunk slice_split_at chunk_len
slice_split_at-Cuts s idx = elim (Bool-cases (leb idx (length s))) [
  | inl room ↦ rw room (take-append-drop idx s, omega (tests, room, length-take idx s))
  | inr short ↦ rw short (refl, ground arith)
]

vec_split_off-Cuts : (v : Bytes) (idx : ℕ) → Cuts vec_chunk v idx (vec_split_off v idx)
unfolding vec_chunk vec_split_off chunk_len
vec_split_off-Cuts v idx = elim (Bool-cases (leb idx (length v))) [
  | inl room ↦ rw room (take-append-drop idx v, omega (tests, room, length-take idx v))
  | inr short ↦ rw short (refl, ground arith)
]

borrowed-Cuts :
    (s : Bytes) (idx : ℕ) (r : Outcome (Bytes × Bytes))
    → Cuts slice_chunk s idx r
    → let cut : Outcome (Cow × Cow) =
        r >>= λ (left, right). value (borrowed left, borrowed right) in
      Cuts cow_chunk (borrowed s) idx cut × KeepsKind (borrowed s) cut
unfolding slice_chunk cow_chunk cow_as_slice chunk_len
borrowed-Cuts s idx (value (left, right)) h = (h, tt)
borrowed-Cuts s idx (panic p) h = (h, tt)
borrowed-Cuts s idx out_of_fuel h = absurd h

owned-Cuts :
    (v : Bytes) (idx : ℕ) (r : Outcome (Bytes × Bytes))
    → Cuts vec_chunk v idx r
    → let cut : Outcome (Cow × Cow) = r >>= λ (left, right). value (owned left, owned right) in
      Cuts cow_chunk (owned v) idx cut × KeepsKind (owned v) cut
unfolding vec_chunk cow_chunk cow_as_slice chunk_len
owned-Cuts v idx (value (left, right)) h = (h, tt)
owned-Cuts v idx (panic p) h = (h, tt)
owned-Cuts v idx out_of_fuel h = absurd h

cow_split_into-Cuts :
    (c : Cow) (idx : ℕ)
    → Cuts cow_chunk c idx (cow_split_into c idx) × KeepsKind c (cow_split_into c idx)
unfolding cow_split_into slice_chunk vec_chunk
cow_split_into-Cuts (borrowed s) idx =
    borrowed-Cuts s idx (slice_split_at s idx) (slice_split_at-Cuts s idx)
cow_split_into-Cuts (owned v) idx =
    owned-Cuts v idx (vec_split_off v idx) (vec_split_off-Cuts v idx)

-- `split_into` of slices, vectors and `Cow`, at any index: the two parts are the bytes of the chunk in their
-- order, and the left one has as many as the index says; it panics exactly if the index is behind the end.
-- Both parts of a borrowed `Cow` are borrowed, and of an owned one owned.
pub chunks-Cuts :
    (bytes : Bytes) (c : Cow) (idx : ℕ)
    → Cuts slice_chunk bytes idx (slice_chunk.split_into bytes idx)
      × Cuts vec_chunk bytes idx (vec_chunk.split_into bytes idx)
      × Cuts cow_chunk c idx (cow_chunk.split_into c idx)
      × KeepsKind c (cow_chunk.split_into c idx)
unfolding cow_chunk
chunks-Cuts bytes c idx =
    let (cow, kind) = cow_split_into-Cuts c idx in
    (slice_split_at-Cuts bytes idx, vec_split_off-Cuts bytes idx, cow, kind)
