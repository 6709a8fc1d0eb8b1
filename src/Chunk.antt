-- ===== src/Chunk.antt =====
-- src/lib.rs: the trait `BodyChunk`, through which the server cuts the chunks of a body, and its
-- implementations. `Bytes` is of the crate bytes: an argument.
pub mod Cuts
use multipart_async.Base.{
  ℕ, ◌≤◌, ◌≡◌, arith, Bool, Bytes, length, take, drop, is_empty, Outcome, value, panic,
  out_of_range, ◌>>=◌, leb, if◌then◌else◌,
}

-- The required methods and the default ones.
pub record BodyChunk (C : Type 0) : Type 0 where
  pub split_into : C → ℕ → Outcome (C × C)
  pub as_slice : C → Bytes
  pub into_vec : C → Bytes

-- `Vec::split_off`: the vector keeps what stands before the index.
vec_split_off : Bytes → ℕ → Outcome (Bytes × Bytes)
vec_split_off v at = if leb at (length v) then value (take at v, drop at v) else panic out_of_range

-- `BodyChunk::len` and `BodyChunk::is_empty`, the provided methods
module _ {C : Type 0} (b : BodyChunk C) where
  pub chunk_len : C → ℕ
  chunk_len c = length (b.as_slice c)

  pub chunk_is_empty : C → Bool
  chunk_is_empty c = is_empty (b.as_slice c)

-- `impl BodyChunk for Vec<u8>`
abbrev pub vec_chunk : BodyChunk Bytes
unfolding vec_split_off
vec_chunk = record { split_into = vec_split_off; as_slice = λ v. v; into_vec = λ v. v }

-- `slice::split_at`
unfoldable pub slice_split_at : Bytes → ℕ → Outcome (Bytes × Bytes)
slice_split_at s mid =
    if leb mid (length s) then value (take mid s, drop mid s) else panic out_of_range

-- `impl BodyChunk for &[u8]`; a slice is what it shows, and `into_vec` is the default `to_owned`
abbrev pub slice_chunk : BodyChunk Bytes
unfolding slice_split_at
slice_chunk = record { split_into = slice_split_at; as_slice = λ s. s; into_vec = λ s. s }

-- `Cow<[u8]>`
pub data Cow : Type 0 where
  borrowed : Bytes → Cow
  owned : Bytes → Cow

cow_as_slice : Cow → Bytes
cow_as_slice (borrowed s) = s
cow_as_slice (owned v) = v

-- `cow_tup` keeps a borrowed pair borrowed and an owned pair owned.
cow_split_into : Cow → ℕ → Outcome (Cow × Cow)
cow_split_into (borrowed s) idx = do
  (left, right) ← slice_chunk.split_into s idx
  value (borrowed left, borrowed right)
cow_split_into (owned v) idx = do
  (left, right) ← vec_chunk.split_into v idx
  value (owned left, owned right)

abbrev pub cow_chunk : BodyChunk Cow
unfolding cow_split_into cow_as_slice vec_split_off slice_split_at
cow_chunk = record { split_into = cow_split_into; as_slice = cow_as_slice; into_vec = cow_as_slice }

-- What the code calls of `Bytes` of the crate bytes; `split_off` leaves the part in front of the index and
-- returns the part behind it.
pub record BytesCrate : Type 1 where
  pub Buffer : Type 0
  pub as_ref : Buffer → Bytes
  pub split_off : Buffer → ℕ → Outcome (Buffer × Buffer)

-- `impl BodyChunk for Bytes`; `into_vec` is the default `to_owned`
unfoldable bytes_chunk : (crate : BytesCrate) → BodyChunk crate.Buffer
bytes_chunk crate = record {
  split_into = crate.split_off;
  as_slice = crate.as_ref;
  into_vec = crate.as_ref;
}

-- `split_at` within the slice gives the two parts.
pub split_into-value :
    (c : Bytes) (idx : ℕ)
    → idx ≤ length c
    → slice_chunk.split_into c idx ≡ value (take idx c, drop idx c)
unfolding slice_split_at
split_into-value c idx h = ground arith
