-- ===== src/Push/Stops.antt =====
-- Where the `PushChunk` of src/server/mod.rs stands when a field has ended.
use multipart_async.Base.{◌≡◌, refl, inl, inr, ◌⊎◌, ◌++◌, Bytes, none, arith, length-append}
use multipart_async.Search.{Twoway}
use multipart_async.Search.Ends.{starts_with-left}
use multipart_async.Finder.{State, watching, partial, found, split, remainder, end}
use multipart_async.Finder.Spec.{payload, held, AtEnd, StateInv, IsWhole, Inv}
use multipart_async.Push.{PushChunk}
use multipart_async.Push.Spec.{remaining}

module _ ⦃tw : Twoway⦄ (boundary : Bytes) where
  IsWhole-append : (bytes more : Bytes) → IsWhole boundary bytes → IsWhole boundary (bytes ++ more)
  IsWhole-append bytes more w = record {
    starts = starts_with-left bytes more boundary w.starts;
    long = omega (arith, w.long, length-append bytes more);
  }

  -- where a finder stops behind a field
  State-stops :
      (s : State) (more : Bytes)
      → StateInv boundary s
      → AtEnd s
      → IsWhole boundary (held s ++ more) ⊎ (s ≡ end)
  State-stops (found bnd) more inv at_end = inl (IsWhole-append bnd more inv)
  State-stops (split first second) more inv at_end =
      inl (IsWhole-append (first ++ second) more inv.1)
  State-stops end more inv at_end = inr refl
  State-stops watching more inv at_end = absurd at_end
  State-stops (partial c res) more inv at_end = absurd at_end
  State-stops (remainder rem) more inv at_end = absurd at_end

  pub PushChunk-stops :
      {E : Type 0} (p : PushChunk E)
      → Inv boundary p.stream
      → p.pushed ≡ none
      → AtEnd p.stream.state
      → IsWhole boundary (remaining p) ⊎ (p.stream.state ≡ end)
  PushChunk-stops p inv unpushed at_end =
      rw unpushed (State-stops p.stream.state (payload p.stream.stream) inv.good_state at_end)
