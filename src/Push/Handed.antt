-- ===== src/Push/Handed.antt =====
-- A chunk that is handed back to a `PushChunk`.
use multipart_async.Base.{Bytes, ◌≡◌, refl, none, some, value, ◌>>=◌, ◌≢◌, [], ◌∷◌}
use multipart_async.Stream.{ready, ok}
use multipart_async.Search.{Twoway}
use multipart_async.Push.{PushChunk, push_chunk, poll_next}

module _ ⦃tw : Twoway⦄ {E : Type 0} where
  -- A chunk that is not empty, handed back when no other is, does not panic; the next poll returns it and
  -- leaves all as it was, the stream behind it included.
  pub poll_next-push_chunk :
      (p : PushChunk E) (c : Bytes)
      → p.pushed ≡ none
      → c ≢ []
      → (push_chunk p c >>= poll_next) ≡ value (ready (some (ok c)), p)
  unfolding push_chunk poll_next
  poll_next-push_chunk p [] unpushed ne = absurd (ne refl)
  poll_next-push_chunk p (x ∷ xs) unpushed ne = rw unpushed
