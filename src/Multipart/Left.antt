-- ===== src/Multipart/Left.antt =====
-- What is left of a field when the next one is asked for.
use multipart_async.Base.{
  Bytes, Bool, ◌≡◌, ap, subst, refl, false, none, some, Outcome, value, panic, out_of_fuel, ◌>>=◌,
}
use multipart_async.Stream.{ready, ok, Error, Poll, Result}
use multipart_async.Search.{Twoway}
use multipart_async.Finder.{Finder, consume_boundary}
use multipart_async.Push.{poll_next}
use multipart_async.Headers.{is_reading_headers}
use multipart_async.Multipart.{Multipart, poll_has_next_field, poll_field_chunk}

module _ ⦃tw : Twoway⦄ {E : Type 0} where
  -- The multipart that a poll leaves, if it leaves one.
  left_by : Multipart E → Outcome (Poll (Result Bool (Error E)) × Multipart E) → Multipart E
  left_by m (value (polled, m')) = m'
  left_by m (panic p) = m
  left_by m out_of_fuel = m

  -- what `poll_has_next_field` does with the finder
  abbrev stored :
      Multipart E
      → Outcome (Poll (Result Bool (Error E)) × Finder E)
      → Outcome (Poll (Result Bool (Error E)) × Multipart E)
  stored m r = do
    (polled, f) ← r
    value (polled, record m { inner = record m.inner { stream = f } })

  -- Only the finder changes.
  stored-left_by :
      (m : Multipart E) (r : Outcome (Poll (Result Bool (Error E)) × Finder E))
      → let m' = left_by m (stored m r) in
        (m'.inner.pushed ≡ m.inner.pushed) × (m'.read_hdr ≡ m.read_hdr)
  unfolding left_by
  stored-left_by m (value (polled, f)) = (refl, refl)
  stored-left_by m (panic p) = (refl, refl)
  stored-left_by m out_of_fuel = (refl, refl)

  poll_has_next_field-left_by :
      (m m' : Multipart E) {polled : Poll (Result Bool (Error E))}
      → poll_has_next_field m ≡ value (polled, m')
      → (m'.inner.pushed ≡ m.inner.pushed) × (m'.read_hdr ≡ m.read_hdr)
  unfolding poll_has_next_field left_by
  poll_has_next_field-left_by m m' h =
      subst (λ n. (n.inner.pushed ≡ m.inner.pushed) × (n.read_hdr ≡ m.read_hdr)) (ap (left_by m) h)
        (stored-left_by m (consume_boundary m.inner.stream))

  -- A chunk that was handed back while the headers of a field were read, and that nobody has asked for
  -- since, stays when `poll_has_next_field` goes on to the next field: unless headers are being read, the
  -- next chunk that `poll_field_chunk` returns is that one.
  pub poll_field_chunk-poll_has_next_field :
      (m m' : Multipart E) (polled : Poll (Result Bool (Error E))) (c : Bytes)
      → m.inner.pushed ≡ some c
      → is_reading_headers m.read_hdr ≡ false
      → poll_has_next_field m ≡ value (polled, m')
      → poll_field_chunk m'
        ≡ value (ready (some (ok c)), record m' { inner = record m'.inner { pushed = none } })
  unfolding poll_field_chunk poll_next
  poll_field_chunk-poll_has_next_field m m' polled c left idle h =
      let (pushed, hdr) = poll_has_next_field-left_by m m' h in rw (hdr, idle, pushed, left)
