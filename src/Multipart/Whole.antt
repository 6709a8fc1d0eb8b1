-- ===== src/Multipart/Whole.antt =====
-- A field whose headers and data lie in one chunk.
use multipart_async.Base.{◌≡◌, refl, true, false, [], ◌∷◌, Bytes, Option, none, some, value}
use multipart_async.Stream.{ready, ok}
use multipart_async.Search.{Twoway}
use multipart_async.Finder.{Finder, body_chunk, consume_boundary}
use multipart_async.Push.{poll_next}
use multipart_async.Fields.{Crates, FieldHeaders}
use multipart_async.Headers.{is_reading_headers, read_headers}
use multipart_async.Headers.Whole.{handed}
use multipart_async.Multipart.{
  Multipart, new_next_field, poll_has_next_field, poll_field_chunk, poll_field_headers,
  flatten_poll, next_headers, after_boundary, poll_next_field,
}

-- Between two fields, or with some data handed back.
abbrev pub resting : {E : Type 0} → Finder E → Option Bytes → Multipart E
resting f pushed = record {
  inner = record { stream = f; pushed = pushed };
  read_hdr = record { accumulator = [] };
}

module _ (crates : Crates) ⦃tw : Twoway⦄ {E : Type 0} where
  pub poll_next_field-some :
      (f g g' : Finder E) (pushed : Option Bytes) (h : FieldHeaders crates)
      → consume_boundary f ≡ value (ready (ok true), g)
      → read_headers crates (record { accumulator = [] }) (record { stream = g; pushed = none })
        ≡ value (ready (ok h), record { accumulator = [] }, record { stream = g'; pushed = pushed })
      → poll_next_field crates new_next_field (resting f none)
        ≡ value (
          ready (ok (some h)),
          record { holds_multipart = false; has_next_field = true },
          resting g' pushed,
        )
  unfolding poll_next_field poll_has_next_field after_boundary next_headers poll_field_headers
      flatten_poll
  poll_next_field-some f g g' pushed h consumed read = rw (consumed, read) refl

  pub poll_next_field-none :
      (f g : Finder E)
      → consume_boundary f ≡ value (ready (ok false), g)
      → poll_next_field crates new_next_field (resting f none)
        ≡ value (
          ready (ok none),
          record { holds_multipart = false; has_next_field = false },
          resting g none,
        )
  unfolding poll_next_field poll_has_next_field after_boundary
  poll_next_field-none f g consumed = rw consumed refl

module _ ⦃tw : Twoway⦄ {E : Type 0} where
  -- The data of a field that comes in one chunk, if it has any, and then its end.
  pub data ReadsData (m : Multipart E) : Bytes → Multipart E → Type 0 where
    no_data : poll_field_chunk m ≡ value (ready none, m) → ReadsData m [] m
    one_chunk :
        (c : Bytes) (m' : Multipart E)
        → poll_field_chunk m ≡ value (ready (some (ok c)), m')
        → poll_field_chunk m' ≡ value (ready none, m')
        → ReadsData m c m'

  pub handed-ReadsData :
      (g : Finder E) (c : Bytes)
      → body_chunk g ≡ value (ready none, g)
      → ReadsData (resting g (handed c)) c (resting g none)
  unfolding poll_field_chunk poll_next is_reading_headers
  handed-ReadsData g [] ended = no_data (rw ended refl)
  handed-ReadsData g (x ∷ c) ended = one_chunk (x ∷ c) (resting g none) refl (rw ended refl)
