-- ===== src/Multipart/Next.antt =====
-- The future of `Multipart::next_field`, driven to its answer: src/server/field/mod.rs.
use multipart_async.Base.{
  ℕ, zero, suc, ◌≤◌, ◌<◌, ◌≡◌, refl, sym, subst, Bool, true, false, Bytes, Option, none, some,
  Outcome, value, panic, out_of_fuel, ◌>>=◌, arith, Returns, Returns->>=,
}
use multipart_async.Stream.{Poll, ready, pending, Result, ok, err, Error}
use multipart_async.Search.{Twoway, ends_with}
use multipart_async.Finder.{end, Finder, consume_boundary}
use multipart_async.Finder.Spec.{supply}
use multipart_async.Finder.Passed.{ConsumeSpec}
use multipart_async.Finder.Consume.{consume_boundary-ConsumeSpec}
use multipart_async.Push.{PushChunk}
use multipart_async.Push.Spec.{chunks_left}
use multipart_async.Fields.{Crates, FieldHeaders, crlf2, parse_headers}
use multipart_async.Headers.{ReadHeaders, is_reading_headers, read_headers}
use multipart_async.Headers.Spec.{ReadSpec}
use multipart_async.Headers.Read.{read_headers-ReadSpec}
use multipart_async.TestUtil.{until_ready}
use multipart_async.TestUtil.Driven.{Advances, until_ready-Returns}
use multipart_async.Multipart.{
  Multipart, NextField, Next, new_next_field, poll_has_next_field, poll_field_headers, flatten_poll,
  next_headers, after_boundary, poll_next_field,
}
use multipart_async.Multipart.Steps.{InOrder}
use multipart_async.Multipart.Text.{InField}
use multipart_async.Multipart.Data.{next_field, poll_unpin}

-- the future once it knows that a field follows
abbrev asked : NextField
asked = record { holds_multipart = true; has_next_field = true }

module _ (crates : Crates) ⦃tw : Twoway⦄ {E : Type 0} (boundary : Bytes) where
  -- What the future may come to: headers that were parsed from a section that ends in two newlines, with the
  -- data of the field next; no field, at the end of the body; or an error.
  abbrev pub Answered :
      Result (Option (FieldHeaders crates)) (Error E) → NextField × Multipart E → Type 0
  Answered (ok (some h)) (n, m) =
      InField boundary m
      × (section : Bytes) × (ends_with section crlf2 ≡ true)
      × (parse_headers crates section ≡ value (ok h))
  Answered (ok none) (n, m) = InOrder boundary m × (m.inner.stream.state ≡ end)
  Answered (err e) (n, m) = InOrder boundary m

  abbrev left : NextField × Multipart E → ℕ
  left (n, m) = chunks_left m.inner

  abbrev Asked : NextField × Multipart E → Type 0
  Asked (n, m) = (n ≡ asked) × InOrder boundary m

  -- a step of the future while it reads the headers
  abbrev HeadersStep : Multipart E → Next crates E → Type 0
  HeadersStep m (polled, n', m') = Advances Asked left Answered (asked, m) (polled, (n', m'))

  step_of :
      (m : Multipart E) (polled : Poll (Result (FieldHeaders crates) (Error (Error E))))
      (r : ReadHeaders) (p : PushChunk E)
      → ReadSpec crates m.read_hdr m.inner boundary (polled, r, p)
      → let m' : Multipart E = record { inner = p; read_hdr = r } in
        HeadersStep m (elim (flatten_poll crates polled) [
          | pending ↦ (pending, asked, m')
          | ready (err e) ↦ (ready (err e), asked, m')
          | ready (ok h) ↦ (ready (ok (some h)), record asked { holds_multipart = false }, m')
        ])
  unfolding flatten_poll
  step_of m pending r p (inv, (_, lower, _)) = ((refl, inv), lower)
  step_of m (ready (ok h)) r p (inv, (parsed, fresh)) = (
    record { in_order = inv; idle = unfold is_reading_headers in rw fresh refl },
    parsed.section,
    parsed.ends,
    parsed.parsed,
  )
  step_of m (ready (err e)) r p (inv, h) = inv

  next_headers-HeadersStep :
      (m : Multipart E) → InOrder boundary m → Returns (HeadersStep m) (next_headers crates asked m)
  unfolding next_headers poll_field_headers
  next_headers-HeadersStep m inv =
      Returns->>=
        (λ (polled, m'). HeadersStep m (elim polled [
          | pending ↦ (pending, asked, m')
          | ready (err e) ↦ (ready (err e), asked, m')
          | ready (ok h) ↦ (ready (ok (some h)), record asked { holds_multipart = false }, m')
        ]))
        (HeadersStep m) (poll_field_headers crates m) _
        (Returns->>= (ReadSpec crates m.read_hdr m.inner boundary) _
          (read_headers crates m.read_hdr m.inner) _
          (read_headers-ReadSpec crates boundary m.read_hdr m.inner inv)
          (λ (polled, r, p) h. step_of m polled r p h))
        (λ (polled, m') h. h)

  poll_unpin-Advances :
      (s : NextField × Multipart E)
      → Asked s
      → Returns (Advances Asked left Answered s) (poll_unpin crates s)
  unfolding poll_unpin poll_next_field
  poll_unpin-Advances (n, m) (is_asked, inv) =
      subst (λ n'. Returns (Advances Asked left Answered (n', m)) (poll_unpin crates (n', m)))
        (sym is_asked)
        (Returns->>= (HeadersStep m) (Advances Asked left Answered (asked, m))
          (next_headers crates asked m) _ (next_headers-HeadersStep m inv)
          (λ (polled, n', m') h. h))

  -- The future is ready after so many polls, and then as it should be.
  abbrev pub Ends : NextField × Multipart E → Type 0
  Ends s =
      (enough : ℕ) × ((polls : ℕ)
        → enough ≤ polls
        → Returns (λ (result, s'). Answered result s') (until_ready polls (poll_unpin crates) s))

  -- behind a poll
  abbrev EndsBehind :
      Outcome (Poll (Result (Option (FieldHeaders crates)) (Error E)) × (NextField × Multipart E))
      → Type 0
  EndsBehind o =
      (enough : ℕ) × ((polls : ℕ)
        → enough ≤ polls
        → Returns (λ (result, s'). Answered result s')
            (o >>= λ (polled, s'). elim polled [
              | ready a ↦ value (a, s')
              | pending ↦ until_ready polls (poll_unpin crates) s'
            ]))

  EndsBehind-Ends : (s : NextField × Multipart E) → EndsBehind (poll_unpin crates s) → Ends s
  unfolding until_ready
  EndsBehind-Ends s (enough, ends) = (suc enough, λ polls le. within polls le)
    where
      within :
          (polls : ℕ)
          → suc enough ≤ polls
          → Returns (λ (result, s'). Answered result s') (until_ready polls (poll_unpin crates) s)
      within zero le = absurd (omega arith)
      within (suc polls) le = ends polls (omega arith)

  Asked-Ends : (m : Multipart E) → InOrder boundary m → Ends (asked, m)
  Asked-Ends m inv = (
    suc (chunks_left m.inner),
    λ polls le.
        until_ready-Returns Asked left Answered (poll_unpin crates) poll_unpin-Advances polls
          (asked, m) (refl, inv) (omega arith),
  )

  headers_behind :
      (m : Multipart E) (o : Outcome (Next crates E))
      → Returns (HeadersStep m) o
      → EndsBehind (o >>= λ (polled, n', m'). value (polled, (n', m')))
  headers_behind m (value (pending, n', m')) ((is_asked, inv), lower) =
      let (enough, ends) = Asked-Ends m' inv in (enough, λ polls le. rw is_asked (ends polls le))
  headers_behind m (value (ready a, n', m')) h = (0, λ polls le. h)
  headers_behind m (panic p) h = absurd h
  headers_behind m out_of_fuel h = absurd h

  boundary_behind :
      (m : Multipart E) (r : Outcome (Poll (Result Bool (Error E)) × Finder E))
      → consume_boundary m.inner.stream ≡ r
      → ConsumeSpec boundary m.inner.stream r
      → ((m' : Multipart E)
          → InOrder boundary m'
          → supply m'.inner.stream < supply m.inner.stream
          → Ends (new_next_field, m'))
      → EndsBehind (poll_unpin crates (new_next_field, m))
  unfolding poll_unpin poll_next_field poll_has_next_field after_boundary
  boundary_behind m (value (pending, f)) e (inv, less, _, _, _, _) ih =
      let m' : Multipart E = record m { inner = record m.inner { stream = f } } in
      rw e (ih m' inv (omega arith))
  boundary_behind m (value (ready (ok true), f)) e (inv, _) ih =
      let m' : Multipart E = record m { inner = record m.inner { stream = f } } in
      rw e (headers_behind m' (next_headers crates asked m') (next_headers-HeadersStep m' inv))
  boundary_behind m (value (ready (ok false), f)) e (inv, at_end) ih =
      rw e (0, λ polls le. (inv, at_end))
  boundary_behind m (value (ready (err x), f)) e (inv, _) ih = rw e (0, λ polls le. inv)
  boundary_behind m (panic p) e spec ih = absurd spec
  boundary_behind m out_of_fuel e spec ih = absurd spec

  ready_within :
      (fuel : ℕ) (m : Multipart E)
      → InOrder boundary m
      → supply m.inner.stream < fuel
      → Ends (new_next_field, m)
  ready_within zero m inv enough = absurd (omega arith)
  ready_within (suc fuel) m inv enough =
      EndsBehind-Ends (new_next_field, m)
        (boundary_behind m (consume_boundary m.inner.stream) refl
          (consume_boundary-ConsumeSpec boundary m.inner.stream inv)
          (λ m' inv' less. ready_within fuel m' inv' (omega (arith, less, enough))))

  -- From any `Multipart` in order, also in the middle of a field or of its headers, the future of
  -- `next_field` is ready after finitely many polls, none of which panics. If it returns headers, they are
  -- parsed from a section that ends in two newlines, and the data of the field can be read next. If it
  -- returns none, the finder is at its end. In each case, an error included, the `Multipart` is in order.
  pub next_field-Answered :
      (m : Multipart E)
      → InOrder boundary m
      → (polls : ℕ) × Returns
          (λ (result, s). Answered result s)
          (until_ready polls (poll_unpin crates) (next_field m))
  unfolding next_field
  next_field-Answered m inv =
      let (enough, ends) = ready_within (suc (supply m.inner.stream)) m inv (omega arith) in
      (enough, ends enough (omega arith))
