-- ===== src/Multipart/Steps.antt =====
-- A `Multipart` from `with_body` on, through any sequence of polls.
use multipart_async.Base.{
  ◌≡◌, refl, Bool, true, false, Bytes, List, ◌++◌, Option, some, Outcome, value, panic, out_of_fuel,
  Returns, Returns->>=, Returns-map, IsValue, arith, Bool-cases, inl, inr,
}
use multipart_async.Stream.{Poll, ready, pending, Result, ok, err, Error, Event, PollOpt}
use multipart_async.Search.{Twoway, dashes}
use multipart_async.Finder.{Finder, consume_boundary}
use multipart_async.Finder.Spec.{Inv}
use multipart_async.Finder.Passed.{ConsumeSpec}
use multipart_async.Finder.Consume.{consume_boundary-ConsumeSpec}
use multipart_async.Push.{poll_next}
use multipart_async.Push.Spec.{PollSpec, poll_next-PollSpec}
use multipart_async.Fields.{Crates, FieldHeaders}
use multipart_async.Headers.{is_reading_headers, read_headers}
use multipart_async.Headers.Spec.{ReadSpec}
use multipart_async.Headers.Read.{read_headers-ReadSpec}
use multipart_async.Multipart.{
  Multipart, NextField, Next, with_body, poll_has_next_field, poll_field_chunk, poll_field_headers,
  next_headers, after_boundary, poll_next_field,
}

module _ ⦃tw : Twoway⦄ {E : Type 0} where
  -- The finder is in order.
  abbrev pub InOrder : Bytes → Multipart E → Type 0
  InOrder boundary m = Inv boundary m.inner.stream

  pub with_body-InOrder :
      (events : List (Event E)) (boundary : Bytes)
      → InOrder (dashes ++ boundary) (with_body events boundary)
  unfolding with_body
  with_body-InOrder events boundary = record {
    same_boundary = refl;
    good_boundary = ((omega arith), (omega arith));
    good_state = tt;
  }

  ConsumeSpec-Inv :
      (boundary : Bytes) (f : Finder E) (r : Outcome (Poll (Result Bool (Error E)) × Finder E))
      → ConsumeSpec boundary f r
      → Returns (λ (polled, f'). Inv boundary f') r
  ConsumeSpec-Inv boundary f (value (pending, f')) h = h.0
  ConsumeSpec-Inv boundary f (value (ready answer, f')) h = h.0
  ConsumeSpec-Inv boundary f (panic p) h = absurd h
  ConsumeSpec-Inv boundary f out_of_fuel h = absurd h

  poll_has_next_field-InOrder :
      (boundary : Bytes) (m : Multipart E)
      → InOrder boundary m
      → Returns (λ (polled, m'). InOrder boundary m') (poll_has_next_field m)
  unfolding poll_has_next_field
  poll_has_next_field-InOrder boundary m inv =
      Returns->>= (λ (polled, f). Inv boundary f) _ (consume_boundary m.inner.stream) _
        (ConsumeSpec-Inv boundary m.inner.stream (consume_boundary m.inner.stream)
          (consume_boundary-ConsumeSpec boundary m.inner.stream inv))
        (λ (polled, f) h. h)

  pub poll_field_chunk-InOrder :
      (boundary : Bytes) (m : Multipart E)
      → InOrder boundary m
      → Returns (λ (polled, m'). InOrder boundary m') (poll_field_chunk m)
  unfolding poll_field_chunk
  poll_field_chunk-InOrder boundary m inv = elim (Bool-cases (is_reading_headers m.read_hdr)) [
    | inl reading ↦ rw reading inv
    | inr idle ↦ rw idle (
        Returns->>= (PollSpec m.inner boundary) _ (poll_next m.inner) _
          (poll_next-PollSpec boundary m.inner inv) (λ (polled, p) h. h.0))
  ]

  module _ (crates : Crates) where
    poll_field_headers-InOrder :
        (boundary : Bytes) (m : Multipart E)
        → InOrder boundary m
        → Returns (λ (polled, m'). InOrder boundary m') (poll_field_headers crates m)
    unfolding poll_field_headers
    poll_field_headers-InOrder boundary m inv =
        Returns->>= (ReadSpec crates m.read_hdr m.inner boundary) _
          (read_headers crates m.read_hdr m.inner) _
          (read_headers-ReadSpec crates boundary m.read_hdr m.inner inv) (λ (polled, r, p) h. h.0)

    -- A future of the next field, its state included.
    abbrev pub NextInOrder : Bytes → Next crates E → Type 0
    NextInOrder boundary (polled, n, m) = InOrder boundary m

    next_headers-InOrder :
        (boundary : Bytes) (n : NextField) (m : Multipart E)
        → InOrder boundary m
        → Returns (NextInOrder boundary) (next_headers crates n m)
    unfolding next_headers
    next_headers-InOrder boundary n m inv =
        Returns->>= (λ (polled, m'). InOrder boundary m') (NextInOrder boundary)
          (poll_field_headers crates m) _ (poll_field_headers-InOrder boundary m inv)
          (λ (polled, m') h. answered polled m' h)
      where
        answered :
            (polled : Poll (Result (FieldHeaders crates) (Error E))) (m' : Multipart E)
            → InOrder boundary m'
            → NextInOrder boundary (elim polled [
              | pending ↦ (pending, n, m')
              | ready (err e) ↦ (ready (err e), n, m')
              | ready (ok h) ↦ (ready (ok (some h)), record n { holds_multipart = false }, m')
            ])
        answered pending m' h = h
        answered (ready (ok headers)) m' h = h
        answered (ready (err e)) m' h = h

    after_boundary-InOrder :
        (boundary : Bytes) (n : NextField) (polled : Poll (Result Bool (Error E))) (m : Multipart E)
        → InOrder boundary m
        → Returns (NextInOrder boundary) (after_boundary crates n polled m)
    unfolding after_boundary
    after_boundary-InOrder boundary n pending m inv = inv
    after_boundary-InOrder boundary n (ready (err e)) m inv = inv
    after_boundary-InOrder boundary n (ready (ok true)) m inv =
        next_headers-InOrder boundary (record n { has_next_field = true }) m inv
    after_boundary-InOrder boundary n (ready (ok false)) m inv = inv

    pub poll_next_field-InOrder :
        (boundary : Bytes) (n : NextField) (m : Multipart E)
        → InOrder boundary m
        → Returns (NextInOrder boundary) (poll_next_field crates n m)
    unfolding poll_next_field
    poll_next_field-InOrder boundary n m inv = elim (Bool-cases n.holds_multipart) [
      | inr gone ↦ rw gone inv
      | inl held ↦ elim (Bool-cases n.has_next_field) [
        | inl more ↦ rw (held, more) (next_headers-InOrder boundary n m inv)
        | inr ask ↦
            rw (held, ask)
              (Returns->>= (λ (polled, m'). InOrder boundary m') (NextInOrder boundary)
                (poll_has_next_field m) _ (poll_has_next_field-InOrder boundary m inv)
                (λ (polled, m') h. after_boundary-InOrder boundary _ polled m' h))
      ]
    ]

    -- A poll of a `Multipart`, through its own methods or through the futures and streams over it.
    pub data Step (m m' : Multipart E) : Type 0 where
      has_next :
          (polled : Poll (Result Bool (Error E)))
          → poll_has_next_field m ≡ value (polled, m')
          → Step m m'
      field_headers :
          (polled : Poll (Result (FieldHeaders crates) (Error E)))
          → poll_field_headers crates m ≡ value (polled, m')
          → Step m m'
      field_chunk :
          (polled : PollOpt Bytes (Error E)) → poll_field_chunk m ≡ value (polled, m') → Step m m'
      next_field :
          (n : NextField) (polled : Poll (Result (Option (FieldHeaders crates)) (Error E)))
          (n' : NextField)
          → poll_next_field crates n m ≡ value (polled, n', m')
          → Step m m'

    pub data Reach (m : Multipart E) : Multipart E → Type 0 where
      here : Reach m m
      further : {m' m'' : Multipart E} → Reach m m' → Step m' m'' → Reach m m''

    Step-InOrder :
        (boundary : Bytes) {m m' : Multipart E}
        → Step m m'
        → InOrder boundary m
        → InOrder boundary m'
    Step-InOrder boundary {m} (has_next polled e) inv =
        rw e at (poll_has_next_field-InOrder boundary m inv)
    Step-InOrder boundary {m} (field_headers polled e) inv =
        rw e at (poll_field_headers-InOrder boundary m inv)
    Step-InOrder boundary {m} (field_chunk polled e) inv =
        rw e at (poll_field_chunk-InOrder boundary m inv)
    Step-InOrder boundary {m} (next_field n polled n' e) inv =
        rw e at (poll_next_field-InOrder boundary n m inv)

    Reach-InOrder :
        (boundary : Bytes) {m m' : Multipart E}
        → InOrder boundary m
        → Reach m m'
        → InOrder boundary m'
    Reach-InOrder boundary inv here = inv
    Reach-InOrder boundary inv (further r s) =
        Step-InOrder boundary s (Reach-InOrder boundary inv r)

    -- No poll of `m` panics or loops.
    pub record NeverPanics (m : Multipart E) : Type 0 where
      pub has_next : IsValue (poll_has_next_field m)
      pub field_headers : IsValue (poll_field_headers crates m)
      pub field_chunk : IsValue (poll_field_chunk m)
      pub next_field : (n : NextField) → IsValue (poll_next_field crates n m)

    -- Whatever a client sends, in whatever chunks and with whatever pauses and errors of the transport, and
    -- in whatever order a server polls for fields, headers and data, also after an error: no poll of a
    -- `Multipart` that `with_body` made panics or loops.
    pub Reach-NeverPanics :
        (events : List (Event E)) (boundary : Bytes) (m : Multipart E)
        → Reach (with_body events boundary) m
        → NeverPanics m
    Reach-NeverPanics events boundary m reached =
        let inv = Reach-InOrder (dashes ++ boundary) (with_body-InOrder events boundary) reached in
        record {
          has_next =
              Returns-map (λ _ _. tt) (poll_has_next_field m)
                (poll_has_next_field-InOrder (dashes ++ boundary) m inv);
          field_headers =
              Returns-map (λ _ _. tt) (poll_field_headers crates m)
                (poll_field_headers-InOrder (dashes ++ boundary) m inv);
          field_chunk =
              Returns-map (λ _ _. tt) (poll_field_chunk m)
                (poll_field_chunk-InOrder (dashes ++ boundary) m inv);
          next_field = λ n.
              Returns-map (λ _ _. tt) (poll_next_field crates n m)
                (poll_next_field-InOrder (dashes ++ boundary) n m inv);
        }
