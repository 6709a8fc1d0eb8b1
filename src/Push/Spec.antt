-- ===== src/Push/Spec.antt =====
-- What a poll of a `PushChunk` over a `BoundaryFinder` may do.
use multipart_async.Base.{
  ℕ, suc, ◌+◌, ◌≤◌, ◌≡◌, inl, refl, [], ◌++◌, Bytes, Option, none, some, Outcome, value, panic,
  out_of_fuel, ◌>>=◌, Returns, arith, is_empty, false,
}
use multipart_async.Stream.{ready, pending, ok, err, Error, PollOpt}
use multipart_async.Search.{Twoway}
use multipart_async.Finder.{
  State, watching, partial, found, split, remainder, end, Finder, body_chunk,
}
use multipart_async.Finder.Spec.{total, Gap, AtEnd, supply, IsBodyError, Inv, BodySpec}
use multipart_async.Finder.Body.{body_chunk-BodySpec, body_chunk-AtEnd}
use multipart_async.Push.{PushChunk, push_chunk, poll_stream, poll_next}

abbrev pub pushed_bytes : Option Bytes → Bytes
pushed_bytes none = []
pushed_bytes (some c) = c

abbrev pub pushed_count : Option Bytes → ℕ
pushed_count none = 0
pushed_count (some c) = 1

pub pushed_count-le : (o : Option Bytes) → pushed_count o ≤ 1
pushed_count-le none = omega arith
pushed_count-le (some c) = omega arith

pub Gap-nil : (s : State) → Gap s []
Gap-nil (found bnd) = inl refl
Gap-nil (split first second) = inl refl
Gap-nil watching = refl
Gap-nil (partial p res) = refl
Gap-nil (remainder rem) = refl
Gap-nil end = refl

module _ {E : Type 0} where
  -- What has still to come out of it, and in how many chunks at most.
  abbrev pub remaining : PushChunk E → Bytes
  remaining p = pushed_bytes p.pushed ++ total p.stream

  abbrev pub chunks_left : PushChunk E → ℕ
  chunks_left p = pushed_count p.pushed + supply p.stream

  -- `c` is taken off the front; behind it a newline may be cut off.
  pub record Drawn (p : PushChunk E) (c : Bytes) (p' : PushChunk E) : Type 0 where
    pub gap : Bytes
    pub only_newline : Gap p'.stream.state gap
    pub bytes : remaining p ≡ c ++ (gap ++ remaining p')

  module _ (p : PushChunk E) where
    abbrev pub Answers : PollOpt Bytes (Error E) → PushChunk E → Type 0
    Answers pending p' = Drawn p [] p' × (suc (chunks_left p') ≤ chunks_left p)
    Answers (ready none) p' = Drawn p [] p' × AtEnd p'.stream.state
    Answers (ready (some (ok c))) p' = Drawn p c p' × (suc (chunks_left p') ≤ chunks_left p)
    Answers (ready (some (err e))) p' = IsBodyError e

    abbrev pub PollSpec : ⦃tw : Twoway⦄ → Bytes → PollOpt Bytes (Error E) × PushChunk E → Type 0
    PollSpec boundary (polled, p') = Inv boundary p'.stream × (p'.pushed ≡ none) × Answers polled p'

  -- A chunk that is not empty can be handed back if no other is.
  pub push_chunk-value :
      (p : PushChunk E) (c : Bytes)
      → p.pushed ≡ none
      → is_empty c ≡ false
      → push_chunk p c ≡ value (record p { pushed = some c })
  unfolding push_chunk
  push_chunk-value p c unpushed some_byte = rw (unpushed, some_byte)

module _ ⦃tw : Twoway⦄ {E : Type 0} where
  from_finder :
      (boundary : Bytes) (p : PushChunk E) (r : Outcome (PollOpt Bytes (Error E) × Finder E))
      → p.pushed ≡ none
      → BodySpec boundary p.stream r
      → Returns (PollSpec p boundary) (r >>= λ (polled, f). value (polled, record p { stream = f }))
  from_finder boundary p (value (pending, f)) e (inv, (k, less)) = rw e (
    inv,
    refl,
    (record { gap = k.gap; only_newline = k.only_newline; bytes = k.bytes }, (omega arith)),
  )
  from_finder boundary p (value (ready none, f)) e (inv, (k, at_end)) =
      rw e (
        inv,
        refl,
        (record { gap = k.gap; only_newline = k.only_newline; bytes = k.bytes }, at_end),
      )
  from_finder boundary p (value (ready (some (ok c)), f)) e (inv, (k, less)) = rw e (
    inv,
    refl,
    (record { gap = k.gap; only_newline = k.only_newline; bytes = k.bytes }, (omega arith)),
  )
  from_finder boundary p (value (ready (some (err x)), f)) e (inv, bad) = rw e (inv, refl, bad)
  from_finder boundary p (panic x) e h = absurd h
  from_finder boundary p out_of_fuel e h = absurd h

  poll_stream-PollSpec :
      (boundary : Bytes) (o : Option Bytes) (p : PushChunk E)
      → p.pushed ≡ o
      → Inv boundary p.stream
      → Returns (PollSpec p boundary) (poll_stream o p)
  unfolding poll_stream
  poll_stream-PollSpec boundary (some c) p e inv = rw e (
    inv,
    refl,
    (record { gap = []; only_newline = Gap-nil p.stream.state; bytes = refl }, (omega arith)),
  )
  poll_stream-PollSpec boundary none p e inv =
      from_finder boundary p (body_chunk p.stream) e (body_chunk-BodySpec boundary p.stream inv)

  -- A poll of a `PushChunk` over a finder in order does not panic; it leaves the finder in order and no
  -- chunk handed back, and takes what it returns off the front of all that is to come.
  pub poll_next-PollSpec :
      (boundary : Bytes) (p : PushChunk E)
      → Inv boundary p.stream
      → Returns (PollSpec p boundary) (poll_next p)
  unfolding poll_next
  poll_next-PollSpec boundary p inv = poll_stream-PollSpec boundary p.pushed p refl inv

  -- At the end of a field a poll says so and changes nothing.
  pub poll_next-AtEnd :
      (p : PushChunk E)
      → p.pushed ≡ none
      → AtEnd p.stream.state
      → poll_next p ≡ value (ready none, p)
  unfolding poll_next
  poll_next-AtEnd p unpushed at_end = rw (unpushed, body_chunk-AtEnd p.stream at_end)
