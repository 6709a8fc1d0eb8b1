-- ===== src/Finder/Unpaused.antt =====
-- `body_chunk` over a stream with pauses, driven to its answer, and over the stream without them.
use multipart_async.Base.{
  ℕ, zero, suc, ◌≤◌, ◌<◌, ◌≡◌, refl, sym, ap, ◌∙◌, Bytes, Option, Outcome, value, panic,
  out_of_fuel, arith, Returns, IsValue, IsValue-value,
}
use multipart_async.Stream.{ready, pending, Result, Error, PollOpt}
use multipart_async.Search.{Twoway}
use multipart_async.Finder.{Finder, Round, return, again, round, after_round, body_loop, body_chunk}
use multipart_async.Finder.Spec.{supply, Inv, BodySpec}
use multipart_async.Finder.Body.{body_chunk-BodySpec}
use multipart_async.Finder.Skip.{skip}
use multipart_async.Finder.Pauses.{RoundSkips, round-RoundSkips}
use multipart_async.TestUtil.{until_ready}
use multipart_async.TestUtil.Driven.{Advances, until_ready-Returns}

module _ ⦃tw : Twoway⦄ {E : Type 0} where
  -- An answer is the same without the pauses; behind a pause the rest of the rounds are.
  abbrev LoopSkips : ℕ → Finder E → Outcome (PollOpt Bytes (Error E) × Finder E) → Type 0
  LoopSkips n f (value (pending, g)) =
      (m : ℕ) × (m ≤ n) × (body_loop n (skip f) ≡ body_loop m (skip g))
  LoopSkips n f (value (ready a, g)) = body_loop n (skip f) ≡ value (ready a, skip g)
  LoopSkips n f _ = Unit

  LoopSkips-again :
      (n : ℕ) (f g : Finder E) (o : Outcome (PollOpt Bytes (Error E) × Finder E))
      → body_loop (suc n) (skip f) ≡ body_loop n (skip g)
      → LoopSkips n g o
      → LoopSkips (suc n) f o
  LoopSkips-again n f g (value (pending, h)) e (m, le, same) = (m, omega (arith, le), e ∙ same)
  LoopSkips-again n f g (value (ready a, h)) e same = e ∙ same
  LoopSkips-again n f g (panic p) e same = tt
  LoopSkips-again n f g out_of_fuel e same = tt

  after_round-LoopSkips :
      (n : ℕ) (f : Finder E) (r : Outcome (Round E))
      → RoundSkips f r
      → ((g : Finder E) → LoopSkips n g (body_loop n g))
      → LoopSkips (suc n) f (after_round (body_loop n) r)
  unfolding body_loop after_round
  after_round-LoopSkips n f (value (return pending g)) h ih =
      (suc n, omega arith, ap (body_loop (suc n)) h)
  after_round-LoopSkips n f (value (return (ready a) g)) h ih = rw h refl
  after_round-LoopSkips n f (value (again g)) h ih =
      LoopSkips-again n f g (body_loop n g) (rw h refl) (ih g)
  after_round-LoopSkips n f (panic p) h ih = tt
  after_round-LoopSkips n f out_of_fuel h ih = tt

  body_loop-LoopSkips : (n : ℕ) (f : Finder E) → LoopSkips n f (body_loop n f)
  unfolding body_loop
  body_loop-LoopSkips zero f = tt
  body_loop-LoopSkips (suc n) f =
      after_round-LoopSkips n f (round f) (round-RoundSkips f) (λ g. body_loop-LoopSkips n g)

  -- More rounds do not change a result.
  after_round-more :
      (m n : ℕ) (r : Outcome (Round E)) {v : PollOpt Bytes (Error E) × Finder E}
      → ((g : Finder E) → body_loop m g ≡ value v → body_loop n g ≡ value v)
      → after_round (body_loop m) r ≡ value v
      → after_round (body_loop n) r ≡ value v
  unfolding after_round
  after_round-more m n (value (return polled g)) ih e = e
  after_round-more m n (value (again g)) ih e = ih g e
  after_round-more m n (panic p) ih e = cc
  after_round-more m n out_of_fuel ih e = cc

  body_loop-more :
      (m n : ℕ) (f : Finder E) {v : PollOpt Bytes (Error E) × Finder E}
      → m ≤ n
      → body_loop m f ≡ value v
      → body_loop n f ≡ value v
  unfolding body_loop
  body_loop-more zero n f le e = cc
  body_loop-more (suc m) zero f le e = absurd (omega (arith, le))
  body_loop-more (suc m) (suc n) f le e =
      after_round-more m n (round f) (λ g. body_loop-more m n g (omega (arith, le))) e

  skip-Inv : (boundary : Bytes) (f : Finder E) → Inv boundary f → Inv boundary (skip f)
  skip-Inv boundary f inv = record {
    same_boundary = inv.same_boundary;
    good_boundary = inv.good_boundary;
    good_state = inv.good_state;
  }

  BodySpec-IsValue :
      (boundary : Bytes) (f : Finder E) (r : Outcome (PollOpt Bytes (Error E) × Finder E))
      → BodySpec boundary f r
      → IsValue r
  BodySpec-IsValue boundary f (value v) h = tt
  BodySpec-IsValue boundary f (panic p) h = absurd h
  BodySpec-IsValue boundary f out_of_fuel h = absurd h

  pause_skipped :
      (boundary : Bytes) (f g : Finder E)
      → Inv boundary f
      → LoopSkips 4 f (value (pending, g))
      → body_chunk (skip f) ≡ body_chunk (skip g)
  unfolding body_chunk
  pause_skipped boundary f g inv (m, le, same) =
      let (v, e) = IsValue-value (body_chunk (skip f)) (
        BodySpec-IsValue boundary (skip f) (body_chunk (skip f))
          (body_chunk-BodySpec boundary (skip f) (skip-Inv boundary f inv))) in
      e ∙ sym (body_loop-more m 4 (skip g) le (sym same ∙ e))

  module _ (boundary : Bytes) (f : Finder E) where
    -- in order, and with the same to return without the pauses
    abbrev Same : Finder E → Type 0
    Same g = Inv boundary g × (body_chunk (skip f) ≡ body_chunk (skip g))

    abbrev Gives : Option (Result Bytes (Error E)) → Finder E → Type 0
    Gives a g = body_chunk (skip f) ≡ value (ready a, skip g)

    body_chunk-Advances :
        (g : Finder E) (r : Outcome (PollOpt Bytes (Error E) × Finder E))
        → Same g
        → BodySpec boundary g r
        → LoopSkips 4 g r
        → Returns (Advances Same supply Gives g) r
    unfolding body_chunk
    body_chunk-Advances g (value (pending, h)) (inv, same) (inv', (_, less)) skips =
        ((inv', same ∙ pause_skipped boundary g h inv skips), less)
    body_chunk-Advances g (value (ready a, h)) (inv, same) spec skips = same ∙ skips
    body_chunk-Advances g (panic p) same spec skips = absurd spec
    body_chunk-Advances g out_of_fuel same spec skips = absurd spec

    -- From a finder in order, `body_chunk` that is polled until it is ready, more often than the stream can
    -- give chunks, returns what a single call returns over the same stream without its pauses, and leaves
    -- the same finder but for the pauses that are still to come.
    pub until_ready-skip :
        (fuel : ℕ)
        → Inv boundary f
        → supply f < fuel
        → Returns
            (λ (a, g). body_chunk (skip f) ≡ value (ready a, skip g))
            (until_ready fuel body_chunk f)
    unfolding body_chunk
    until_ready-skip fuel inv enough =
        until_ready-Returns Same supply Gives body_chunk
          (λ g same.
            body_chunk-Advances g (body_chunk g) same (body_chunk-BodySpec boundary g same.0)
              (body_loop-LoopSkips 4 g))
          fuel f (inv, refl) enough
