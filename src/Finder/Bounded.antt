-- ===== src/Finder/Bounded.antt =====
-- How long the pieces are that a finder holds behind `consume_boundary`.
use multipart_async.Base.{
  ℕ, zero, suc, ◌+◌, ◌-◌, ◌≤◌, ◌<◌, Bool, [], ◌∷◌, ◌++◌, Bytes, length, take, drop, none, some,
  Outcome, value, panic, out_of_fuel, arith, length-drop, Bool-cases, inl, inr,
}
use multipart_async.Stream.{Poll, ready, pending, Result, ok, err, Error, PollOpt}
use multipart_async.Search.{Twoway, check_last_two}
use multipart_async.Search.Zero.{IsBoundary}
use multipart_async.Finder.{
  State, watching, partial, found, split, remainder, end, Finder, set_state, confirm_in, after_body,
  body_chunk, consume_loop, consume_boundary, consume_fuel,
}
use multipart_async.Finder.Spec.{IsWhole, StateInv, Inv, BodySpec}
use multipart_async.Finder.Body.{body_chunk-BodySpec}
use multipart_async.Finder.Confirm.{next_state, confirm_boundary-eq, confirm_boundary_split-eq}
use multipart_async.Finder.Sized.{
  StreamSized, StateSized, AllSized, BodySized, body_chunk-BodySized,
}

next_state-StateSized : (n : ℕ) (rem : Bytes) → length rem ≤ n → StateSized n (next_state rem)
next_state-StateSized n [] le = tt
next_state-StateSized n (x ∷ rem) le = le

module _ {E : Type 0} where
  abbrev pub ConsumeSized : ℕ → Outcome (Poll (Result Bool (Error E)) × Finder E) → Type 0
  ConsumeSized n (value (polled, f)) = AllSized n f
  ConsumeSized n _ = Unit

module _ ⦃tw : Twoway⦄ {E : Type 0} (n : ℕ) where
  confirm_found-Sized :
      (f : Finder E) (bnd : Bytes)
      → IsBoundary f.boundary
      → IsWhole f.boundary bnd
      → StreamSized n f.stream
      → length bnd ≤ n
      → ConsumeSized n (confirm_in (found bnd) f)
  unfolding confirm_in
  confirm_found-Sized f bnd good whole stream le =
      let size = length f.boundary + 2 in
      rw (confirm_boundary-eq f bnd good whole)
        (elim (Bool-cases (check_last_two (take size bnd))) [
          | inl last ↦ rw last (stream, tt)
          | inr more ↦ rw more (
            stream,
            next_state-StateSized n (drop size bnd) (omega (arith, length-drop size bnd)),
          )
        ])

  confirm_split-Sized :
      (f : Finder E) (first second : Bytes)
      → IsBoundary f.boundary
      → length first < length f.boundary + 2
      → IsWhole f.boundary (first ++ second)
      → StreamSized n f.stream
      → length second ≤ n
      → ConsumeSized n (confirm_in (split first second) f)
  unfolding confirm_in
  confirm_split-Sized f first second good lt whole stream le =
      let size = length f.boundary + 2 - length first in
      rw (confirm_boundary_split-eq f first second good (omega arith) whole)
        (elim (Bool-cases (check_last_two (take size second))) [
          | inl last ↦ rw last (stream, tt)
          | inr more ↦ rw more (stream, omega (arith, length-drop size second))
        ])

  confirm_in-Sized :
      (s : State) (f : Finder E)
      → IsBoundary f.boundary
      → StateInv f.boundary s
      → StreamSized n f.stream
      → StateSized n s
      → ConsumeSized n (confirm_in s f)
  confirm_in-Sized (found bnd) f good inv stream state =
      confirm_found-Sized f bnd good inv stream state
  confirm_in-Sized (split first second) f good (lt, whole) stream (one, two) =
      confirm_split-Sized f first second good lt whole stream two
  confirm_in-Sized end f good inv stream state = unfold confirm_in in (stream, tt)
  confirm_in-Sized watching f good inv stream state = unfold confirm_in in tt
  confirm_in-Sized (partial p res) f good inv stream state = unfold confirm_in in tt
  confirm_in-Sized (remainder rem) f good inv stream state = unfold confirm_in in tt

  after_body-Sized :
      (boundary : Bytes) (f : Finder E)
      (loop : Finder E → Outcome (Poll (Result Bool (Error E)) × Finder E))
      (r : Outcome (PollOpt Bytes (Error E) × Finder E))
      → BodySpec boundary f r
      → BodySized n r
      → ((g : Finder E) → Inv boundary g → AllSized n g → ConsumeSized n (loop g))
      → ConsumeSized n (after_body loop r)
  unfolding after_body
  after_body-Sized boundary f loop (value (pending, g)) h (sized, _) ih = sized
  after_body-Sized boundary f loop (value (ready none, g)) (inv, _) ((stream, state), _) ih =
      confirm_in-Sized g.state (set_state g watching) (rw inv.same_boundary inv.good_boundary)
        (rw inv.same_boundary inv.good_state) stream state
  after_body-Sized boundary f loop (value (ready (some (ok c)), g)) (inv, _) (sized, _) ih =
      ih g inv sized
  after_body-Sized boundary f loop (value (ready (some (err e)), g)) h (sized, _) ih = sized
  after_body-Sized boundary f loop (panic p) h sized ih = tt
  after_body-Sized boundary f loop out_of_fuel h sized ih = tt

  consume_loop-Sized :
      (fuel : ℕ) (boundary : Bytes) (f : Finder E)
      → Inv boundary f
      → AllSized n f
      → ConsumeSized n (consume_loop fuel f)
  unfolding consume_loop
  consume_loop-Sized zero boundary f inv sized = tt
  consume_loop-Sized (suc fuel) boundary f inv sized =
      after_body-Sized boundary f (consume_loop fuel) (body_chunk f)
        (body_chunk-BodySpec boundary f inv) (body_chunk-BodySized n boundary f inv sized)
        (λ g. consume_loop-Sized fuel boundary g)

  pub consume_boundary-ConsumeSized :
      (boundary : Bytes) (f : Finder E)
      → Inv boundary f
      → AllSized n f
      → ConsumeSized n (consume_boundary f)
  unfolding consume_boundary
  consume_boundary-ConsumeSized boundary f inv sized =
      consume_loop-Sized (consume_fuel f) boundary f inv sized
