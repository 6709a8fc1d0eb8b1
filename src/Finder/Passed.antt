-- ===== src/Finder/Passed.antt =====
-- What `consume_boundary` promises, and the confirmation of a boundary behind its loop.
use multipart_async.Base.{
  suc, ◌≤◌, ◌+◌, ◌-◌, ◌<◌, ◌≡◌, ◌⊎◌, inl, inr, refl, sym, ap, ◌∙◌, Bool, true, false, List, [], ◌∷◌,
  ◌++◌, Bytes, length, take, drop, Outcome, value, panic, out_of_fuel, arith, append_assoc,
  Bool-cases, length-take, take-append-drop, length-append, take-append_right,
}
use multipart_async.Stream.{Poll, ready, pending, Result, ok, err, Event, Error}
use multipart_async.Search.{Twoway, crlf, starts_with, check_last_two}
use multipart_async.Search.Slices.{starts_with-take}
use multipart_async.Search.Zero.{IsBoundary}
use multipart_async.Finder.{
  State, watching, partial, found, split, remainder, end, Finder, confirm_in,
}
use multipart_async.Finder.Spec.{
  supply, payload, held, total, IsWhole, AtEnd, IsBodyError, StateInv, Inv,
}
use multipart_async.Finder.Confirm.{next_state, confirm_boundary-eq, confirm_boundary_split-eq}

held-next_state : (rem : Bytes) → held (next_state rem) ≡ rem
held-next_state [] = refl
held-next_state (x ∷ rem) = refl

-- What `consume_boundary` passed over on the way to the next field: the rest of the current one, a
-- newline or none, and the boundary with the two bytes behind it.
pub record Passed (boundary bytes rest : Bytes) : Type 0 where
  pub skipped : Bytes
  pub gap : Bytes
  pub newline : (gap ≡ []) ⊎ (gap ≡ crlf)
  pub delim : Bytes
  pub starts : starts_with delim boundary ≡ true
  pub size : length delim ≡ length boundary + 2
  pub splits : bytes ≡ skipped ++ (gap ++ (delim ++ rest))

-- What the confirmation of a boundary leaves of `bytes`.
pub record Delimited (boundary bytes rest : Bytes) : Type 0 where
  pub delim : Bytes
  pub starts : starts_with delim boundary ≡ true
  pub size : length delim ≡ length boundary + 2
  pub splits : bytes ≡ delim ++ rest

next_state-StateInv : ⦃tw : Twoway⦄ (boundary rem : Bytes) → StateInv boundary (next_state rem)
next_state-StateInv boundary [] = tt
next_state-StateInv boundary (x ∷ rem) = tt

split-Delimited :
    (boundary first second rest : Bytes)
    → length first < length boundary + 2
    → IsWhole boundary (first ++ second)
    → let size = length boundary + 2 - length first in
      Delimited boundary ((first ++ second) ++ rest) (drop size second ++ rest)
split-Delimited boundary first second rest lt whole =
    let size = length boundary + 2 - length first in
    let both = take-append_right (length boundary + 2) first second (omega arith) in
    record {
      delim = first ++ take size second;
      starts = rw (← both) (
          starts_with-take (length boundary + 2) (first ++ second) boundary whole.starts
            (omega arith));
      size = omega (
        arith,
        length-append first (take size second),
        length-take size second,
        whole.long,
        length-append first second,
      );
      splits =
          ap (λ x. (first ++ x) ++ rest) (sym (take-append-drop size second)) ∙ simp append_assoc;
    }

module _ ⦃tw : Twoway⦄ {E : Type 0} where
  abbrev pub Answer : Bytes → Finder E → Result Bool (Error E) → Finder E → Type 0
  Answer boundary f (ok true) f' = Passed boundary (total f) (total f')
  Answer boundary f (ok false) f' = f'.state ≡ end
  Answer boundary f (err e) f' = IsBodyError e

  abbrev pub ConsumeSpec :
      Bytes → Finder E → Outcome (Poll (Result Bool (Error E)) × Finder E) → Type 0
  ConsumeSpec boundary f (value (pending, f')) =
      Inv boundary f'
      × (suc (supply f') ≤ supply f)
      × (skipped : Bytes) × (gap : Bytes) × ((gap ≡ []) ⊎ (gap ≡ crlf))
      × (total f ≡ skipped ++ (gap ++ total f'))
  ConsumeSpec boundary f (value (ready answer, f')) = Inv boundary f' × Answer boundary f answer f'
  ConsumeSpec boundary f (panic p) = ⊥
  ConsumeSpec boundary f out_of_fuel = ⊥

  abbrev pub Confirms : Bytes → Bytes → Outcome (Poll (Result Bool (Error E)) × Finder E) → Type 0
  Confirms boundary bytes (value (ready (ok true), f')) =
      Inv boundary f' × Delimited boundary bytes (total f')
  Confirms boundary bytes (value (ready (ok false), f')) = Inv boundary f' × (f'.state ≡ end)
  Confirms boundary bytes _ = ⊥

  confirm_in-found :
      (bnd : Bytes) (events : List (Event E)) (boundary : Bytes)
      → IsBoundary boundary
      → IsWhole boundary bnd
      → let f : Finder E = record { stream = events; state = watching; boundary = boundary } in
        Confirms boundary (bnd ++ payload events) (confirm_in (found bnd) f)
  unfolding confirm_in
  confirm_in-found bnd events boundary good whole =
      let f : Finder E = record { stream = events; state = watching; boundary = boundary } in
      let size = length boundary + 2 in
      rw (confirm_boundary-eq f bnd good whole)
        (elim (Bool-cases (check_last_two (take size bnd))) [
          | inl last ↦
              rw last (record { same_boundary = refl; good_boundary = good; good_state = tt }, refl)
          | inr more ↦ rw more (
            record {
              same_boundary = refl;
              good_boundary = good;
              good_state = next_state-StateInv boundary (drop size bnd);
            },
            record {
              delim = take size bnd;
              starts = starts_with-take size bnd boundary whole.starts (omega arith);
              size = omega (arith, length-take size bnd, whole.long);
              splits =
                  ap (λ x. x ++ payload events) (sym (take-append-drop size bnd))
                  ∙ append_assoc (take size bnd) (drop size bnd) (payload events)
                  ∙ ap (λ x. take size bnd ++ (x ++ payload events))
                      (sym (held-next_state (drop size bnd)));
            },
          )
        ])

  confirm_in-split :
      (first second : Bytes) (events : List (Event E)) (boundary : Bytes)
      → IsBoundary boundary
      → length first < length boundary + 2
      → IsWhole boundary (first ++ second)
      → let f : Finder E = record { stream = events; state = watching; boundary = boundary } in
        Confirms boundary ((first ++ second) ++ payload events) (confirm_in (split first second) f)
  unfolding confirm_in
  confirm_in-split first second events boundary good lt whole =
      let f : Finder E = record { stream = events; state = watching; boundary = boundary } in
      let size = length boundary + 2 - length first in
      rw (confirm_boundary_split-eq f first second good (omega arith) whole)
        (elim (Bool-cases (check_last_two (take size second))) [
          | inl last ↦
              rw last (record { same_boundary = refl; good_boundary = good; good_state = tt }, refl)
          | inr more ↦ rw more (
            record { same_boundary = refl; good_boundary = good; good_state = tt },
            split-Delimited boundary first second (payload events) lt whole,
          )
        ])

  pub confirm_in-Confirms :
      (s : State) (events : List (Event E)) (boundary : Bytes)
      → IsBoundary boundary
      → StateInv boundary s
      → AtEnd s
      → let f : Finder E = record { stream = events; state = watching; boundary = boundary } in
        Confirms boundary (held s ++ payload events) (confirm_in s f)
  confirm_in-Confirms (found bnd) events boundary good inv h =
      confirm_in-found bnd events boundary good inv
  confirm_in-Confirms (split first second) events boundary good (lt, whole) h =
      confirm_in-split first second events boundary good lt whole
  confirm_in-Confirms end events boundary good inv h =
      unfold confirm_in in
      (record { same_boundary = refl; good_boundary = good; good_state = tt }, refl)
  confirm_in-Confirms watching events boundary good inv h = absurd h
  confirm_in-Confirms (partial p res) events boundary good inv h = absurd h
  confirm_in-Confirms (remainder rem) events boundary good inv h = absurd h

  pub ConsumeSpec-before :
      (boundary : Bytes) (f g : Finder E) (c : Bytes)
      (r : Outcome (Poll (Result Bool (Error E)) × Finder E))
      → total f ≡ c ++ total g
      → supply g ≤ supply f
      → ConsumeSpec boundary g r
      → ConsumeSpec boundary f r
  ConsumeSpec-before boundary f g c (value (pending, h)) e le
        (inv, fewer, skipped, gap, newline, bytes) =
      (
        inv,
        omega arith,
        c ++ skipped,
        gap,
        newline,
        e ∙ ap (λ x. c ++ x) bytes ∙ sym (append_assoc c skipped _),
      )
  ConsumeSpec-before boundary f g c (value (ready (ok true), h)) e le (inv, p) = (
    inv,
    record {
      skipped = c ++ p.skipped;
      gap = p.gap;
      newline = p.newline;
      delim = p.delim;
      starts = p.starts;
      size = p.size;
      splits = e ∙ ap (λ x. c ++ x) p.splits ∙ sym (append_assoc c p.skipped _);
    },
  )
  ConsumeSpec-before boundary f g c (value (ready (ok false), h)) e le r = r
  ConsumeSpec-before boundary f g c (value (ready (err x), h)) e le r = r
  ConsumeSpec-before boundary f g c (panic p) e le r = r
  ConsumeSpec-before boundary f g c out_of_fuel e le r = r

  pub confirmed-ConsumeSpec :
      (boundary : Bytes) (f g : Finder E) (gap : Bytes)
      (r : Outcome (Poll (Result Bool (Error E)) × Finder E))
      → (gap ≡ []) ⊎ (gap ≡ crlf)
      → total f ≡ gap ++ total g
      → Confirms boundary (total g) r
      → ConsumeSpec boundary f r
  confirmed-ConsumeSpec boundary f g gap (value (ready (ok true), h)) newline e (inv, d) = (
    inv,
    record {
      skipped = [];
      gap = gap;
      newline = newline;
      delim = d.delim;
      starts = d.starts;
      size = d.size;
      splits = e ∙ ap (λ x. gap ++ x) d.splits;
    },
  )
  confirmed-ConsumeSpec boundary f g gap (value (ready (ok false), h)) newline e r = r
  confirmed-ConsumeSpec boundary f g gap (value (ready (err x), h)) newline e r = absurd r
  confirmed-ConsumeSpec boundary f g gap (value (pending, h)) newline e r = absurd r
  confirmed-ConsumeSpec boundary f g gap (panic p) newline e r = absurd r
  confirmed-ConsumeSpec boundary f g gap out_of_fuel newline e r = absurd r
