-- ===== src/Finder/Spec.antt =====
-- The invariant of a `BoundaryFinder`, and what a round of its loop may do to the bytes in its care.
use multipart_async.Base.{
  ℕ, suc, ◌+◌, ◌-◌, ◌*◌, ◌≤◌, ◌<◌, ◌≡◌, ◌⊎◌, inl, true, List, [], ◌∷◌, ◌++◌, Bytes, length, none,
  some, Outcome, value, panic, out_of_fuel,
}
use multipart_async.Stream.{
  ready, pending, ok, err, Event, not_ready, chunk, failed, Error, stream_error, parsing,
  unable_to_verify, needed_more, PollOpt,
}
use multipart_async.Search.{Twoway, crlf, starts_with, boundary_size, find_boundary}
use multipart_async.Search.Zero.{IsBoundary}
use multipart_async.Finder.{
  State, watching, partial, found, split, remainder, end, Finder, Round, return, again,
}

-- The bytes of the chunks that a stream still has to give.
abbrev pub payload : {E : Type 0} → List (Event E) → Bytes
payload [] = []
payload (not_ready ∷ events) = payload events
payload (chunk c ∷ events) = c ++ payload events
payload (failed e ∷ events) = payload events

-- The bytes that a state holds back.
abbrev pub held : State → Bytes
held watching = []
held (partial p res) = p
held (found bnd) = bnd
held (split first second) = first ++ second
held (remainder rem) = rem
held end = []

-- What has still to come out of a finder.
abbrev pub total : {E : Type 0} → Finder E → Bytes
total f = held f.state ++ payload f.stream

-- A boundary with the two bytes behind it.
pub record IsWhole (boundary bytes : Bytes) : Type 0 where
  pub starts : starts_with bytes boundary ≡ true
  pub long : length boundary + 2 ≤ length bytes

-- The newline that was cut off before a boundary, if there was one. No other state drops a byte.
abbrev pub Gap : State → Bytes → Type 0
Gap (found bnd) gap = (gap ≡ []) ⊎ (gap ≡ crlf)
Gap (split first second) gap = (gap ≡ []) ⊎ (gap ≡ crlf)
Gap _ gap = gap ≡ []

pub Gap-newline : (s : State) (gap : Bytes) → Gap s gap → (gap ≡ []) ⊎ (gap ≡ crlf)
Gap-newline (found bnd) gap h = h
Gap-newline (split first second) gap h = h
Gap-newline watching gap h = inl h
Gap-newline (partial p res) gap h = inl h
Gap-newline (remainder rem) gap h = inl h
Gap-newline end gap h = inl h

-- The states in which a field has ended.
abbrev pub AtEnd : State → Type 0
AtEnd (found bnd) = Unit
AtEnd (split first second) = Unit
AtEnd end = Unit
AtEnd _ = ⊥

-- How many rounds the loop may still make.
abbrev pub rank : State → ℕ
rank (remainder rem) = 3
rank watching = 2
rank _ = 1

-- How many chunks `body_chunk` may still return.
abbrev pub supply : {E : Type 0} → Finder E → ℕ
supply f = 2 * length f.stream + (rank f.state - 2)

-- The errors of `body_chunk`.
abbrev pub IsBodyError : {E : Type 0} → Error E → Type 0
IsBodyError (stream_error e) = Unit
IsBodyError (parsing (unable_to_verify b p)) = Unit
IsBodyError (parsing (needed_more n len)) = len < n
IsBodyError _ = ⊥

module _ {E : Type 0} where
  -- Nothing is lost: what was to come out of `f` is `yielded`, then the newline that is cut off,
  -- then what is to come out of `f'`.
  pub record Kept (f : Finder E) (yielded : Bytes) (f' : Finder E) : Type 0 where
    pub gap : Bytes
    pub only_newline : Gap f'.state gap
    pub bytes : total f ≡ yielded ++ (gap ++ total f')

module _ ⦃tw : Twoway⦄ where
  abbrev pub StateInv : Bytes → State → Type 0
  StateInv boundary (partial p res) =
      (find_boundary boundary p ≡ some res)
      × (length p < res.idx + boundary_size boundary res.incl_crlf)
  StateInv boundary (found bnd) = IsWhole boundary bnd
  StateInv boundary (split first second) =
      (length first < length boundary + 2) × IsWhole boundary (first ++ second)
  StateInv boundary _ = Unit

  pub record Inv {E : Type 0} (boundary : Bytes) (f : Finder E) : Type 0 where
    pub same_boundary : f.boundary ≡ boundary
    pub good_boundary : IsBoundary boundary
    pub good_state : StateInv boundary f.state

  module _ {E : Type 0} (boundary : Bytes) (f : Finder E) where
    -- what `body_chunk` may return
    abbrev pub Returned : PollOpt Bytes (Error E) → Finder E → Type 0
    Returned pending f' = Kept f [] f' × (suc (supply f') ≤ supply f)
    Returned (ready none) f' = Kept f [] f' × AtEnd f'.state
    Returned (ready (some (ok c))) f' = Kept f c f' × (suc (supply f') ≤ supply f)
    Returned (ready (some (err e))) f' = IsBodyError e

    abbrev pub RoundSpec : Outcome (Round E) → Type 0
    RoundSpec (value (return polled f')) = Inv boundary f' × Returned polled f'
    RoundSpec (value (again f')) =
        Inv boundary f' × Kept f [] f' × (rank f'.state < rank f.state) × (supply f' ≤ supply f)
    RoundSpec (panic p) = ⊥
    RoundSpec out_of_fuel = ⊥

    abbrev pub BodySpec : Outcome (PollOpt Bytes (Error E) × Finder E) → Type 0
    BodySpec (value (polled, f')) = Inv boundary f' × Returned polled f'
    BodySpec (panic p) = ⊥
    BodySpec out_of_fuel = ⊥
