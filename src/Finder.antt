-- ===== src/Finder.antt =====
-- src/server/boundary.rs: `State`, `BoundaryFinder` and its methods that change state.
--
-- A method takes the finder and gives it back beside its result. The source replaces the state by
-- `Watching` before each round (`mem::replace`); the rounds below do the same. Every slice,
-- `split_into`, subtraction, `unreachable!` and `debug_assert!` that could panic is an `Outcome`.
pub mod Spec
pub mod Checked
pub mod Second
pub mod Rounds
pub mod Body
pub mod Confirm
pub mod Confirmed
pub mod ConfirmedSplit
pub mod Passed
pub mod Consume
pub mod Missed
pub mod Sized
pub mod Bounded
pub mod Whole
pub mod Walk
pub mod Skip
pub mod Pauses
pub mod Unpaused
pub mod Given
pub mod Fed
pub mod Begun
use multipart_async.Base.{
  ℕ, zero, suc, ◌+◌, ◌-◌, ◌*◌, Bool, true, false, not, List, Bytes, length, is_empty, Option, none,
  some, ltb, if◌then◌else◌, Outcome, value, panic, out_of_fuel, ◌>>=◌, ◌>>◌, assert, checked_sub,
  slice_from, unreachable,
}
use multipart_async.Chunk.{slice_chunk}
use multipart_async.Stream.{
  Poll, ready, pending, Result, ok, err, Event, Error, stream_error, parsing, unable_to_verify,
  needed_more, boundary_too_short, split_boundary_too_short, PollOpt, poll_events,
}
use multipart_async.Search.{
  Twoway, SearchResult, crlf, boundary_start, boundary_size, check_last_two, is_boundary_prefix,
  check_boundary, check_boundary_split, find_boundary, starts_with,
}

-- `enum State`
pub data State : Type 0 where
  watching : State
  partial : Bytes → SearchResult → State
  found : Bytes → State
  split : Bytes → Bytes → State
  remainder : Bytes → State
  end : State

-- `struct BoundaryFinder`
pub record Finder (E : Type 0) : Type 0 where
  pub stream : List (Event E)
  pub state : State
  pub boundary : Bytes

-- What one round of the loop in `body_chunk` comes to: a return of the method, or another round.
pub data Round (E : Type 0) : Type 0 where
  return : PollOpt Bytes (Error E) → Finder E → Round E
  again : Finder E → Round E

-- cuts off the CRLF in front of the boundary
pub trim_crlf : Bool → Bytes → Outcome Bytes
trim_crlf true bnd = do (_, rest) ← slice_chunk.split_into bnd 2; value rest
trim_crlf false bnd = value bnd

-- the second half of the condition `is_boundary` of `body_chunk`
is_split_boundary : Bytes → Bytes → Bytes → ℕ → Outcome Bool
is_split_boundary boundary first second bnd_start = do
  head ← slice_from first bnd_start
  value (check_boundary_split boundary head second)

-- the condition `is_boundary` of `body_chunk`; `||` looks at its right side only if it has to
is_boundary : Bytes → Bytes → Bytes → ℕ → Outcome Bool
unfolding is_split_boundary
is_boundary boundary first second bnd_start =
    if ltb (length first) bnd_start
    then (do
      tail ← slice_from second (bnd_start - length first)
      if check_boundary boundary tail
          then value true
          else is_split_boundary boundary first second bnd_start)
    else is_split_boundary boundary first second bnd_start

-- what is returned of `partial`, and the new state, once the boundary is confirmed
cut_boundary : Bytes → Bytes → SearchResult → ℕ → Outcome (Bytes × State)
cut_boundary first second res bnd_start =
    if res.incl_crlf
    then if ltb (length first) bnd_start
      then (do
        (_, bnd) ← slice_chunk.split_into second (bnd_start - length first)
        (ret, _) ← slice_chunk.split_into first res.idx
        value (ret, found bnd))
      else (do
        (ret, rem) ← slice_chunk.split_into first res.idx
        (_, head) ← slice_chunk.split_into rem 2
        value (ret, split head second))
    else do (ret, head) ← slice_chunk.split_into first res.idx; value (ret, split head second)

module _ {E : Type 0} where
  -- `BoundaryFinder::new`
  unfoldable pub new : List (Event E) → Bytes → Finder E
  new stream boundary = record { stream = stream; state = watching; boundary = boundary }

  abbrev pub set_state : Finder E → State → Finder E
  set_state f s = record f { state = s }

  abbrev pub some_ok : Bytes → PollOpt Bytes (Error E)
  some_ok c = ready (some (ok c))

  abbrev pub some_err : Error E → PollOpt Bytes (Error E)
  some_err e = ready (some (err e))

  -- the branch of `check_chunk` with a boundary that may be whole
  pub check_found : Finder E → Bytes → SearchResult → Outcome (Option Bytes × Finder E)
  unfolding trim_crlf
  check_found f chunk res =
      if ltb (length chunk) (res.idx + boundary_size f.boundary res.incl_crlf)
      then value (none, set_state f (partial chunk res))
      else do
        (ret, bnd) ← slice_chunk.split_into chunk res.idx
        bnd' ← trim_crlf res.incl_crlf bnd
        value (if is_empty ret then none else some ret, set_state f (found bnd'))

  -- the arm `Partial` of `body_chunk`, once the second chunk is long enough
  pub confirm_second : Finder E → Bytes → SearchResult → Bytes → Outcome (Round E)
  unfolding is_boundary cut_boundary
  confirm_second f first res second = do
    confirmed ← is_boundary f.boundary first second (boundary_start res)
    if not confirmed then value (return (some_ok first) (set_state f (remainder second))) else do
      (ret, s) ← cut_boundary first second res (boundary_start res)
      value (return (if is_empty ret then ready none else some_ok ret) (set_state f s))

  -- the arm `Partial` of `body_chunk`, once the second chunk is there
  pub second_chunk : Finder E → Bytes → SearchResult → Bytes → Outcome (Round E)
  unfolding confirm_second
  second_chunk f first res second =
      let needed_len = boundary_size f.boundary res.incl_crlf - length first in
      if not (is_boundary_prefix f.boundary first second res)
      then value (return (some_ok first) (set_state f (remainder second)))
      else if ltb (length second) needed_len
      then value (return (some_err (parsing (needed_more needed_len (length second)))) f)
      else confirm_second f first res second

  -- the arm `Partial` of `body_chunk`, from the poll of the stream on
  poll_partial : Finder E → Bytes → SearchResult → PollOpt Bytes E → Outcome (Round E)
  unfolding second_chunk
  poll_partial f first res (ready (some (ok second))) = second_chunk f first res second
  poll_partial f first res (ready (some (err e))) = value (return (some_err (stream_error e)) f)
  poll_partial f first res (ready none) =
      value (return (some_err (parsing (unable_to_verify f.boundary first))) (set_state f end))
  poll_partial f first res pending = value (return pending (set_state f (partial first res)))

module _ ⦃tw : Twoway⦄ {E : Type 0} where
  -- `BoundaryFinder::check_chunk`
  pub check_chunk : Finder E → Bytes → Outcome (Option Bytes × Finder E)
  unfolding check_found
  check_chunk f chunk =
      if is_empty chunk then value (none, f) else elim (find_boundary f.boundary chunk) [
        | some res ↦ check_found f chunk res
        | none ↦ value (some chunk, f)
      ]

  -- `if let Some(chunk) = self.check_chunk(chunk) { return ready_ok(chunk) }`
  pub return_checked : Finder E → Bytes → Outcome (Round E)
  unfolding check_chunk
  return_checked f chunk = do
    (ret, f') ← check_chunk f chunk
    value (elim ret [ some c ↦ return (some_ok c) f' | none ↦ again f' ])

  -- the arm `Watching` of `body_chunk`, from the poll of the stream on
  poll_watching : Finder E → PollOpt Bytes E → Outcome (Round E)
  unfolding return_checked
  poll_watching f (ready (some (ok chunk))) =
      if is_empty chunk then value (return (some_ok chunk) f) else return_checked f chunk
  poll_watching f (ready (some (err e))) = value (return (some_err (stream_error e)) f)
  poll_watching f (ready none) = value (return (ready none) (set_state f end))
  poll_watching f pending = value (return pending f)

  -- one round of the loop in `body_chunk`; `f` is the finder with its state replaced by `Watching`
  round_in : State → Finder E → Outcome (Round E)
  unfolding poll_watching poll_partial return_checked
  round_in (found bnd) f = value (return (ready none) (set_state f (found bnd)))
  round_in (split first second) f = value (return (ready none) (set_state f (split first second)))
  round_in end f = value (return (ready none) (set_state f end))
  round_in watching f =
      let (polled, events) = poll_events f.stream in
      poll_watching (record f { stream = events }) polled
  round_in (remainder rem) f = return_checked f rem
  round_in (partial first res) f =
      let (polled, events) = poll_events f.stream in
      poll_partial (record f { stream = events }) first res polled

  pub round : Finder E → Outcome (Round E)
  unfolding round_in
  round f = round_in f.state (set_state f watching)

  -- what follows a round of the loop in `body_chunk`
  after_round :
      (Finder E → Outcome (PollOpt Bytes (Error E) × Finder E))
      → Outcome (Round E)
      → Outcome (PollOpt Bytes (Error E) × Finder E)
  after_round loop (value (return polled f)) = value (polled, f)
  after_round loop (value (again f)) = loop f
  after_round loop (panic p) = panic p
  after_round loop out_of_fuel = out_of_fuel

  -- the loop of `body_chunk`, cut off after as many rounds as there is fuel
  pub body_loop : ℕ → Finder E → Outcome (PollOpt Bytes (Error E) × Finder E)
  unfolding round after_round
  body_loop zero f = out_of_fuel
  body_loop (suc fuel) f = after_round (body_loop fuel) (round f)

  -- `BoundaryFinder::body_chunk`: no call makes more than four rounds.
  unfoldable pub body_chunk : Finder E → Outcome (PollOpt Bytes (Error E) × Finder E)
  unfolding body_loop
  body_chunk = body_loop 4

module _ {E : Type 0} where
  -- `confirm_boundary`
  pub confirm_boundary : Finder E → Bytes → Outcome (Poll (Result Bool (Error E)) × Finder E)
  confirm_boundary f bnd =
      if ltb (length bnd) (boundary_size f.boundary false)
      then value (ready (err (parsing (boundary_too_short bnd))), f)
      else do
        (boundary, rem) ← slice_chunk.split_into bnd (boundary_size f.boundary false)
        assert (not (starts_with boundary crlf))
        assert (check_boundary f.boundary boundary)
        let is_end = check_last_two boundary
        let next = if is_empty rem then watching else remainder rem
        value (ready (ok (not is_end)), set_state f (if is_end then end else next))

  -- `confirm_boundary_split`
  pub confirm_boundary_split :
      Finder E → Bytes → Bytes → Outcome (Poll (Result Bool (Error E)) × Finder E)
  confirm_boundary_split f first second = do
    check_len ← checked_sub (boundary_size f.boundary false) (length first)
    if ltb (length second) check_len
        then value (ready (err (parsing (split_boundary_too_short first second))), f)
        else do
          (second', rem) ← slice_chunk.split_into second check_len
          assert (not (starts_with first crlf))
          assert (check_boundary_split f.boundary first second')
          let is_end = check_last_two second'
          value (ready (ok (not is_end)), set_state f (if is_end then end else remainder rem))

  -- what `consume_boundary` does behind its loop; `f` is the finder with its state replaced
  pub confirm_in : State → Finder E → Outcome (Poll (Result Bool (Error E)) × Finder E)
  unfolding confirm_boundary confirm_boundary_split
  confirm_in (found bnd) f = confirm_boundary f bnd
  confirm_in (split first second) f = confirm_boundary_split f first second
  confirm_in end f = value (ready (ok false), set_state f end)
  confirm_in watching f = panic unreachable
  confirm_in (partial _ _) f = panic unreachable
  confirm_in (remainder _) f = panic unreachable

module _ ⦃tw : Twoway⦄ {E : Type 0} where
  -- what follows a call of `body_chunk` in `while ready!(self.body_chunk(cx)?).is_some() {}`
  pub after_body :
      (Finder E → Outcome (Poll (Result Bool (Error E)) × Finder E))
      → Outcome (PollOpt Bytes (Error E) × Finder E)
      → Outcome (Poll (Result Bool (Error E)) × Finder E)
  unfolding confirm_in
  after_body loop (value (pending, f)) = value (pending, f)
  after_body loop (value (ready (some (err e)), f)) = value (ready (err e), f)
  after_body loop (value (ready (some (ok c)), f)) = loop f
  after_body loop (value (ready none, f)) = confirm_in f.state (set_state f watching)
  after_body loop (panic p) = panic p
  after_body loop out_of_fuel = out_of_fuel

  -- the loop of `consume_boundary` and what follows it, cut off after as many calls as there is fuel
  pub consume_loop : ℕ → Finder E → Outcome (Poll (Result Bool (Error E)) × Finder E)
  unfolding body_chunk after_body
  consume_loop zero f = out_of_fuel
  consume_loop (suc fuel) f = after_body (consume_loop fuel) (body_chunk f)

  -- More than the chunks that the loop can still draw from the stream and the state.
  abbrev pub consume_fuel : Finder E → ℕ
  consume_fuel f = 2 * length f.stream + 2

  -- `BoundaryFinder::consume_boundary`
  unfoldable pub consume_boundary : Finder E → Outcome (Poll (Result Bool (Error E)) × Finder E)
  unfolding consume_loop
  consume_boundary f = consume_loop (consume_fuel f) f
