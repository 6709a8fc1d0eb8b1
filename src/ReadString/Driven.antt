-- ===== src/ReadString/Driven.antt =====
-- A `ReadToString` that is driven to its answer, against the check of all bytes at once.
use multipart_async.Base.{
  ℕ, zero, suc, ◌≤◌, ◌<◌, arith, ◌>>=◌, ◌≡◌, refl, sym, ◌∙◌, subst, false, [], ◌++◌, Bytes, List,
  length, Option, none, some, Outcome, value, panic, out_of_fuel, Returns, Returns-map,
}
use multipart_async.Stream.{
  Poll, ready, pending, Result, ok, err, Event, Error, parsing, utf8, stream_error,
}
use multipart_async.Finder.Spec.{payload}
use multipart_async.Text.{valid, invalid, check_utf8, Utf8Check}
use multipart_async.Text.Scan.{IsUtf8, IsUtf8-nil}
use multipart_async.ReadString.{ReadToString, TryStream, new, poll}
use multipart_async.ReadString.Spec.{Decoded}
use multipart_async.ReadString.Whole.{fails, ErrorSpec, Gives, TextSpec, poll-TextSpec}
use multipart_async.TestUtil.{until_ready, run_future_hot}

-- The string of a result, if there is one.
abbrev pub text_of : {X : Type 0} → Result Bytes X → Option Bytes
text_of (ok s) = some s
text_of (err e) = none

-- The bytes as a text, if they are one.
abbrev pub utf8_text : Bytes → Option Bytes
utf8_text bytes = elim (check_utf8 bytes) [ valid ↦ some bytes | invalid up_to len ↦ none ]

utf8_text-valid : (bytes : Bytes) → IsUtf8 bytes → some bytes ≡ utf8_text bytes
utf8_text-valid bytes h = rw (utf8_text, h) refl

no_text-none :
    (bytes : Bytes) (c : Utf8Check)
    → check_utf8 bytes ≡ c
    → (¬ (IsUtf8 bytes))
    → none ≡ utf8_text bytes
no_text-none bytes valid e not_text = absurd (not_text e)
no_text-none bytes (invalid up_to len) e not_text = rw (utf8_text, e) refl

module _ {S E : Type 0} (st : TryStream S E) (Ended : S → Type 0) (events : List (Event E)) where
  -- What is returned of all the answers.
  abbrev pub Answered : Result Bytes (Error E) → ReadToString S → Type 0
  Answered (ok s) r = IsUtf8 s × (s ≡ payload events) × (fails events ≡ false) × Ended r.stream
  Answered (err e) r = ErrorSpec [] events e

  -- Where a driver may be between two polls.
  record Underway (taken : Bytes) (left : List (Event E)) (r : ReadToString S) : Type 0 where
    decoded : Decoded taken r
    gives : Gives st Ended r.stream left
    bytes : payload events ≡ taken ++ payload left
    same_fails : fails events ≡ fails left

  ErrorSpec-Underway :
      {taken : Bytes} {left : List (Event E)} (r : ReadToString S) (u : Underway taken left r)
      (e : Error E)
      → ErrorSpec taken left e
      → ErrorSpec [] events e
  ErrorSpec-Underway r u (stream_error e) h = u.same_fails ∙ h
  ErrorSpec-Underway r u (utf8 up_to len) h = rw u.bytes h
  ErrorSpec-Underway r u (parsing m) (is_error, h) = (is_error, rw u.bytes h)

  driven :
      (fuel : ℕ) (taken : Bytes) (left : List (Event E)) (r : ReadToString S)
      (o : Outcome (Poll (Result Bytes (Error E)) × ReadToString S))
      → Underway taken left r
      → length left ≤ fuel
      → TextSpec st Ended taken left o
      → ((taken' : Bytes) (left' : List (Event E)) (r' : ReadToString S)
          → Underway taken' left' r'
          → length left' < fuel
          → Returns (λ (result, t). Answered result t) (until_ready fuel (poll st) r'))
      → Returns
          (λ (result, t). Answered result t)
          (o >>= λ (polled, r'). elim polled [
            | ready a ↦ value (a, r')
            | pending ↦ until_ready fuel (poll st) r'
          ])
  driven fuel taken left r (value (pending, r')) u le p rest =
      rest p.taken p.left r'
        (record {
          decoded = p.decoded;
          gives = p.gives;
          bytes = u.bytes ∙ p.bytes;
          same_fails = u.same_fails ∙ p.same_fails;
        })
        (omega (arith, p.fewer))
  driven fuel taken left r (value (ready (ok s), r')) u le (text, same, fine, ended) rest =
      (text, same ∙ sym u.bytes, u.same_fails ∙ fine, ended)
  driven fuel taken left r (value (ready (err e), r')) u le h rest = ErrorSpec-Underway r u e h
  driven fuel taken left r (panic p) u le h rest = absurd h
  driven fuel taken left r out_of_fuel u le h rest = absurd h

  until_ready-Answered :
      (fuel : ℕ) (taken : Bytes) (left : List (Event E)) (r : ReadToString S)
      → Underway taken left r
      → length left < fuel
      → Returns (λ (result, t). Answered result t) (until_ready fuel (poll st) r)
  unfolding until_ready
  until_ready-Answered zero taken left r u enough = absurd (omega arith)
  until_ready-Answered (suc fuel) taken left r u enough =
      driven fuel taken left r (poll st r) u (omega arith)
        (poll-TextSpec st Ended taken left r u.gives u.decoded) (until_ready-Answered fuel)

  -- A `ReadToString` over a stream that gives the answers `events`, polled more often than there are answers,
  -- returns. If it returns a string, that is valid UTF-8 and all the bytes of the stream, which has answered
  -- without an error and is behind its last answer; an error is the stream's, or the bytes are no valid UTF-8.
  pub run_future_hot-Answered :
      (s : S) (fuel : ℕ)
      → Gives st Ended s events
      → length events < fuel
      → Returns (λ (result, r). Answered result r) (run_future_hot fuel (poll st) (new s))
  unfolding run_future_hot new
  run_future_hot-Answered s fuel gives enough =
      until_ready-Answered fuel [] events (new s)
        (record {
          decoded = record { text = IsUtf8-nil; held = refl };
          gives = gives;
          bytes = refl;
          same_fails = refl;
        })
        enough

  pub Answered-text :
      fails events ≡ false
      → (result : Result Bytes (Error E)) (r : ReadToString S) → Answered result r
      → text_of result ≡ utf8_text (payload events)
  Answered-text fine (ok s) r (text, same, _, _) =
      subst (λ b. some s ≡ utf8_text b) same (utf8_text-valid s text)
  Answered-text fine (err (stream_error e)) r h = cc
  Answered-text fine (err (utf8 up_to len)) r h =
      no_text-none (payload events) (check_utf8 (payload events)) refl h
  Answered-text fine (err (parsing m)) r (_, h) =
      no_text-none (payload events) (check_utf8 (payload events)) refl h

  -- If the stream of a field gives the answers `events`, and no error among them, a `ReadToString` that is
  -- polled until it is ready, more often than there are answers, returns the same as one check of all the
  -- bytes: the bytes, if they are valid UTF-8, and an error if not. Where the chunks are cut, and when the
  -- stream is not ready, does not matter.
  pub run_future_hot-utf8_text :
      (s : S) (fuel : ℕ)
      → Gives st Ended s events
      → length events < fuel
      → fails events ≡ false
      → Returns
          (λ (result, r). text_of result ≡ utf8_text (payload events))
          (run_future_hot fuel (poll st) (new s))
  run_future_hot-utf8_text s fuel gives enough fine =
      Returns-map (λ (result, r) h. Answered-text fine result r h)
        (run_future_hot fuel (poll st) (new s)) (run_future_hot-Answered s fuel gives enough)
