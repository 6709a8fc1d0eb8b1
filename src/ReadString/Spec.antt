-- ===== src/ReadString/Spec.antt =====
-- The invariant of `ReadToString`, over all the bytes that it has taken from its stream.
use multipart_async.Base.{
  ℕ, suc, ◌<◌, ◌≡◌, ◌∷◌, ◌++◌, Bytes, length, Option, none, some, Outcome, value, panic,
  out_of_fuel,
}
use multipart_async.Stream.{ok, err, Error, parsing, utf8, incomplete_surrogate}
use multipart_async.Text.Front.{Leads}
use multipart_async.Text.Scan.{IsUtf8}
use multipart_async.ReadString.{ReadToString, Turn, stop, next}

-- The surrogate holds a lead byte and some, not all, of the bytes that must follow it.
pub record Begun (start : Bytes) (len : ℕ) : Type 0 where
  pub lead : ℕ
  pub rest : Bytes
  pub pad : Bytes
  pub wants : ℕ
  pub leads : Leads lead wants
  pub short : length rest < wants
  pub start_eq : start ≡ (lead ∷ rest) ++ pad
  pub size : length start ≡ 3
  pub len_eq : len ≡ suc (length rest)

abbrev pub Holds : Bytes → Bytes → Option (Bytes × ℕ) → Type 0
Holds all string none = all ≡ string
Holds all string (some (start, len)) = (b : Begun start len) × (all ≡ string ++ (b.lead ∷ b.rest))

-- All that was taken is the text so far, and the character that has begun.
pub record Decoded {S : Type 0} (all : Bytes) (r : ReadToString S) : Type 0 where
  pub text : IsUtf8 r.string
  pub held : Holds all r.string r.surrogate

-- No text begins with `all`.
abbrev pub NoText : Bytes → Type 0
NoText all = (t : Bytes) → ¬ (IsUtf8 (all ++ t))

abbrev pub IsTextError : {E : Type 0} → Error E → Type 0
IsTextError (utf8 up_to len) = Unit
IsTextError (parsing (incomplete_surrogate start)) = Unit
IsTextError _ = ⊥

-- What a chunk may lead to, if `all` counts it.
abbrev pub TurnSpec : {S E : Type 0} → Bytes → Outcome (Turn S E) → Type 0
TurnSpec all (value (next r)) = Decoded all r
TurnSpec all (value (stop (err e) r)) = IsTextError e × NoText all
TurnSpec all (value (stop (ok s) r)) = ⊥
TurnSpec all (panic p) = ⊥
TurnSpec all out_of_fuel = ⊥
