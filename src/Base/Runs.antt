-- ===== src/Base/Runs.antt =====
-- What a run of Rust code comes to: a value, a panic, or a loop that was cut off by its fuel.
use mathlib.Core.Path.{◌≡◌, refl}
use mathlib.Core.Bool.{Bool, true, false}
use Prim.Native.Nat.{ℕ, ◌-◌}
use multipart_async.Base.Lists.{Bytes, length, take, drop}
use multipart_async.Base.Tests.{leb, if◌then◌else◌}

pub data Panic : Type 0 where
  out_of_range sub_overflow unreachable debug_assertion expect_none explicit_panic : Panic

pub data Outcome {ℓ} (A : Type ℓ) : Type ℓ where
  value : A → Outcome A
  panic : Panic → Outcome A
  out_of_fuel : Outcome A

infixl 5 ◌>>=◌ ◌>>◌
abbrev pub ◌>>=◌ {ℓ κ} : {A : Type ℓ} {B : Type κ} → Outcome A → (A → Outcome B) → Outcome B
value a >>= f = f a
panic p >>= f = panic p
out_of_fuel >>= f = out_of_fuel

abbrev pub ◌>>◌ {ℓ} : {B : Type ℓ} → Outcome (Unit {0}) → Outcome B → Outcome B
m >> k = m >>= λ _. k

-- `debug_assert!` and `assert!`
abbrev pub assert : Bool → Outcome (Unit {0})
assert true = value tt
assert false = panic debug_assertion

-- `a - b` on `usize`
abbrev pub checked_sub : ℕ → ℕ → Outcome ℕ
checked_sub a b = if leb b a then value (a - b) else panic sub_overflow

-- `bytes[i..]`
abbrev pub slice_from : Bytes → ℕ → Outcome Bytes
slice_from bytes i = if leb i (length bytes) then value (drop i bytes) else panic out_of_range

-- `bytes[..i]`
abbrev pub slice_to : Bytes → ℕ → Outcome Bytes
slice_to bytes i = if leb i (length bytes) then value (take i bytes) else panic out_of_range

-- The inversion of a bind that returned a value.
pub >>=-eq-value {ℓ κ} :
    {A : Type ℓ} {B : Type κ} (m : Outcome A) (f : A → Outcome B) {b : B}
    → (m >>= f) ≡ value b
    → (a : A) × (m ≡ value a) × (f a ≡ value b)
>>=-eq-value (value a) f h = (a, refl, h)
>>=-eq-value (panic p) f h = cc
>>=-eq-value out_of_fuel f h = cc

-- Total correctness: the run comes to a value, and that satisfies `P`.
abbrev pub Returns {ℓ} : {A : Type ℓ} → (A → Type 0) → Outcome A → Type 0
Returns P (value a) = P a
Returns P (panic p) = ⊥
Returns P out_of_fuel = ⊥

pub Returns->>= {ℓ κ} :
    {A : Type ℓ} {B : Type κ} (P : A → Type 0) (Q : B → Type 0) (m : Outcome A) (f : A → Outcome B)
    → Returns P m
    → ((a : A) → P a → Returns Q (f a))
    → Returns Q (m >>= f)
Returns->>= P Q (value a) f h step = step a h
Returns->>= P Q (panic p) f h step = absurd h
Returns->>= P Q out_of_fuel f h step = absurd h

pub Returns-map {ℓ} :
    {A : Type ℓ} {P Q : A → Type 0}
    → ((a : A) → P a → Q a)
    → (m : Outcome A) → Returns P m
    → Returns Q m
Returns-map f (value a) h = f a h
Returns-map f (panic p) h = absurd h
Returns-map f out_of_fuel h = absurd h

-- The run comes to a value.
abbrev pub IsValue {ℓ} : {A : Type ℓ} → Outcome A → Type 0
IsValue m = Returns (λ _. Unit {0}) m

pub IsValue-value {ℓ} : {A : Type ℓ} (m : Outcome A) → IsValue m → (a : A) × (m ≡ value a)
IsValue-value (value a) h = (a, refl)
IsValue-value (panic p) h = absurd h
IsValue-value out_of_fuel h = absurd h

-- What follows a run that returns.
pub Returns-eq {ℓ κ} :
    {A : Type ℓ} {B : Type κ} (P : A → Type 0) (m : Outcome A) (k : A → Outcome B) {v : Outcome B}
    → Returns P m
    → ((a : A) → P a → k a ≡ v)
    → (m >>= k) ≡ v
Returns-eq P (value a) k h same = same a h
Returns-eq P (panic p) k h same = absurd h
Returns-eq P out_of_fuel k h same = absurd h

-- Partial correctness: the run does not panic, and a value that it comes to satisfies `P`.
abbrev pub Safe {ℓ} : {A : Type ℓ} → (A → Type 0) → Outcome A → Type 0
Safe P (value a) = P a
Safe P (panic p) = ⊥
Safe P out_of_fuel = Unit

pub Safe->>= {ℓ κ} :
    {A : Type ℓ} {B : Type κ} (P : A → Type 0) (Q : B → Type 0) (m : Outcome A) (f : A → Outcome B)
    → Safe P m
    → ((a : A) → P a → Safe Q (f a))
    → Safe Q (m >>= f)
Safe->>= P Q (value a) f h step = step a h
Safe->>= P Q (panic p) f h step = absurd h
Safe->>= P Q out_of_fuel f h step = tt

pub Returns-Safe {ℓ} : {A : Type ℓ} (P : A → Type 0) (m : Outcome A) → Returns P m → Safe P m
Returns-Safe P (value a) h = h
Returns-Safe P (panic p) h = absurd h
Returns-Safe P out_of_fuel h = absurd h

pub Safe-map {ℓ} :
    {A : Type ℓ} {P Q : A → Type 0} → ((a : A) → P a → Q a) → (m : Outcome A) → Safe P m → Safe Q m
Safe-map f (value a) h = f a h
Safe-map f (panic p) h = absurd h
Safe-map f out_of_fuel h = tt

-- A run that does not panic, and comes to no value, goes on for ever.
pub Safe-endless {ℓ} : {A : Type ℓ} (m : Outcome A) → Safe (λ _. ⊥) m → m ≡ out_of_fuel
Safe-endless (value a) h = absurd h
Safe-endless (panic p) h = absurd h
Safe-endless out_of_fuel h = refl
