-- ===== src/Prelude/Outcome.antt =====
-- The outcome of C code: a value, undefined behaviour (a bad index, a null pointer, a buffer
-- overrun), or a loop that used up its fuel.
use mathlib.Core.Path.{◌≡◌, ap}
use mathlib.Core.Bool.{Bool, true, false}
use mathlib.Core.Option.{Option, none, some}

pub data Run {ℓ} (A : Type ℓ) : Type ℓ where
  done : A → Run A
  fault : Run A
  out_of_fuel : Run A

infixl 5 ◌>>=◌ ◌>>◌
-- What follows a step that has a value.
abbrev pub ◌>>=◌ {ℓ κ} : {V : Type ℓ} {W : Type κ} → Run V → (V → Run W) → Run W
out_of_fuel >>= next = out_of_fuel
fault >>= next = fault
done v >>= next = next v

abbrev pub ◌>>◌ {ℓ} : {B : Type ℓ} → Run (Unit {0}) → Run B → Run B
m >> k = m >>= λ _. k

-- A condition without which the code has undefined behaviour.
abbrev pub ensure : Bool → Run (Unit {0})
ensure true = done tt
ensure false = fault

-- A pointer that is used without a test for NULL.
abbrev pub non_null {ℓ} : {A : Type ℓ} → Option A → Run A
non_null none = fault
non_null (some a) = done a

-- `done` has one value: the default stands for the runs that have none.
value_or {ℓ} : {A : Type ℓ} → A → Run A → A
value_or d (done a) = a
value_or d fault = d
value_or d out_of_fuel = d

pub done-injective {ℓ} : {A : Type ℓ} (a b : A) → done a ≡ done b → a ≡ b
unfolding value_or
done-injective a b e = ap (value_or a) e

-- What holds of the value, if there is one.
abbrev pub Yields : {A : Type 0} → (A → Type 0) → Run A → Type 0
Yields P (done a) = P a
Yields P fault = Unit
Yields P out_of_fuel = Unit

pub Yields-bind :
    {A B : Type 0} (P : A → Type 0) (Q : B → Type 0) (m : Run A) (f : A → Run B)
    → Yields P m
    → ((a : A) → P a → Yields Q (f a))
    → Yields Q (m >>= f)
Yields-bind P Q (done a) f h next = next a h
Yields-bind P Q fault f h next = tt
Yields-bind P Q out_of_fuel f h next = tt

pub Yields-any : {A : Type 0} (m : Run A) → Yields (λ a. Unit {0}) m
Yields-any (done a) = tt
Yields-any fault = tt
Yields-any out_of_fuel = tt
