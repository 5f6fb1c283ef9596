-- ===== src/Setup/Outcomes.antt =====
-- What is said of a start's outcome, part by part.
use rpi_hadoop.Prelude.{◌≡◌, refl, ◌⊎◌, inl, inr, Option, none, some, Run, done, fault, out_of_fuel}
use rpi_hadoop.Setup.{Part, continue}

-- The part never faults, and if the program goes on, this holds.
abbrev pub Ensures : {S A : Type 0} → (A → S → Type 0) → Run (Option (A × S)) → Type 0
Ensures P out_of_fuel = ⊥
Ensures P fault = ⊥
Ensures P (done none) = Unit
Ensures P (done (some (a, s))) = P a s

-- The part may fault, and if the program goes on, this holds.
abbrev pub Allows : {S A : Type 0} → (A → S → Type 0) → Run (Option (A × S)) → Type 0
Allows P out_of_fuel = ⊥
Allows P fault = Unit
Allows P (done none) = Unit
Allows P (done (some (a, s))) = P a s

module _ {S A B : Type 0} (P : A → S → Type 0) (Q : B → S → Type 0) where
  pub Ensures-continue :
      (m : Run (Option (A × S))) (next : A → Part S B)
      → Ensures P m
      → ((a : A) (s : S) → P a s → Ensures Q (next a s))
      → Ensures Q (continue m next)
  Ensures-continue out_of_fuel next h k = absurd h
  Ensures-continue fault next h k = absurd h
  Ensures-continue (done none) next h k = tt
  Ensures-continue (done (some (a, s))) next h k = k a s h

  pub Allows-continue :
      (m : Run (Option (A × S))) (next : A → Part S B)
      → Ensures P m
      → ((a : A) (s : S) → P a s → Allows Q (next a s))
      → Allows Q (continue m next)
  Allows-continue out_of_fuel next h k = absurd h
  Allows-continue fault next h k = absurd h
  Allows-continue (done none) next h k = tt
  Allows-continue (done (some (a, s))) next h k = k a s h

-- What the two say of an outcome, as an equation.
pub Ensures-cases :
    {S A : Type 0} (P : A → S → Type 0) (m : Run (Option (A × S)))
    → Ensures P m
    → (r : Option (A × S)) × (m ≡ done r) × Ensures P (done r)
Ensures-cases P out_of_fuel h = absurd h
Ensures-cases P fault h = absurd h
Ensures-cases P (done r) h = (r, refl, h)

pub Allows-cases :
    {S A : Type 0} (m : Run (Option (A × S))) → Allows (λ a s. ⊥) m → (m ≡ done none) ⊎ (m ≡ fault)
Allows-cases out_of_fuel h = absurd h
Allows-cases fault h = inr refl
Allows-cases (done none) h = inl refl
Allows-cases (done (some (a, s))) h = absurd h
