-- ===== src/PacketRate/Start/Beacons.antt =====
-- The beacons that the sniffer's host keeps, and what holds along a run of `main`.
use rpi_hadoop.Prelude.{
  ℕ, ◌≡◌, ◌≢◌, refl, sym, Bool, true, false, not, ◌&&◌, ◌||◌, ◌==◌, none, some, Run, done, fault,
  out_of_fuel, arith,
}
use native.Mathlib.Decide.{ℕ_discrete}
use rpi_hadoop.PacketRate.Start.{End, Point, go, stop, Part, continue, Host}

-- What is relied on: a new beacon was not open before, a beacon is open until it is destroyed itself, and
-- no other call opens or closes one.
pub record IsHost {S : Type 0} (host : Host S) : Type 0 where
  pub open_at : S → ℕ → Bool
  pub fresh : (s : S) (b : ℕ) (s' : S) → host.new_beacon s ≡ (some b, s') → open_at s b ≡ false
  pub made :
      (s : S) (b : ℕ) (s' : S)
      → host.new_beacon s ≡ (some b, s')
      → (j : ℕ) → open_at s' j ≡ (j == b || open_at s j)
  pub destroyed :
      (b : ℕ) (s : S) (j : ℕ) → open_at (host.destroy b s) j ≡ (not (j == b) && open_at s j)
  pub signal_kept : (n : ℕ) (s : S) (j : ℕ) → open_at (host.catch_signal n s).1 j ≡ open_at s j
  pub configure_kept : (b : ℕ) (s : S) (j : ℕ) → open_at (host.configure b s).1 j ≡ open_at s j
  pub find_kept : (s : S) (j : ℕ) → open_at (host.find_devices s).1 j ≡ open_at s j
  pub open_kept : (s : S) (j : ℕ) → open_at (host.open_device s).1 j ≡ open_at s j
  pub subscribe_kept : (b : ℕ) (s : S) (j : ℕ) → open_at (host.subscribe b s) j ≡ open_at s j
  pub create_kept : (s : S) (j : ℕ) → open_at (host.create s).1 j ≡ open_at s j
  pub clock_kept : (s : S) (j : ℕ) → open_at (host.clock s).1 j ≡ open_at s j
  pub capture_kept :
      (n : ℕ) (s s' : S) → host.capture n s ≡ some s' → (j : ℕ) → open_at s' j ≡ open_at s j
  pub silence_kept : (b : ℕ) (s : S) (j : ℕ) → open_at (host.silence b s) j ≡ open_at s j

-- `zactor_new` makes a beacon and `zstr_recv` returns a name.
pub record IsAnswering {S : Type 0} (host : Host S) : Type 0 where
  pub beacon : (s : S) → (host.new_beacon s).0 ≢ none
  pub name : (b : ℕ) (s : S) → (host.configure b s).0 ≢ none

module _ {S : Type 0} (F : Type 0) where
  -- What holds where a part of `main` goes on, where it ends, and if it runs for ever; it does not fault.
  abbrev pub Post : {A : Type 0} → (End → S → Type 0) → (A → S → Type 0) → Run (Point S A) → Type 0
  Post Q P (done (go a s)) = P a s
  Post Q P (done (stop e s)) = Q e s
  Post Q P fault = ⊥
  Post Q P out_of_fuel = F

  pub Post-continue :
      {A B : Type 0} (Q : End → S → Type 0) (P : A → S → Type 0) (P' : B → S → Type 0)
      (m : Run (Point S A)) (f : A → Part S B)
      → Post Q P m
      → ((a : A) (s : S) → P a s → Post Q P' (f a s))
      → Post Q P' (continue m f)
  Post-continue Q P P' (done (go a s)) f h next = next a s h
  Post-continue Q P P' (done (stop e s)) f h next = h
  Post-continue Q P P' fault f h next = absurd h
  Post-continue Q P P' out_of_fuel f h next = h

pub ==_true : {a b : ℕ} → a ≡ b → (a == b) ≡ true
==_true e = ground (arith, e)

pub ==_false : {a b : ℕ} → a ≢ b → (a == b) ≡ false
==_false ne = ground (arith, ne)

-- What is left when a beacon, and when both, are destroyed.
pub removed : (a : ℕ) (o : Bool) (j : ℕ) → (j ≡ a → o ≡ false) → (not (j == a) && (j == a || o)) ≡ o
removed a o j h = elim (ℕ_discrete j a) [
  | yes e ↦ rw (==_true e, h e) refl
  | no ne ↦ rw (==_false ne) refl
]

pub both_removed :
    (a b : ℕ) (o : Bool) (j : ℕ)
    → (j ≡ a → o ≡ false)
    → (j ≡ b → o ≡ false)
    → (not (j == b) && (not (j == a) && (j == b || (j == a || o)))) ≡ o
both_removed a b o j ha hb = elim (ℕ_discrete j b) [
  | yes e ↦ rw (==_true e) (sym (hb e))
  | no ne ↦ rw (==_false ne) (removed a o j ha)
]
