-- ===== src/Scheduler/Allocation.antt =====
-- The tables of slots: that of an idle round, and that of a round for one node.
use rpi_hadoop.Prelude.{
  ℕ, zero, suc, ◌+◌, ◌≤◌, ◌<◌, ◌≡◌, refl, ◌⊎◌, inl, inr, Bool, true, false, ◌&&◌, arith, ltb, leb,
  ◌==◌, if◌then◌else◌, Bool-cases, ◌∙◌, pos, is_zero,
}
use native.Mathlib.Decide.{ℕ_discrete}
use rpi_hadoop.CArray.{IntArray, update}
use rpi_hadoop.Report.{nodes}
use rpi_hadoop.Scheduler.{
  Progress, alloc_loop, idle_loop, idle_slot, full_slot, is_priority, check_loop, has_data,
}

-- Index `j` is one of the `rounds` from `i` on.
abbrev pub within : ℕ → ℕ → ℕ → Bool
within rounds i j = leb i j && ltb j (i + rounds)

idle_loop_at :
    (rounds i j : ℕ) (t : IntArray)
    → idle_loop rounds i t j ≡ (if within rounds i j then idle_slot else t j)
unfolding idle_loop
idle_loop_at zero i j t = ground arith
idle_loop_at (suc r) i j t = ground (arith, idle_loop_at r (i + 1) j (update t i idle_slot))

-- An idle round gives the nodes 1 to 9 the same short slot.
pub idle_loop_lem : (j : ℕ) (t : IntArray) → 1 ≤ j → j < nodes → idle_loop 9 1 t j ≡ idle_slot
idle_loop_lem j t lo hi = ground (arith, idle_loop_at 9 1 j t)

module _ (reducer : IntArray) (job : Progress) (pri : ℕ) where
  alloc_loop_at :
      (rounds i r j : ℕ) (t : IntArray)
      → (alloc_loop rounds i reducer job pri t r).0 j
        ≡ (if within rounds i j then (if j == pri then full_slot else pos 0) else t j)
  unfolding alloc_loop
  alloc_loop_at zero i r j t = ground arith
  alloc_loop_at (suc n) i r j t =
      alloc_loop_at n (i + 1) (if is_priority reducer job i then i else r) j
        (if i == pri then update t pri full_slot else update t i (pos 0))
      ∙ ground arith

  -- The chosen node has the whole slot, and every other node of the table has none.
  pub alloc_loop_slots :
      (j : ℕ) (t : IntArray)
      → 1 ≤ j
      → j < nodes
      → (alloc_loop 9 1 reducer job pri t 0).0 j ≡ (if j == pri then full_slot else pos 0)
  alloc_loop_slots j t lo hi = ground (arith, alloc_loop_at 9 1 0 j t)

  abbrev pub IsPriority : ℕ → Type 0
  IsPriority k = is_priority reducer job k ≡ true

  -- `k` is the last priority reducer among the `rounds` nodes from `i` on, or `r` if there is none.
  pub record LastPriority (i rounds r k : ℕ) : Type 0 where
    pub found : (k ≡ r) ⊎ ((i ≤ k) × (k < i + rounds) × IsPriority k)
    pub last : (m : ℕ) → i ≤ m → m < i + rounds → IsPriority m → (i ≤ k) × (m ≤ k)

  LastPriority-more :
      (n i r k : ℕ)
      → LastPriority (i + 1) n (if is_priority reducer job i then i else r) k
      → LastPriority i (suc n) r k
  LastPriority-more n i r k h = elim (Bool-cases (is_priority reducer job i)) [
    | inl here ↦ record {
      found = ground (arith, h.found);
      last = λ m lo hi e. ground (arith, h.found, h.last m);
    }
    | inr not_here ↦ record {
      found = ground (arith, h.found);
      last = λ m lo hi e. ground (arith, h.found, h.last m);
    }
  ]

  pub alloc_loop_last :
      (rounds i r : ℕ) (t : IntArray)
      → LastPriority i rounds r (alloc_loop rounds i reducer job pri t r).1
  unfolding alloc_loop
  alloc_loop_last zero i r t = record { found = inl refl; last = λ m lo hi e. absurd (omega arith) }
  alloc_loop_last (suc n) i r t = LastPriority-more n i r _ (alloc_loop_last n (i + 1) _ _)

check_loop-true :
    (rounds i j : ℕ) (p : IntArray)
    → i ≤ j
    → j < i + rounds
    → is_zero (p j) ≡ false
    → check_loop rounds i p ≡ true
unfolding check_loop
check_loop-true zero i j p lo hi e = absurd (omega arith)
check_loop-true (suc n) i j p lo hi e = elim (ℕ_discrete i j) [
  | yes here ↦ rw (here, e)
  | no later ↦ elim (Bool-cases (is_zero (p i))) [
    | inl z ↦ rw (z, check_loop-true n (i + 1) j p (omega arith) (omega arith) e)
    | inr nz ↦ rw nz
  ]
]

check_loop-false :
    (rounds i : ℕ) (p : IntArray)
    → ((j : ℕ) → i ≤ j → j < i + rounds → p j ≡ pos 0)
    → check_loop rounds i p ≡ false
unfolding check_loop
check_loop-false zero i p h = refl
check_loop-false (suc n) i p h = rw (
  h i (omega arith) (omega arith),
  check_loop-false n (i + 1) p (λ j lo hi. h j (omega arith) (omega arith)),
)

-- `check` finds any entry that is not 0, of either sign.
pub has_data-true :
    (j : ℕ) (p : IntArray) → 1 ≤ j → j < nodes → is_zero (p j) ≡ false → has_data p ≡ true
unfolding has_data
has_data-true j p lo hi e = check_loop-true 9 1 j p lo (omega arith) e

pub has_data-false :
    (p : IntArray) → ((j : ℕ) → 1 ≤ j → j < nodes → p j ≡ pos 0) → has_data p ≡ false
unfolding has_data
has_data-false p h = check_loop-false 9 1 p (λ j lo hi. h j lo (omega arith))
