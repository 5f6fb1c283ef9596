-- ===== src/Startup/Attempts.antt =====
-- How the attempts to connect end.
use rpi_hadoop.Prelude.{
  ℕ, zero, suc, ◌+◌, ◌≤◌, ◌<◌, ◌≡◌, refl, Bool, true, false, ◌==◌, leb, done, arith, ◌⊎◌, inl, inr,
  Bool-cases,
}
use native.Mathlib.Decide.{ℕ_discrete}
use rpi_hadoop.Startup.{connected, gave_up, connect_loop, connect_server}

le_20 : (i : ℕ) → i ≤ 20 → leb i 20 ≡ true
le_20 i h = ground arith

not_yet : (i : ℕ) → i + 1 < 20 → (i + 1 == 20) ≡ false
not_yet i h = ground arith

connect_loop_first :
    (fuel i k : ℕ) (accepts : ℕ → Bool)
    → i ≤ k
    → k < 20
    → k < i + fuel
    → ((j : ℕ) → j < k → accepts j ≡ false)
    → accepts k ≡ true
    → connect_loop fuel i accepts ≡ done (connected k)
unfolding connect_loop
connect_loop_first zero i k accepts lo hi enough before here = absurd (omega arith)
connect_loop_first (suc fuel) i k accepts lo hi enough before here = elim (ℕ_discrete i k) [
  | yes now ↦ rw (now, le_20 k (omega arith), here) refl
  | no later ↦
      rw (le_20 i (omega arith), before i (omega arith), not_yet i (omega arith))
        (connect_loop_first fuel (i + 1) k accepts (omega arith) hi (omega arith) before here)
]

connect_loop_none :
    (fuel i : ℕ) (accepts : ℕ → Bool)
    → i < 20
    → 20 ≤ i + fuel
    → ((j : ℕ) → j < 20 → accepts j ≡ false)
    → connect_loop fuel i accepts ≡ done (gave_up 20)
unfolding connect_loop
connect_loop_none zero i accepts hi enough never = absurd (omega arith)
connect_loop_none (suc fuel) i accepts hi enough never = elim (ℕ_discrete i 19) [
  | yes last ↦ rw (last, never 19 (omega arith)) refl
  | no more ↦
      rw (le_20 i (omega arith), never i hi, not_yet i (omega arith))
        (connect_loop_none fuel (i + 1) accepts (omega arith) (omega arith) never)
]

-- The master is connected by the first of twenty attempts that succeeds.
pub connect_server_first :
    (k : ℕ) (accepts : ℕ → Bool)
    → k < 20
    → ((j : ℕ) → j < k → accepts j ≡ false)
    → accepts k ≡ true
    → connect_server accepts ≡ done (connected k)
unfolding connect_server
connect_server_first k accepts hi before here =
    connect_loop_first 21 0 k accepts (omega arith) hi (omega arith) before here

-- If twenty attempts have failed, the master gives up, and never takes the unconnected socket for a
-- connected one.
pub connect_server_gave_up :
    (accepts : ℕ → Bool)
    → ((j : ℕ) → j < 20 → accepts j ≡ false)
    → connect_server accepts ≡ done (gave_up 20)
unfolding connect_server
connect_server_gave_up accepts never =
    connect_loop_none 21 0 accepts (omega arith) (omega arith) never

connect_loop_total :
    (fuel i : ℕ) (accepts : ℕ → Bool)
    → i < 20
    → 20 ≤ i + fuel
    → ((k : ℕ) × (k < 20) × (accepts k ≡ true) × (connect_loop fuel i accepts ≡ done (connected k)))
      ⊎ (connect_loop fuel i accepts ≡ done (gave_up 20))
unfolding connect_loop
connect_loop_total zero i accepts hi enough = absurd (omega arith)
connect_loop_total (suc fuel) i accepts hi enough = elim (Bool-cases (accepts i)) [
  | inl now ↦ inl (i, hi, now, rw (le_20 i (omega arith), now) refl)
  | inr failed ↦ elim (ℕ_discrete i 19) [
    | yes last ↦ inr (rw (le_20 i (omega arith), failed) (rw last refl))
    | no more ↦
        rw (le_20 i (omega arith), failed, not_yet i (omega arith))
          (connect_loop_total fuel (i + 1) accepts (omega arith) (omega arith))
  ]
]

-- The program is connected by an attempt that succeeded, or gives up after twenty.
pub connect_server_total :
    (accepts : ℕ → Bool)
    → ((k : ℕ) × (k < 20) × (accepts k ≡ true) × (connect_server accepts ≡ done (connected k)))
      ⊎ (connect_server accepts ≡ done (gave_up 20))
unfolding connect_server
connect_server_total accepts = connect_loop_total 21 0 accepts (omega arith) (omega arith)
