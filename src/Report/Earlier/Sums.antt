-- ===== src/Report/Earlier/Sums.antt =====
-- What the earlier server makes of the reports of a node.
use rpi_hadoop.Prelude.{
  ℕ, zero, suc, ◌+◌, ◌/◌, ◌≤◌, ◌<◌, ◌≡◌, ◌≢◌, refl, ap, true, false, ltb, List, [], ◌∷◌, arith,
  ◌==◌, if◌then◌else◌, All, Bool-cases, inl, inr, done, fault, ◌>>=◌, ℤ, pos, negsuc, InInt,
  add_int,
}
use native.Mathlib.Decide.{ℕ_discrete}
use rpi_hadoop.CText.Decimal.{atoi-format_int}
use rpi_hadoop.CArray.{IntArray, update}
use rpi_hadoop.Report.{nodes, compose_report}
use rpi_hadoop.Report.Buffers.{IsSpeed, row, compose_report-done}
use rpi_hadoop.Report.RoundTrip.{total, busy, rates-total, tokens-report_text}
use rpi_hadoop.Report.Earlier.{
  places, add_loop, mean_speed, Shown, show_node, response_tokens, response_task, response_task_lem,
}

-- The sums, and what is printed, after a report of node `id`.
abbrev pub added : ℕ → ℤ → ℤ → IntArray → IntArray × Shown
added id size speed p = (
  update p id (add_int (p id) size),
  record { node = pos id; size = add_int (p id) size; speed = speed },
)

-- The average of the rates that are not 0, and 0 if there are none.
abbrev pub average : List ℤ → ℕ
average l = if busy l == 0 then 0 else total l / busy l

ne→eqb : (i j : ℕ) → i ≢ j → (i == j) ≡ false
ne→eqb i j h = ground arith

eqb_refl : (i : ℕ) → (i == i) ≡ true
eqb_refl i = ground arith

idle-total : (l : List ℤ) → busy l ≡ 0 → total l ≡ 0
idle-total [] h = refl
idle-total (pos zero ∷ l) h = omega (arith, idle-total l (omega arith))
idle-total (pos (suc n) ∷ l) h = absurd (ground arith)
idle-total (negsuc n ∷ l) h = absurd (omega arith)

sums : (i left : ℕ) → i + 1 + left ≡ i + suc left
sums i left = omega arith

-- The loop has nothing to add for a node behind it.
add_loop_past :
    (left i id : ℕ) (size : ℤ) (p : IntArray) → id < i → add_loop left i (pos id) size p ≡ p
unfolding add_loop
add_loop_past zero i id size p h = refl
add_loop_past (suc left) i id size p h =
    rw (other) (add_loop_past left (i + 1) id size p (omega arith))
  where
    other : (i == id) ≡ false
    other = ground arith

-- The loop adds to the element of the node, if the node is within it.
add_loop_lem :
    (left i id : ℕ) (size : ℤ) (p : IntArray)
    → i ≤ id
    → add_loop left i (pos id) size p
      ≡ (if ltb id (i + left) then update p id (add_int (p id) size) else p)
unfolding add_loop
add_loop_lem zero i id size p h = ground arith
add_loop_lem (suc left) i id size p h = elim (ℕ_discrete i id) [
  | yes here ↦
      rw
        (
          here,
          eqb_refl id,
          add_loop_past left (id + 1) id size (update p id (add_int (p id) size)) (omega arith),
        )
        (ground arith)
  | no before ↦
      rw
        (
          ne→eqb i id before,
          add_loop_lem left (i + 1) id size p (omega arith),
          ap (ltb id) (sums i left),
        )
        refl
]

mean_speed_lem : (l : List ℤ) → mean_speed (pos (total l), busy l) ≡ pos (average l)
unfolding mean_speed
mean_speed_lem l = elim (Bool-cases (busy l == 0)) [
  | inl idle ↦ rw (idle, idle-total l (ground arith)) refl
  | inr some_busy ↦ rw some_busy refl
]

-- What is printed when the sizes have been added, or that `p` has no such element.
show_node_lem :
    (id : ℕ) (size speed : ℤ) (p : IntArray)
    → show_node (pos id) speed (if ltb id places then update p id (add_int (p id) size) else p)
      ≡ (if ltb id places then done (added id size speed p) else fault)
unfolding show_node
show_node_lem id size speed p = elim (Bool-cases (ltb id places)) [
  | inl within ↦ rw (within, eqb_refl id) refl
  | inr beyond ↦ rw beyond refl
]

-- From the report of node 1 to 5 the earlier server adds the data size to the node's sum, and prints the
-- sum and the average of the rates that are not 0; for the report of a node from 6 to 9 it reads behind
-- the end of its table. This holds for all `int` sizes and jobs, and all rates of at most four digits.
pub response_task-compose_report :
    (id : ℕ) (size reduce : ℤ) (rates p : IntArray)
    → 1 ≤ id
    → id < nodes
    → InInt size
    → InInt reduce
    → All IsSpeed (row 9 0 rates)
    → (compose_report (pos id) size reduce rates >>= λ content. response_task content p)
      ≡ (if ltb id places then done (added id size (pos (average (row 9 0 rates))) p) else fault)
unfolding response_tokens
response_task-compose_report id size reduce rates p lo hi hs hr h =
    rw
      (
        compose_report-done (pos id) size reduce rates (omega arith) hs hr h,
        response_task_lem,
        tokens-report_text (pos id) size reduce rates,
        atoi-format_int (pos id) (omega arith),
        atoi-format_int size hs,
        rates-total (row 9 0 rates) h (omega arith),
        mean_speed_lem (row 9 0 rates),
        add_loop_lem 5 1 id size p lo,
      )
      (show_node_lem id size (pos (average (row 9 0 rates))) p)
