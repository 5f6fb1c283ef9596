-- ===== src/Scheduler/Live.antt =====
-- The search for the next node while reports come in: `process_report` runs in a thread of its own and
-- writes the table that the loop of `send_config` reads.
use rpi_hadoop.Prelude.{
  ℕ, zero, suc, ◌+◌, ◌≤◌, ◌<◌, ◌≡◌, refl, not, ◌&&◌, ltb, if◌then◌else◌, false, Run, done,
  out_of_fuel, ◌>>=◌, is_positive, pos, inl, inr, arith, Bool-cases, lt→ltb,
}
use native.Mathlib.Decide.{ℕ_discrete}
use rpi_hadoop.CArray.{IntArray, load}
use rpi_hadoop.Report.{nodes}
use rpi_hadoop.Scheduler.{next_node, skip_loop}
use rpi_hadoop.Scheduler.RoundRobin.{HasData, ahead, next_reaches, next_node-lt}

-- `while (p[pri] <= 0 && pri < p_size)`, where the table at read number `t` is `p t`.
pub search_live : ℕ → (ℕ → IntArray) → ℕ → ℕ → Run ℕ
search_live zero p t pri = out_of_fuel
search_live (suc fuel) p t pri = do
  v ← load nodes (p t) (pos pri)
  let rest = search_live fuel p (suc t) (next_node pri)
  if not (is_positive v) && ltb pri nodes then rest else done pri

-- With a table that stays as it is, this is the loop of a round.
pub search_live-skip_loop :
    (fuel : ℕ) (p : IntArray) (t pri : ℕ) → search_live fuel (λ i. p) t pri ≡ skip_loop fuel p pri
unfolding search_live skip_loop
search_live-skip_loop zero p t pri = refl
search_live-skip_loop (suc fuel) p t pri =
    rw (search_live-skip_loop fuel p (suc t) (next_node pri)) refl

-- The search ended at a node that had data when it was read, at a read before `bound`.
abbrev pub Found : (ℕ → IntArray) → ℕ → Run ℕ → Type 0
Found p bound r = (k : ℕ) × (t : ℕ) × (r ≡ done k) × (t < bound) × (k < nodes) × HasData (p t) k

module _ (p : ℕ → IntArray) where
  found_now :
      (fuel t pri bound : ℕ)
      → pri < nodes
      → t < bound
      → HasData (p t) pri
      → Found p bound (search_live (suc fuel) p t pri)
  unfolding search_live
  found_now fuel t pri bound small early ready =
      (pri, t, rw (lt→ltb pri nodes small, ready) refl, early, small, ready)

  not_yet :
      (fuel t pri bound : ℕ)
      → pri < nodes
      → is_positive (p t pri) ≡ false
      → Found p bound (search_live fuel p (suc t) (next_node pri))
      → Found p bound (search_live (suc fuel) p t pri)
  unfolding search_live
  not_yet fuel t pri bound small empty later = rw (lt→ltb pri nodes small, empty) later

  later : {bound : ℕ} {r : Run ℕ} (bound' : ℕ) → bound ≤ bound' → Found p bound r → Found p bound' r
  later bound' le (k, t, run, early, small, ready) = (k, t, run, omega arith, small, ready)

  -- From when node `j` keeps its data, the search comes to it or stops before.
  reach_kept :
      (d fuel t pri j : ℕ)
      → pri < nodes
      → d < fuel
      → ahead d pri ≡ j
      → ((i : ℕ) → t ≤ i → HasData (p i) j)
      → Found p (t + suc d) (search_live fuel p t pri)
  reach_kept d zero t pri j small enough place kept = absurd (omega arith)
  reach_kept zero (suc fuel) t pri j small enough place kept =
      found_now fuel t pri _ small (omega arith) (rw place (kept t (omega arith)))
  reach_kept (suc d) (suc fuel) t pri j small enough place kept =
      elim (Bool-cases (is_positive (p t pri))) [
        | inl ready ↦ found_now fuel t pri _ small (omega arith) ready
        | inr empty ↦ not_yet fuel t pri _ small empty (
            later (t + suc (suc d)) (omega arith) (
              reach_kept d fuel (suc t) (next_node pri) j (next_node-lt pri small) (omega arith)
                place (λ i le. kept i (omega arith))))
      ]

  search_ends :
      (from fuel t pri j : ℕ)
      → pri < nodes
      → 2 ≤ j
      → j < nodes
      → ((i : ℕ) → from ≤ i → HasData (p i) j)
      → t ≤ from
      → from + 10 ≤ t + fuel
      → Found p (from + 10) (search_live fuel p t pri)
  search_ends from zero t pri j small lo hi kept le enough = absurd (omega arith)
  search_ends from (suc fuel) t pri j small lo hi kept le enough = elim (ℕ_discrete t from) [
    | yes now ↦
        let (d, near, place) = next_reaches pri j small lo hi in
        later (from + 10) (omega arith) (
          reach_kept (suc d) (suc fuel) t pri j small (omega arith) place
            (λ i le'. kept i (omega arith)))
    | no before ↦ elim (Bool-cases (is_positive (p t pri))) [
      | inl ready ↦ found_now fuel t pri _ small (omega arith) ready
      | inr empty ↦ not_yet fuel t pri _ small empty (
          search_ends from fuel (suc t) (next_node pri) j (next_node-lt pri small) lo hi kept
            (omega arith) (omega arith))
    ]
  ]

  -- However the reports change the table during the search, once a node from 2 to 9 keeps data the search
  -- ends within ten more reads, at a node that had data when it was read.
  pub search_live-Found :
      (from fuel pri j : ℕ)
      → pri < nodes
      → 2 ≤ j
      → j < nodes
      → ((i : ℕ) → from ≤ i → HasData (p i) j)
      → from + 10 ≤ fuel
      → Found p (from + 10) (search_live fuel p 0 pri)
  search_live-Found from fuel pri j small lo hi kept enough =
      search_ends from fuel 0 pri j small lo hi kept (omega arith) (omega arith)
