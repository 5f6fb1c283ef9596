-- ===== src/Scheduler.antt =====
-- The scheduler thread of the master, `send_config` of CreateLoopbackMS.c: one round of its loop reads
-- the job progress, chooses the node that may send, fills the table of slots, and hands the slots out.
-- The table `p` is read once a round: what `process_report` writes meanwhile counts for the next.
pub mod Jobs
pub mod RoundRobin
pub mod Fairness
pub mod Allocation
pub mod Dispatch
pub mod Round
pub mod Events
pub mod Exclusive
pub mod Grants
pub mod Live
use rpi_hadoop.Prelude.{
  ℕ, zero, suc, ◌+◌, ◌-◌, ◌≡◌, refl, Bool, true, false, ◌&&◌, not, List, [], ◌∷◌, ◌++◌, Option,
  none, some, ltb, leb, ◌==◌, if◌then◌else◌, Text, codes, Run, done, fault, out_of_fuel, ◌>>=◌, ℤ,
  pos, negsuc, is_zero, is_positive, ltb_ℤ, eqb_ℤ,
}
use rpi_hadoop.CText.{tokens, atoi, format_int, sprintf}
use rpi_hadoop.CArray.{IntArray, update, load}
use rpi_hadoop.Report.{nodes}

-- `job_temp`, `max_progress` and `pri_job`.
pub record Progress : Type 0 where
  pub job_temp : ℤ
  pub max_progress : ℤ
  pub pri_job : ℤ

-- The second field of a line, `NULL` if there is none.
pub progress_value : List Text → Progress → Progress
progress_value [] s = s
progress_value (token ∷ rest) s =
    if ltb_ℤ s.max_progress (atoi token)
    then record s { max_progress = atoi token; pri_job = s.job_temp }
    else s

-- One line of the file `jobProgress`, "job:progress".
pub progress_line : List Text → Progress → Progress
unfolding progress_value
progress_line [] s = s
progress_line (token ∷ rest) s = progress_value rest (record s { job_temp = atoi token })

pub progress_loop : List Text → Progress → Progress
unfolding progress_line
progress_loop [] s = s
progress_loop (line ∷ lines) s = progress_loop lines (progress_line (tokens b':' line) s)

abbrev pub no_progress : Progress
no_progress = record { job_temp = pos 0; max_progress = pos 0; pri_job = pos 0 }

-- The lines of the file, or `none` if it cannot be opened.
unfoldable pub read_progress : Option (List Text) → Progress
unfolding progress_loop
read_progress none = no_progress
read_progress (some lines) = progress_loop lines no_progress

-- Is one of `p[i]`, …, for the rounds left, not 0?
pub check_loop : ℕ → ℕ → IntArray → Bool
check_loop zero i p = false
check_loop (suc rounds) i p =
    let rest = check_loop rounds (i + 1) p in if is_zero (p i) then rest else true

-- `check != 0`
pub has_data : IntArray → Bool
unfolding check_loop
has_data p = check_loop 9 1 p

-- The next node, from the last one to node 2.
abbrev pub next_node : ℕ → ℕ
next_node pri = if leb nodes (pri + 1) then 2 else pri + 1

-- `while (p[pri] <= 0 && pri < p_size)`
pub skip_loop : ℕ → IntArray → ℕ → Run ℕ
skip_loop zero p pri = out_of_fuel
skip_loop (suc fuel) p pri = do
  v ← load nodes p (pos pri)
  let rest = skip_loop fuel p (next_node pri)
  if not (is_positive v) && ltb pri nodes then rest else done pri

-- `pri++`, back to 2 behind the last node, and the loop that skips the nodes without data.
pub next_pri : ℕ → IntArray → ℕ → Run ℕ
unfolding skip_loop
next_pri fuel p pri = skip_loop fuel p (if ltb (nodes - 1) (pri + 1) then 2 else pri + 1)

abbrev pub idle_slot : ℤ
idle_slot = pos 50_000

abbrev pub full_slot : ℤ
full_slot = pos 2_000_000

-- Each slot of an idle round.
pub idle_loop : ℕ → ℕ → IntArray → IntArray
idle_loop zero i t_alloc = t_alloc
idle_loop (suc rounds) i t_alloc = idle_loop rounds (i + 1) (update t_alloc i idle_slot)

-- Does node `i` run the reducer of the job that is the furthest, and not done?
abbrev pub is_priority : IntArray → Progress → ℕ → Bool
is_priority reducer job i =
    not (is_zero (reducer i))
    && (not (is_zero job.pri_job)
        && (ltb_ℤ job.max_progress (pos 100) && eqb_ℤ (reducer i) job.pri_job))

-- The loop over the nodes: the table of slots, and `pri_reducer`.
pub alloc_loop : ℕ → ℕ → IntArray → Progress → ℕ → IntArray → ℕ → IntArray × ℕ
alloc_loop zero i reducer job pri t_alloc pri_reducer = (t_alloc, pri_reducer)
alloc_loop (suc rounds) i reducer job pri t_alloc pri_reducer =
    alloc_loop rounds (i + 1) reducer job pri
      (if i == pri then update t_alloc pri full_slot else update t_alloc i (pos 0))
      (if is_priority reducer job i then i else pri_reducer)

-- What the master does on its sockets: the beacon's `PUBLISH` and `SILENCE`, a message to a node, and
-- the wait for that node's answer.
pub data Event : Type 0 where
  publish : Event
  silence : Event
  sent : ℕ → Text → Event
  awaited : ℕ → Event

-- "node%d,%d,%d" in the 50 bytes of `config1`
pub config_message : ℕ → ℤ → ℕ → Run Text
config_message k slot pri_reducer = sprintf 50 (
    codes "node"
    ++ (format_int (pos k) ++ b',' ∷ (format_int slot ++ b',' ∷ format_int (pos pri_reducer))))

-- The block of `while (k <= 9)` for the socket of node `k`.
pub dispatch_node : ℕ → IntArray → ℕ → Run (List Event)
unfolding config_message
dispatch_node k t_alloc pri_reducer = if is_zero (t_alloc k) then done [] else do
  message ← config_message k (t_alloc k) pri_reducer
  done (sent k message ∷ awaited k ∷ [])

-- The blocks from node `k` on.
pub dispatch_loop : ℕ → ℕ → IntArray → ℕ → Run (List Event)
unfolding dispatch_node
dispatch_loop zero k t_alloc pri_reducer = done []
dispatch_loop (suc rounds) k t_alloc pri_reducer = do
  now ← dispatch_node k t_alloc pri_reducer
  later ← dispatch_loop rounds (k + 1) t_alloc pri_reducer
  done (now ++ later)

-- What the thread keeps from round to round: `pri`, `t_alloc`, and the global `slot`.
pub record State : Type 0 where
  pub pri : ℕ
  pub t_alloc : IntArray
  pub slot : ℤ

-- The table of slots of a round, with `pri` and `pri_reducer`.
pub record Plan : Type 0 where
  pub pri : ℕ
  pub t_alloc : IntArray
  pub pri_reducer : ℕ

pub plan : ℕ → IntArray → IntArray → Progress → State → Run Plan
plan fuel p reducer job s =
    if has_data p
    then (do
      pri ← next_pri fuel p s.pri
      let r = alloc_loop 9 1 reducer job pri s.t_alloc 0
      done (record { pri = pri; t_alloc = r.0; pri_reducer = r.1 }))
    else done (record { pri = s.pri; t_alloc = idle_loop 9 1 s.t_alloc; pri_reducer = 0 })

-- One round behind the reading of the file.
pub serve : ℕ → IntArray → IntArray → Progress → State → Run (State × List Event)
serve fuel p reducer job s = do
  r ← plan fuel p reducer job s
  events ← dispatch_loop 8 2 r.t_alloc r.pri_reducer
  done (record { pri = r.pri; t_alloc = r.t_alloc; slot = pos 0 }, publish ∷ silence ∷ events)

-- One round: the new state, and what was sent and awaited.
unfoldable pub round :
    ℕ → IntArray → IntArray → Option (List Text) → State → Run (State × List Event)
unfolding read_progress serve plan has_data next_pri idle_loop alloc_loop dispatch_loop
round fuel p reducer file s = serve fuel p reducer (read_progress file) s

pub round_lem :
    (fuel : ℕ) (p reducer : IntArray) (file : Option (List Text)) (s : State)
    → round fuel p reducer file s ≡ serve fuel p reducer (read_progress file) s
unfolding round
round_lem fuel p reducer file s = refl

-- `max_array`
pub max_loop : ℕ → ℕ → IntArray → ℤ → ℕ → ℕ
max_loop zero i array largest max = max
max_loop (suc rounds) i array largest max =
    let larger = ltb_ℤ largest (array i) in
    max_loop rounds (i + 1) array (if larger then array i else largest) (if larger then i else max)

unfoldable pub max_array : IntArray → ℕ → ℕ
unfolding max_loop
max_array array array_size = max_loop (array_size - 1) 1 array (array 0) 0
