-- ===== src/Scheduler/Round.antt =====
-- One round of the scheduler: who is sent a slot, and when the round does not end.
use rpi_hadoop.Prelude.{
  ℕ, zero, suc, ◌+◌, ◌≤◌, ◌<◌, ◌≡◌, refl, inl, inr, true, false, arith, ◌==◌, if◌then◌else◌,
  Bool-cases, ◌∙◌, pos, is_zero, List, [], ◌∷◌, ◌++◌, Text, InInt, done, out_of_fuel, Option,
}
use rpi_hadoop.CArray.{IntArray}
use rpi_hadoop.Report.{nodes}
use rpi_hadoop.Scheduler.{
  State, Progress, Event, publish, silence, dispatch_loop, plan, serve, round, round_lem, has_data,
  next_pri, next_node, alloc_loop, full_slot, idle_slot, idle_loop, read_progress,
}
use rpi_hadoop.Scheduler.RoundRobin.{
  HasData, NoData, FirstAhead, FirstAhead-range, next_pri_total, next_pri_hangs,
  nonzero_of_positive,
}
use rpi_hadoop.Scheduler.Allocation.{
  idle_loop_lem, alloc_loop_slots, LastPriority, alloc_loop_last, has_data-true, has_data-false,
}
use rpi_hadoop.Scheduler.Dispatch.{slot_events, dispatch_one, dispatch_loop_none, dispatch_loop_one}

-- The events of a turn: node 1 has no socket.
abbrev pub turn : ℕ → ℕ → List Event
turn k r = if k == 1 then [] else slot_events k full_slot r

-- The table of slots of a turn.
abbrev pub AloneIn : ℕ → IntArray → Type 0
AloneIn k t = (i : ℕ) → 1 ≤ i → i < nodes → t i ≡ (if i == k then full_slot else pos 0)

dispatch_turn :
    (k r : ℕ) (t : IntArray)
    → 1 ≤ k
    → k < nodes
    → InInt (pos r)
    → AloneIn k t
    → dispatch_loop 8 2 t r ≡ done (turn k r)
dispatch_turn k r t lo hi hr h = elim (Bool-cases (k == 1)) [
  | inl master ↦
      rw master
        (dispatch_loop_none 8 2 t r (λ j a b. h j (omega arith) (omega arith) ∙ ground arith))
  | inr node ↦ rw node (
      dispatch_loop_one 8 2 k t r (ground arith) (omega arith) hi hr (h k lo hi ∙ ground arith)
        (λ j a b ne. h j (omega arith) (omega arith) ∙ ground arith))
]

plan_busy :
    (fuel k : ℕ) (p reducer : IntArray) (job : Progress) (s : State)
    → has_data p ≡ true
    → next_pri fuel p s.pri ≡ done k
    → plan fuel p reducer job s
      ≡ done (record {
        pri = k;
        t_alloc = (alloc_loop 9 1 reducer job k s.t_alloc 0).0;
        pri_reducer = (alloc_loop 9 1 reducer job k s.t_alloc 0).1;
      })
plan_busy fuel k p reducer job s has run = unfold plan in rw (has, run)

-- What a round for node `k` does.
pub record Turn (reducer : IntArray) (job : Progress) (k : ℕ) (out : State × List Event)
    : Type 0 where
  pub pri_reducer : ℕ
  pub chosen : LastPriority reducer job k 1 9 0 pri_reducer
  pub now : out.0.pri ≡ k
  pub alone : AloneIn k out.0.t_alloc
  pub events : out.1 ≡ publish ∷ silence ∷ turn k pri_reducer

serve-Turn :
    (fuel k : ℕ) (p reducer : IntArray) (job : Progress) (s : State)
    → has_data p ≡ true
    → next_pri fuel p s.pri ≡ done k
    → 1 ≤ k
    → k < nodes
    → (out : State × List Event) × (serve fuel p reducer job s ≡ done out) × Turn reducer job k out
serve-Turn fuel k p reducer job s has run lo hi = (
  (record { pri = k; t_alloc = t; slot = pos 0 }, publish ∷ silence ∷ turn k r),
  run_serve,
  record { pri_reducer = r; chosen = chosen; now = refl; alone = alone; events = refl },
)
  where
    t : IntArray
    t = (alloc_loop 9 1 reducer job k s.t_alloc 0).0

    r : ℕ
    r = (alloc_loop 9 1 reducer job k s.t_alloc 0).1

    chosen : LastPriority reducer job k 1 9 0 r
    chosen = alloc_loop_last reducer job k 9 1 0 s.t_alloc

    small : InInt (pos r)
    small = ground (arith, chosen.found)

    alone : AloneIn k t
    alone = λ i a b. alloc_loop_slots reducer job k i s.t_alloc a b

    run_serve :
        serve fuel p reducer job s
        ≡ done (record { pri = k; t_alloc = t; slot = pos 0 }, publish ∷ silence ∷ turn k r)
    run_serve =
        unfold serve in
        rw (plan_busy fuel k p reducer job s has run, dispatch_turn k r t lo hi small alone)

-- A round ends if a node from 2 on has data. It gives the whole slot to the first such node round the
-- ring behind the last one served (node 1, which has no socket, may be found in the very first round),
-- and no slot to any other node; that node alone is sent a message, which names the priority reducer,
-- and its answer is awaited.
pub round_serves :
    (j : ℕ) (p reducer : IntArray) (file : Option (List Text)) (s : State)
    → s.pri < nodes
    → 2 ≤ j
    → j < nodes
    → HasData p j
    → (k : ℕ) × (out : State × List Event) × (round 9 p reducer file s ≡ done out)
      × FirstAhead p (next_node s.pri) 8 k
      × Turn reducer (read_progress file) k out
round_serves j p reducer file s hi lo' hi' ready =
    let (k, run, first) = next_pri_total s.pri j p hi lo' hi' ready in
    let (out, e, t) =
      serve-Turn 9 k p reducer (read_progress file) s
        (has_data-true j p (omega arith) hi' (nonzero_of_positive (p j) ready)) run
        (FirstAhead-range hi first).0 (FirstAhead-range hi first).1 in
    (k, out, round_lem 9 p reducer file s ∙ e, first, t)

-- Once a node has been served, a round over a table that does not change never ends, whatever the fuel, if
-- an entry of `p` from node 1 on is not 0 and none of the nodes 2 to 9 has a positive one: the test before
-- the loop and the loop do not agree about node 1 and about negative sizes.
pub round_hangs :
    (fuel j : ℕ) (p reducer : IntArray) (file : Option (List Text)) (s : State)
    → 1 ≤ s.pri
    → s.pri < nodes
    → 1 ≤ j
    → j < nodes
    → is_zero (p j) ≡ false
    → ((i : ℕ) → 2 ≤ i → i < nodes → NoData p i)
    → round fuel p reducer file s ≡ out_of_fuel
round_hangs fuel j p reducer file s one hi lo' hi' nz empty =
    round_lem fuel p reducer file s
    ∙ (unfold serve plan in
        rw (has_data-true j p lo' hi' nz, next_pri_hangs fuel s.pri p one hi empty))

-- A slot for each of the nodes from `k` on, one after another.
abbrev pub turns_for_all : ℕ → ℕ → List Event
turns_for_all zero k = []
turns_for_all (suc n) k = slot_events k idle_slot 0 ++ turns_for_all n (k + 1)

dispatch_loop_all :
    (n k : ℕ) (t : IntArray)
    → k + n ≤ nodes
    → ((j : ℕ) → k ≤ j → j < k + n → t j ≡ idle_slot)
    → dispatch_loop n k t 0 ≡ done (turns_for_all n k)
unfolding dispatch_loop
dispatch_loop_all zero k t le h = refl
dispatch_loop_all (suc n) k t le h = rw (
  dispatch_one k t 0 idle_slot refl (h k (omega arith) (omega arith)) (omega arith) (omega arith)
      (omega arith),
  dispatch_loop_all n (k + 1) t (omega arith) (λ j lo hi. h j (omega arith) (omega arith)),
)

-- If no node has reported data, the round hands a short slot to each of the nodes 2 to 9, one after
-- another, and leaves the turn where it was.
pub round_idle :
    (fuel : ℕ) (p reducer : IntArray) (file : Option (List Text)) (s : State)
    → ((j : ℕ) → 1 ≤ j → j < nodes → p j ≡ pos 0)
    → (t : IntArray) × (round fuel p reducer file s
        ≡ done (
          record { pri = s.pri; t_alloc = t; slot = pos 0 },
          publish ∷ silence ∷ turns_for_all 8 2,
        ))
      × ((j : ℕ) → 1 ≤ j → j < nodes → t j ≡ idle_slot)
round_idle fuel p reducer file s empty =
    let t : IntArray = idle_loop 9 1 s.t_alloc in
    let short : ((j : ℕ) → 1 ≤ j → j < nodes → t j ≡ idle_slot) =
      λ j lo hi. idle_loop_lem j s.t_alloc lo hi in
    (
      t,
      round_lem fuel p reducer file s
          ∙ (unfold serve plan in
              rw (
                has_data-false p empty,
                dispatch_loop_all 8 2 t (omega arith)
                    (λ j lo hi. short j (omega arith) (omega arith)),
              )),
      short,
    )
