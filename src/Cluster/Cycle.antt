-- ===== src/Cluster/Cycle.antt =====
-- From a node's report to a node's slot.
use rpi_hadoop.Prelude.{
  ℕ, ◌≤◌, ◌<◌, ◌≡◌, ◌≢◌, refl, ◌∙◌, inl, inr, true, not, ◌&&◌, Bool-cases, List, [], ◌∷◌, Option,
  Text, done, ◌==◌, if◌then◌else◌, All, pos, InInt, arith, is_positive,
}
use native.Mathlib.Decide.{ℕ_discrete}
use rpi_hadoop.Report.{nodes}
use rpi_hadoop.Report.Buffers.{IsSpeed, row}
use rpi_hadoop.Report.RoundTrip.{reported, process_report-compose_report}
use rpi_hadoop.Scheduler.{
  State, Event, publish, silence, next_node, full_slot, idle_slot, read_progress, round,
}
use rpi_hadoop.Scheduler.RoundRobin.{HasData, NoData, FirstAhead, FirstAhead-range}
use rpi_hadoop.Scheduler.Round.{Turn, turn, round_serves, round_idle}
use rpi_hadoop.Slot.{Slot}
use rpi_hadoop.Slot.Grant.{sleeps_of}
use rpi_hadoop.Cluster.{
  Nodes, Cluster, Reporting, take_report, hand_out, deliver, deliver_all, cycle,
}
use rpi_hadoop.Cluster.Delivery.{after_slot, counted_down, deliver_all-slot, deliver_all-turns}

-- The node can report this.
pub record IsReport (r : Reporting) : Type 0 where
  pub node : r.id < nodes
  pub size : InInt r.size
  pub reduce : InInt r.reduce
  pub rates : All IsSpeed (row 9 0 r.rates)

-- The program's parts after the report has been taken.
abbrev pub with_report : Reporting → Cluster → Cluster
with_report r c = record c { tables = reported r.id r.size r.reduce r.rates c.tables }

take_report-done :
    (r : Reporting) (c : Cluster) → IsReport r → take_report r c ≡ done (with_report r c)
unfolding take_report
take_report-done r c h = rw (
    process_report-compose_report r.id r.size r.reduce r.rates c.tables h.node h.size h.reduce
      h.rates)

-- The slot of each node after a turn: node 1 has no socket.
abbrev pub slot_after : ℕ → (ℕ → Slot) → ℕ → Slot
slot_after k slots j = if not (k == 1) && j == k then counted_down full_slot else slots j

deliver_all-slot_after :
    (fuel k r : ℕ) (w : Nodes)
    → k < 10
    → r < 10
    → sleeps_of full_slot < fuel
    → (w' : Nodes) × (deliver_all fuel (publish ∷ silence ∷ turn k r) w ≡ done w')
      × ((j : ℕ) → w'.slot_of j ≡ slot_after k w.slot_of j)
unfolding deliver_all deliver
deliver_all-slot_after fuel k r w hk hr enough = elim (Bool-cases (k == 1)) [
  | inl master ↦ (w, rw master refl, λ j. rw master refl)
  | inr node ↦ (
    after_slot k full_slot w,
    rw node (deliver_all-slot fuel k r full_slot [] w hk hr (omega arith) enough),
    λ j. rw node refl,
  )
]

reporter-HasData :
    (r : Reporting) (c : Cluster)
    → is_positive r.size ≡ true
    → HasData (with_report r c).tables.p r.id
reporter-HasData r c h =
    let same : (with_report r c).tables.p r.id ≡ r.size = ground arith in rw same h

hand_out_serves :
    (fuel k : ℕ) (file : Option (List Text)) (c : Cluster) (out : State × List Event)
    → round 9 c.tables.p c.tables.reducer file c.scheduler ≡ done out
    → Turn c.tables.reducer (read_progress file) k out
    → k < 10
    → sleeps_of full_slot < fuel
    → (c' : Cluster) × (hand_out fuel file c ≡ done c')
      × (c'.tables ≡ c.tables)
      × (c'.scheduler.pri ≡ k)
      × ((j : ℕ) → c'.nodes.slot_of j ≡ slot_after k c.nodes.slot_of j)
unfolding hand_out
hand_out_serves fuel k file c out run t hk enough =
    let (w', delivered, slots) =
      deliver_all-slot_after fuel k t.pri_reducer c.nodes hk (ground (arith, t.chosen.found))
        enough in
    (
      record c { scheduler = out.0; nodes = w' },
      rw (run, t.events, delivered) refl,
      refl,
      t.now,
      slots,
    )

-- A node from 2 to 9 reports a positive size and rates of at most four digits, and the round that follows
-- ends: it gives the whole slot to the first node with data round the ring behind the last one served, as
-- the tables now say. That node counts the slot down to its end, the others keep their state, and the
-- scheduler has taken the answer it waited for. If that node is 1, which has no socket and is found only
-- while no node has been served, nothing is sent and every node keeps its state.
pub cycle_serves :
    (fuel : ℕ) (r : Reporting) (file : Option (List Text)) (c : Cluster)
    → IsReport r
    → 2 ≤ r.id
    → is_positive r.size ≡ true
    → c.scheduler.pri < nodes
    → sleeps_of full_slot < fuel
    → (k : ℕ) × (c' : Cluster) × (cycle fuel r file c ≡ done c')
      × FirstAhead
          (reported r.id r.size r.reduce r.rates c.tables).p
          (next_node c.scheduler.pri)
          8
          k
      × (c'.tables ≡ reported r.id r.size r.reduce r.rates c.tables)
      × (c'.scheduler.pri ≡ k)
      × ((j : ℕ) → c'.nodes.slot_of j ≡ slot_after k c.nodes.slot_of j)
unfolding cycle
cycle_serves fuel r file c h node ready small enough =
    let t = reported r.id r.size r.reduce r.rates c.tables in
    let (k, out, run, first, turn) =
      round_serves r.id t.p t.reducer file c.scheduler small node h.node
        (reporter-HasData r c ready) in
    let (c', run', tables, pri, slots) =
      hand_out_serves fuel k file (with_report r c) out run turn (FirstAhead-range small first).1
        enough in
    (k, c', rw (take_report-done r c h) run', first, tables, pri, slots)

only_reporter :
    (r : Reporting) (c : Cluster) (k : ℕ)
    → ((j : ℕ) → j ≢ r.id → NoData c.tables.p j)
    → HasData (with_report r c).tables.p k
    → k ≡ r.id
only_reporter r c k others ready = elim (ℕ_discrete k r.id) [
  | yes e ↦ e
  | no ne ↦ absurd (ground (arith, others k ne))
]

-- If no other node has data, the node that reports is the one that gets the slot, wherever the turn was.
pub cycle_alone :
    (fuel : ℕ) (r : Reporting) (file : Option (List Text)) (c : Cluster)
    → IsReport r
    → 2 ≤ r.id
    → is_positive r.size ≡ true
    → c.scheduler.pri < nodes
    → sleeps_of full_slot < fuel
    → ((j : ℕ) → j ≢ r.id → NoData c.tables.p j)
    → (c' : Cluster) × (cycle fuel r file c ≡ done c')
      × (c'.scheduler.pri ≡ r.id)
      × (c'.nodes.slot_of r.id ≡ counted_down full_slot)
      × ((j : ℕ) → j ≢ r.id → c'.nodes.slot_of j ≡ c.nodes.slot_of j)
cycle_alone fuel r file c h node ready small enough others =
    let (k, c', run, first, tables, pri, slots) =
      cycle_serves fuel r file c h node ready small enough in
    let k-id : k ≡ r.id = only_reporter r c k others first.ready in
    (
      c',
      run,
      pri ∙ k-id,
      slots r.id ∙ rw k-id (ground arith),
      λ j ne. slots j ∙ rw k-id (ground arith),
    )

-- A round without data gives each of the nodes 2 to 9 a short slot, which it counts down, one after
-- another, and leaves the turn where it was.
pub hand_out_idle :
    (fuel : ℕ) (file : Option (List Text)) (c : Cluster)
    → ((j : ℕ) → 1 ≤ j → j < nodes → c.tables.p j ≡ pos 0)
    → sleeps_of idle_slot < fuel
    → (c' : Cluster) × (hand_out fuel file c ≡ done c')
      × (c'.tables ≡ c.tables)
      × (c'.scheduler.pri ≡ c.scheduler.pri)
      × ((j : ℕ) → 2 ≤ j → j < nodes → c'.nodes.slot_of j ≡ counted_down idle_slot)
unfolding hand_out deliver_all deliver
hand_out_idle fuel file c empty enough =
    let (t, run, short) = round_idle 9 c.tables.p c.tables.reducer file c.scheduler empty in
    let (w', delivered, slots, before) = deliver_all-turns fuel 8 2 c.nodes (omega arith) enough in
    (
      record c {
        scheduler = record { pri = c.scheduler.pri; t_alloc = t; slot = pos 0 };
        nodes = w';
      },
      rw (run, delivered) refl,
      refl,
      refl,
      λ j lo hi. slots j (lo, omega arith),
    )
