-- ===== src/Cluster.antt =====
-- The master and its nodes joined by ZeroMQ's sockets: the messages of a round of `send_config` in
-- CreateLoopbackMS.c reach `recv_config` in CreateLoopbackCS1Q.c, whose answers the round waits for.
pub mod Delivery
pub mod Cycle
pub mod Latest
pub mod Threads
pub mod Rates
use rpi_hadoop.Prelude.{
  ℕ, ◌≡◌, List, [], ◌∷◌, Option, none, some, Text, Run, done, out_of_fuel, ◌>>=◌, ◌==◌,
  if◌then◌else◌, ℤ, pos,
}
use rpi_hadoop.CArray.{IntArray}
use rpi_hadoop.Report.{Tables, compose_report, process_report}
use rpi_hadoop.Scheduler.{State, Event, publish, silence, sent, awaited, round}
use rpi_hadoop.Slot.{Slot, recv_config}

abbrev pub put {ℓ} : {A : Type ℓ} → (ℕ → A) → ℕ → A → ℕ → A
put f k v j = if j == k then v else f j

-- The state of `recv_config` on each node, and the answer that is on its way from it.
pub record Nodes : Type 0 where
  pub slot_of : ℕ → Slot
  pub answers : ℕ → Option Text

-- The wait for the answer of node `k`. It has no end if none is on its way.
pub take_answer : ℕ → Option Text → Nodes → Run Nodes
take_answer k none w = out_of_fuel
take_answer k (some answer) w = done (record w { answers = put w.answers k none })

-- What one event of the master does at the nodes. The beacon only tells them where the master is.
pub deliver : ℕ → Event → Nodes → Run Nodes
unfolding take_answer
deliver fuel publish w = done w
deliver fuel silence w = done w
deliver fuel (sent k message) w = do
  handled ← recv_config fuel message (w.slot_of k)
  done
      (record { slot_of = put w.slot_of k handled.state; answers = put w.answers k handled.answer })
deliver fuel (awaited k) w = take_answer k (w.answers k) w

pub deliver_all : ℕ → List Event → Nodes → Run Nodes
deliver_all fuel [] w = done w
deliver_all fuel (event ∷ events) w = do w' ← deliver fuel event w; deliver_all fuel events w'

-- The program's parts from round to round: the tables of the reports, the scheduler, and the nodes.
pub record Cluster : Type 0 where
  pub tables : Tables
  pub scheduler : State
  pub nodes : Nodes

-- A report of a node: its number, the size of its waiting outputs, its reducer's job, and its rates.
pub record Reporting : Type 0 where
  pub id : ℕ
  pub size : ℤ
  pub reduce : ℤ
  pub rates : IntArray

-- A report reaches the master.
pub take_report : Reporting → Cluster → Run Cluster
take_report r c = do
  tables ← compose_report (pos r.id) r.size r.reduce r.rates >>= λ content.
      process_report content c.tables
  done (record c { tables = tables })

-- A round of the scheduler with what it finds in the tables, and the slots that it hands out.
pub hand_out : ℕ → Option (List Text) → Cluster → Run Cluster
hand_out fuel file c = do
  out ← round 9 c.tables.p c.tables.reducer file c.scheduler
  nodes ← deliver_all fuel out.1 c.nodes
  done (record c { scheduler = out.0; nodes = nodes })

-- A report, and the round that follows it.
unfoldable pub cycle : ℕ → Reporting → Option (List Text) → Cluster → Run Cluster
unfolding take_report hand_out deliver_all deliver
cycle fuel r file c = do c' ← take_report r c; hand_out fuel file c'
