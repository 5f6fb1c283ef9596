-- ===== src/Tests/Meeting.antt =====
-- The handshake at a concrete state.
use rpi_hadoop.Prelude.{◌≤◌, ◌≡◌, refl, some, ◌⊎◌, arith}
use rpi_hadoop.Handshake.{
  master_action, node_action, receive, request, System, Step, node_requests, master_receives, Reach,
  here, next,
}
use rpi_hadoop.Handshake.Progress.{Finished, Reach-Finished, Reach-started}

first_request : node_action 0 ≡ some request
unfolding node_action
first_request = refl

first_receive : master_action 0 ≡ some (receive 2)
unfolding master_action
first_receive = refl

asked_once : (s : System) × Reach 1 s × (1 ≤ s.requests 2)
asked_once = (_, next here (node_requests 2 (omega arith) first_request), omega arith)

met_once : (s : System) × Reach 2 s
unfolding asked_once
met_once = (_, next asked_once.1 (master_receives 2 first_receive asked_once.2))

Reach-Finished_example : (2 ≤ 65) × (((t : System) × Step met_once.0 t) ⊎ Finished met_once.0)
Reach-Finished_example = Reach-Finished {n = 2} {s = met_once.0} met_once.1

Reach-started_example :
    (met_once.0.node 4 ≡ 5 → 9 ≤ met_once.0.master) × (met_once.0.requests 4 ≤ 1)
Reach-started_example = Reach-started {n = 2} {s = met_once.0} met_once.1 4 (omega arith)
