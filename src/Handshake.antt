-- ===== src/Handshake.antt =====
-- How the master and its nodes meet before the first slot: the request and reply exchange of
-- `send_config` in CreateLoopbackMS.c, and of `main` in CreateLoopbackCS1Q.c. ZeroMQ keeps a message until
-- it is received.
pub mod Invariant
pub mod Progress
pub mod Addresses
use rpi_hadoop.Prelude.{
  ℕ, zero, suc, ◌+◌, ◌-◌, ◌≤◌, ◌<◌, ◌≡◌, Bool, Option, none, some, ltb, leb, ◌==◌, if◌then◌else◌,
  Text, codes, ◌++◌, Run, ◌>>=◌, ℤ, pos, negsuc, neg, ◌*◌,
}
use rpi_hadoop.HostNumber.{Interfaces, node_number}
use rpi_hadoop.CText.{format_int, sprintf}

-- What the master does for its sockets: it receives from the socket of node `k`, starts
-- `process_report`, and answers node `k`.
pub data MasterAction : Type 0 where
  receive : ℕ → MasterAction
  start_reports : MasterAction
  answer : ℕ → MasterAction

-- Action number `pc`: a message of each of the nodes 2 to 9, the start of the thread, an answer to each of
-- them, and another message of each.
unfoldable pub master_action : ℕ → Option MasterAction
master_action pc =
    if ltb pc 8
    then some (receive (pc + 2))
    else if pc == 8
    then some start_reports
    else if ltb pc 17
    then some (answer (pc - 7))
    else if ltb pc 25
    then some (receive (pc - 15))
    else none

-- What a node does: it sends a request, waits for the answer, and starts `recv_config` and `report_task`.
pub data NodeAction : Type 0 where
  request : NodeAction
  await : NodeAction
  start_config : NodeAction
  start_report : NodeAction

unfoldable pub node_action : ℕ → Option NodeAction
node_action pc =
    if pc == 0
    then some request
    else if pc == 1
    then some await
    else if pc == 2
    then some request
    else if pc == 3
    then some start_config
    else if pc == 4
    then some start_report
    else none

-- Where the master and each node stand, and the messages on their way.
pub record System : Type 0 where
  pub master : ℕ
  pub node : ℕ → ℕ
  pub requests : ℕ → ℕ
  pub replies : ℕ → ℕ

abbrev pub put : (ℕ → ℕ) → ℕ → ℕ → ℕ → ℕ
put f k v j = if j == k then v else f j

abbrev pub IsNode : ℕ → Type 0
IsNode k = (2 ≤ k) × (k ≤ 9)

abbrev pub start : System
start = record { master = 0; node = λ k. 0; requests = λ k. 0; replies = λ k. 0 }

-- One action of the master or of a node. A receiver waits for a message.
pub data Step (s : System) : System → Type 0 where
  master_receives :
      (k : ℕ)
      → master_action s.master ≡ some (receive k)
      → 1 ≤ s.requests k
      → Step s (record s { master = s.master + 1; requests = put s.requests k (s.requests k - 1) })
  master_starts :
      master_action s.master ≡ some start_reports → Step s (record s { master = s.master + 1 })
  master_answers :
      (k : ℕ)
      → master_action s.master ≡ some (answer k)
      → Step s (record s { master = s.master + 1; replies = put s.replies k (s.replies k + 1) })
  node_requests :
      (k : ℕ)
      → IsNode k
      → node_action (s.node k) ≡ some request
      → Step s (record s {
        node = put s.node k (s.node k + 1);
        requests = put s.requests k (s.requests k + 1);
      })
  node_awaits :
      (k : ℕ)
      → IsNode k
      → node_action (s.node k) ≡ some await
      → 1 ≤ s.replies k
      → Step s (record s {
        node = put s.node k (s.node k + 1);
        replies = put s.replies k (s.replies k - 1);
      })
  node_configures :
      (k : ℕ)
      → IsNode k
      → node_action (s.node k) ≡ some start_config
      → Step s (record s { node = put s.node k (s.node k + 1) })
  node_reports :
      (k : ℕ)
      → IsNode k
      → node_action (s.node k) ≡ some start_report
      → Step s (record s { node = put s.node k (s.node k + 1) })

-- What is reached from the start in a number of steps.
pub data Reach : ℕ → System → Type 0 where
  here : Reach 0 start
  next : {n : ℕ} {s t : System} → Reach n s → Step s t → Reach (suc n) t

-- The address that the master binds for node `k`.
unfoldable pub bound_address : ℕ → Option Text
bound_address k =
    if k == 2
    then some (codes "tcp://10.0.0.101:2222")
    else if k == 3
    then some (codes "tcp://10.0.0.101:3333")
    else if k == 4
    then some (codes "tcp://10.0.0.101:4444")
    else if k == 5
    then some (codes "tcp://10.0.0.101:5555")
    else if k == 6
    then some (codes "tcp://10.0.0.101:6666")
    else if k == 7
    then some (codes "tcp://10.0.0.101:7777")
    else if k == 8
    then some (codes "tcp://10.0.0.101:8888")
    else if k == 9
    then some (codes "tcp://10.0.0.101:9999")
    else none

-- The address that a node of host number `k` connects to, in the 50 bytes of `str`.
unfoldable pub node_address : ℕ → Run Text
node_address k = sprintf 50 (codes "tcp://10.0.0.101:" ++ format_int (pos (k * 1111)))

-- The same for the `int` that `get_Last_IP_Digit` returns.
unfoldable pub master_address : ℤ → Run Text
unfolding node_address
master_address (pos k) = node_address k
master_address (negsuc k) =
    sprintf 50 (codes "tcp://10.0.0.101:" ++ format_int (neg ((k + 1) * 1111)))

-- The address that a node of these interfaces composes.
unfoldable pub own_address : Interfaces → Run Text
unfolding node_number master_address
own_address net = do number ← node_number net; master_address number
