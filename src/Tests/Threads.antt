-- ===== src/Tests/Threads.antt =====
-- The threads of the cluster at a concrete state: node 3 counts down its slot.
use rpi_hadoop.Prelude.{ℕ, ◌≡◌, refl, true, List, [], ◌∷◌, none, codes, done, pos, is_positive}
use rpi_hadoop.CText.{tokens, atoi, sprintf, format_int}
use rpi_hadoop.CArray.{zeros, update}
use rpi_hadoop.Scheduler.{State, Event, round}
use rpi_hadoop.Scheduler.Fairness.{Input, rounds}
use rpi_hadoop.Scheduler.Events.{all_events}
use rpi_hadoop.Slot.{granted}
use rpi_hadoop.Cluster.Threads.{
  World, Reach, here, next, acts, publishes, silences, sends, turns, receives, start, take_message,
  Continues,
}
use rpi_hadoop.Cluster.Threads.Turns.{IsIdle}
use rpi_hadoop.Cluster.Threads.Exclusive.{Reach-one_sender}
use rpi_hadoop.Cluster.Threads.Completion.{Reach-completes}

abbrev inputs : List Input
inputs =
    record { p = update (update zeros 3 (pos 10)) 7 (pos 20); reducer = zeros; file = none } ∷ []

abbrev first : State
first = record { pri = 0; t_alloc = zeros; slot = pos 0 }

one_round : (outs : List (State × List Event)) × (rounds inputs first ≡ done outs)
unfolding rounds round sprintf format_int
one_round = (_, refl)

counting_node :
    (w : World) × Reach (start (all_events one_round.0)) w
    × (is_positive (w.node 3).slot.slot ≡ true)
unfolding one_round take_message granted tokens atoi
counting_node = (
  _,
  next
      (next (next (next here (acts (publishes _ refl))) (acts (silences _ refl)))
        (acts (sends 3 (codes "node3,2000000,0") _ refl)))
      (acts (turns 3 _ (receives (codes "node3,2000000,0") [] refl refl refl))),
  refl,
)

Reach-one_sender_example : ◌≡◌ {A = ℕ} 3 3
Reach-one_sender_example =
    Reach-one_sender inputs first one_round.0 one_round.1 {w = counting_node.0} counting_node.1 3 3
      counting_node.2 counting_node.2

Reach-completes_example :
    (w' : World) × Continues counting_node.0 w' × (w'.ahead ≡ []) × ((k : ℕ) → IsIdle (w'.node k))
Reach-completes_example =
    Reach-completes inputs first one_round.0 one_round.1 {w = counting_node.0} counting_node.1
