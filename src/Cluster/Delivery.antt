-- ===== src/Cluster/Delivery.antt =====
-- What the nodes make of the messages of a round.
use rpi_hadoop.Prelude.{
  ℕ, zero, suc, ◌+◌, ◌≤◌, ◌<◌, ◌≡◌, refl, ◌∙◌, List, ◌++◌, Option, none, some, Text, codes, done, ℤ,
  pos, InInt, arith,
}
use native.Mathlib.Decide.{ℕ_discrete}
use rpi_hadoop.Scheduler.{Event, idle_slot}
use rpi_hadoop.Scheduler.Dispatch.{config_text, config_message-done, slot_events}
use rpi_hadoop.Scheduler.Round.{turns_for_all}
use rpi_hadoop.Slot.{Slot, recv_config}
use rpi_hadoop.Slot.Grant.{sleeps_of, recv_config-config_message}
use rpi_hadoop.Cluster.{Nodes, put, deliver, deliver_all}

-- A node that has counted down a slot.
abbrev pub counted_down : ℤ → Slot
counted_down slot = record { slot = pos 0; est = slot; priority_reducer = pos 0 }

recv_config-config_text :
    (fuel k r : ℕ) (slot : ℤ) (s : Slot)
    → k < 10
    → r < 10
    → InInt slot
    → sleeps_of slot < fuel
    → recv_config fuel (config_text k slot r) s
      ≡ done
          (record { state = counted_down slot; answer = some (codes "1"); sleeps = sleeps_of slot })
recv_config-config_text fuel k r slot s hk hr hs enough =
    rw (config_message-done k slot r (omega arith) hs (omega arith)) at
      (recv_config-config_message fuel k r slot s hk hr hs enough)

-- The nodes after one of them has counted down its slot, and its answer has been taken.
abbrev pub after_slot : ℕ → ℤ → Nodes → Nodes
after_slot k slot w = record {
  slot_of = put w.slot_of k (counted_down slot);
  answers = put (put w.answers k (some (codes "1"))) k none;
}

put_self : (answers : ℕ → Option Text) (k : ℕ) (a : Option Text) → put answers k a k ≡ a
put_self answers k a = ground arith

pub deliver_all-slot :
    (fuel k r : ℕ) (slot : ℤ) (events : List Event) (w : Nodes)
    → k < 10
    → r < 10
    → InInt slot
    → sleeps_of slot < fuel
    → deliver_all fuel (slot_events k slot r ++ events) w
      ≡ deliver_all fuel events (after_slot k slot w)
unfolding deliver_all deliver
deliver_all-slot fuel k r slot events w hk hr hs enough =
    rw (recv_config-config_text fuel k r slot (w.slot_of k) hk hr hs enough, put_self) refl

-- The nodes from `k` on, `n` of them.
abbrev pub Among : ℕ → ℕ → ℕ → Type 0
Among n k j = (k ≤ j) × (j < k + n)

-- After an idle round each of the nodes that were sent a slot has counted it down.
pub deliver_all-turns :
    (fuel n k : ℕ) (w : Nodes)
    → k + n ≤ 10
    → sleeps_of idle_slot < fuel
    → (w' : Nodes) × (deliver_all fuel (turns_for_all n k) w ≡ done w')
      × ((j : ℕ) → Among n k j → w'.slot_of j ≡ counted_down idle_slot)
      × ((j : ℕ) → j < k → w'.slot_of j ≡ w.slot_of j)
unfolding deliver_all
deliver_all-turns fuel zero k w le enough = (w, refl, λ j among. absurd (omega arith), λ j lt. refl)
deliver_all-turns fuel (suc n) k w le enough =
    let (w', run, served, rest) =
      deliver_all-turns fuel n (k + 1) (after_slot k idle_slot w) (omega arith) enough in
    (
      w',
      deliver_all-slot fuel k 0 idle_slot (turns_for_all n (k + 1)) w (omega arith) (omega arith)
            (omega arith) enough
          ∙ run,
      λ j among. elim (ℕ_discrete j k) [
        | yes e ↦ rest j (omega arith) ∙ ground arith
        | no ne ↦ served j (omega arith, omega arith)
      ],
      λ j lt. rest j (omega arith) ∙ ground arith,
    )
