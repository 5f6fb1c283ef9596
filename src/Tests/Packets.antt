-- ===== src/Tests/Packets.antt =====
-- The packet path of a node at a concrete packet.
use rpi_hadoop.Prelude.{
  ℕ, ◌≡◌, ◌≢◌, ◌↔◌, refl, ◌+◌, ◌*◌, ◌≤◌, List, [], ◌∷◌, ◌++◌, none, some, arith, sym, ◌∙◌, done,
  ◌>>=◌, done-injective, pos, true, false, if◌then◌else◌, ◌==◌,
}
use rpi_hadoop.PacketQueue.{Packet, null, Heap, put, create_queue}
use rpi_hadoop.PacketQueue.Array.{
  InArray, Store, put_queue, enq_at, is_empty, View, with_cells, Represents,
}
use rpi_hadoop.PacketQueue.Array.Laws.{enq_at-Represents}
use rpi_hadoop.Forwarder.{queued, fate, handle, write_turn, shuffle_port, hadoop_hb}
use rpi_hadoop.Forwarder.Ports.{HasBytes, fate_queued_iff, fate_signed_ne_queued}
use rpi_hadoop.Forwarder.Pipeline.{State, Reach, here, next, read, pass, write, set_slot}
use rpi_hadoop.Forwarder.Late.{late, slots, late-le-slots}
use rpi_hadoop.Forwarder.Scan.{resume, scans}
use rpi_hadoop.Forwarder.Draining.{Reach-drains}
use rpi_hadoop.Forwarder.Order.{
  start, undelivered, start-IsSound, Reach-fifo, Reach-bounded, Reach-write_ready,
}

-- A packet for node 3 from port 13562, which is 52 * 256 + 250.
abbrev packet : Packet
packet = record {
  size = 1000;
  byte = λ i. if i == 19 then 3 else if i == 20 then 52 else if i == 21 then 250 else 0;
}

packet-HasBytes : HasBytes packet
packet-HasBytes = record { dest = omega arith; high = omega arith; low = omega arith }

fate_queued_iff_example : (fate false packet ≡ queued 3) ↔ (
    (packet.byte 19 ≡ 3)
    × (1 ≤ 3)
    × (3 ≤ 9)
    × (packet.byte 20 * 256 + packet.byte 21 ≡ shuffle_port)
    × (701 ≤ packet.size))
fate_queued_iff_example = fate_queued_iff packet 3 packet-HasBytes

fate_test : fate false packet ≡ queued 3
unfolding fate
fate_test = refl

fate_signed_ne_queued_example : fate true packet ≢ queued 3
fate_signed_ne_queued_example = fate_signed_ne_queued packet 3 packet-HasBytes

-- Port 9000 is not in the list: the source has 8041.9000.
port_9000 : hadoop_hb 1234 9000 ≡ 0
unfolding hadoop_hb
port_9000 = refl

abbrev no_heap : Heap
no_heap a = none

abbrev no_cells : View
no_cells i = []

empty-Represents : Represents ((start no_heap).store) no_cells
empty-Represents = (start-IsSound no_heap).represents

-- Queue 3 with the packet at address 1, as the heap has it.
abbrev one_queued : Store
one_queued = record {
  q =
      put_queue create_queue 3
        (record { id = 3; is_enqueuing = false; count = 0 + 1; front = 1; rear = 1 });
  heap = put no_heap 1 (some (record { contents = packet; ptr = null }));
}

abbrev cells_of_three : View
cells_of_three = with_cells no_cells 3 ((1, packet) ∷ [])

enq_test : enq_at 3 1 packet ((start no_heap).store) ≡ done one_queued
unfolding enq_at start create_queue
enq_test = refl

one_queued-Represents : Represents one_queued cells_of_three
unfolding start
one_queued-Represents =
    let (st, run, r) =
      enq_at-Represents ((start no_heap).store) no_cells 3 1 packet empty-Represents (omega arith)
        (omega arith) refl in
    let same : st ≡ one_queued = done-injective st one_queued (sym run ∙ enq_test) in rw same at r

abbrev after_read : State
after_read = record {
  store = one_queued;
  slot = pos 0;
  waiting = none;
  accepted = λ i. if i == 3 then packet ∷ [] else [];
  delivered = λ i. [];
  tun0 = [];
}

read_step : Reach false (start no_heap) after_read
unfolding start fate handle enq_at create_queue
read_step = next here (
    read packet 1 (one_queued, []) (omega arith) refl (unfold is_empty in omega arith) refl
      (λ i. record after_read { accepted = λ j. if j == 3 then packet ∷ [] else [] }))

-- The scheduler has given the node a slot.
abbrev with_slot : State
with_slot = record after_read { slot = pos 2_000_000 }

abbrev passed : State
passed = record with_slot { waiting = some 3 }

Reach-passed : Reach false (start no_heap) passed
unfolding create_queue
Reach-passed =
    next (next read_step (set_slot (pos 2_000_000) refl))
      (pass 3 (omega arith) (omega arith) refl refl refl)

Reach-fifo_example : (rest : List Packet) × (passed.accepted 3 ≡ passed.delivered 3 ++ rest)
Reach-fifo_example = Reach-fifo no_heap 3 Reach-passed (omega arith)

Reach-bounded_example :
    (is_empty passed.store ≡ undelivered 9 1 passed) × (undelivered 9 1 passed ≤ 500)
Reach-bounded_example = Reach-bounded no_heap Reach-passed

Reach-write_ready_example :
    (st : Store) × (d : Packet) × (write_turn 3 passed.store ≡ done (st, d ∷ []))
Reach-write_ready_example = Reach-write_ready no_heap 3 Reach-passed refl

-- The writer waits at queue 3 with a packet.
Reach-drains_example :
    (t' : State) × ((resume (some 3) 3 passed >>= λ s. scans 1 s) ≡ done t')
    × Reach false passed t'
    × (t'.accepted ≡ passed.accepted)
    × (t'.slot ≡ pos 2_000_000)
    × ((j : ℕ) → InArray j → t'.delivered j ≡ passed.accepted j)
    × (is_empty t'.store ≡ 0)
unfolding create_queue is_empty
Reach-drains_example =
    Reach-drains no_heap false passed 3 1 Reach-passed refl (omega arith) (omega arith)
      (omega arith)

-- The slot ends behind the test, and the packet is written without it.
written_late : (t : State) × Reach false (start no_heap) t
written_late =
    let (st, d, run) = Reach-write_ready no_heap 3 Reach-passed refl in
    (_, next (next Reach-passed (set_slot (pos 0) refl)) (write 3 d st refl run refl))

late_test : (late written_late.1 ≡ 1) × (slots written_late.1 ≡ 1)
unfolding written_late Reach-passed read_step late slots start
late_test = (refl, refl)

late-le-slots_example : late written_late.1 ≤ slots written_late.1
late-le-slots_example = late-le-slots no_heap written_late.1
