-- ===== src/Forwarder/Order.antt =====
-- What holds in every state that a node's threads reach.
use rpi_hadoop.Prelude.{
  ℕ, zero, suc, ◌+◌, ◌-◌, ◌≤◌, ◌≡◌, refl, ap, length, length-append, Bool, List, [], ◌∷◌, ◌++◌,
  none, some, arith, done, pos, inl, inr,
}
use rpi_hadoop.PacketQueue.{Packet, Heap, create_queue}
use rpi_hadoop.PacketQueue.Ops.{create_queue-IsQueue, create_queue-id}
use rpi_hadoop.PacketQueue.Array.{Store, is_empty, View, InArray}
use rpi_hadoop.PacketQueue.Array.Laws.{held, is_empty-held}
use rpi_hadoop.PacketQueue.Chain.{Cells}
use rpi_hadoop.Forwarder.{write_turn}
use rpi_hadoop.Forwarder.Pipeline.{State, Reach, here, next, packets, IsSound}
use rpi_hadoop.Forwarder.Turns.{cases, write_turn_first, Step-IsSound}

-- The state behind the calls of `create_queue`.
unfoldable pub start : Heap → State
start heap = record {
  store = record { q = create_queue; heap = heap };
  slot = pos 0;
  waiting = none;
  accepted = λ i. [];
  delivered = λ i. [];
  tun0 = [];
}

pub start-IsSound : (heap : Heap) → IsSound (start heap) (λ i. [])
unfolding start
start-IsSound heap = record {
  represents = record {
    queues = λ i in_i. create_queue-IsQueue heap i;
    ids = λ i in_i. create_queue-id i;
    disjoint = λ i j a b ne. tt;
  };
  order = λ i in_i. refl;
  bounded = omega arith;
  kept = λ i w. cc;
}

-- Every state that the threads reach is sound.
pub Reach-IsSound :
    (heap : Heap) {char_signed : Bool} {t : State}
    → Reach char_signed (start heap) t
    → (v : View) × IsSound t v
Reach-IsSound heap here = (λ i. [], start-IsSound heap)
Reach-IsSound heap (next r step) = let (v, is) = Reach-IsSound heap r in Step-IsSound _ v is step

-- Whatever packets arrive and however the threads take turns, the packets that `write_tun` has written
-- from a queue are the first of those that were put into it, in the same order.
pub Reach-fifo :
    (heap : Heap) (i : ℕ) {char_signed : Bool} {t : State}
    → Reach char_signed (start heap) t
    → InArray i
    → (rest : List Packet) × (t.accepted i ≡ t.delivered i ++ rest)
Reach-fifo heap i r in_i = let (v, is) = Reach-IsSound heap r in (packets (v i), is.order i in_i)

-- The packets that went into a queue and have not come out of it.
abbrev pub owed : State → ℕ → ℕ
owed t i = length (t.accepted i) - length (t.delivered i)

-- The packets that went into the queues from `i` on, and have not come out.
unfoldable pub undelivered : ℕ → ℕ → State → ℕ
undelivered zero i t = 0
undelivered (suc rounds) i t = owed t i + undelivered rounds (i + 1) t

length-packets : (cells : Cells) → length (packets cells) ≡ length cells
length-packets [] = refl
length-packets (c ∷ cells) = ap suc (length-packets cells)

left_over :
    (accepted delivered : List Packet) (cells : Cells)
    → accepted ≡ delivered ++ packets cells
    → length accepted - length delivered ≡ length cells
left_over accepted delivered cells e = omega (
  arith,
  ap (λ (l : List Packet). length l) e,
  length-append delivered (packets cells),
  length-packets cells,
)

pub owed-length : (t : State) (v : View) (i : ℕ) → IsSound t v → InArray i → owed t i ≡ length (v i)
owed-length t v i is in_i = left_over (t.accepted i) (t.delivered i) (v i) (is.order i in_i)

undelivered-held :
    (rounds i : ℕ) (t : State) (v : View)
    → IsSound t v
    → 1 ≤ i
    → i + rounds ≤ 10
    → undelivered rounds i t ≡ held rounds i v
unfolding undelivered
undelivered-held zero i t v is lo hi = refl
undelivered-held (suc rounds) i t v is lo hi = omega (
  arith,
  owed-length t v i is (lo, omega arith),
  undelivered-held rounds (i + 1) t v is (omega arith) (omega arith),
)

-- In every state that the threads reach, `is_empty` is the number of packets that were put into the nine
-- queues and have not been written from them, and these are never more than 500.
pub Reach-bounded :
    (heap : Heap) {char_signed : Bool} {t : State}
    → Reach char_signed (start heap) t
    → (is_empty t.store ≡ undelivered 9 1 t) × (undelivered 9 1 t ≤ 500)
Reach-bounded heap {t} r =
    let (v, is) = Reach-IsSound heap r in
    let same = undelivered-held 9 1 t v is (omega arith) (omega arith) in
    (omega (arith, is_empty-held t.store v is.represents, same), omega (arith, same, is.bounded))

-- When `write_tun` has passed the test of the slot for a queue and takes the lock, its turn succeeds and
-- writes exactly one packet: the queue cannot have been emptied meanwhile, so neither a null front nor
-- the branch that unlocks the mutex twice is reached.
pub Reach-write_ready :
    (heap : Heap) (i : ℕ) {char_signed : Bool} {t : State}
    → Reach char_signed (start heap) t
    → t.waiting ≡ some i
    → (st : Store) × (d : Packet) × (write_turn i t.store ≡ done (st, d ∷ []))
Reach-write_ready heap i {t} r w =
    let (v, is) = Reach-IsSound heap r in
    elim (cases (v i)) [
      | inl empty ↦ absurd ((is.kept i w).1 empty)
      | inr (a, d, cells, first) ↦
          let (st, run, _) =
            write_turn_first t.store v i a d cells is.represents (is.kept i w).0 first in
          (st, d, run)
    ]
