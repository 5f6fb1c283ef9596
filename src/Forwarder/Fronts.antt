-- ===== src/Forwarder/Fronts.antt =====
-- What `write_tun` finds at a queue, and what it logs.
use rpi_hadoop.Prelude.{
  ℕ, ◌-◌, ◌≤◌, ◌≡◌, ◌≢◌, refl, inl, inr, true, [], ◌∷◌, length-append, List, ◌==◌, false,
  Bool-cases, arith, length,
}
use rpi_hadoop.PacketQueue.{Packet, Ptr, null, Heap}
use rpi_hadoop.PacketQueue.Chain.{Cells, Chain}
use rpi_hadoop.PacketQueue.Array.{View, InArray, Represents}
use rpi_hadoop.Forwarder.Pipeline.{State, History, log}

pub Chain-ne-null :
    (h : Heap) (a : Ptr) (d : Packet) (cells : Cells) (rear : Ptr)
    → Chain h a d cells rear
    → a ≢ null
Chain-ne-null h a d [] rear c = c.0
Chain-ne-null h a d (x ∷ cells) rear c = c.0

pub nil_of_length : (cells : Cells) → length cells ≤ 0 → cells ≡ []
nil_of_length [] h = refl
nil_of_length (c ∷ cells) h = absurd (omega arith)

pub front_held :
    (s : State) (v : View) (i a : ℕ) (d : Packet) (cells : Cells)
    → Represents s.store v
    → InArray i
    → v i ≡ (a, d) ∷ cells
    → (s.store.q i).front ≢ null
front_held s v i a d cells r in_i first =
    let linked = rw first at ((r.queues i in_i).linked) in
    rw linked.0 (Chain-ne-null s.store.heap a d cells (s.store.q i).rear linked.1)

pub front_null :
    (s : State) (v : View) (i : ℕ)
    → Represents s.store v
    → InArray i
    → v i ≡ []
    → (s.store.q i).front ≡ null
front_null s v i r in_i empty = (rw empty at ((r.queues i in_i).linked)).0

pub is_null : (a : Ptr) → a ≡ null → (a == null) ≡ true
is_null a e = ground (arith, e)

pub not_null : (a : Ptr) → a ≢ null → (a == null) ≡ false
not_null a ne = ground (arith, ne)

pub longer_log :
    (accepted : List Packet) (h : History) (i j : ℕ) (d : Packet)
    → length accepted - length (log h i d j) ≤ length accepted - length (h j)
longer_log accepted h i j d = elim (Bool-cases (j == i)) [
  | inl same ↦ rw same (omega (arith, length-append (h j) (d ∷ [])))
  | inr other ↦ rw other (omega arith)
]

pub same_queue : (i : ℕ) → (i == i) ≡ true
same_queue i = ground arith

pub longer_here :
    (accepted : List Packet) (h : History) (i : ℕ) (d : Packet)
    → length accepted - length (log h i d i) ≤ length accepted - length (h i) - 1
longer_here accepted h i d = rw (same_queue i) (omega (arith, length-append (h i) (d ∷ [])))
