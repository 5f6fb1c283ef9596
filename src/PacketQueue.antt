-- ===== src/PacketQueue.antt =====
-- The packet queues of CreateLoopbackCS1Q.c: `struct node`, `struct queue`, `create_queue`, `enq`, `deq`
-- and `is_empty`, on an explicit heap. A node and the buffer that its `data` points at are allocated
-- and freed together, so they are one cell; `temp` and `front1` are scratch variables of `enq` and
-- `deq`, and `malloc` is the parameter `fresh`.
pub mod Chain
pub mod Ops
pub mod Array
use rpi_hadoop.Prelude.{
  ℕ, zero, suc, ◌+◌, ◌-◌, ◌≡◌, refl, Bool, true, false, List, [], ◌∷◌, Option, none, some, ltb,
  ◌==◌, if◌then◌else◌, Run, done, fault, ◌>>=◌,
}

-- A packet: how many bytes were read, and the bytes of its buffer.
pub record Packet : Type 0 where
  pub size : ℕ
  pub byte : ℕ → ℕ

abbrev pub Ptr : Type 0
Ptr = ℕ

abbrev pub null : Ptr
null = 0

pub record Node : Type 0 where
  pub contents : Packet
  pub ptr : Ptr

abbrev pub Heap : Type 0
Heap = Ptr → Option Node

abbrev pub put : Heap → Ptr → Option Node → Heap
put h p n a = if a == p then n else h a

pub record Queue : Type 0 where
  pub id : ℕ
  pub is_enqueuing : Bool
  pub count : ℕ
  pub front : Ptr
  pub rear : Ptr

unfoldable pub create_queue : ℕ → Queue
create_queue id = record { id = id; is_enqueuing = false; count = 0; front = null; rear = null }

-- `p->ptr = to`
pub set_ptr : Ptr → Ptr → Heap → Run Heap
set_ptr p to h = elim (h p) [
  | none ↦ fault
  | some n ↦ done (put h p (some (record n { ptr = to })))
]

-- `free(p->data); free(p)`, which yields the node for what was read from it before.
pub free : Ptr → Heap → Run (Node × Heap)
free p h = elim (h p) [ none ↦ fault | some n ↦ done (n, put h p none) ]

unfoldable pub enq : Ptr → Packet → Queue → Heap → Run (Queue × Heap)
unfolding set_ptr
enq fresh contents q h =
    let h' = put h fresh (some (record { contents = contents; ptr = null })) in
    if q.rear == null
    then done (record q { is_enqueuing = false; count = 0 + 1; front = fresh; rear = fresh }, h')
    else (do
      h'' ← set_ptr q.rear fresh h'
      done (record q { is_enqueuing = false; count = q.count + 1; rear = fresh }, h''))

-- `if (q[id].count > 0) q[id].count--`
abbrev pub count_down : ℕ → ℕ
count_down n = if ltb 0 n then n - 1 else n

unfoldable pub deq : Queue → Heap → Run (Queue × Heap)
unfolding free
deq q h = if q.front == null then done (q, h) else (do
  (n, h') ← free q.front h
  done (
    if n.ptr == null
        then record q { front = null; rear = null; count = count_down q.count }
        else record q { front = n.ptr; count = count_down q.count },
    h',
  ))
