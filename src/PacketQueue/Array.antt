-- ===== src/PacketQueue/Array.antt =====
-- The array `q` of queues over one heap, and `is_empty`, which adds up their counts.
pub mod Laws
use native.Mathlib.Decide.{ℕ_discrete}
use rpi_hadoop.Prelude.{
  ℕ, zero, suc, ◌+◌, ◌≤◌, ◌<◌, ◌≡◌, ◌≢◌, refl, sym, ap, ◌∙◌, List, [], ◌∷◌, ◌++◌, Option, none,
  some, ◌==◌, if◌then◌else◌, All, All-append, arith, length, length-append, Run, done, ◌>>=◌,
  Bool-cases, inl, inr,
}
use rpi_hadoop.PacketQueue.{Packet, Ptr, null, Node, Heap, Queue, enq, deq}
use rpi_hadoop.PacketQueue.Chain.{
  Cells, Apart, Chain, Linked, IsQueue, AgreeOn, Chain-frame, Apart-of_none,
}
use rpi_hadoop.PacketQueue.Ops.{SameOutside, enq_lem, deq-nil, deq-cons}

pub record Store : Type 0 where
  pub q : ℕ → Queue
  pub heap : Heap

abbrev pub put_queue : (ℕ → Queue) → ℕ → Queue → ℕ → Queue
put_queue q i new j = if j == i then new else q j

-- `enq(data, id, size)` and `deq(id)` on the array.
unfoldable pub enq_at : ℕ → Ptr → Packet → Store → Run Store
unfolding enq
enq_at i fresh contents st = do
  out ← enq fresh contents (st.q i) st.heap
  done (record { q = put_queue st.q i out.0; heap = out.1 })

unfoldable pub deq_at : ℕ → Store → Run Store
unfolding deq
deq_at i st = do
  out ← deq (st.q i) st.heap
  done (record { q = put_queue st.q i out.0; heap = out.1 })

pub total_loop : ℕ → ℕ → (ℕ → Queue) → ℕ → ℕ
total_loop zero i q total = total
total_loop (suc rounds) i q total = total_loop rounds (i + 1) q (total + (q i).count)

-- `is_empty` returns how many packets the queues 1 to 9 hold.
unfoldable pub is_empty : Store → ℕ
unfolding total_loop
is_empty st = total_loop 9 1 st.q 0

-- What each queue holds.
abbrev pub View : Type 0
View = ℕ → Cells

abbrev pub with_cells : View → ℕ → Cells → View
with_cells v i cells j = if j == i then cells else v j

abbrev pub InArray : ℕ → Type 0
InArray i = (1 ≤ i) × (i < 10)

abbrev pub Disjoint : Cells → Cells → Type 0
Disjoint xs ys = All (λ (c : Ptr × Packet). Apart c.0 ys) xs

pub record Represents (st : Store) (v : View) : Type 0 where
  pub queues : (i : ℕ) → InArray i → IsQueue st.heap (st.q i) (v i)
  pub ids : (i : ℕ) → InArray i → (st.q i).id ≡ i
  pub disjoint : (i j : ℕ) → InArray i → InArray j → i ≢ j → Disjoint (v i) (v j)
