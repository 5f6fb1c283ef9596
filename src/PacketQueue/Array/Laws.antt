-- ===== src/PacketQueue/Array/Laws.antt =====
-- The operations on the array of queues: each queue is first-in first-out, and the others are left
-- alone, though all share one heap.
use native.Mathlib.Decide.{ℕ_discrete}
use rpi_hadoop.Prelude.{
  ℕ, zero, suc, ◌+◌, ◌≤◌, ◌<◌, ◌≡◌, ◌≢◌, refl, sym, ap, ◌∙◌, [], ◌∷◌, ◌++◌, none, ◌==◌, All-append,
  arith, length, Run, done, true, false,
}
use rpi_hadoop.PacketQueue.{Packet, Ptr, null, Heap, Queue}
use rpi_hadoop.PacketQueue.Chain.{Cells, Apart, IsQueue, AgreeOn, Chain-frame, Apart-of_none}
use rpi_hadoop.PacketQueue.Ops.{SameOutside, enq_lem, deq-cons}
use rpi_hadoop.PacketQueue.Array.{
  Store, put_queue, enq_at, deq_at, total_loop, is_empty, View, with_cells, InArray, Disjoint,
  Represents,
}

Apart-linked :
    (h : Heap) (q : Queue) (a : Ptr) (cells : Cells)
    → IsQueue h q cells
    → h a ≡ none
    → Apart a cells
Apart-linked h q a [] is unused = tt
Apart-linked h q a ((b, x) ∷ cells) is unused =
    Apart-of_none h q.rear a b x cells is.linked.1 unused

-- A queue is untouched by a change of the heap outside its cells.
frame :
    (h g : Heap) (q : Queue) (cells others : Cells) (a : Ptr)
    → IsQueue h q cells
    → SameOutside a others h g
    → Apart a cells
    → Disjoint cells others
    → IsQueue g q cells
frame h g q [] others a is same apart dis = record { linked = is.linked; counted = is.counted }
frame h g q ((b, x) ∷ cells) others a is same apart dis = record {
  linked = (
    is.linked.0,
    Chain-frame h g b x cells q.rear is.linked.1 (same b apart.0 dis.0) (agree cells apart.1 dis.1),
  );
  counted = is.counted;
}
  where
    agree : (l : Cells) → Apart a l → Disjoint l others → AgreeOn h g l
    agree [] ap di = tt
    agree ((c, y) ∷ l) (ne, ap) (d, di) = (same c ne d, agree l ap di)

Disjoint-snoc :
    (xs ys : Cells) (a : Ptr) (d : Packet)
    → Disjoint xs ys
    → Apart a xs
    → Disjoint xs (ys ++ (a, d) ∷ [])
Disjoint-snoc [] ys a d h ap = tt
Disjoint-snoc ((b, x) ∷ xs) ys a d (h, hs) (ne, ap) = (
  All-append (λ (c : Ptr × Packet). c.0 ≢ b) ys ((a, d) ∷ []) h ((λ e. ne (sym e)), tt),
  Disjoint-snoc xs ys a d hs ap,
)

Disjoint-tail : (xs ys : Cells) (a : Ptr) (d : Packet) → Disjoint xs ((a, d) ∷ ys) → Disjoint xs ys
Disjoint-tail [] ys a d h = tt
Disjoint-tail ((b, x) ∷ xs) ys a d ((_, h), hs) = (h, Disjoint-tail xs ys a d hs)

Apart-head : (xs ys : Cells) (a : Ptr) (d : Packet) → Disjoint xs ((a, d) ∷ ys) → Apart a xs
Apart-head [] ys a d h = tt
Apart-head ((b, x) ∷ xs) ys a d ((ne, _), hs) = ((λ e. ne (sym e)), Apart-head xs ys a d hs)

pub test_self : (i : ℕ) → (i == i) ≡ true
test_self i = ground arith

pub test_ne : (i j : ℕ) → i ≢ j → (i == j) ≡ false
test_ne i j ne = ground arith

-- The new queue `i`, over a heap that differs at most at its old cells and at `a`.
module _ {st : Store} {v : View} (r : Represents st v) (i a : ℕ) (g : Heap) (new : Queue)
    (others cells : Cells) where
  replaced :
      IsQueue g new cells
      → new.id ≡ i
      → SameOutside a others st.heap g
      → ((j : ℕ)
          → InArray j
          → j ≢ i
          → Apart a (v j) × Disjoint (v j) others × Disjoint (v j) cells × Disjoint cells (v j))
      → Represents (record { q = put_queue st.q i new; heap = g }) (with_cells v i cells)
  replaced is named same apart = record {
    queues = λ j in_j. elim (ℕ_discrete j i) [
      | yes e ↦ rw (e, test_self i) is
      | no ne ↦ rw (test_ne j i ne) (
          frame st.heap g (st.q j) (v j) others a (r.queues j in_j) same (apart j in_j ne).0
            (apart j in_j ne).1)
    ];
    ids = λ j in_j. elim (ℕ_discrete j i) [
      | yes e ↦ rw (e, test_self i) named
      | no ne ↦ rw (test_ne j i ne) (r.ids j in_j)
    ];
    disjoint = λ j k in_j in_k ne. elim (ℕ_discrete j i) [
      | yes e ↦
          let k-i : k ≢ i = λ q. ne (e ∙ sym q) in
          rw (e, test_self i, test_ne k i k-i) (apart k in_k k-i).3
      | no j-i ↦ elim (ℕ_discrete k i) [
        | yes e ↦ rw (e, test_self i, test_ne j i j-i) (apart j in_j j-i).2
        | no k-i ↦ rw (test_ne j i j-i, test_ne k i k-i) (r.disjoint j k in_j in_k ne)
      ]
    ];
  }

Disjoint-append :
    (xs ys : Cells) (a : Ptr) (d : Packet)
    → Disjoint xs ys
    → Apart a ys
    → Disjoint (xs ++ (a, d) ∷ []) ys
Disjoint-append xs ys a d h ap =
    All-append (λ (c : Ptr × Packet). Apart c.0 ys) xs ((a, d) ∷ []) h (ap, tt)

-- The array represents `v`, and the step yields one that represents `v'`.
abbrev pub Refines : Run Store → View → Type 0
Refines run v = (st : Store) × (run ≡ done st) × Represents st v

-- `enq` puts a packet behind those of its queue, and the other queues are as before.
pub enq_at-Represents :
    (st : Store) (v : View) (i a : ℕ) (d : Packet)
    → Represents st v
    → InArray i
    → a ≢ null
    → st.heap a ≡ none
    → Refines (enq_at i a d st) (with_cells v i (v i ++ (a, d) ∷ []))
enq_at-Represents st v i a d r in_i new unused =
    let (out, run, is, same, named) =
      enq_lem st.heap (st.q i) (v i) a d (r.queues i in_i) new unused in
    (
      record { q = put_queue st.q i out.0; heap = out.1 },
      (unfold enq_at in rw run),
      replaced r i a out.1 out.0 (v i) (v i ++ (a, d) ∷ []) is (named ∙ r.ids i in_i) same
          λ j in_j ne.
            let apart : Apart a (v j) =
              Apart-linked st.heap (st.q j) a (v j) (r.queues j in_j) unused in
            let there : Disjoint (v j) (v i) = r.disjoint j i in_j in_i ne in
            let here : Disjoint (v i) (v j) = r.disjoint i j in_i in_j (λ e. ne (sym e)) in
            (
              apart,
              there,
              Disjoint-snoc (v j) (v i) a d there apart,
              Disjoint-append (v i) (v j) a d here apart,
            ),
    )

-- `deq` takes the first packet of its queue off, and the other queues are as before.
pub deq_at-Represents :
    (st : Store) (v : View) (i a : ℕ) (d : Packet) (cells : Cells)
    → Represents st v
    → InArray i
    → v i ≡ (a, d) ∷ cells
    → Refines (deq_at i st) (with_cells v i cells)
deq_at-Represents st v i a d cells r in_i e =
    let is : IsQueue st.heap (st.q i) ((a, d) ∷ cells) = rw (← e) (r.queues i in_i) in
    let (out, run, is', freed, same, named) = deq-cons st.heap (st.q i) cells a d is in
    (
      record { q = put_queue st.q i out.0; heap = out.1 },
      (unfold deq_at in rw run),
      replaced r i a out.1 out.0 [] cells is' (named ∙ r.ids i in_i) same λ j in_j ne.
          let there : Disjoint (v j) ((a, d) ∷ cells) = rw e at (r.disjoint j i in_j in_i ne) in
          let here : Disjoint ((a, d) ∷ cells) (v j) =
            rw e at (r.disjoint i j in_i in_j (λ q. ne (sym q))) in
          (
            Apart-head (v j) cells a d there,
            none_apart (v j),
            Disjoint-tail (v j) cells a d there,
            here.1,
          ),
    )
  where
    none_apart : (xs : Cells) → Disjoint xs []
    none_apart [] = tt
    none_apart (x ∷ xs) = (tt, none_apart xs)

-- How many packets the queues from `i` on hold.
abbrev pub held : ℕ → ℕ → View → ℕ
held zero i v = 0
held (suc rounds) i v = length (v i) + held rounds (i + 1) v

total_loop-held :
    (rounds i total : ℕ) (q : ℕ → Queue) (v : View)
    → ((j : ℕ) → i ≤ j → j < i + rounds → (q j).count ≡ length (v j))
    → total_loop rounds i q total ≡ total + held rounds i v
unfolding total_loop
total_loop-held zero i total q v h = omega arith
total_loop-held (suc n) i total q v h =
    total_loop-held n (i + 1) (total + (q i).count) q v (λ j lo hi. h j (omega arith) (omega arith))
    ∙ omega (arith, h i (omega arith) (omega arith))

-- `is_empty` returns the number of packets in the nine queues.
pub is_empty-held : (st : Store) (v : View) → Represents st v → is_empty st ≡ held 9 1 v
unfolding is_empty
is_empty-held st v r =
    total_loop-held 9 1 0 st.q v (λ j lo hi. (r.queues j (lo, omega arith)).counted) ∙ omega arith

held_other :
    (rounds i k : ℕ) (v : View) (cells : Cells)
    → k < i
    → held rounds i (with_cells v k cells) ≡ held rounds i v
held_other zero i k v cells h = refl
held_other (suc n) i k v cells h =
    rw (test_ne i k (omega arith), held_other n (i + 1) k v cells (omega arith))

-- The number of packets changes as the one queue does.
pub held-with_cells :
    (rounds i k : ℕ) (v : View) (cells : Cells)
    → i ≤ k
    → k < i + rounds
    → held rounds i (with_cells v k cells) + length (v k) ≡ held rounds i v + length cells
held-with_cells zero i k v cells lo hi = absurd (omega arith)
held-with_cells (suc n) i k v cells lo hi = elim (ℕ_discrete i k) [
  | yes e ↦ rw (e, test_self k, held_other n (k + 1) k v cells (omega arith)) (omega arith)
  | no ne ↦
      rw (test_ne i k ne)
        (omega (arith, held-with_cells n (i + 1) k v cells (omega arith) (omega arith)))
]

pub le-held : (rounds i k : ℕ) (v : View) → i ≤ k → k < i + rounds → length (v k) ≤ held rounds i v
le-held zero i k v lo hi = absurd (omega arith)
le-held (suc n) i k v lo hi = elim (ℕ_discrete i k) [
  | yes e ↦ rw e (omega arith)
  | no ne ↦ omega (arith, le-held n (i + 1) k v (omega arith) (omega arith))
]
