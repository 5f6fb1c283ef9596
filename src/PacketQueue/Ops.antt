-- ===== src/PacketQueue/Ops.antt =====
-- `enq` and `deq` implement a first-in first-out queue: no fault, no lost node, no node freed twice.
use rpi_hadoop.Prelude.{
  ℕ, ◌+◌, ◌≡◌, ◌≢◌, refl, [], ◌∷◌, ◌++◌, none, some, ◌==◌, arith, length-append, done, false,
}
use rpi_hadoop.PacketQueue.{
  Packet, Ptr, null, Node, Heap, put, Queue, create_queue, set_ptr, free, enq, deq, count_down,
}
use rpi_hadoop.PacketQueue.Chain.{
  Cells, Apart, IsQueue, AgreeOn-put, Chain-frame, extended, Chain-snoc, rear-ne, rear_ne_null,
  front_ne_null,
}

-- A new queue is empty.
pub create_queue-IsQueue : (h : Heap) (id : ℕ) → IsQueue h (create_queue id) []
unfolding create_queue
create_queue-IsQueue h id = record { linked = (refl, refl); counted = refl }

pub create_queue-id : (id : ℕ) → (create_queue id).id ≡ id
unfolding create_queue
create_queue-id id = refl

-- The two heaps differ at most at `a` and at the cells.
abbrev pub SameOutside : Ptr → Cells → Heap → Heap → Type 0
SameOutside a cells h g = (b : Ptr) → b ≢ a → Apart b cells → g b ≡ h b

enq_empty :
    (h : Heap) (q : Queue) (a : Ptr) (d : Packet)
    → IsQueue h q []
    → a ≢ null
    → h a ≡ none
    → (out : Queue × Heap) × (enq a d q h ≡ done out)
      × IsQueue out.1 out.0 ((a, d) ∷ [])
      × SameOutside a [] h out.1
      × (out.0.id ≡ q.id)
unfolding enq
enq_empty h q a d is new unused = (
  (
    record q { is_enqueuing = false; count = 0 + 1; front = a; rear = a },
    put h a (some (record { contents = d; ptr = null })),
  ),
  rw (is.linked.1),
  record { linked = (refl, (new, ground arith, refl)); counted = omega arith },
  λ b ne apart. ground arith,
  refl,
)

null_test : (p : Ptr) → p ≢ null → (p == null) ≡ false
null_test p ne = ground arith

set_ptr-done :
    (p to : Ptr) (h : Heap) (n : Node)
    → h p ≡ some n
    → set_ptr p to h ≡ done (put h p (some (record n { ptr = to })))
unfolding set_ptr
set_ptr-done p to h n e = rw (e, set_ptr)

-- A packet is put behind the others.
pub enq_lem :
    (h : Heap) (q : Queue) (cells : Cells) (a : Ptr) (d : Packet)
    → IsQueue h q cells
    → a ≢ null
    → h a ≡ none
    → (out : Queue × Heap) × (enq a d q h ≡ done out)
      × IsQueue out.1 out.0 (cells ++ (a, d) ∷ [])
      × SameOutside a cells h out.1
      × (out.0.id ≡ q.id)
enq_lem h q [] a d is new unused = enq_empty h q a d is new unused
enq_lem h q ((b, x) ∷ cells) a d is new unused =
    let chain = is.linked.1 in
    let (n, at_rear, out, chain') = Chain-snoc h b x cells q.rear a d chain new unused in
    let h' : Heap = put h a (some (record { contents = d; ptr = null })) in
    let at_rear' : h' q.rear ≡ some n = ground arith in
    (
      (record q { is_enqueuing = false; count = q.count + 1; rear = a }, extended h a d q.rear n),
      (unfold enq in
          rw (
            null_test q.rear (rear_ne_null h b x cells q.rear chain),
            set_ptr-done q.rear a h' n at_rear',
          )),
      record {
        linked = (is.linked.0, chain');
        counted = omega (arith, is.counted, length-append ((b, x) ∷ cells) ((a, d) ∷ []));
      },
      λ c ne apart. let ne' = rear-ne h b x cells q.rear c chain apart in ground arith,
      refl,
    )

free-done : (p : Ptr) (h : Heap) (n : Node) → h p ≡ some n → free p h ≡ done (n, put h p none)
unfolding free
free-done p h n e = rw (e, free)

-- `deq` of an empty queue changes nothing.
pub deq-nil : (h : Heap) (q : Queue) → IsQueue h q [] → deq q h ≡ done (q, h)
unfolding deq
deq-nil h q is = rw (is.linked.0)

-- `deq` takes the first packet off and frees its node, and that node alone.
pub deq-cons :
    (h : Heap) (q : Queue) (cells : Cells) (a : Ptr) (d : Packet)
    → IsQueue h q ((a, d) ∷ cells)
    → (out : Queue × Heap) × (deq q h ≡ done out)
      × IsQueue out.1 out.0 cells
      × (out.1 a ≡ none)
      × SameOutside a [] h out.1
      × (out.0.id ≡ q.id)
unfolding deq
deq-cons h q [] a d is =
    let (front, (ne, at_a, end)) = is.linked in
    (
      (record q { front = null; rear = null; count = count_down q.count }, put h a none),
      rw (front, null_test a ne, free-done a h (record { contents = d; ptr = null }) at_a),
      record { linked = (refl, refl); counted = ground (arith, is.counted) },
      ground arith,
      λ b other apart. ground arith,
      refl,
    )
deq-cons h q ((b, x) ∷ cells) a d is =
    let (front, (ne, at_a, apart, rest)) = is.linked in
    let b-a : b ≢ a = apart.0 in
    (
      (record q { front = b; count = count_down q.count }, put h a none),
      rw (
        front,
        null_test a ne,
        free-done a h (record { contents = d; ptr = b }) at_a,
        null_test b (front_ne_null h b x cells q.rear rest),
      ),
      record {
        linked = (
          refl,
          Chain-frame h (put h a none) b x cells q.rear rest (ground arith)
              (AgreeOn-put h a none cells apart.1),
        );
        counted = ground (arith, is.counted);
      },
      ground arith,
      λ c other _. ground arith,
      refl,
    )
