-- ===== src/Forwarder/Turns.antt =====
-- What one turn of a reading or a writing thread does to a state in which the queues are sound.
use native.Mathlib.Decide.{ℕ_discrete}
use rpi_hadoop.Prelude.{
  ℕ, ◌≤◌, ◌≡◌, ◌≢◌, refl, sym, ap, ◌∙◌, Bool, false, List, [], ◌∷◌, ◌++◌, append_assoc, none, some,
  arith, length, length-append, done, done-injective, leb, ◌⊎◌, inl, inr,
}
use rpi_hadoop.PacketQueue.{Packet, Ptr, null, Node, Heap}
use rpi_hadoop.PacketQueue.Chain.{Cells, Chain}
use rpi_hadoop.PacketQueue.Array.{Store, is_empty, View, with_cells, InArray, Represents}
use rpi_hadoop.PacketQueue.Array.Laws.{
  enq_at-Represents, deq_at-Represents, is_empty-held, held-with_cells, le-held, test_self, test_ne,
}
use rpi_hadoop.Forwarder.{Fate, dropped, queued, forwarded, fate, handle, front_packet, write_turn}
use rpi_hadoop.Forwarder.Ports.{fate_queued_range}
use rpi_hadoop.Forwarder.Pipeline.{
  State, log, accept, Step, read, pass, write, set_slot, packets, IsSound,
}

pub cases :
    (cells : Cells)
    → (cells ≡ []) ⊎ ((a : Ptr) × (d : Packet) × (rest : Cells) × (cells ≡ (a, d) ∷ rest))
cases [] = inl refl
cases ((a, d) ∷ rest) = inr (a, d, rest, refl)

packets-snoc :
    (xs : Cells) (a : Ptr) (d : Packet) → packets (xs ++ (a, d) ∷ []) ≡ packets xs ++ d ∷ []
packets-snoc [] a d = refl
packets-snoc ((b, x) ∷ xs) a d = ap (λ l. x ∷ l) (packets-snoc xs a d)

Chain-contents :
    (h : Heap) (a : Ptr) (d : Packet) (cells : Cells) (rear : Ptr)
    → Chain h a d cells rear
    → (n : Node) × (h a ≡ some n) × (n.contents ≡ d)
Chain-contents h a d [] rear c = (record { contents = d; ptr = null }, c.1, refl)
Chain-contents h a d ((b, x) ∷ cells) rear c = (record { contents = d; ptr = b }, c.1, refl)

front_packet-done :
    (st : Store) (i : ℕ) (n : Node)
    → st.heap (st.q i).front ≡ some n
    → front_packet i st ≡ done n.contents
unfolding front_packet
front_packet-done st i n e = rw (e, front_packet)

-- A turn of the writer at a queue that holds a packet writes the first one and takes it off: no fault,
-- so the branch that would unlock the mutex twice is not taken.
pub write_turn_first :
    (st : Store) (v : View) (i a : ℕ) (d : Packet) (cells : Cells)
    → Represents st v
    → InArray i
    → v i ≡ (a, d) ∷ cells
    → (st' : Store) × (write_turn i st ≡ done (st', d ∷ [])) × Represents st' (with_cells v i cells)
write_turn_first st v i a d cells r in_i e =
    let (st', run, r') = deq_at-Represents st v i a d cells r in_i e in
    let linked = rw e at ((r.queues i in_i).linked) in
    let (n, at_front, is_d) = Chain-contents st.heap a d cells (st.q i).rear linked.1 in
    let one : 1 ≤ length (v i) = rw e (omega arith) in
    let some_held : leb (is_empty st) 0 ≡ false =
      ground (arith, is_empty-held st v r, le-held 9 1 i v in_i.0 (omega arith)) in
    let got : front_packet i st ≡ done d =
      front_packet-done st i n (rw linked.0 at_front) ∙ ap done is_d in
    (st', (unfold write_turn in rw (some_held, got, r.ids i in_i, run)), r')

-- The state after a packet of fate `f` has been handled.
abbrev after_read : State → Fate → Packet → Store × List Packet → State
after_read s f packet out = record s {
  store = out.0;
  tun0 = s.tun0 ++ out.1;
  accepted = accept f packet s.accepted;
}

-- A packet that is not queued leaves the queues alone.
read_past :
    (s : State) (v : View) (f : Fate) (packet : Packet) (out : Store × List Packet)
    → IsSound s v
    → out.0 ≡ s.store
    → accept f packet s.accepted ≡ s.accepted
    → IsSound (after_read s f packet out) v
read_past s v f packet out is same old = record {
  represents = rw same is.represents;
  order = λ i in_i. rw old (is.order i in_i);
  bounded = is.bounded;
  kept = is.kept;
}

append-ne-nil : (xs : Cells) (c : Ptr × Packet) → xs ++ c ∷ [] ≢ []
append-ne-nil [] c e = cc
append-ne-nil (x ∷ xs) c e = cc

module _ (s : State) (v : View) (is : IsSound s v) where
  read_queued :
      (d a : ℕ) (packet : Packet)
      → InArray d
      → a ≢ null
      → s.store.heap a ≡ none
      → is_empty s.store ≤ 499
      → (st : Store) × (handle (queued d) a packet s.store ≡ done (st, []))
        × IsSound
            (after_read s (queued d) packet (st, []))
            (with_cells v d (v d ++ (a, packet) ∷ []))
  read_queued d a packet in_d new unused room =
      let (st, run, r) = enq_at-Represents s.store v d a packet is.represents in_d new unused in
      (
        st,
        (unfold handle in rw run),
        record {
          represents = r;
          order = λ i in_i. elim (ℕ_discrete i d) [
            | yes e ↦
                rw (e, test_self d, is.order d in_d, packets-snoc (v d) a packet)
                  (append_assoc (s.delivered d) (packets (v d)) (packet ∷ []))
            | no ne ↦ rw (test_ne i d ne) (is.order i in_i)
          ];
          bounded = omega (
            arith,
            is_empty-held s.store v is.represents,
            held-with_cells 9 1 d v (v d ++ (a, packet) ∷ []) in_d.0 (omega arith),
            length-append (v d) ((a, packet) ∷ []),
          );
          kept = λ i w. elim (ℕ_discrete i d) [
            | yes e ↦ rw (e, test_self d) (in_d, append-ne-nil (v d) (a, packet))
            | no ne ↦ rw (test_ne i d ne) (is.kept i w)
          ];
        },
      )

  read-IsSound :
      (f : Fate) (a : Ptr) (packet : Packet) (out : Store × List Packet)
      → ((d : ℕ) → f ≡ queued d → InArray d)
      → a ≢ null
      → s.store.heap a ≡ none
      → is_empty s.store ≤ 499
      → handle f a packet s.store ≡ done out
      → (v' : View) × IsSound (after_read s f packet out) v'
  unfolding handle
  read-IsSound dropped a packet out range new unused room e = (
    v,
    read_past s v dropped packet out is
        (ap (λ (o : Store × List Packet). o.0) (sym (done-injective (s.store, []) out e))) refl,
  )
  read-IsSound (queued d) a packet out range new unused room e =
      let (st, run, is') = read_queued d a packet (range d refl) new unused room in
      let same : out ≡ (st, []) = done-injective out (st, []) (sym e ∙ run) in
      (with_cells v d (v d ++ (a, packet) ∷ []), rw same is')
  read-IsSound forwarded a packet out range new unused room e = (
    v,
    read_past s v forwarded packet out is
        (ap (λ (o : Store × List Packet). o.0) (sym (done-injective (s.store, packet ∷ []) out e)))
        refl,
  )

  write-IsSound :
      (i : ℕ) (packet : Packet) (out : Store)
      → s.waiting ≡ some i
      → write_turn i s.store ≡ done (out, packet ∷ [])
      → (v' : View) × IsSound
          (record s {
            store = out;
            waiting = none;
            delivered = log s.delivered i packet;
            tun0 = s.tun0 ++ packet ∷ [];
          })
          v'
  write-IsSound i packet out w e = elim (cases (v i)) [
    | inl empty ↦ absurd ((is.kept i w).1 empty)
    | inr (a, d, cells, first) ↦
        let in_i : InArray i = (is.kept i w).0 in
        let (st, run, r) = write_turn_first s.store v i a d cells is.represents in_i first in
        let same : ◌≡◌ {A = Store × List Packet} (out, packet ∷ []) (st, d ∷ []) =
          done-injective {A = Store × List Packet} (out, packet ∷ []) (st, d ∷ []) (sym e ∙ run) in
        let same_store : out ≡ st = ap (λ (o : Store × List Packet). o.0) same in
        let same_packet : packet ≡ d = ground arith in
        (
          with_cells v i cells,
          record {
            represents = rw same_store r;
            order = λ j in_j. elim (ℕ_discrete j i) [
              | yes q ↦
                  rw (q, test_self i, is.order i in_i, first, same_packet)
                    (sym (append_assoc (s.delivered i) (d ∷ []) (packets cells)))
              | no ne ↦ rw (test_ne j i ne) (is.order j in_j)
            ];
            bounded = omega (
              arith,
              is.bounded,
              held-with_cells 9 1 i v cells in_i.0 (omega arith),
              ap (λ (l : Cells). length l) first,
            );
            kept = λ j q. cc;
          },
        )
  ]

  -- Each step of a thread keeps the state sound.
  pub Step-IsSound :
      {char_signed : Bool} {t : State} → Step char_signed s t → (v' : View) × IsSound t v'
  Step-IsSound {char_signed} (read packet fresh out new unused room e same) = rw same (
      read-IsSound (fate char_signed packet) fresh packet out
        (λ d q. (
          (fate_queued_range char_signed packet d q).0,
          omega (arith, fate_queued_range char_signed packet d q),
        ))
        new unused room e)
  Step-IsSound (pass i in_i ne idle open_slot same) = (
    v,
    rw same (record {
      represents = is.represents;
      order = is.order;
      bounded = is.bounded;
      kept = λ j q. let j-i : i ≡ j = ground arith in rw (← j-i) (in_i, front_held i in_i ne);
    }),
  )
    where
      front_held : (i : ℕ) → InArray i → (s.store.q i).front ≢ null → v i ≢ []
      front_held i in_i ne empty = ne ((rw empty at ((is.represents.queues i in_i).linked)).0)
  Step-IsSound (write i packet out w e same) = rw same (write-IsSound i packet out w e)
  Step-IsSound (set_slot slot same) = (
    v,
    rw same (record {
      represents = is.represents;
      order = is.order;
      bounded = is.bounded;
      kept = is.kept;
    }),
  )
