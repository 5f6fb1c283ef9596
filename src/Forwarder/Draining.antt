-- ===== src/Forwarder/Draining.antt =====
-- The writer empties the queues while the node has a slot: no packet is stuck.
use rpi_hadoop.Prelude.{
  ℕ, zero, suc, ◌+◌, ◌≤◌, ◌≡◌, refl, sym, ap, ◌∙◌, Bool, true, [], append-nil, done, ◌>>=◌, arith,
  is_positive,
}
use rpi_hadoop.PacketQueue.{Heap}
use rpi_hadoop.PacketQueue.Array.{is_empty, View, InArray}
use rpi_hadoop.PacketQueue.Array.Laws.{is_empty-held, le-held}
use rpi_hadoop.Forwarder.Pipeline.{State, Reach, IsSound}
use rpi_hadoop.Forwarder.Order.{start, Reach-IsSound, owed, owed-length, undelivered, Reach-bounded}
use rpi_hadoop.Forwarder.Scan.{scans, resume}
use rpi_hadoop.Forwarder.Fronts.{nil_of_length}
use rpi_hadoop.Forwarder.Passes.{join, on, scans-done, resume-done}

delivered_all :
    (t : State) (v : View) (i : ℕ)
    → IsSound t v
    → InArray i
    → owed t i ≤ 0
    → t.delivered i ≡ t.accepted i
delivered_all t v i is in_i none_owed =
    let empty : v i ≡ [] = nil_of_length (v i) (omega (arith, owed-length t v i is in_i)) in
    sym (is.order i in_i ∙ rw empty (append-nil (t.delivered i)))

none_left :
    (rounds i : ℕ) (t : State)
    → 1 ≤ i
    → i + rounds ≤ 10
    → ((j : ℕ) → InArray j → owed t j ≤ 0)
    → undelivered rounds i t ≡ 0
unfolding undelivered
none_left zero i t lo hi h = refl
none_left (suc rounds) i t lo hi h =
    omega (arith, h i (lo, omega arith), none_left rounds (i + 1) t (omega arith) (omega arith) h)

-- No packet is stuck: from every state that the threads reach in which the node has a slot, wherever
-- `write_tun` stands in its pass over the queues, the rest of the pass and as many passes as packets are
-- held, or more, run without fault if no other thread takes a turn meanwhile. They write every packet that
-- was accepted from its queue and leave the queues empty and the slot as it is, and the state that they
-- reach is one that the threads' steps reach.
pub Reach-drains :
    (heap : Heap) (char_signed : Bool) (t : State) (i n : ℕ)
    → Reach char_signed (start heap) t
    → is_positive t.slot ≡ true
    → 1 ≤ i
    → i ≤ 10
    → is_empty t.store ≤ n
    → (t' : State) × ((resume t.waiting i t >>= λ s. scans n s) ≡ done t')
      × Reach char_signed t t'
      × (t'.accepted ≡ t.accepted)
      × (t'.slot ≡ t.slot)
      × ((j : ℕ) → InArray j → t'.delivered j ≡ t.accepted j)
      × (is_empty t'.store ≡ 0)
Reach-drains heap char_signed t i n r open_slot lo hi enough =
    let (v, is) = Reach-IsSound heap r in
    let (s1, run1, went1) = resume-done char_signed t.waiting i t v is refl open_slot lo hi in
    let (s2, run2, went2, less) =
      scans-done char_signed n s1 went1.view went1.sound went1.waiting
        (ap is_positive went1.slot ∙ open_slot) in
    let went = on char_signed t s1 s2 went1 went2 in
    let none_owed : (j : ℕ) → InArray j → owed s2 j ≤ 0 = λ j in_j. omega (
      arith,
      less j in_j,
      went1.fewer j,
      owed-length t v j is in_j,
      is_empty-held t.store v is.represents,
      le-held 9 1 j v in_j.0 (omega (arith, in_j)),
      enough,
    ) in
    (
      s2,
      rw (run1, run2) refl,
      went.path,
      went.accepted,
      went.slot,
      λ j in_j.
          delivered_all s2 went.view j went.sound in_j (none_owed j in_j)
          ∙ ap (λ h. h j) went.accepted,
      (Reach-bounded heap (join r went.path)).0
          ∙ none_left 9 1 s2 (omega arith) (omega arith) none_owed,
    )
