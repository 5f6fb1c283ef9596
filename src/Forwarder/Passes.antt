-- ===== src/Forwarder/Passes.antt =====
-- What the writer's passes over the queues do while the node has a slot.
use rpi_hadoop.Prelude.{
  ℕ, zero, suc, ◌+◌, ◌-◌, ◌≤◌, ◌<◌, ◌≡◌, refl, ap, ◌∙◌, inl, inr, Bool, true, [], ◌∷◌, ◌++◌, done,
  Option, none, some, arith, length, is_positive,
}
use native.Mathlib.Decide.{ℕ_discrete}
use rpi_hadoop.PacketQueue.Chain.{Cells}
use rpi_hadoop.PacketQueue.Array.{View, InArray}
use rpi_hadoop.Forwarder.Pipeline.{State, log, Step, pass, write, Reach, here, next, IsSound}
use rpi_hadoop.Forwarder.Turns.{cases, write_turn_first, Step-IsSound}
use rpi_hadoop.Forwarder.Order.{owed, owed-length}
use rpi_hadoop.Forwarder.Scan.{write_at, visit, scan_from, scans, resume}
use rpi_hadoop.Forwarder.Fronts.{front_held, front_null, is_null, not_null, longer_log, longer_here}

pub join :
    {char_signed : Bool} {s t u : State}
    → Reach char_signed s t
    → Reach char_signed t u
    → Reach char_signed s u
join p here = p
join p (next q step) = next (join p q) step

-- The writer has gone from `s` to `to` by its own turns: nothing was accepted, the slot is as it was, and no
-- queue holds more.
pub record Went (char_signed : Bool) (s to : State) : Type 0 where
  pub path : Reach char_signed s to
  pub view : View
  pub sound : IsSound to view
  pub accepted : to.accepted ≡ s.accepted
  pub slot : to.slot ≡ s.slot
  pub waiting : to.waiting ≡ none
  pub fewer : (j : ℕ) → owed to j ≤ owed s j

module _ (char_signed : Bool) where
  stay : (s : State) (v : View) → IsSound s v → s.waiting ≡ none → Went char_signed s s
  stay s v is w = record {
    path = here;
    view = v;
    sound = is;
    accepted = refl;
    slot = refl;
    waiting = w;
    fewer = λ j. omega arith;
  }

  pub on : (s t u : State) → Went char_signed s t → Went char_signed t u → Went char_signed s u
  on s t u a b = record {
    path = join a.path b.path;
    view = b.view;
    sound = b.sound;
    accepted = b.accepted ∙ a.accepted;
    slot = b.slot ∙ a.slot;
    waiting = b.waiting;
    fewer = λ j. omega (arith, a.fewer j, b.fewer j);
  }

  -- Behind the test of the slot the writer writes one packet.
  write_at-done :
      (i : ℕ) (s : State) (v : View)
      → IsSound s v
      → s.waiting ≡ some i
      → (s' : State) × (write_at i s ≡ done s') × Went char_signed s s' × (owed s' i ≤ owed s i - 1)
  unfolding write_at
  write_at-done i s v is w = elim (cases (v i)) [
    | inl empty ↦ absurd ((is.kept i w).1 empty)
    | inr (a, d, cells, first) ↦
        let in_i : InArray i = (is.kept i w).0 in
        let (st, run, rep) = write_turn_first s.store v i a d cells is.represents in_i first in
        let s' : State = record s {
          store = st;
          waiting = none;
          delivered = log s.delivered i d;
          tun0 = s.tun0 ++ d ∷ [];
        } in
        let step : Step char_signed s s' = write i d st w run refl in
        let (v', is') = Step-IsSound s v is step in
        (
          s',
          rw run refl,
          record {
            path = next here step;
            view = v';
            sound = is';
            accepted = refl;
            slot = refl;
            waiting = refl;
            fewer = λ j. longer_log (s.accepted j) s.delivered i j d;
          },
          longer_here (s.accepted i) s.delivered i d,
        )
  ]

  visit-done :
      (i : ℕ) (s : State) (v : View)
      → IsSound s v
      → s.waiting ≡ none
      → is_positive s.slot ≡ true
      → InArray i
      → (s' : State) × (visit i s ≡ done s') × Went char_signed s s' × (owed s' i ≤ owed s i - 1)
  unfolding visit
  visit-done i s v is w open_slot in_i = elim (cases (v i)) [
    | inl empty ↦ (
      s,
      rw (is_null (s.store.q i).front (front_null s v i is.represents in_i empty)) refl,
      stay s v is w,
      omega (arith, owed-length s v i is in_i, ap (λ (l : Cells). length l) empty),
    )
    | inr (a, d, cells, first) ↦
        let ne = front_held s v i a d cells is.represents in_i first in
        let s1 : State = record s { waiting = some i } in
        let step : Step char_signed s s1 = pass i in_i ne w open_slot refl in
        let (v1, is1) = Step-IsSound s v is step in
        let (s', run, went, less) = write_at-done i s1 v1 is1 refl in
        (
          s',
          rw (not_null (s.store.q i).front ne, open_slot) (unfold write_at in run),
          record {
            path = join (next here step) went.path;
            view = went.view;
            sound = went.sound;
            accepted = went.accepted;
            slot = went.slot;
            waiting = went.waiting;
            fewer = went.fewer;
          },
          less,
        )
  ]

  -- A part of a pass visits each queue once.
  scan_from-done :
      (left i : ℕ) (s : State) (v : View)
      → IsSound s v
      → s.waiting ≡ none
      → is_positive s.slot ≡ true
      → 1 ≤ i
      → i + left ≤ 10
      → (s' : State) × (scan_from left i s ≡ done s')
        × Went char_signed s s'
        × ((j : ℕ) → i ≤ j → j < i + left → owed s' j ≤ owed s j - 1)
  unfolding scan_from
  scan_from-done zero i s v is w open_slot lo hi =
      (s, refl, stay s v is w, λ j le lt. absurd (omega arith))
  scan_from-done (suc left) i s v is w open_slot lo hi =
      let (s1, run1, went1, less1) = visit-done i s v is w open_slot (lo, omega arith) in
      let (s2, run2, went2, less2) =
        scan_from-done left (i + 1) s1 went1.view went1.sound went1.waiting
          (ap is_positive went1.slot ∙ open_slot) (omega arith) (omega arith) in
      (
        s2,
        rw (run1, run2) refl,
        on s s1 s2 went1 went2,
        λ j le lt. elim (ℕ_discrete i j) [
          | yes e ↦ rw (← e) (omega (arith, less1, went2.fewer i))
          | no ne ↦ omega (arith, less2 j (omega arith) (omega arith), went1.fewer j)
        ],
      )

  pub scans-done :
      (n : ℕ) (s : State) (v : View)
      → IsSound s v
      → s.waiting ≡ none
      → is_positive s.slot ≡ true
      → (s' : State) × (scans n s ≡ done s')
        × Went char_signed s s'
        × ((j : ℕ) → InArray j → owed s' j ≤ owed s j - n)
  unfolding scans
  scans-done zero s v is w open_slot = (s, refl, stay s v is w, λ j in_j. omega arith)
  scans-done (suc n) s v is w open_slot =
      let (s1, run1, went1, less1) =
        scan_from-done 9 1 s v is w open_slot (omega arith) (omega arith) in
      let (s2, run2, went2, less2) =
        scans-done n s1 went1.view went1.sound went1.waiting
          (ap is_positive went1.slot ∙ open_slot) in
      (
        s2,
        rw (run1, run2) refl,
        on s s1 s2 went1 went2,
        λ j in_j. omega (arith, less1 j in_j.0 (omega (arith, in_j)), less2 j in_j),
      )

  pub resume-done :
      (w : Option ℕ) (i : ℕ) (s : State) (v : View)
      → IsSound s v
      → s.waiting ≡ w
      → is_positive s.slot ≡ true
      → 1 ≤ i
      → i ≤ 10
      → (s' : State) × (resume w i s ≡ done s') × Went char_signed s s'
  unfolding resume
  resume-done none i s v is w open_slot lo hi =
      let (s', run, went, less) = scan_from-done (10 - i) i s v is w open_slot lo (omega arith) in
      (s', run, went)
  resume-done (some k) i s v is w open_slot lo hi =
      let in_k : InArray k = (is.kept k w).0 in
      let (s1, run1, went1, less1) = write_at-done k s v is w in
      let (s2, run2, went2, less2) =
        scan_from-done (9 - k) (k + 1) s1 went1.view went1.sound went1.waiting
          (ap is_positive went1.slot ∙ open_slot) (omega arith) (omega (arith, in_k)) in
      (s2, rw (run1, run2) refl, on s s1 s2 went1 went2)
