-- ===== src/Forwarder/Late.antt =====
-- The writer tests the slot before it takes the lock: how many packets it can write behind the end of a
-- slot.
use rpi_hadoop.Prelude.{ℕ, ◌+◌, ◌≤◌, Bool, Option, none, some, arith, ℤ, if◌then◌else◌, is_positive}
use rpi_hadoop.PacketQueue.{Heap}
use rpi_hadoop.Forwarder.Pipeline.{State, read, pass, write, set_slot, Reach, here, next}
use rpi_hadoop.Forwarder.Order.{start}

-- A slot begins where the slot becomes positive.
pub begins : ℤ → ℤ → ℕ
begins before after = if is_positive before then 0 else if is_positive after then 1 else 0

-- A packet is late that is written without a slot.
pub is_late : ℤ → ℕ
is_late slot = if is_positive slot then 0 else 1

module _ {char_signed : Bool} {s : State} where
  -- The slots that have begun on the way to a state.
  unfoldable pub slots : {t : State} → Reach char_signed s t → ℕ
  unfolding begins
  slots here = 0
  slots (next r (read packet fresh out nn free few run e)) = slots r
  slots (next r (pass i in_i some_front w more e)) = slots r
  slots (next r (write i packet out w run e)) = slots r
  slots (next {t = t} r (set_slot slot e)) = slots r + begins t.slot slot

  -- The late packets that were written from the queues on the way.
  unfoldable pub late : {t : State} → Reach char_signed s t → ℕ
  unfolding is_late
  late here = 0
  late (next r (read packet fresh out nn free few run e)) = late r
  late (next r (pass i in_i some_front w more e)) = late r
  late (next {t = t} r (write i packet out w run e)) = late r + is_late t.slot
  late (next r (set_slot slot e)) = late r

-- What may yet be written late: one packet in a slot, or one that has passed the test.
abbrev passed : Option ℕ → ℕ
passed none = 0
passed (some i) = 1

abbrev owed : State → ℕ
owed s = if is_positive s.slot then 1 else passed s.waiting

passed-le : (w : Option ℕ) → passed w ≤ 1
passed-le none = omega arith
passed-le (some i) = omega arith

late-owed-le :
    (heap : Heap) {char_signed : Bool} {t : State} (r : Reach char_signed (start heap) t)
    → late r + owed t ≤ slots r
unfolding late slots start begins is_late
late-owed-le heap here = omega arith
late-owed-le heap (next r (read packet fresh out nn free few run e)) = rw e (late-owed-le heap r)
late-owed-le heap (next {t = t} r (pass i in_i some_front w more e)) =
    rw e (ground (arith, late-owed-le heap r))
late-owed-le heap (next {t = t} r (write i packet out w run e)) =
    rw e (ground (arith, late-owed-le heap r))
late-owed-le heap (next {t = t} r (set_slot slot e)) =
    rw e (ground (arith, late-owed-le heap r, passed-le t.waiting))

-- Whatever packets arrive and however the threads take turns, a node has written at most as many queued
-- packets without a slot as slots have begun: each slot lets one packet out behind its end at most.
pub late-le-slots :
    (heap : Heap) {char_signed : Bool} {t : State} (r : Reach char_signed (start heap) t)
    → late r ≤ slots r
late-le-slots heap r = omega (arith, late-owed-le heap r)
