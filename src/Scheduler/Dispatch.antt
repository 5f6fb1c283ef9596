-- ===== src/Scheduler/Dispatch.antt =====
-- The messages of a round, and the round as a whole.
use rpi_hadoop.Prelude.{
  ℕ, zero, suc, ◌+◌, ◌≤◌, ◌<◌, ◌≡◌, ◌≢◌, refl, false, arith, ℤ, pos, is_zero, List, [], ◌∷◌, ◌++◌,
  Text, codes, length, length-append, InInt, done,
}
use native.Mathlib.Decide.{ℕ_discrete}
use rpi_hadoop.CText.{format_int}
use rpi_hadoop.CText.Decimal.{length-format_int-le}
use rpi_hadoop.CArray.{IntArray}
use rpi_hadoop.Report.{nodes}
use rpi_hadoop.Report.Buffers.{sprintf-done}
use rpi_hadoop.Scheduler.{
  Event, sent, awaited, config_message, dispatch_node, dispatch_loop, full_slot,
}

-- The text of a slot's message.
abbrev pub config_text : ℕ → ℤ → ℕ → Text
config_text k slot pri_reducer =
    codes "node"
    ++ (format_int (pos k) ++ b',' ∷ (format_int slot ++ b',' ∷ format_int (pos pri_reducer)))

pub length-config_text :
    (k : ℕ) (slot : ℤ) (r : ℕ)
    → InInt (pos k)
    → InInt slot
    → InInt (pos r)
    → length (config_text k slot r) ≤ 39
length-config_text k slot r hk hs hr = omega (
  arith,
  length-append (format_int (pos k)) (b',' ∷ (format_int slot ++ b',' ∷ format_int (pos r))),
  length-append (format_int slot) (b',' ∷ format_int (pos r)),
  length-format_int-le (pos k) hk,
  length-format_int-le slot hs,
  length-format_int-le (pos r) hr,
)

pub config_message-done :
    (k : ℕ) (slot : ℤ) (r : ℕ)
    → InInt (pos k)
    → InInt slot
    → InInt (pos r)
    → config_message k slot r ≡ done (config_text k slot r)
unfolding config_message
config_message-done k slot r hk hs hr =
    sprintf-done 50 (config_text k slot r) (omega (arith, length-config_text k slot r hk hs hr))

-- The events of a slot for node `k`.
abbrev pub slot_events : ℕ → ℤ → ℕ → List Event
slot_events k slot r = sent k (config_text k slot r) ∷ awaited k ∷ []

dispatch_none : (k : ℕ) (t : IntArray) (r : ℕ) → t k ≡ pos 0 → dispatch_node k t r ≡ done []
unfolding dispatch_node
dispatch_none k t r e = rw e

pub dispatch_one :
    (k : ℕ) (t : IntArray) (r : ℕ) (slot : ℤ)
    → is_zero slot ≡ false
    → t k ≡ slot
    → k < nodes
    → InInt slot
    → InInt (pos r)
    → dispatch_node k t r ≡ done (slot_events k slot r)
unfolding dispatch_node
dispatch_one k t r slot nz e hk hs hr = rw (e, nz, config_message-done k slot r (omega arith) hs hr)

pub dispatch_loop_none :
    (n i : ℕ) (t : IntArray) (r : ℕ)
    → ((j : ℕ) → i ≤ j → j < i + n → t j ≡ pos 0)
    → dispatch_loop n i t r ≡ done []
unfolding dispatch_loop
dispatch_loop_none zero i t r h = refl
dispatch_loop_none (suc n) i t r h = rw (
  dispatch_none i t r (h i (omega arith) (omega arith)),
  dispatch_loop_none n (i + 1) t r (λ j lo hi. h j (omega arith) (omega arith)),
)

-- Where one node alone has a slot, that node alone is sent a message.
pub dispatch_loop_one :
    (n i k : ℕ) (t : IntArray) (r : ℕ)
    → i ≤ k
    → k < i + n
    → k < nodes
    → InInt (pos r)
    → t k ≡ full_slot
    → ((j : ℕ) → i ≤ j → j < i + n → j ≢ k → t j ≡ pos 0)
    → dispatch_loop n i t r ≡ done (slot_events k full_slot r)
unfolding dispatch_loop
dispatch_loop_one zero i k t r lo hi hk hr e h = absurd (omega arith)
dispatch_loop_one (suc n) i k t r lo hi hk hr e h = elim (ℕ_discrete i k) [
  | yes here ↦ rw (
    here,
    dispatch_one k t r full_slot refl e hk (omega arith) hr,
    dispatch_loop_none n (k + 1) t r (λ j a b. h j (omega arith) (omega arith) (omega arith)),
  )
  | no later ↦ rw (
    dispatch_none i t r (h i (omega arith) (omega arith) later),
    dispatch_loop_one n (i + 1) k t r (omega arith) (omega arith) hk hr e
        (λ j a b. h j (omega arith) (omega arith)),
  )
]
