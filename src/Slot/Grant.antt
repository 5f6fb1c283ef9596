-- ===== src/Slot/Grant.antt =====
-- A node does what the scheduler's message says.
use rpi_hadoop.Prelude.{
  ℕ, zero, suc, ◌+◌, ◌-◌, ◌/◌, ◌≤◌, ◌<◌, ◌≡◌, ◌≢◌, refl, ap, ◌∙◌, [], ◌∷◌, ◌++◌, some, arith, Text,
  codes, length, length-append, take_of_length-le, done, ◌>>=◌, false, All-append, ℤ, pos, negsuc,
  InInt, int_bound, is_positive, add_int,
}
use native.Mathlib.Decide.{dec_le}
use rpi_hadoop.CText.{tokens, format_int, decimal}
use rpi_hadoop.CText.Decimal.{
  atoi-format_int, format_int-ne-nil, format_int-Lacks, length-format_int-le, length-decimal-le,
}
use rpi_hadoop.CText.Tokens.{Lacks, tokens-cons, tokens_one}
use rpi_hadoop.Scheduler.Dispatch.{config_text, config_message-done}
use rpi_hadoop.Scheduler.{config_message}
use rpi_hadoop.Slot.{Slot, granted, countdown, serve_fields, recv_config}

-- How often the countdown of a slot sleeps.
abbrev pub sleeps_of : ℤ → ℕ
sleeps_of (pos v) = (v + 99) / 100
sleeps_of (negsuc v) = 0

countdown_stop :
    (fuel : ℕ) (slot : ℤ) (n : ℕ)
    → is_positive slot ≡ false
    → countdown (suc fuel) slot n ≡ done (slot, n)
unfolding countdown
countdown_stop fuel slot n h = rw h

countdown_step :
    (fuel v n : ℕ)
    → countdown (suc fuel) (pos (suc v)) n
      ≡ countdown fuel (add_int (pos (suc v)) (negsuc 99)) (n + 1)
unfolding countdown
countdown_step fuel v n = ground arith

pub below_100 : (v : ℕ) → v ≤ 99 → is_positive (add_int (pos (suc v)) (negsuc 99)) ≡ false
unfolding add_int
below_100 v h = ground arith

pub above_100 : (v : ℕ) → 99 ≤ v → v < int_bound → add_int (pos (suc v)) (negsuc 99) ≡ pos (v - 99)
unfolding add_int
above_100 v h b = ground arith

-- The countdown ends, and sleeps once for each 100 of the slot or part of them.
pub countdown_lem :
    (fuel v n : ℕ)
    → v < int_bound
    → (v + 99) / 100 < fuel
    → (left : ℤ) × (countdown fuel (pos v) n ≡ done (left, n + (v + 99) / 100))
      × (is_positive left ≡ false)
countdown_lem zero v n b h = absurd (omega arith)
countdown_lem (suc fuel) zero n b h =
    (pos 0, countdown_stop fuel (pos 0) n refl ∙ ground arith, refl)
countdown_lem (suc zero) (suc v) n b h = absurd (omega arith)
countdown_lem (suc (suc fuel)) (suc v) n b h = elim (dec_le 99 v) [
  | yes long ↦
      let (left, run, stop) =
        countdown_lem (suc fuel) (v - 99) (n + 1) (omega arith) (omega arith) in
      (
        left,
        countdown_step (suc fuel) v n
            ∙ rw (above_100 v long (omega arith)) (run ∙ ap (λ m. done (left, m)) (omega arith)),
        stop,
      )
  | no short ↦
      let low : is_positive (add_int (pos (suc v)) (negsuc 99)) ≡ false =
        below_100 v (omega arith) in
      (
        add_int (pos (suc v)) (negsuc 99),
        countdown_step (suc fuel) v n
            ∙ countdown_stop fuel _ (n + 1) low
            ∙ ap (λ m. done (add_int (pos (suc v)) (negsuc 99), m)) (omega arith),
        low,
      )
]

countdown_int :
    (fuel : ℕ) (slot : ℤ)
    → InInt slot
    → sleeps_of slot < fuel
    → (left : ℤ) × (countdown fuel slot 0 ≡ done (left, sleeps_of slot))
countdown_int fuel (pos v) b h =
    let (left, run, stop) = countdown_lem fuel v 0 b h in
    (left, run ∙ ap (λ m. done (left, m)) (omega arith))
countdown_int zero (negsuc v) b h = absurd (omega arith)
countdown_int (suc fuel) (negsuc v) b h = (negsuc v, countdown_stop fuel (negsuc v) 0 refl)

-- A number below 10 is one byte, so the message of a slot fits into what `zmq_recv` takes.
pub config_text_short :
    (k : ℕ) (slot : ℤ) (r : ℕ) → k < 10 → InInt slot → r < 10 → length (config_text k slot r) ≤ 31
unfolding format_int
config_text_short k slot r hk hs hr = omega (
  arith,
  length-append (decimal k) (b',' ∷ (format_int slot ++ b',' ∷ decimal r)),
  length-append (format_int slot) (b',' ∷ decimal r),
  length-decimal-le k 0 (omega arith),
  length-decimal-le r 0 (omega arith),
  length-format_int-le slot hs,
)

comma_free : (a : ℤ) → Lacks b',' (format_int a)
comma_free a = format_int-Lacks b',' a (omega arith) (omega arith)

pub tokens-config_text :
    (k : ℕ) (slot : ℤ) (r : ℕ)
    → tokens b',' (config_text k slot r)
      ≡ (codes "node" ++ format_int (pos k)) ∷ format_int slot ∷ format_int (pos r) ∷ []
tokens-config_text k slot r =
    tokens-cons b',' (codes "node" ++ format_int (pos k))
      (format_int slot ++ b',' ∷ format_int (pos r)) (λ e. cc)
      (All-append (λ c. c ≢ b',') (codes "node") (format_int (pos k)) (omega arith)
        (comma_free (pos k)))
    ∙ ap (λ l. (codes "node" ++ format_int (pos k)) ∷ l)
        (tokens-cons b',' (format_int slot) (format_int (pos r)) (format_int-ne-nil slot)
            (comma_free slot)
          ∙ ap (λ l. format_int slot ∷ l)
              (tokens_one b',' (format_int (pos r)) (format_int-ne-nil (pos r))
                (comma_free (pos r))))

-- While the slot is counted down, the node has the slot and the priority reducer of the message.
pub granted_lem :
    (slot : ℤ) (r : ℕ) (s : Slot)
    → InInt slot
    → r < 10
    → granted (format_int slot) (format_int (pos r) ∷ []) s
      ≡ record { slot = slot; est = slot; priority_reducer = pos r }
unfolding granted
granted_lem slot r s hs hr = rw (atoi-format_int slot hs, atoi-format_int (pos r) (omega arith))

serve_fields_lem :
    (fuel : ℕ) (name a b : Text) (slot left pr : ℤ) (n : ℕ) (s : Slot)
    → granted a (b ∷ []) s ≡ record { slot = slot; est = slot; priority_reducer = pr }
    → countdown fuel slot 0 ≡ done (left, n)
    → serve_fields fuel (name ∷ a ∷ b ∷ []) s
      ≡ done (record { slot = left; est = slot; priority_reducer = pr }, n)
unfolding serve_fields
serve_fields_lem fuel name a b slot left pr n s g c = rw (g, c)

recv_config_lem :
    (fuel : ℕ) (c : ℕ) (message : Text) (s s' : Slot) (n : ℕ)
    → length (c ∷ message) ≤ 31
    → serve_fields fuel (tokens b',' (c ∷ message)) s ≡ done (s', n)
    → recv_config fuel (c ∷ message) s
      ≡ done (record {
        state = record s' { slot = pos 0; priority_reducer = pos 0 };
        answer = some (codes "1");
        sleeps = n;
      })
recv_config_lem fuel c message s s' n short run =
    unfold recv_config in rw (take_of_length-le 30 message (omega arith), run)

-- A node that receives the scheduler's message counts the slot down to its end, sleeping once for each
-- 100 microseconds of it or part of them, takes `est` from it, forgets slot and priority reducer, and
-- answers "1". So a grant always ends, and its answer, which the scheduler waits for, is always sent.
-- This holds for every node and reducer of the table and every `int` slot, given more fuel than sleeps.
pub recv_config-config_message :
    (fuel k r : ℕ) (slot : ℤ) (s : Slot)
    → k < 10
    → r < 10
    → InInt slot
    → sleeps_of slot < fuel
    → (config_message k slot r >>= λ message. recv_config fuel message s)
      ≡ done (record {
        state = record { slot = pos 0; est = slot; priority_reducer = pos 0 };
        answer = some (codes "1");
        sleeps = sleeps_of slot;
      })
recv_config-config_message fuel k r slot s hk hr hs enough =
    let (left, run) = countdown_int fuel slot hs enough in
    rw (config_message-done k slot r (omega arith) hs (omega arith)) (
      recv_config_lem fuel b'n' _ s (record { slot = left; est = slot; priority_reducer = pos r })
        (sleeps_of slot) (config_text_short k slot r hk hs hr)
        (rw (tokens-config_text k slot r) (
          serve_fields_lem fuel _ _ _ slot left (pos r) (sleeps_of slot) s
            (granted_lem slot r s hs hr) run)))
