-- ===== src/Slot.antt =====
-- The slot of a node: `recv_config` of CreateLoopbackCS1Q.c takes the scheduler's message, counts the
-- slot down, and answers.
pub mod Grant
use rpi_hadoop.Prelude.{
  ℕ, zero, suc, ◌+◌, Option, none, some, List, [], ◌∷◌, if◌then◌else◌, Text, codes, take, Run, done,
  fault, out_of_fuel, ◌>>=◌, ℤ, pos, negsuc, is_positive, add_int,
}
use rpi_hadoop.CText.{tokens, atoi}

-- `slot`, `est` and `priority_reducer`.
pub record Slot : Type 0 where
  pub slot : ℤ
  pub est : ℤ
  pub priority_reducer : ℤ

-- The third field, if there is one.
pub read_reducer : List Text → Slot → Slot
read_reducer [] s = s
read_reducer (token ∷ rest) s = record s { priority_reducer = atoi token }

-- What the message grants: `slot` and `est` from its second field.
unfoldable pub granted : Text → List Text → Slot → Slot
unfolding read_reducer
granted slot rest s = read_reducer rest (record s { slot = atoi slot; est = atoi slot })

-- `while (slot > 0) { usleep(100); slot = slot - 100; }`: the slot at its end, and how often it slept.
pub countdown : ℕ → ℤ → ℕ → Run (ℤ × ℕ)
countdown zero slot sleeps = out_of_fuel
countdown (suc fuel) slot sleeps =
    let rest = countdown fuel (add_int slot (negsuc 99)) (sleeps + 1) in
    if is_positive slot then rest else done (slot, sleeps)

-- The fields of the message, and the countdown. `atoi(NULL)` is undefined.
pub serve_fields : ℕ → List Text → Slot → Run (Slot × ℕ)
serve_fields fuel [] s = done (s, 0)
serve_fields fuel (name ∷ []) s = fault
serve_fields fuel (name ∷ slot ∷ rest) s = do
  (left, sleeps) ← countdown fuel (granted slot rest s).slot 0
  done (record (granted slot rest s) { slot = left }, sleeps)

-- What a round of the loop leaves: the state, the answer that is sent, and the sleeps before it.
pub record Handled : Type 0 where
  pub state : Slot
  pub answer : Option Text
  pub sleeps : ℕ

-- The body of the loop of `recv_config`. `zmq_recv` leaves 31 bytes at most in `config1`; if it fails or
-- the message is empty, nothing is done and nothing is answered.
unfoldable pub recv_config : ℕ → Text → Slot → Run Handled
unfolding granted countdown serve_fields
recv_config fuel [] s = done (record { state = s; answer = none; sleeps = 0 })
recv_config fuel (c ∷ message) s = do
  (s', sleeps) ← serve_fields fuel (tokens b',' (take 31 (c ∷ message))) s
  done (record {
    state = record s' { slot = pos 0; priority_reducer = pos 0 };
    answer = some (codes "1");
    sleeps = sleeps;
  })
