-- ===== src/Copying.antt =====
-- The loops of `main` in CreateLoopbackMS.c, which copies every packet from one device to the other, and
-- in CreateLoopback.c, which does so in its window only.
pub mod Conserved
use rpi_hadoop.Prelude.{
  ℕ, zero, suc, ◌%◌, ◌^◌, Bool, Option, none, some, if◌then◌else◌, Text, length, take, Run, done,
  ◌>>=◌, ℤ,
}
use rpi_hadoop.Devices.{Reader, Writer, cread, cwrite}
use rpi_hadoop.SlotWindow.{Config, time_in_epoch, in_window}

-- How `select` returns: a packet can be read, or a signal came, or there was another error. An error leaves
-- the set of descriptors as it was.
pub data Selected : Type 0 where
  can_read : Selected
  interrupted : Selected
  failed : Selected

-- The devices: `select`; the one read from, and the one written to; and `gettimeofday`'s microseconds.
pub record Tunnel (S : Type 0) : Type 0 where
  pub select : S → Selected × S
  pub from : Reader S
  pub to : Writer S
  pub usec : S → ℕ × S

-- The test of the time.
pub may_send : Config → ℤ → ℕ → Run Bool
may_send config my_t_alloc usec = do
  now ← time_in_epoch usec config.epoch
  in_window config my_t_alloc now

module _ {S : Type 0} (tunnel : Tunnel S) where
  -- What was read is written; `nread` has 16 bits.
  pub copy_bytes : Option (Text × S) → Option (ℕ × S)
  copy_bytes none = none
  copy_bytes (some (bytes, s)) = cwrite tunnel.to (take (length bytes % 2 ^ 16) bytes) s

  pub state_of : Option (ℕ × S) → Option S
  state_of none = none
  state_of (some (n, s)) = some s

  -- A packet is read into a buffer of 1500 bytes, and written: none if `cread` or `cwrite` ends the program.
  pub copy_packet : S → Option S
  unfolding copy_bytes state_of
  copy_packet s = state_of (copy_bytes (cread tunnel.from 1500 s))

  -- The master does not test for another error, and finds the descriptor in the set.
  pub copy_selected : Selected × S → Option S
  unfolding copy_packet
  copy_selected (can_read, s) = copy_packet s
  copy_selected (interrupted, s) = some s
  copy_selected (failed, s) = copy_packet s

  -- A turn of the master's loop.
  pub copy_turn : S → Option S
  unfolding copy_selected
  copy_turn s = copy_selected (tunnel.select s)

  pub continue_copying : Option S → (S → Option S) → Option S
  continue_copying none next = none
  continue_copying (some s) next = next s

  -- That many turns of it.
  pub copy_loop : ℕ → S → Option S
  unfolding continue_copying copy_turn
  copy_loop zero s = some s
  copy_loop (suc turns) s = continue_copying (copy_turn s) (copy_loop turns)

  -- In its window the first forwarder copies a packet that can be read.
  pub copy_if : Bool → S → Option S
  copy_if sending s = if sending then copy_packet s else some s

  pub window_turn : Config → ℤ → ℕ × S → Run (Option S)
  unfolding copy_if
  window_turn config my_t_alloc (usec, s) = do
    sending ← may_send config my_t_alloc usec
    done (copy_if sending s)

  pub first_selected : Config → ℤ → Selected × S → Run (Option S)
  unfolding window_turn
  first_selected config my_t_alloc (can_read, s) = window_turn config my_t_alloc (tunnel.usec s)
  first_selected config my_t_alloc (interrupted, s) = done (some s)
  first_selected config my_t_alloc (failed, s) = done none

  -- A turn of the loop of CreateLoopback.c, for the table of times that `recv_config` has left.
  pub first_turn : Config → ℤ → S → Run (Option S)
  unfolding first_selected
  first_turn config my_t_alloc s = first_selected config my_t_alloc (tunnel.select s)
