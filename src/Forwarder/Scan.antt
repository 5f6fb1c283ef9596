-- ===== src/Forwarder/Scan.antt =====
-- The loops of `write_tun` over the queues, while no other thread takes a turn and the slot stays as it is.
use rpi_hadoop.Prelude.{
  ℕ, zero, suc, ◌+◌, ◌-◌, List, ◌++◌, Option, none, some, ◌==◌, if◌then◌else◌, Run, done,
  out_of_fuel, ◌>>=◌, is_positive,
}
use rpi_hadoop.PacketQueue.{Packet, null}
use rpi_hadoop.Forwarder.{write_turn}
use rpi_hadoop.Forwarder.Pipeline.{State, History}

abbrev pub log_all : History → ℕ → List Packet → History
log_all h i packets j = if j == i then h j ++ packets else h j

-- The part of the turn behind the wait for the slot.
unfoldable pub write_at : ℕ → State → Run State
write_at i s = do
  r ← write_turn i s.store
  done (record s {
    store = r.0;
    waiting = none;
    delivered = log_all s.delivered i r.1;
    tun0 = s.tun0 ++ r.1;
  })

-- The body of the loop at queue `i`: without a packet nothing is done; without a slot the thread stays in
-- `while (slot <= 0)`.
unfoldable pub visit : ℕ → State → Run State
visit i s =
    if (s.store.q i).front == null
    then done s
    else if is_positive s.slot
    then write_at i s
    else out_of_fuel

-- `while (i < 10)`, from queue `i` on, for the `left` queues that are left.
unfoldable pub scan_from : ℕ → ℕ → State → Run State
scan_from zero i s = done s
scan_from (suc left) i s = do s' ← visit i s; scan_from left (i + 1) s'

-- Passes of `while (1)`.
unfoldable pub scans : ℕ → State → Run State
scans zero s = done s
scans (suc n) s = do s' ← scan_from 9 1 s; scans n s'

-- The rest of a pass in which the thread has come to queue `i`, or waits behind the test of the slot.
unfoldable pub resume : Option ℕ → ℕ → State → Run State
resume none i s = scan_from (10 - i) i s
resume (some k) i s = do s' ← write_at k s; scan_from (9 - k) (k + 1) s'
