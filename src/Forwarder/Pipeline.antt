-- ===== src/Forwarder/Pipeline.antt =====
-- The threads of a node as steps: the reader of the tunnel, the writer to tun0, and whoever changes
-- the slot (the scheduler's messages, the countdown, and the monitor).
use rpi_hadoop.Prelude.{
  ℕ, ◌≤◌, ◌≡◌, ◌≢◌, Bool, true, List, [], ◌∷◌, ◌++◌, map, Option, none, some, ◌==◌, if◌then◌else◌,
  done, ℤ, is_positive,
}
use rpi_hadoop.PacketQueue.{Packet, Ptr, null}
use rpi_hadoop.PacketQueue.Chain.{Cells}
use rpi_hadoop.PacketQueue.Array.{Store, is_empty, View, InArray, Represents}
use rpi_hadoop.PacketQueue.Array.Laws.{held}
use rpi_hadoop.Forwarder.{Fate, dropped, queued, forwarded, fate, handle, write_turn}

-- For each queue the packets that went in and those that came out, oldest first.
abbrev pub History : Type 0
History = ℕ → List Packet

abbrev pub log : History → ℕ → Packet → History
log h i packet j = if j == i then h j ++ packet ∷ [] else h j

pub record State : Type 0 where
  pub store : Store
  pub slot : ℤ
  -- The queue whose packet waits behind the test of the slot, if any.
  pub waiting : Option ℕ
  pub accepted : History
  pub delivered : History
  pub tun0 : List Packet

-- The history of a packet that was read.
abbrev pub accept : Fate → Packet → History → History
accept dropped packet h = h
accept (queued d) packet h = log h d packet
accept forwarded packet h = h

pub data Step (char_signed : Bool) (s t : State) : Type 0 where
  -- `main` has read a packet, and waited until no more than 499 are queued.
  read :
      (packet : Packet) (fresh : Ptr) (out : Store × List Packet)
      → fresh ≢ null
      → s.store.heap fresh ≡ none
      → is_empty s.store ≤ 499
      → handle (fate char_signed packet) fresh packet s.store ≡ done out
      → t ≡ record s {
        store = out.0;
        tun0 = s.tun0 ++ out.1;
        accepted = accept (fate char_signed packet) packet s.accepted;
      }
      → Step char_signed s t
  -- `write_tun` has found a packet in queue `i`, and the slot positive.
  pass :
      (i : ℕ)
      → InArray i
      → (s.store.q i).front ≢ null
      → s.waiting ≡ none
      → is_positive s.slot ≡ true
      → t ≡ record s { waiting = some i }
      → Step char_signed s t
  -- It takes the lock, and writes the packet.
  write :
      (i : ℕ) (packet : Packet) (out : Store)
      → s.waiting ≡ some i
      → write_turn i s.store ≡ done (out, packet ∷ [])
      → t ≡ record s {
        store = out;
        waiting = none;
        delivered = log s.delivered i packet;
        tun0 = s.tun0 ++ packet ∷ [];
      }
      → Step char_signed s t
  -- The slot changes at any time.
  set_slot : (slot : ℤ) → t ≡ record s { slot = slot } → Step char_signed s t

pub data Reach (char_signed : Bool) (s : State) : State → Type 0 where
  here : Reach char_signed s s
  next : {t u : State} → Reach char_signed s t → Step char_signed t u → Reach char_signed s u

abbrev pub packets : Cells → List Packet
packets = map (λ (c : Ptr × Packet). c.1)

-- The queues stand for `view`; what went into a queue is what came out of it and what it holds, in this
-- order; at most 500 packets are held; and a packet that passed the test of the slot is still there.
pub record IsSound (s : State) (view : View) : Type 0 where
  pub represents : Represents s.store view
  pub order : (i : ℕ) → InArray i → s.accepted i ≡ s.delivered i ++ packets (view i)
  pub bounded : held 9 1 view ≤ 500
  pub kept : (i : ℕ) → s.waiting ≡ some i → InArray i × (view i ≢ [])
