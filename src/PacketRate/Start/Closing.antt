-- ===== src/PacketRate/Start/Closing.antt =====
-- The beacons that the sniffer opens are closed when `main` returns.
use rpi_hadoop.Prelude.{ℕ, ◌≡◌, false, ◌||◌, ◌==◌, none}
use rpi_hadoop.PacketRate.Start.{End, returned, Host}
use rpi_hadoop.PacketRate.Start.Beacons.{IsHost, IsAnswering}

module _ {S : Type 0} (host : Host S) (laws : IsHost host) (answering : IsAnswering host)
    (s0 : S) where
  open laws use {
    open_at, fresh, made, destroyed, signal_kept, configure_kept, find_kept, open_kept,
    subscribe_kept, create_kept, clock_kept, capture_kept, silence_kept,
  }

  -- The beacons that are open are those of `s0`; those and the speaker; those, the speaker and the listener.
  abbrev None : S → Type 0
  None s = (j : ℕ) → open_at s j ≡ open_at s0 j

  record One (speaker : ℕ) (s : S) : Type 0 where
    new : open_at s0 speaker ≡ false
    now : (j : ℕ) → open_at s j ≡ (j == speaker || open_at s0 j)

  pub record Two (speaker listener : ℕ) (s : S) : Type 0 where
    new : open_at s0 speaker ≡ false
    new_too : open_at s0 listener ≡ false
    now : (j : ℕ) → open_at s j ≡ (j == listener || (j == speaker || open_at s0 j))

  -- A capture that never ends, begun while both beacons are open.
  abbrev pub Forever : Type 0
  Forever =
      (speaker : ℕ) × (listener : ℕ) × (expiry : ℕ) × (s : S) × (host.capture expiry s ≡ none)
      × Two speaker listener s

  -- If the program has returned, the same beacons are open as before.
  abbrev Closed : End → S → Type 0
  Closed e s = e ≡ returned → None s
