-- ===== src/Tests/Capturing.antt =====
-- The start of the sniffer over a host that knows which beacons are open.
use rpi_hadoop.Prelude.{ℕ, ◌+◌, Bool, true, not, ◌&&◌, ◌||◌, ◌==◌, ltb, some, codes}
use rpi_hadoop.PacketRate.Start.{Host}

-- The number of beacons made so far, and those of them that have not been destroyed.
abbrev Beacons : Type 0
Beacons = ℕ × (ℕ → Bool)

abbrev noting_host : Host Beacons
noting_host = record {
  catch_signal = λ n s. (true, s);
  new_beacon = λ s. (some s.0, (s.0 + 1, λ j. j == s.0 || s.1 j));
  configure = λ b s. (some (codes "10.0.0.103"), s);
  destroy = λ b s. (s.0, λ j. not (j == b) && s.1 j);
  find_devices = λ s. (true, s);
  open_device = λ s. (true, s);
  subscribe = λ b s. s;
  create = λ s. (true, s);
  clock = λ s. (50, s);
  capture = λ expiry s. some s;
  silence = λ b s. s;
}

abbrev is_open : Beacons → ℕ → Bool
is_open (made, alive) j = ltb j made && alive j

-- One beacon is open at the start.
abbrev one_open : Beacons
one_open = (1, λ j. true)
