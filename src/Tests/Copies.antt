-- ===== src/Tests/Copies.antt =====
-- The copying loop between two lists of packets.
use rpi_hadoop.Prelude.{
  ℕ, ◌≡◌, ◌≢◌, refl, sym, List, [], ◌∷◌, ◌++◌, append-nil, Option, some, Text, codes, length, take,
}
use rpi_hadoop.Copying.{Selected, can_read, interrupted, failed, Tunnel, copy_loop}
use rpi_hadoop.Copying.Conserved.{IsTunnel, Conserves, copy_loop-Conserves}

-- The packets that wait, and those that were sent.
abbrev Lists : Type 0
Lists = List Text × List Text

abbrev has_packet : Lists → Selected
has_packet ([], out) = interrupted
has_packet ((packet ∷ rest), out) = can_read

abbrev read_packet : ℕ → Lists → Option Text × Lists
read_packet n ([], out) = (some [], ([], out))
read_packet n ((packet ∷ rest), out) = (some (take n packet), (rest, out))

abbrev lists : Tunnel Lists
lists = record {
  select = λ s. (has_packet s, s);
  from = record { read = read_packet };
  to = record { write = λ packet s. (some (length packet), (s.0, s.1 ++ packet ∷ [])) };
  usec = λ s. (0, s);
}

waits : (s : Lists) → has_packet s ≡ can_read → s.0 ≢ []
waits ([], out) h = absurd cc
waits ((packet ∷ rest), out) h = λ e. cc

never_fails : (s : Lists) → has_packet s ≢ failed
never_fails ([], out) = λ e. cc
never_fails ((packet ∷ rest), out) = λ e. cc

reads_first :
    (n : ℕ) (s : Lists) (packet : Text) (rest : List Text)
    → s.0 ≡ packet ∷ rest
    → (s' : Lists) × (read_packet n s ≡ (some (take n packet), s')) × (s'.0 ≡ rest) × (s'.1 ≡ s.1)
reads_first n (w, out) packet rest e = ((rest, out), rw e refl, refl, refl)

lists-IsTunnel : IsTunnel lists
lists-IsTunnel = record {
  waiting = λ s. s.0;
  sent = λ s. s.1;
  selects = λ s. ([], sym (append-nil s.0), refl, waits s, never_fails s);
  reads = reads_first;
  writes = λ packet s. (length packet, (s.0, s.1 ++ packet ∷ []), refl, refl, refl);
  tells_time = λ s. (refl, refl);
}

abbrev two_packets : Lists
two_packets = (codes "one" ∷ codes "two" ∷ [], [])

copy_loop-Conserves_example :
    Conserves lists lists-IsTunnel two_packets (copy_loop lists 3 two_packets)
copy_loop-Conserves_example = copy_loop-Conserves lists lists-IsTunnel 3 two_packets
