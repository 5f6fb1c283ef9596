-- ===== src/PacketRate/Start.antt =====
-- `main` of packet_rate.c: the sniffer opens its beacons and its device, captures packets until that
-- fails, and closes the beacons.
pub mod Beacons
pub mod Closing
use rpi_hadoop.Prelude.{
  ℕ, ◌+◌, Bool, true, false, [], ◌∷◌, Option, none, some, Text, Run, done, fault, out_of_fuel,
  if◌then◌else◌,
}

-- How the program ends: `return`, `exit(1)`, or an `assert` that fails.
pub data End : Type 0 where
  returned : End
  exited : End
  aborted : End

-- Where a part of `main` leaves the program: it goes on with a value, or has ended.
pub data Point (S A : Type 0) : Type 0 where
  go : A → S → Point S A
  stop : End → S → Point S A

abbrev pub Part : Type 0 → Type 0 → Type 0
Part S A = S → Run (Point S A)

abbrev pub continue : {S A B : Type 0} → Run (Point S A) → (A → Part S B) → Run (Point S B)
continue out_of_fuel next = out_of_fuel
continue fault next = fault
continue (done (stop e s)) next = done (stop e s)
continue (done (go a s)) next = next a s

infixl 5 ◌>>=◌ ◌>>◌
abbrev pub ◌>>=◌ : {S A B : Type 0} → Part S A → (A → Part S B) → Part S B
◌>>=◌ m next s = continue (m s) next

abbrev pub ◌>>◌ : {S B : Type 0} → Part S (Unit {0}) → Part S B → Part S B
m >> k = m >>= λ _. k

-- The calls of CZMQ, libpcap and the system: `signal`; `zactor_new` for a beacon; the request to
-- configure it, with the name that `zstr_recv` returns; `zactor_destroy`; `pcap_findalldevs` and
-- `pcap_open_live`; `SUBSCRIBE`; `pthread_create`; `zclock_mono`; `pcap_loop`, which calls
-- `process_packet` until it fails; and `SILENCE`.
pub record Host (S : Type 0) : Type 0 where
  pub catch_signal : ℕ → S → Bool × S
  pub new_beacon : S → Option ℕ × S
  pub configure : ℕ → S → Option Text × S
  pub destroy : ℕ → S → S
  pub find_devices : S → Bool × S
  pub open_device : S → Bool × S
  pub subscribe : ℕ → S → S
  pub create : S → Bool × S
  pub clock : S → ℕ × S
  -- The state where `pcap_loop` ends by an error; none if it never does.
  pub capture : ℕ → S → Option S
  pub silence : ℕ → S → S

-- A call without which the program ends by `exit(1)`.
abbrev pub exit_unless : {S : Type 0} → Bool × S → Run (Point S (Unit {0}))
exit_unless (true, s) = done (go tt s)
exit_unless (false, s) = done (stop exited s)

-- A pointer that is used without a test, and one that `assert` tests.
abbrev pub used : {S A : Type 0} → Option A × S → Run (Point S A)
used (none, s) = fault
used (some a, s) = done (go a s)

abbrev pub asserted : {S A : Type 0} → Option A × S → Run (Point S A)
asserted (none, s) = done (stop aborted s)
asserted (some a, s) = done (go a s)

abbrev pub effect : {S : Type 0} → (S → S) → Part S (Unit {0})
effect call s = done (go tt (call s))

module _ {S : Type 0} (host : Host S) where
  -- Without a name the speaker is given up, and the program ends.
  pub speaker_named : ℕ → Text → Part S (Unit {0})
  speaker_named speaker [] s = done (stop returned (host.destroy speaker s))
  speaker_named speaker (c ∷ name) s = done (go tt s)

  pub open_speaker : Part S ℕ
  unfolding speaker_named
  open_speaker = do
    speaker ← λ s. used (host.new_beacon s)
    hostname ← λ s. used (host.configure speaker s)
    speaker_named speaker hostname
    λ s. done (go speaker s)

  -- `assert (*hostname)`
  pub listener_named : Text → Part S (Unit {0})
  listener_named [] s = done (stop aborted s)
  listener_named (c ∷ name) s = done (go tt s)

  pub open_listener : Part S ℕ
  unfolding listener_named
  open_listener = do
    listener ← λ s. asserted (host.new_beacon s)
    hostname ← λ s. used (host.configure listener s)
    listener_named hostname
    λ s. done (go listener s)

  -- What follows the capture: the beacons are silenced and closed.
  pub closing : ℕ → ℕ → Option S → Run (Point S (Unit {0}))
  closing speaker listener none = out_of_fuel
  closing speaker listener (some s) =
      let s' = host.destroy speaker (host.silence speaker s) in
      done (stop returned (host.destroy listener s'))

  -- The capture, with `expiry`.
  pub sniff : ℕ → ℕ → Part S (Unit {0})
  unfolding closing
  sniff speaker listener s =
      let (now, s') = host.clock s in closing speaker listener (host.capture (now + 1000) s')

  pub capture_with : ℕ → ℕ → Part S (Unit {0})
  unfolding sniff
  capture_with speaker listener = do
    λ s. exit_unless (host.find_devices s)
    λ s. exit_unless (host.open_device s)
    effect (host.subscribe listener)
    λ s. exit_unless (host.create s)
    sniff speaker listener

  unfoldable pub sniffer_main : Part S (Unit {0})
  unfolding open_speaker open_listener capture_with
  sniffer_main = do
    λ s. exit_unless (host.catch_signal 2 s)
    λ s. exit_unless (host.catch_signal 20 s)
    speaker ← open_speaker
    listener ← open_listener
    capture_with speaker listener
