-- ===== src/Setup/AsClient.antt =====
-- What the loop of each program can rely on, as a client.
use rpi_hadoop.Prelude.{
  ℕ, ◌+◌, ◌<◌, ◌≡◌, refl, ap, ◌∙◌, Bool, true, false, List, Option, some, Text, ℤ, pos, negsuc,
  ltb_ℤ, arith,
}
use mathlib.Core.Path.{subst}
use rpi_hadoop.HostNumber.{Interfaces}
use rpi_hadoop.HostNumber.Buffers.{node_number_lem, IsHost}
use rpi_hadoop.Startup.{Options, no_options, Role, client, parse_from}
use rpi_hadoop.Startup.Laws.{InBounds, no_options-InBounds}
use rpi_hadoop.Devices.{is_negative}
use rpi_hadoop.Setup.{
  Kernel, Thread, Ready, ready_with, must, start_thread, subscribed, master_start, first_start,
  first_options, send_config, recv_config,
}
use rpi_hadoop.Setup.Outcomes.{Ensures, Ensures-continue}
use rpi_hadoop.Setup.Shared.{IsKernel, NetSet, Connected, connected_start-Connected}

pub first_options-InBounds : InBounds first_options
first_options-InBounds = record { name = omega arith; ip = omega arith; port = omega arith }

maxfd_bounds :
    (tap_fd tap_fd1 net_fd : ℤ)
    → (ltb_ℤ (ready_with tap_fd tap_fd1 net_fd).maxfd tap_fd ≡ false)
      × (ltb_ℤ (ready_with tap_fd tap_fd1 net_fd).maxfd net_fd ≡ false)
maxfd_bounds (pos a) c (pos b) = ground arith
maxfd_bounds (pos a) c (negsuc b) = ground arith
maxfd_bounds (negsuc a) c (pos b) = ground arith
maxfd_bounds (negsuc a) c (negsuc b) = ground arith

module _ {S : Type 0} (kernel : Kernel S) (laws : IsKernel kernel) where
  -- What the loop of a program can rely on: three descriptors more are open, the devices' are no errors, an
  -- attempt to connect the one that `socket` returned has succeeded, and `maxfd` is not below those that `select` is given.
  pub record Running (o : Options) (s : S) (ready : Ready) (s' : S) : Type 0 where
    pub count : laws.tuns.opened s' ≡ laws.tuns.opened s + 3
    pub tap : is_negative ready.tap_fd ≡ false
    pub tap1 : is_negative ready.tap_fd1 ≡ false
    pub net_fd : ℤ
    pub from : S
    pub socket : net_fd ≡ (kernel.open_socket from).0
    pub net : is_negative net_fd ≡ false
    pub before : S
    pub accepted : (kernel.connect net_fd o.remote_ip o.port before).0 ≡ true
    pub maxfd : ltb_ℤ ready.maxfd ready.tap_fd ≡ false
    pub maxfd_net : ltb_ℤ ready.maxfd net_fd ≡ false

  abbrev pub Same : {A : Type 0} → S → A → S → Type 0
  Same s a s' = laws.tuns.opened s' ≡ laws.tuns.opened s

  pub must-Same :
      (s : S) (r : Bool × S) → laws.tuns.opened r.1 ≡ laws.tuns.opened s → Ensures (Same s) (must r)
  must-Same s (true, s') h = h
  must-Same s (false, s') h = tt

  pub start_thread-Same : (t : Thread) (s : S) → Ensures (Same s) (start_thread kernel t s)
  unfolding start_thread
  start_thread-Same t s = must-Same s (kernel.create t s) (laws.creates t s)

  as_client :
      (fd : ℤ) (o : Options) (net : Option ℤ) (s1 : S) (role : Role)
      → role ≡ client
      → NetSet kernel laws role fd o net s1
      → NetSet kernel laws client fd o net s1
  as_client fd o net s1 role e h = subst (λ r. NetSet kernel laws r fd o net s1) e h

  -- The end of each start, where `net_fd` is read and the loop is reached.
  finish :
      (o : Options) (s s1 : S) (fds : ℤ × ℤ) (net : Option ℤ)
      → o.cliserv ≡ client
      → Connected kernel laws o s (fds, net) s1
      → (net_fd : ℤ) × (net ≡ some net_fd)
        × ((s' : S)
            → laws.tuns.opened s' ≡ laws.tuns.opened s1
            → Running o s (ready_with fds.0 fds.1 net_fd) s')
  finish o s s1 fds net role h =
      let (from, set) = h.3 in
      let net_fd = (kernel.open_socket from).0 in
      let (before, is_set, fine, accepted) = as_client net_fd o net s1 o.cliserv role set in
      (
        net_fd,
        is_set,
        λ s' same. record {
          count = same ∙ h.0;
          tap = h.1;
          tap1 = h.2;
          net_fd = net_fd;
          from = from;
          socket = refl;
          net = fine;
          before = before;
          accepted = ap (λ (r : Bool × S). r.0) accepted;
          maxfd = (maxfd_bounds fds.0 fds.1 net_fd).0;
          maxfd_net = (maxfd_bounds fds.0 fds.1 net_fd).1;
        },
      )

  master_start-Ensures :
      (net : Interfaces) (host : ℕ) (given : List (ℕ × Text)) (argc : ℕ) (o : Options) (s : S)
      → IsHost net host
      → host < 100
      → parse_from no_options given argc ≡ some o
      → o.cliserv ≡ client
      → Ensures (Running o s) (master_start kernel net given argc s)
  unfolding master_start
  master_start-Ensures net host given argc o s at_host small e role =
      Ensures-continue (Connected kernel laws o s) (Running o s) _ _
        (connected_start-Connected kernel laws no_options given argc o s no_options-InBounds e)
        (λ r s1 h.
          Ensures-continue (Same s1) (Running o s) _ _ (start_thread-Same send_config s1)
            (λ u s2 same.
              let (net_fd, is_set, running) = finish o s s1 r.0 r.1 role h in
              rw (is_set, node_number_lem net host at_host small) (running s2 same)))

  first_start-Ensures :
      (net : Interfaces) (host : ℕ) (given : List (ℕ × Text)) (argc : ℕ) (o : Options) (s : S)
      → IsHost net host
      → host < 100
      → parse_from first_options given argc ≡ some o
      → o.cliserv ≡ client
      → Ensures
          (λ (r : Ready × ℤ) s'. Running o s r.0 s' × (r.1 ≡ pos host))
          (first_start kernel net given argc s)
  unfolding first_start subscribed
  first_start-Ensures net host given argc o s at_host small e role =
      Ensures-continue (Connected kernel laws o s) _ _ _
        (connected_start-Connected kernel laws first_options given argc o s first_options-InBounds
          e)
        (λ r s1 h.
          Ensures-continue (Same s1) _ _ _ (must-Same s1 (kernel.subscribe s1) (laws.subscribes s1))
            (λ u s2 same2.
              Ensures-continue (Same s2) _ _ _ (start_thread-Same recv_config s2) (λ u s3 same3.
                let (net_fd, is_set, running) = finish o s s1 r.0 r.1 role h in
                rw (is_set, node_number_lem net host at_host small)
                  (running s3 (same3 ∙ same2), refl))))
