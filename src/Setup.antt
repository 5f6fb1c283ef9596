-- ===== src/Setup.antt =====
-- How the three programs start: `main` of CreateLoopbackMS.c, of CreateLoopbackCS1Q.c and of
-- CreateLoopback.c, from the options to the loop that copies packets.
pub mod Outcomes
pub mod Shared
pub mod AsClient
pub mod AsServer
use rpi_hadoop.Prelude.{
  ℕ, zero, suc, ◌+◌, Bool, true, false, List, [], ◌∷◌, Option, none, some, if◌then◌else◌, Text,
  codes, Run, done, fault, out_of_fuel, ℤ, pos, ltb_ℤ,
}
use rpi_hadoop.PacketQueue.{Heap}
use rpi_hadoop.Forwarder.Pipeline.{State}
use rpi_hadoop.Forwarder.Order.{start}
use rpi_hadoop.HostNumber.{Interfaces, node_number}
use rpi_hadoop.Startup.{
  Options, no_options, Role, client, server, unset, Device, parse_from, Connection, connected,
  gave_up, connect_server,
}
use rpi_hadoop.Devices.{Tuns, is_negative, tun_alloc}
use rpi_hadoop.Handshake.{own_address}

-- A part of a start: what it computes and the state it leaves, none if it ends the program, by `exit(1)`,
-- `usage` or a failed `assert`.
abbrev pub Part : Type 0 → Type 0 → Type 0
Part S A = S → Run (Option (A × S))

abbrev pub continue :
    {S A B : Type 0} → Run (Option (A × S)) → (A → Part S B) → Run (Option (B × S))
continue out_of_fuel next = out_of_fuel
continue fault next = fault
continue (done none) next = done none
continue (done (some (a, s))) next = next a s

infixl 5 ◌>>=◌ ◌>>◌
abbrev pub ◌>>=◌ : {S A B : Type 0} → Part S A → (A → Part S B) → Part S B
◌>>=◌ m next s = continue (m s) next

abbrev pub ◌>>◌ : {S B : Type 0} → Part S (Unit {0}) → Part S B → Part S B
m >> k = m >>= λ _. k

abbrev pub pure : {S A : Type 0} → A → Part S A
pure a s = done (some (a, s))

-- A value without which the program ends.
abbrev pub needed : {S A : Type 0} → Option A → Part S A
needed none s = done none
needed (some a) s = done (some (a, s))

-- A variable that is read, if it was set.
abbrev pub read_variable : {S A : Type 0} → Option A → Part S A
read_variable none s = fault
read_variable (some a) s = done (some (a, s))

abbrev pub computed : {S A : Type 0} → Run A → Part S A
computed (done a) s = done (some (a, s))
computed fault s = fault
computed out_of_fuel s = out_of_fuel

-- A call that tells whether it succeeded, and one without which the program ends.
abbrev pub must : {S : Type 0} → Bool × S → Run (Option (Unit {0} × S))
must (true, s) = done (some (tt, s))
must (false, s) = done none

-- The functions that `pthread_create` starts.
pub data Thread : Type 0 where
  send_config : Thread
  recv_config : Thread
  report_task : Thread
  write_tun : Thread

-- The calls of a start: the devices; `socket`; `connect` to an address and a port; `pthread_create`;
-- ZeroMQ's calls of a node, with the exchange before the first slot; and those of a subscriber.
pub record Kernel (S : Type 0) : Type 0 where
  pub tuns : Tuns S
  pub open_socket : S → ℤ × S
  pub connect : ℤ → Text → ℕ → S → Bool × S
  pub create : Thread → S → Bool × S
  pub meet_master : Text → S → S
  pub subscribe : S → Bool × S

-- What the loop of a program runs with.
pub record Ready : Type 0 where
  pub tap_fd : ℤ
  pub tap_fd1 : ℤ
  pub maxfd : ℤ

-- `maxfd = (tap_fd > net_fd) ? tap_fd : net_fd`
abbrev pub ready_with : ℤ → ℤ → ℤ → Ready
ready_with tap_fd tap_fd1 net_fd = record {
  tap_fd = tap_fd;
  tap_fd1 = tap_fd1;
  maxfd = if ltb_ℤ net_fd tap_fd then tap_fd else net_fd;
}

-- The first forwarder's port is another.
abbrev pub first_options : Options
first_options = record no_options { port = 9999 }

module _ {S : Type 0} (kernel : Kernel S) where
  -- A descriptor: a negative number ends the program.
  pub opened : {A : Type 0} → (ℤ × A) × S → Run (Option ((ℤ × A) × S))
  opened ((fd, a), s) = if is_negative fd then done none else done (some ((fd, a), s))

  pub after_alloc : Run ((ℤ × Text) × S) → Run (Option ((ℤ × Text) × S))
  unfolding opened
  after_alloc (done r) = opened r
  after_alloc fault = fault
  after_alloc out_of_fuel = out_of_fuel

  pub open_device : Text → Device → Part S (ℤ × Text)
  unfolding after_alloc
  open_device name flags s = after_alloc (tun_alloc kernel.tuns name flags s)

  pub open_sock : Part S (ℤ × Unit {0})
  unfolding opened
  open_sock s = let (fd, s') = kernel.open_socket s in opened ((fd, tt), s')

  -- The state before attempt `i` to connect.
  pub before_attempt : ℤ → Options → ℕ → S → S
  before_attempt fd o zero s = s
  before_attempt fd o (suc i) s = (kernel.connect fd o.remote_ip o.port (before_attempt fd o i s)).1

  pub after_connect : ℤ → Options → S → Run Connection → Run (Option (Option ℤ × S))
  unfolding before_attempt
  after_connect fd o s (done (connected i)) = done (some (some fd, before_attempt fd o (suc i) s))
  after_connect fd o s (done (gave_up n)) = done none
  after_connect fd o s fault = fault
  after_connect fd o s out_of_fuel = out_of_fuel

  -- The connection of a client: `net_fd`, which only a client sets.
  pub connect_role : Role → ℤ → Options → Part S (Option ℤ)
  unfolding after_connect
  connect_role client fd o s =
      after_connect fd o s
        (connect_server (λ i. (kernel.connect fd o.remote_ip o.port (before_attempt fd o i s)).0))
  connect_role server fd o s = done (some (none, s))
  connect_role unset fd o s = done (some (none, s))

  -- What the three programs do first: options, the two devices, a socket, the connection.
  pub connected_start : Options → List (ℕ × Text) → ℕ → Part S ((ℤ × ℤ) × Option ℤ)
  unfolding open_device open_sock connect_role
  connected_start defaults given argc = do
    o ← needed (parse_from defaults given argc)
    tap ← open_device o.if_name o.flags
    tap1 ← open_device (codes "tun0") o.flags
    sock ← open_sock
    net ← connect_role o.cliserv sock.0 o
    pure ((tap.0, tap1.0), net)

  pub start_thread : Thread → Part S (Unit {0})
  start_thread thread s = must (kernel.create thread s)

  pub meet : Text → Part S (Unit {0})
  meet str s = done (some (tt, kernel.meet_master str s))

  pub subscribed : Part S (Unit {0})
  subscribed s = must (kernel.subscribe s)

  -- CreateLoopbackMS.c, on a host of these addresses: its number is read, and not used.
  unfoldable pub master_start : Interfaces → List (ℕ × Text) → ℕ → Part S Ready
  unfolding connected_start start_thread
  master_start net given argc = do
    ((tap_fd, tap_fd1), connection) ← connected_start no_options given argc
    start_thread send_config
    net_fd ← read_variable connection
    my_t_alloc ← computed (node_number net)
    pure (ready_with tap_fd tap_fd1 net_fd)

  -- CreateLoopbackCS1Q.c, on a host of these addresses: with what the loop runs with comes the state of
  -- the packet path behind the calls of `create_queue`.
  unfoldable pub node_start : Interfaces → Heap → List (ℕ × Text) → ℕ → Part S (Ready × State)
  unfolding connected_start start_thread meet
  node_start net heap given argc = do
    ((tap_fd, tap_fd1), connection) ← connected_start no_options given argc
    str ← computed (own_address net)
    meet str
    start_thread recv_config
    start_thread report_task
    net_fd ← read_variable connection
    start_thread write_tun
    pure (ready_with tap_fd tap_fd1 net_fd, start heap)

  -- CreateLoopback.c, with the number that its windows are chosen by
  unfoldable pub first_start : Interfaces → List (ℕ × Text) → ℕ → Part S (Ready × ℤ)
  unfolding connected_start start_thread subscribed
  first_start net given argc = do
    ((tap_fd, tap_fd1), connection) ← connected_start first_options given argc
    subscribed
    start_thread recv_config
    net_fd ← read_variable connection
    my_t_alloc ← computed (node_number net)
    pure (ready_with tap_fd tap_fd1 net_fd, my_t_alloc)
