-- ===== src/Tests/Starting.antt =====
-- The programs' starts over a kernel that counts its descriptors.
use rpi_hadoop.Prelude.{
  some, Text, ℕ, ◌+◌, ◌≡◌, refl, ◌⊎◌, true, [], ◌∷◌, none, codes, done, fault, pos, arith,
}
use rpi_hadoop.PacketQueue.{Heap}
use rpi_hadoop.Startup.{Options, no_options, client, server, parse_from}
use rpi_hadoop.HostNumber.{Interfaces}
use rpi_hadoop.HostNumber.Buffers.{IsHost, ip_text}
use rpi_hadoop.Handshake.{bound_address, own_address}
use rpi_hadoop.Handshake.Addresses.{own_address-bound_address}
use rpi_hadoop.Setup.{Kernel, master_start, node_start}
use rpi_hadoop.Setup.Shared.{IsKernel}
use rpi_hadoop.Setup.AsServer.{starts_as_server}
use rpi_hadoop.Tests.Calls.{counting, counting-IsTuns}

abbrev machine : Kernel ℕ
machine = record {
  tuns = counting;
  open_socket = λ s. (pos s, s + 1);
  connect = λ fd ip port s. (true, s);
  create = λ t s. (true, s);
  meet_master = λ address s. s;
  subscribe = λ s. (true, s);
}

machine-IsKernel : IsKernel machine
unfolding counting-IsTuns
machine-IsKernel = record {
  tuns = counting-IsTuns;
  sockets = λ s. refl;
  connects = λ fd ip port s. refl;
  creates = λ t s. refl;
  meets = λ address s. refl;
  subscribes = λ s. refl;
}

abbrev as_client : Options
as_client = record no_options {
  if_name = codes "tun1";
  cliserv = client;
  remote_ip = codes "10.0.0.101";
}

abbrev as_server : Options
as_server = record no_options { if_name = codes "tun1"; cliserv = server }

abbrev interfaces : Interfaces
interfaces = record { eth0 = ip_text 10 0 0 103 []; wlan0 = ip_text 192 168 1 3 [] }

interfaces-IsHost : IsHost interfaces 3
interfaces-IsHost = record {
  a = 192;
  b = 168;
  c = 1;
  small = (omega arith, omega arith, omega arith);
  address = refl;
}

own_address-bound_address_example :
    (address : Text) × (bound_address 3 ≡ some address) × (own_address interfaces ≡ done address)
own_address-bound_address_example =
    own_address-bound_address interfaces 3 interfaces-IsHost (omega arith, omega arith)

abbrev no_heap : Heap
no_heap a = none

-- The options of the script start-loopback.
starts_as_server_example :
    ((master_start machine interfaces ((b'i', codes "tun1") ∷ (b's', []) ∷ (b'u', []) ∷ []) 0 3
        ≡ done none)
      ⊎ (master_start machine interfaces ((b'i', codes "tun1") ∷ (b's', []) ∷ (b'u', []) ∷ []) 0 3
          ≡ fault))
    × ((node_start machine interfaces no_heap
            ((b'i', codes "tun1") ∷ (b's', []) ∷ (b'u', []) ∷ [])
            0
            3
          ≡ done none)
        ⊎ (node_start machine interfaces no_heap
              ((b'i', codes "tun1") ∷ (b's', []) ∷ (b'u', []) ∷ [])
              0
              3
            ≡ fault))
unfolding parse_from
starts_as_server_example =
    starts_as_server machine machine-IsKernel as_server refl interfaces 3 no_heap
      ((b'i', codes "tun1") ∷ (b's', []) ∷ (b'u', []) ∷ []) 0 3 interfaces-IsHost
      (omega arith, omega arith) refl
