-- ===== src/Setup/AsServer.antt =====
-- What happens if a program starts as a server.
use rpi_hadoop.Prelude.{ℕ, ◌≡◌, ◌⊎◌, List, Option, none, some, Text, done, fault, ℤ}
use mathlib.Core.Path.{subst}
use rpi_hadoop.PacketQueue.{Heap}
use rpi_hadoop.HostNumber.{Interfaces}
use rpi_hadoop.HostNumber.Buffers.{IsHost}
use rpi_hadoop.Startup.{Options, no_options, Role, server, parse_from}
use rpi_hadoop.Startup.Laws.{no_options-InBounds}
use rpi_hadoop.Handshake.{IsNode}
use rpi_hadoop.Handshake.Addresses.{own_address-bound_address}
use rpi_hadoop.Setup.{
  Kernel, meet, subscribed, master_start, node_start, first_start, first_options, send_config,
  recv_config, report_task,
}
use rpi_hadoop.Setup.Outcomes.{Allows, Allows-continue, Allows-cases}
use rpi_hadoop.Setup.Shared.{IsKernel, NetSet, Connected, connected_start-Connected}
use rpi_hadoop.Setup.AsClient.{first_options-InBounds, Same, must-Same, start_thread-Same}

module _ {S : Type 0} (kernel : Kernel S) (laws : IsKernel kernel) (o : Options)
    (as_server : o.cliserv ≡ server) where
  unset_net :
      (fd : ℤ) (net : Option ℤ) (s1 : S) (role : Role)
      → role ≡ server
      → NetSet kernel laws role fd o net s1
      → net ≡ none
  unset_net fd net s1 role e h = subst (λ r. NetSet kernel laws r fd o net s1) e h

  master_start-Allows :
      (net : Interfaces) (given : List (ℕ × Text)) (argc : ℕ) (s : S)
      → parse_from no_options given argc ≡ some o
      → Allows (λ a s'. ⊥) (master_start kernel net given argc s)
  unfolding master_start
  master_start-Allows net given argc s e =
      Allows-continue (Connected kernel laws o s) _ _ _
        (connected_start-Connected kernel laws no_options given argc o s no_options-InBounds e)
        (λ r s1 h.
          Allows-continue (Same kernel laws s1) _ _ _ (start_thread-Same kernel laws send_config s1)
            (λ u s2 same. rw (unset_net _ r.1 s1 o.cliserv as_server h.3.1) tt))

  node_start-Allows :
      (net : Interfaces) (host : ℕ) (heap : Heap) (given : List (ℕ × Text)) (argc : ℕ) (s : S)
      → IsHost net host
      → IsNode host
      → parse_from no_options given argc ≡ some o
      → Allows (λ a s'. ⊥) (node_start kernel net heap given argc s)
  unfolding node_start meet
  node_start-Allows net host heap given argc s at_host node e =
      let (address, bound, composed) = own_address-bound_address net host at_host node in
      rw composed (
        Allows-continue (Connected kernel laws o s) _ _ _
          (connected_start-Connected kernel laws no_options given argc o s no_options-InBounds e)
          (λ r s1 h.
            Allows-continue (Same kernel laws (kernel.meet_master address s1)) _ _ _
              (start_thread-Same kernel laws recv_config _)
              (λ u s2 same2.
                Allows-continue (Same kernel laws s2) _ _ _
                  (start_thread-Same kernel laws report_task s2)
                  (λ u s3 same3. rw (unset_net _ r.1 s1 o.cliserv as_server h.3.1) tt))))

  first_start-Allows :
      (net : Interfaces) (given : List (ℕ × Text)) (argc : ℕ) (s : S)
      → parse_from first_options given argc ≡ some o
      → Allows (λ a s'. ⊥) (first_start kernel net given argc s)
  unfolding first_start subscribed
  first_start-Allows net given argc s e =
      Allows-continue (Connected kernel laws o s) _ _ _
        (connected_start-Connected kernel laws first_options given argc o s first_options-InBounds
          e)
        (λ r s1 h.
          Allows-continue (Same kernel laws s1) _ _ _
            (must-Same kernel laws s1 (kernel.subscribe s1) (laws.subscribes s1))
            (λ u s2 same2.
              Allows-continue (Same kernel laws s2) _ _ _
                (start_thread-Same kernel laws recv_config s2)
                (λ u s3 same3. rw (unset_net _ r.1 s1 o.cliserv as_server h.3.1) tt)))

  -- The first forwarder as a server never reaches its loop either.
  pub first_starts_as_server :
      (net : Interfaces) (given : List (ℕ × Text)) (argc : ℕ) (s : S)
      → parse_from first_options given argc ≡ some o
      → (first_start kernel net given argc s ≡ done none)
        ⊎ (first_start kernel net given argc s ≡ fault)
  first_starts_as_server net given argc s e =
      Allows-cases (first_start kernel net given argc s) (first_start-Allows net given argc s e)

  -- As a server neither the master nor a node ever reaches its loop: the start ends with an error, or
  -- reads `net_fd`, which was not set.
  pub starts_as_server :
      (net : Interfaces) (host : ℕ) (heap : Heap) (given : List (ℕ × Text)) (argc : ℕ) (s : S)
      → IsHost net host
      → IsNode host
      → parse_from no_options given argc ≡ some o
      → ((master_start kernel net given argc s ≡ done none)
          ⊎ (master_start kernel net given argc s ≡ fault))
        × ((node_start kernel net heap given argc s ≡ done none)
            ⊎ (node_start kernel net heap given argc s ≡ fault))
  starts_as_server net host heap given argc s at_host node e = (
    Allows-cases (master_start kernel net given argc s) (master_start-Allows net given argc s e),
    Allows-cases (node_start kernel net heap given argc s)
        (node_start-Allows net host heap given argc s at_host node e),
  )
