-- ===== src/Setup/Shared.antt =====
-- What the three programs do first, up to the connection.
use rpi_hadoop.Prelude.{
  ℕ, zero, suc, ◌+◌, ◌<◌, ◌≡◌, refl, ap, ◌∙◌, inl, inr, Bool, true, false, Bool-cases, List, Option,
  none, some, if◌then◌else◌, Text, codes, length, ℤ, arith,
}
use mathlib.Core.Path.{subst}
use rpi_hadoop.Startup.{Options, Role, client, server, unset, Device, parse_from}
use rpi_hadoop.Startup.Laws.{InBounds, parse_from-Valid}
use rpi_hadoop.Startup.Attempts.{connect_server_total}
use rpi_hadoop.Devices.{is_negative}
use rpi_hadoop.Devices.Descriptors.{IsTuns, tun_alloc-opened}
use rpi_hadoop.Setup.{
  Kernel, Thread, opened, after_alloc, open_device, open_sock, before_attempt, after_connect,
  connect_role, connected_start,
}
use rpi_hadoop.Setup.Outcomes.{Ensures, Ensures-continue}

-- The documented behaviour of the calls, over the number of open descriptors.
pub record IsKernel {S : Type 0} (kernel : Kernel S) : Type 0 where
  pub tuns : IsTuns kernel.tuns
  pub sockets :
      (s : S)
      → tuns.opened (kernel.open_socket s).1
        ≡ (if is_negative (kernel.open_socket s).0 then tuns.opened s else tuns.opened s + 1)
  pub connects :
      (fd : ℤ) (ip : Text) (port : ℕ) (s : S)
      → tuns.opened (kernel.connect fd ip port s).1 ≡ tuns.opened s
  pub creates : (t : Thread) (s : S) → tuns.opened (kernel.create t s).1 ≡ tuns.opened s
  pub meets : (address : Text) (s : S) → tuns.opened (kernel.meet_master address s) ≡ tuns.opened s
  pub subscribes : (s : S) → tuns.opened (kernel.subscribe s).1 ≡ tuns.opened s

module _ {S : Type 0} (kernel : Kernel S) (laws : IsKernel kernel) where
  -- One descriptor more is open, and it is not an error.
  abbrev OneMore : {A : Type 0} → S → ℤ × A → S → Type 0
  OneMore s (fd, a) s' = (laws.tuns.opened s' ≡ laws.tuns.opened s + 1) × (is_negative fd ≡ false)

  opened-OneMore :
      {A : Type 0} (s s' : S) (fd : ℤ) (a : A)
      → laws.tuns.opened s'
        ≡ (if is_negative fd then laws.tuns.opened s else laws.tuns.opened s + 1)
      → Ensures (OneMore s) (opened kernel ((fd, a), s'))
  unfolding opened
  opened-OneMore s s' fd a count = elim (Bool-cases (is_negative fd)) [
    | inl failed ↦ rw failed tt
    | inr fine ↦ let count' = rw fine at count in rw fine (count', fine)
  ]

  open_device-OneMore :
      (name : Text) (flags : Device) (s : S)
      → length name < 16
      → Ensures (OneMore s) (open_device kernel name flags s)
  unfolding open_device after_alloc
  open_device-OneMore name flags s short =
      let (fd, name', s', run, count, short') =
        tun_alloc-opened kernel.tuns laws.tuns name flags s short in
      rw run (opened-OneMore s s' fd name' count)

  -- The descriptor is the one that `socket` returns.
  open_sock-OneMore :
      (s : S)
      → Ensures
          (λ (r : ℤ × Unit {0}) s'. OneMore s r s' × (r.0 ≡ (kernel.open_socket s).0))
          (open_sock kernel s)
  unfolding open_sock opened
  open_sock-OneMore s =
      let sockets = laws.sockets s in
      elim (Bool-cases (is_negative (kernel.open_socket s).0)) [
        | inl failed ↦ rw failed tt
        | inr fine ↦ let count = rw fine at sockets in rw fine ((count, fine), refl)
      ]

  before_attempt-opened :
      (fd : ℤ) (o : Options) (i : ℕ) (s : S)
      → laws.tuns.opened (before_attempt kernel fd o i s) ≡ laws.tuns.opened s
  unfolding before_attempt
  before_attempt-opened fd o zero s = refl
  before_attempt-opened fd o (suc i) s = laws.connects _ _ _ _ ∙ before_attempt-opened fd o i s

  -- `net_fd` is set exactly by a client, to the socket, behind a call of `connect` that succeeded.
  abbrev pub NetSet : Role → ℤ → Options → Option ℤ → S → Type 0
  NetSet client fd o net s' =
      (s : S) × (net ≡ some fd)
      × (is_negative fd ≡ false)
      × (kernel.connect fd o.remote_ip o.port s ≡ (true, s'))
  NetSet server fd o net s' = net ≡ none
  NetSet unset fd o net s' = net ≡ none

  connect_role-NetSet :
      (role : Role) (fd : ℤ) (o : Options) (s : S)
      → is_negative fd ≡ false
      → Ensures
          (λ net s'. (laws.tuns.opened s' ≡ laws.tuns.opened s) × NetSet role fd o net s')
          (connect_role kernel role fd o s)
  unfolding connect_role after_connect before_attempt
  connect_role-NetSet server fd o s fine = (refl, refl)
  connect_role-NetSet unset fd o s fine = (refl, refl)
  connect_role-NetSet client fd o s fine =
      elim (connect_server_total
        (λ i. (kernel.connect fd o.remote_ip o.port (before_attempt kernel fd o i s)).0)) [
          | inl (i, few, accepted, run) ↦ rw run (
            before_attempt-opened fd o (suc i) s,
            (
              before_attempt kernel fd o i s,
              refl,
              fine,
              ap (λ (b : Bool). (b, before_attempt kernel fd o (suc i) s)) accepted,
            ),
          )
          | inr given_up ↦ rw given_up tt
        ]

  -- What holds when the program goes on behind the connection: three descriptors more are open, and the
  -- third is what `socket` returned.
  abbrev pub Connected : Options → S → (ℤ × ℤ) × Option ℤ → S → Type 0
  Connected o s ((tap_fd, tap_fd1), net) s' =
      (laws.tuns.opened s' ≡ laws.tuns.opened s + 3)
      × (is_negative tap_fd ≡ false)
      × (is_negative tap_fd1 ≡ false)
      × ((from : S) × NetSet o.cliserv (kernel.open_socket from).0 o net s')

  pub connected_start-Connected :
      (defaults : Options) (given : List (ℕ × Text)) (argc : ℕ) (o : Options) (s : S)
      → InBounds defaults
      → parse_from defaults given argc ≡ some o
      → Ensures (Connected o s) (connected_start kernel defaults given argc s)
  unfolding connected_start
  connected_start-Connected defaults given argc o s bounds e =
      let valid = parse_from-Valid defaults given argc o bounds e in
      rw e (
        Ensures-continue (OneMore s) (Connected o s) _ _
          (open_device-OneMore o.if_name o.flags s (omega (arith, valid.bounds.name)))
          (λ tap s1 h1.
            Ensures-continue (OneMore s1) (Connected o s) _ _
              (open_device-OneMore (codes "tun0") o.flags s1 (omega arith))
              (λ tap1 s2 h2.
                Ensures-continue
                  (λ (r : ℤ × Unit {0}) s'. OneMore s2 r s' × (r.0 ≡ (kernel.open_socket s2).0))
                  (Connected o s) _ _ (open_sock-OneMore s2)
                  (λ sock s3 h3.
                    Ensures-continue
                      (λ net s4.
                        (laws.tuns.opened s4 ≡ laws.tuns.opened s3)
                        × NetSet o.cliserv sock.0 o net s4)
                      (Connected o s) _ _ (connect_role-NetSet o.cliserv sock.0 o s3 h3.0.1)
                      (λ net s4 h4. (
                        omega (arith, h1.0, h2.0, h3.0.0, h4.0),
                        h1.1,
                        h2.1,
                        (s2, subst (λ fd. NetSet o.cliserv fd o net s4) h3.1 h4.1),
                      ))))))
