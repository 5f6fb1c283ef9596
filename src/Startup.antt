-- ===== src/Startup.antt =====
-- How the master starts, `main` of CreateLoopbackMS.c: its options, and the connection to the server.
pub mod Laws
pub mod Attempts
use rpi_hadoop.Prelude.{
  ℕ, zero, suc, ◌+◌, ◌-◌, ◌*◌, ◌%◌, ◌^◌, Bool, true, false, ◌&&◌, List, [], ◌∷◌, Option, none, some,
  ltb, leb, ◌==◌, if◌then◌else◌, Text, codes, take, Run, done, out_of_fuel, ℤ, pos, negsuc,
}
use rpi_hadoop.CText.{atoi}

-- `cliserv`: -1 at first.
pub data Role : Type 0 where
  unset : Role
  client : Role
  server : Role

-- `IFF_TUN` and `IFF_TAP`
pub data Device : Type 0 where
  tun : Device
  tap : Device

pub record Options : Type 0 where
  pub debug : Bool
  pub if_name : Text
  pub cliserv : Role
  pub remote_ip : Text
  pub port : ℕ
  pub flags : Device

abbrev pub no_options : Options
no_options = record {
  debug = false;
  if_name = [];
  cliserv = unset;
  remote_ip = codes "10.100.0.100";
  port = 1234;
  flags = tun;
}

-- An `int` as an unsigned short.
abbrev pub to_port : ℤ → ℕ
to_port (pos n) = n % 2 ^ 16
to_port (negsuc n) = 2 ^ 16 - 1 - n % 2 ^ 16

-- The steps after one that may have ended the program.
infixl 5 ◌>>=◌
abbrev pub ◌>>=◌ : Option Options → (Options → Option Options) → Option Options
none >>= f = none
some o >>= f = f o

-- One option that `getopt` returns, with its argument: none if `usage` ends the program.
pub set_option : ℕ → Text → Options → Option Options
set_option option optarg o =
    if option == b'd'
    then some (record o { debug = true })
    else if option == b'h'
    then none
    else if option == b'i'
    then some (record o { if_name = take 15 optarg })
    else if option == b's'
    then some (record o { cliserv = server })
    else if option == b'c'
    then some (record o { cliserv = client; remote_ip = take 15 optarg })
    else if option == b'p'
    then some (record o { port = to_port (atoi optarg) })
    else if option == b'u'
    then some (record o { flags = tun })
    else if option == b'a'
    then some (record o { flags = tap })
    else none

-- All that `getopt` returns in turn.
pub set_options : List (ℕ × Text) → Options → Option Options
unfolding set_option
set_options [] o = some o
set_options ((option, optarg) ∷ rest) o = do o' ← set_option option optarg o; set_options rest o'

abbrev pub is_empty_text : Text → Bool
is_empty_text [] = true
is_empty_text (c ∷ s) = false

-- The tests of the role, for a given interface name.
pub check_role : Role → Options → Option Options
check_role unset o = none
check_role client o = if is_empty_text o.remote_ip then none else some o
check_role server o = some o

-- The tests after the options, where `argc` arguments are left over.
pub check_options : ℕ → Options → Option Options
unfolding check_role
check_options argc o =
    if ltb 0 argc then none else if is_empty_text o.if_name then none else check_role o.cliserv o

-- The options that a program of these defaults runs with: none if it ends with `usage`.
unfoldable pub parse_from : Options → List (ℕ × Text) → ℕ → Option Options
unfolding set_options check_options
parse_from defaults given argc = do o ← set_options given defaults; check_options argc o

-- The options that the master runs with.
unfoldable pub parse_options : List (ℕ × Text) → ℕ → Option Options
unfolding parse_from
parse_options given argc = parse_from no_options given argc

-- How the attempts to connect end, after how many that failed.
pub data Connection : Type 0 where
  connected : ℕ → Connection
  gave_up : ℕ → Connection

-- The loop for attempt `i` on, where `accepts i` tells whether that attempt succeeds. Past its
-- condition the socket is used as if it were connected.
pub connect_loop : ℕ → ℕ → (ℕ → Bool) → Run Connection
connect_loop zero i accepts = out_of_fuel
connect_loop (suc fuel) i accepts =
    let rest = connect_loop fuel (i + 1) accepts in
    if leb i 20
    then (if accepts i
        then done (connected i)
        else if i + 1 == 20
        then done (gave_up (i + 1))
        else rest)
    else done (connected i)

-- 21 rounds are enough.
unfoldable pub connect_server : (ℕ → Bool) → Run Connection
unfolding connect_loop
connect_server accepts = connect_loop 21 0 accepts
