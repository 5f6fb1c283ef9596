-- ===== src/HostNumber.antt =====
-- The number of a host, the last part of its IP address: `get_last_digit` and `get_Last_IP_Digit` of
-- packet_rate.c.
pub mod Buffers
use rpi_hadoop.Prelude.{
  ℕ, List, [], ◌∷◌, ◌++◌, Option, none, some, if◌then◌else◌, Text, Run, done, fault, ◌>>=◌,
  non_null, ℤ, pos, eqb_ℤ, ◌≡◌, refl,
}
use rpi_hadoop.CText.{tokens, atoi, sprintf}

-- The loop over the tokens: each is copied into `lastdigit`, of 4 bytes, which holds nothing defined
-- before the first.
pub last_loop : List Text → Option Text → Run (Option Text)
last_loop [] lastdigit = done lastdigit
last_loop (token ∷ rest) lastdigit = do copied ← sprintf 4 token; last_loop rest (some copied)

unfoldable pub get_last_digit : Text → Run ℤ
unfolding last_loop
get_last_digit ip = do
  lastdigit ← last_loop (tokens b'.' ip) none
  digits ← non_null lastdigit
  done (atoi digits)

-- The addresses of the two interfaces, as `inet_ntoa` prints them.
pub record Interfaces : Type 0 where
  pub eth0 : Text
  pub wlan0 : Text

-- The address that `ioctl` is asked for: with another code the interface's name is not set.
unfoldable pub address_of : Interfaces → ℤ → Run Text
address_of net code =
    if eqb_ℤ code (pos 1)
    then done net.eth0
    else if eqb_ℤ code (pos 2)
    then done net.wlan0
    else fault

-- The address is printed with a line feed behind it into `ip`, of 17 bytes, and taken apart.
unfoldable pub number_of : Text → Run ℤ
unfolding last_loop
number_of address = do
  ip ← sprintf 17 (address ++ 10 ∷ [])
  lastdigit ← last_loop (tokens b'.' ip) none
  digits ← non_null lastdigit
  done (atoi digits)

-- `get_Last_IP_Digit` of packet_rate.c
unfoldable pub get_last_ip_digit : Interfaces → ℤ → Run ℤ
unfolding number_of address_of
get_last_ip_digit net code = do address ← address_of net code; number_of address

-- `get_Last_IP_Digit` of monitor.h, which a node calls
unfoldable pub node_number : Interfaces → Run ℤ
unfolding number_of
node_number net = number_of net.wlan0
