-- ===== src/PacketRate.antt =====
-- The sniffer of a node, packet_rate.c: it counts the large packets from each node, broadcasts the
-- counts every second, and writes the counts that the others broadcast to speed_log.txt.
pub mod Counting
pub mod Exchange
pub mod Publishing
pub mod Receiving
pub mod Start
use rpi_hadoop.Prelude.{
  ℕ, zero, suc, ◌+◌, ◌<◌, ◌≡◌, refl, Bool, ◌&&◌, not, List, [], ◌∷◌, ◌++◌, ◌>>◌, Option, none, some,
  ltb, leb, ◌==◌, if◌then◌else◌, Text, codes, Run, done, fault, ◌>>=◌, ensure, non_null, ℤ, pos,
  negsuc, pos_part, add_int, eqb_ℤ, ltb_ℤ, is_zero, is_positive,
}
use rpi_hadoop.CText.{tokens, atoi, format_int, sprintf}
use rpi_hadoop.CArray.{IntArray, zeros, update}
use rpi_hadoop.HostNumber.{Interfaces, get_last_digit, get_last_ip_digit}

-- `eth_Ipaddr`
abbrev pub eth_ipaddr : ℕ → ℤ
eth_ipaddr i = pos (101 + i)

-- The elements of the nine counts from `i` on, added up.
unfoldable pub sum_loop : ℕ → ℕ → IntArray → ℤ → ℤ
sum_loop zero i a sum = sum
sum_loop (suc rounds) i a sum = sum_loop rounds (i + 1) a (add_int sum (a i))

-- The nine counts, each printed into `c_num` (5 bytes) and appended to what the buffer holds, with a
-- point behind all but the last.
pub join_loop : ℕ → ℕ → IntArray → Text → Run Text
join_loop zero k a str = done str
join_loop (suc rounds) k a str = do
  c_num ← sprintf 5 (format_int (a k))
  join_loop rounds (k + 1) a (str ++ (c_num ++ (if ltb k 8 then b'.' ∷ [] else [])))

-- A captured packet, as far as it is read: addresses as `inet_ntoa` prints them.
pub record Captured : Type 0 where
  pub protocol : ℕ
  pub saddr : Text
  pub daddr : Text
  pub tot_len : ℕ
  pub dest : ℕ

-- The loop over `eth_Ipaddr` from `i` on.
pub count_loop : ℕ → ℕ → ℤ → Captured → IntArray → IntArray
count_loop zero i src c b_data = b_data
count_loop (suc rounds) i src c b_data = count_loop rounds (i + 1) src c (
    if eqb_ℤ (add_int src (pos 100)) (eth_ipaddr i) && (ltb 1000 c.tot_len && c.dest == 5201)
    then update b_data i (add_int (b_data i) (pos 1))
    else b_data)

-- The counts after a TCP packet: the packets of this host itself are not counted.
pub count_tcp : Interfaces → Captured → IntArray → Run IntArray
unfolding count_loop
count_tcp net c b_data = do
  src ← sprintf 20 c.saddr
  des ← sprintf 20 c.daddr
  this_packet_src_ip ← get_last_digit src
  this_packet_des_ip ← get_last_digit des
  own ← get_last_ip_digit net (pos 2)
  done (if eqb_ℤ this_packet_src_ip own then b_data else count_loop 9 0 this_packet_src_ip c b_data)

pub count_packet : Interfaces → Captured → IntArray → Run IntArray
unfolding count_tcp
count_packet net c b_data = if c.protocol == 6 then count_tcp net c b_data else done b_data

-- `b_data` and `expiry`, the time in milliseconds from which on the counts are sent.
pub record Sniffer : Type 0 where
  pub b_data : IntArray
  pub expiry : ℕ

-- What is sent to the speaker: `SILENCE`, which ends what it publishes, and `PUBLISH` with a text.
pub data Signal : Type 0 where
  silence : Signal
  publish : Text → Signal

-- The state after a packet, and what was sent to the speaker, in order.
pub record Sniffed : Type 0 where
  pub state : Sniffer
  pub signals : List Signal

-- The counts are sent, and start again from 0, unless their sum is not positive. `sent` is what the
-- speaker has been sent before, `later` the time at the second look at the clock.
pub publish_counts : List Signal → ℕ → IntArray → Run Sniffed
unfolding join_loop sum_loop
publish_counts sent later b_data = do
  joined ← join_loop 9 0 b_data []
  str_tosend ← sprintf 200 joined
  done (
      if is_positive (sum_loop 9 0 b_data (pos 0))
      then record {
        state = record { b_data = zeros; expiry = later + 1000 };
        signals = sent ++ publish str_tosend ∷ [];
      }
      else record { state = record { b_data = b_data; expiry = later + 1000 }; signals = sent })

-- `process_packet`, at the times `now` and `later`: the speaker is silenced at every packet.
unfoldable pub process_packet : Interfaces → ℕ → ℕ → Captured → Sniffer → Run Sniffed
unfolding count_packet publish_counts
process_packet net now later c s =
    let sent = silence ∷ [] in
    do
      b_data ← count_packet net c s.b_data
      if leb s.expiry now
          then publish_counts sent later b_data
          else done
              (record { state = record { b_data = b_data; expiry = s.expiry }; signals = sent })

-- The loop of `get_digit_from_content`: up to `last_digit` tokens are copied into `digit`, of 4 bytes,
-- which holds nothing defined before the first.
pub digit_loop : ℕ → List Text → Option Text → Run (Option Text)
digit_loop zero ts digit = done digit
digit_loop (suc left) [] digit = done digit
digit_loop (suc left) (token ∷ ts) digit = do
  copied ← sprintf 4 token
  digit_loop left ts (some copied)

unfoldable pub get_digit_from_content : Text → ℤ → Run ℤ
unfolding digit_loop
get_digit_from_content content last_digit = do
  digit ← digit_loop (pos_part last_digit) (tokens b'.' content) none
  digits ← non_null digit
  done (atoi digits)

-- The text up to the first separator.
pub before : ℕ → Text → Text
before sep [] = []
before sep (c ∷ s) = let rest = before sep s in if c == sep then [] else c ∷ rest

-- What a buffer holds after `strtok(buffer, sep)`: the separators in front, and the first token.
pub cut : ℕ → Text → Text
unfolding before
cut sep [] = []
cut sep (c ∷ s) = let rest = cut sep s in if c == sep then c ∷ rest else c ∷ before sep s

-- The loop of `recv_broadcast` over `eth_Ipaddr` from `i` on: the sender's entry becomes the count, if
-- that is larger and above 100.
pub keep_loop : ℕ → ℕ → ℤ → ℤ → ℤ → IntArray → IntArray
keep_loop zero i remote own number a = a
keep_loop (suc rounds) i remote own number a = keep_loop rounds (i + 1) remote own number (
    if (eqb_ℤ (eth_ipaddr i) remote && not (eqb_ℤ own (eth_ipaddr i)))
      && (ltb_ℤ (a i) number && ltb_ℤ (pos 100) number)
    then update a i number
    else a)

-- `from_others` after a broadcast, and what speed_log.txt holds if it was written.
pub record Heard : Type 0 where
  pub from_others : IntArray
  pub speed_log : Option Text

-- The file is written if a count is not 0: `fresh` is what the memory of `malloc` holds, and `opened`
-- tells whether the file can be opened.
pub write_log : Text → Bool → IntArray → Run Heard
unfolding join_loop sum_loop
write_log fresh opened a =
    if is_zero (sum_loop 9 0 a (pos 0))
    then done (record { from_others = a; speed_log = none })
    else (do
      joined ← join_loop 9 0 a fresh
      str_tofile ← sprintf 200 joined
      ensure opened
      done (record { from_others = a; speed_log = some str_tofile }))

-- The body of the loop of `recv_broadcast`, for the sender's address and what it sent.
unfoldable pub recv_broadcast : Interfaces → Text → Bool → Text → Text → IntArray → Run Heard
unfolding cut keep_loop write_log
recv_broadcast net fresh opened ipaddress content a = do
  remote_eth_ip ← get_last_digit ipaddress
  own ← get_last_ip_digit net (pos 1)
  if eqb_ℤ remote_eth_ip own then done (record { from_others = a; speed_log = none }) else (do
    this_ip ← get_last_ip_digit net (pos 2)
    number1 ← get_digit_from_content (cut b',' content) this_ip
    write_log fresh opened (keep_loop 9 0 remote_eth_ip own number1 a))
