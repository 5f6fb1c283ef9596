-- ===== src/Tests/Sniffing.antt =====
-- The sniffer, the windows and the start at concrete inputs.
use rpi_hadoop.Prelude.{
  is_zero, ℕ, ◌+◌, ◌*◌, ◌≡◌, ◌≢◌, refl, [], ◌∷◌, some, true, false, arith, codes, done, fault, pos,
  ◌==◌, if◌then◌else◌, Text, List, add_int,
}
use rpi_hadoop.CText.{atoi}
use rpi_hadoop.CArray.{IntArray, zeros, update}
use rpi_hadoop.HostNumber.{Interfaces, get_last_ip_digit, address_of}
use rpi_hadoop.HostNumber.Buffers.{ip_text, get_last_ip_digit_lem}
use rpi_hadoop.PacketRate.Receiving.{recv_broadcast_overrun}
use rpi_hadoop.PacketRate.{recv_broadcast, Captured, count_packet, process_packet, sum_loop}
use rpi_hadoop.PacketRate.Counting.{counted, count_packet_lem}
use rpi_hadoop.PacketRate.Publishing.{left_by, process_packet_lem}
use rpi_hadoop.Report.RoundTrip.{reported}
use rpi_hadoop.Cluster.Rates.{known, pass_on, counts_reach_master}
use rpi_hadoop.SlotWindow.{Config, in_window}
use rpi_hadoop.SlotWindow.Windows.{IsTable, windows_disjoint}
use rpi_hadoop.Startup.{parse_options, Options, tun, client}
use rpi_hadoop.Startup.Laws.{Valid, parse_options-Valid}

abbrev net : Interfaces
net = record { eth0 = ip_text 10 0 0 103 []; wlan0 = ip_text 10 0 0 3 [] }

own_address : address_of net (pos 2) ≡ done (ip_text 10 0 0 3 [])
unfolding address_of
own_address = refl

abbrev captured : Captured
captured = record {
  protocol = 6;
  saddr = ip_text 10 0 0 5 [];
  daddr = ip_text 10 0 0 3 [];
  tot_len = 1500;
  dest = 5201;
}

own_number : get_last_ip_digit net (pos 2) ≡ done (pos 3)
own_number =
    get_last_ip_digit_lem net (pos 2) 10 0 0 3 own_address (omega arith) (omega arith) (omega arith)
      (omega arith)

count_packet_lem_example : count_packet net captured zeros ≡ done (counted 5 captured zeros)
count_packet_lem_example =
    count_packet_lem net captured zeros 3 10 0 0 5 10 0 0 3 own_number refl refl refl
      (omega arith, omega arith, omega arith, omega arith)
      (omega arith, omega arith, omega arith, omega arith) (λ e. omega arith)

process_packet_lem_example :
    process_packet net 7000 7001 captured (record { b_data = zeros; expiry = 6500 })
    ≡ done (left_by 6500 7000 7001 (counted 5 captured zeros))
unfolding add_int
process_packet_lem_example =
    process_packet_lem net 7000 7001 captured (record { b_data = zeros; expiry = 6500 }) 3 10 0 0 5
      10 0 0 3 own_number refl refl refl (omega arith, omega arith, omega arith, omega arith)
      (omega arith, omega arith, omega arith, omega arith) (λ e. omega arith) (omega arith)

abbrev counts : IntArray
counts = update (update zeros 2 (pos 259)) 4 (pos 17)

some_count : is_zero (sum_loop 9 0 counts (pos 0)) ≡ false
unfolding sum_loop add_int
some_count = refl

counts_reach_master_example :
    pass_on counts zeros 3 (pos 1500) (pos 0) (record { p = zeros; sp = zeros; reducer = zeros })
    ≡ done (
        reported 3
          (pos 1500)
          (pos 0)
          (known zeros counts)
          (record { p = zeros; sp = zeros; reducer = zeros }))
counts_reach_master_example =
    counts_reach_master counts zeros 3 (pos 1500) (pos 0)
      (record { p = zeros; sp = zeros; reducer = zeros }) (omega arith) (omega arith) some_count
      (omega arith) (omega arith) (omega arith)

abbrev times : ℕ → ℕ
times i = if i == 0 then 0 else 500 + 1500 * i

abbrev table : Config
table = record { t_alloc = λ i. pos (times i); epoch = pos 8000 }

times-IsTable : IsTable times (table.t_alloc)
times-IsTable = ((λ i h. (refl, ground arith)), λ i h. ground arith)

in_second_window : in_window table (pos 2) (pos 2700) ≡ done true
unfolding in_window add_int
in_second_window = refl

windows_disjoint_example : in_window table (pos 4) (pos 2700) ≢ done true
windows_disjoint_example =
    windows_disjoint table times 1 3 2700 times-IsTable (omega arith) (omega arith) (omega arith)
      in_second_window

abbrev given : List (ℕ × Text)
given = (b'i', codes "wlan0-tun") ∷ (b'c', codes "10.0.0.101") ∷ (b'p', codes "70000") ∷ []

abbrev options : Options
options = record {
  debug = false;
  if_name = codes "wlan0-tun";
  cliserv = client;
  remote_ip = codes "10.0.0.101";
  port = 4464;
  flags = tun;
}

given-options : parse_options given 0 ≡ some options
unfolding parse_options atoi
given-options = refl

parse_options-Valid_example : Valid options
parse_options-Valid_example = parse_options-Valid given 0 options given-options

own_eth0 : address_of net (pos 1) ≡ done (ip_text 10 0 0 103 [])
unfolding address_of
own_eth0 = refl

recv_broadcast_overrun_example :
    recv_broadcast net [] true (ip_text 10 0 0 105 []) (codes "0.0.250.0.0.0.0.0.0") zeros ≡ fault
recv_broadcast_overrun_example =
    recv_broadcast_overrun net [] true (codes "0.0.250.0.0.0.0.0.0") zeros 10 0 0 105 10 0 0 103
      (omega arith, omega arith, omega arith, omega arith) own_eth0
      (omega arith, omega arith, omega arith) (omega arith) (omega arith)
