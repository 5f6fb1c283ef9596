-- ===== src/PacketRate/Counting.antt =====
-- Which packets the sniffer counts.
use rpi_hadoop.Prelude.{
  ℕ, zero, suc, ◌+◌, ◌-◌, ◌<◌, ◌≡◌, ◌≢◌, [], refl, Bool, true, false, ◌&&◌, arith, ltb, leb, ◌==◌,
  if◌then◌else◌, done, pos, add_int, eqb_ℤ,
}
use native.Mathlib.Decide.{ℕ_discrete}
use rpi_hadoop.CArray.{IntArray, update}
use rpi_hadoop.CText.{sprintf}
use rpi_hadoop.Report.Buffers.{sprintf-done}
use rpi_hadoop.HostNumber.{Interfaces, get_last_ip_digit}
use rpi_hadoop.HostNumber.Buffers.{length-ip_text, line_feed_length, ip_text, get_last_digit_lem}
use rpi_hadoop.PacketRate.{Captured, count_loop, count_tcp, count_packet}

-- A packet that counts: one with more than 1000 bytes, for port 5201.
abbrev pub is_data : Captured → Bool
is_data c = ltb 1000 c.tot_len && c.dest == 5201

-- The entry of host number `src` is counted up.
abbrev pub counted : ℕ → Captured → IntArray → IntArray
counted src c a =
    if leb 1 src && leb src 9 && is_data c
    then update a (src - 1) (add_int (a (src - 1)) (pos 1))
    else a

add_int_100 : (n : ℕ) → n < 1000 → add_int (pos n) (pos 100) ≡ pos (n + 100)
unfolding add_int
add_int_100 n h = ground arith

-- From the loop's entry `i` on, the entry of host `src` is met once, if it lies there.
abbrev met : ℕ → ℕ → ℕ → Bool
met rounds i src = leb (suc i) src && leb src (i + rounds)

met_zero : (i src : ℕ) → met 0 i src ≡ false
met_zero i src = ground arith

met_here : (rounds i : ℕ) → met (suc rounds) i (suc i) ≡ true
met_here rounds i = ground arith

met_later : (rounds i : ℕ) → met rounds (i + 1) (suc i) ≡ false
met_later rounds i = ground arith

met_other : (rounds i src : ℕ) → src ≢ suc i → met (suc rounds) i src ≡ met rounds (i + 1) src
met_other rounds i src h = ground arith

entry_other : (i src : ℕ) → src ≢ suc i → (src + 100 == 101 + i) ≡ false
entry_other i src h = ground arith

entry_here : (i : ℕ) → (suc i + 100 == 101 + i) ≡ true
entry_here i = ground arith

pred_suc : (i : ℕ) → suc i - 1 ≡ i
pred_suc i = omega arith

count_loop-counted :
    (rounds i src : ℕ) (c : Captured) (a : IntArray)
    → src < 1000
    → count_loop rounds i (pos src) c a ≡ (
        if met rounds i src && is_data c
        then update a (src - 1) (add_int (a (src - 1)) (pos 1))
        else a)
unfolding count_loop
count_loop-counted zero i src c a h = rw (met_zero i src)
count_loop-counted (suc rounds) i src c a h = elim (ℕ_discrete src (suc i)) [
  | yes here ↦
      rw
        (
          here,
          add_int_100 (suc i) (omega arith),
          entry_here i,
          count_loop-counted rounds (i + 1) (suc i) c _ (omega arith),
          met_later rounds i,
          met_here rounds i,
          pred_suc i,
        )
        refl
  | no other ↦
      rw (add_int_100 src h, entry_other i src other, met_other rounds i src other)
        (count_loop-counted rounds (i + 1) src c a h)
]

source-done :
    (a b c d : ℕ)
    → a < 1000
    → b < 1000
    → c < 1000
    → d < 1000
    → sprintf 20 (ip_text a b c d []) ≡ done (ip_text a b c d [])
source-done a b c d ha hb hc hd =
    sprintf-done 20 (ip_text a b c d [])
      (omega (arith, length-ip_text a b c d ha hb hc hd, line_feed_length a b c d))

eqb_ℤ-ne : (m n : ℕ) → m ≢ n → eqb_ℤ (pos m) (pos n) ≡ false
eqb_ℤ-ne m n h = ground arith

-- A TCP packet from another host is counted exactly if it has more than 1000 bytes, is for port 5201,
-- and comes from a host number from 1 to 9, and then in that host's entry alone. Host numbers have at
-- most three digits, and this host's own can be read.
pub count_packet_lem :
    (net : Interfaces) (c : Captured) (b_data : IntArray) (own x y z src u v w des : ℕ)
    → get_last_ip_digit net (pos 2) ≡ done (pos own)
    → c.protocol ≡ 6
    → c.saddr ≡ ip_text x y z src []
    → c.daddr ≡ ip_text u v w des []
    → (x < 256) × (y < 256) × (z < 256) × (src < 256)
    → (u < 256) × (v < 256) × (w < 256) × (des < 256)
    → src ≢ own
    → count_packet net c b_data ≡ done (counted src c b_data)
unfolding count_packet count_tcp
count_packet_lem net c b_data own x y z src u v w des eo ep es ed (hx, hy, hz, hs) (hu, hv, hw, hd)
      ne =
    rw
      (
        ep,
        es,
        ed,
        source-done x y z src (omega arith) (omega arith) (omega arith) (omega arith),
        source-done u v w des (omega arith) (omega arith) (omega arith) (omega arith),
        get_last_digit_lem x y z src (omega arith) (omega arith) (omega arith) (omega arith),
        get_last_digit_lem u v w des (omega arith) (omega arith) (omega arith) (omega arith),
        eo,
        eqb_ℤ-ne src own ne,
        count_loop-counted 9 0 src c b_data (omega arith),
      )
      refl
