-- ===== src/PacketRate/Publishing.antt =====
-- What the sniffer does at a packet, and when it publishes its counts.
use rpi_hadoop.Prelude.{
  ℕ, zero, suc, ◌+◌, ◌*◌, ◌<◌, ◌≡◌, ◌≢◌, refl, ap, ◌∙◌, List, [], ◌∷◌, arith, All, done, ℤ, pos,
  negsuc, ltb, leb, if◌then◌else◌, pos_part, add_int, ◌++◌, Bool-cases, inl, inr, int_bound,
}
use rpi_hadoop.CArray.{IntArray, zeros}
use rpi_hadoop.HostNumber.{Interfaces, get_last_ip_digit}
use rpi_hadoop.HostNumber.Buffers.{ip_text}
use rpi_hadoop.Report.Buffers.{IsSpeed, row, dotted, length-dotted, sprintf-done}
use rpi_hadoop.Report.RoundTrip.{total, add_int_pos}
use rpi_hadoop.PacketRate.{
  Sniffer, Sniffed, Signal, silence, publish, Captured, process_packet, sum_loop, publish_counts,
}
use rpi_hadoop.PacketRate.Counting.{counted, count_packet_lem}
use rpi_hadoop.PacketRate.Exchange.{joined-dotted}

sum_loop-total :
    (rounds k sum : ℕ) (a : IntArray)
    → All IsSpeed (row rounds k a)
    → sum + rounds * 10000 < int_bound
    → sum_loop rounds k a (pos sum) ≡ pos (sum + total (row rounds k a))
unfolding sum_loop
sum_loop-total zero k sum a h fits = ap pos (omega arith)
sum_loop-total (suc rounds) k sum a (v, h) fits =
    add_count (a k) v (λ n small. sum_loop-total rounds (k + 1) (sum + n) a h (omega arith))
  where
    add_count :
        (m : ℤ)
        → IsSpeed m
        → ((n : ℕ)
            → n < 10000
            → sum_loop rounds (k + 1) a (pos (sum + n))
              ≡ pos (sum + n + total (row rounds (k + 1) a)))
        → sum_loop rounds (k + 1) a (add_int (pos sum) m)
          ≡ pos (sum + (pos_part m + total (row rounds (k + 1) a)))
    add_count (pos n) small later =
        rw (add_int_pos sum n (omega arith)) (later n (omega arith) ∙ ap pos (omega arith))
    add_count (negsuc n) small later = absurd small

sum-total :
    (a : IntArray) → All IsSpeed (row 9 0 a) → sum_loop 9 0 a (pos 0) ≡ pos (total (row 9 0 a))
sum-total a h = sum_loop-total 9 0 0 a h (omega arith) ∙ ap pos (omega arith)

publish_counts_lem :
    (sent : List Signal) (later : ℕ) (a : IntArray)
    → All IsSpeed (row 9 0 a)
    → publish_counts sent later a
      ≡ done (
          if ltb 0 (total (row 9 0 a))
          then record {
            state = record { b_data = zeros; expiry = later + 1000 };
            signals = sent ++ publish (dotted (row 9 0 a)) ∷ [];
          }
          else record { state = record { b_data = a; expiry = later + 1000 }; signals = sent })
unfolding publish_counts
publish_counts_lem sent later a h =
    rw
      (
        joined-dotted a h,
        sprintf-done 200 (dotted (row 9 0 a)) (omega (arith, length-dotted (row 9 0 a) h)),
        sum-total a h,
      )
      refl

-- What a packet leaves if the counts with it are `a`. Before `expiry` the speaker is only silenced. At or
-- behind it the next `expiry` is a second after `later`; if one of the counts is not 0, they are published
-- behind the silence and start again from 0.
abbrev pub left_by : ℕ → ℕ → ℕ → IntArray → Sniffed
left_by expiry now later a =
    if leb expiry now
    then (if ltb 0 (total (row 9 0 a))
        then record {
          state = record { b_data = zeros; expiry = later + 1000 };
          signals = silence ∷ publish (dotted (row 9 0 a)) ∷ [];
        }
        else record {
          state = record { b_data = a; expiry = later + 1000 };
          signals = silence ∷ [];
        })
    else record { state = record { b_data = a; expiry = expiry }; signals = silence ∷ [] }

-- A TCP packet from another host silences the speaker, and is counted if it is large, for port 5201 and
-- from a host number 1 to 9. Before `expiry` nothing else is done. At or behind it the next `expiry` is a
-- second after `later`, and if the counts, with this packet, add up to more than 0 they are published as
-- they are, behind the silence, and start again from 0. The counts have at most four digits each, host
-- numbers at most three, and this host's own can be read.
pub process_packet_lem :
    (net : Interfaces) (now later : ℕ) (c : Captured) (s : Sniffer) (own x y z src u v w des : ℕ)
    → get_last_ip_digit net (pos 2) ≡ done (pos own)
    → c.protocol ≡ 6
    → c.saddr ≡ ip_text x y z src []
    → c.daddr ≡ ip_text u v w des []
    → (x < 256) × (y < 256) × (z < 256) × (src < 256)
    → (u < 256) × (v < 256) × (w < 256) × (des < 256)
    → src ≢ own
    → All IsSpeed (row 9 0 (counted src c s.b_data))
    → process_packet net now later c s ≡ done (left_by s.expiry now later (counted src c s.b_data))
unfolding process_packet
process_packet_lem net now later c s own x y z src u v w des eo ep es ed hx hu ne h =
    let e = count_packet_lem net c s.b_data own x y z src u v w des eo ep es ed hx hu ne in
    elim (Bool-cases (leb s.expiry now)) [
      | inl due ↦ rw (e, due) (publish_counts_lem (silence ∷ []) later (counted src c s.b_data) h)
      | inr early ↦ rw (e, early)
    ]
