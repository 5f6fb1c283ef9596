-- ===== src/PacketRate/Receiving.antt =====
-- What a node keeps of a broadcast, and which nodes never get that far.
use rpi_hadoop.Prelude.{
  ℕ, zero, suc, ◌+◌, ◌≤◌, ◌<◌, ◌≡◌, ◌≢◌, refl, Bool, true, false, ◌&&◌, [], ◌∷◌, arith, ◌==◌,
  if◌then◌else◌, Text, All, done, fault, ◌>>=◌, ℤ, pos, ltb_ℤ,
}
use native.Mathlib.Decide.{ℕ_discrete}
use rpi_hadoop.CArray.{IntArray, update}
use rpi_hadoop.CText.Tokens.{Lacks}
use rpi_hadoop.HostNumber.{Interfaces, address_of, get_last_ip_digit}
use rpi_hadoop.HostNumber.Buffers.{ip_text, get_last_digit_lem, get_last_ip_digit_overrun}
use rpi_hadoop.Report.Buffers.{row, dotted, dotted-Lacks}
use rpi_hadoop.PacketRate.{
  join_loop, get_digit_from_content, before, cut, keep_loop, write_log, recv_broadcast,
}
use rpi_hadoop.PacketRate.Exchange.{
  IsCount, All-IsSpeed, joined-dotted, get_digit_from_content-join_loop,
}

other_byte : (c sep : ℕ) → c ≢ sep → (c == sep) ≡ false
other_byte c sep h = ground arith

before_all : (sep : ℕ) (s : Text) → Lacks sep s → before sep s ≡ s
unfolding before
before_all sep [] h = refl
before_all sep (c ∷ s) (ne, h) = rw (other_byte c sep ne, before_all sep s h) refl

cut_all : (sep : ℕ) (s : Text) → Lacks sep s → cut sep s ≡ s
unfolding cut
cut_all sep [] h = refl
cut_all sep (c ∷ s) (ne, h) = rw (other_byte c sep ne, before_all sep s h) refl

-- The entry of host 101 + i becomes the count `v` if that is larger, and above 100.
abbrev pub heard : ℕ → ℤ → IntArray → IntArray
heard i v a = if ltb_ℤ (a i) v && ltb_ℤ (pos 100) v then update a i v else a

same_entry : (k : ℕ) → (101 + k == 101 + k) ≡ true
same_entry k = ground arith

other_entry : (k i : ℕ) → i ≢ k → (101 + k == 101 + i) ≡ false
other_entry k i h = ground arith

own_entry : (own k : ℕ) → own ≢ 101 + k → (own == 101 + k) ≡ false
own_entry own k h = ground arith

own_other : (own i : ℕ) → own ≢ 101 + i → (101 + i == own) ≡ false
own_other own i h = ground arith

read_back :
    (n : ℕ) (b : IntArray)
    → n < 9
    → All IsCount (row 9 0 b)
    → get_digit_from_content (dotted (row 9 0 b)) (pos (suc n)) ≡ done (b n)
read_back n b hn h =
    rw (joined-dotted b (All-IsSpeed (row 9 0 b) h)) at (get_digit_from_content-join_loop n b hn h)

-- From the loop's entry `k` on, the entry of the sender is met once, if it lies there.
keep_loop-heard :
    (rounds k i own : ℕ) (v : ℤ) (a : IntArray)
    → own ≢ 101 + i
    → (k ≤ i → i < k + rounds → keep_loop rounds k (pos (101 + i)) (pos own) v a ≡ heard i v a)
      × (i < k → keep_loop rounds k (pos (101 + i)) (pos own) v a ≡ a)
unfolding keep_loop
keep_loop-heard zero k i own v a ne = (λ le lt. absurd (omega arith), λ lt. refl)
keep_loop-heard (suc rounds) k i own v a ne = (
  λ le lt. elim (ℕ_discrete i k) [
    | yes here ↦
        rw (here, same_entry k, own_entry own k (rw here at ne))
          ((keep_loop-heard rounds (k + 1) k own v (heard k v a) (rw here at ne)).1 (omega arith))
    | no later ↦
        rw (other_entry k i later)
          ((keep_loop-heard rounds (k + 1) i own v a ne).0 (omega arith) (omega arith))
  ],
  λ lt.
      rw (other_entry k i (omega arith))
        ((keep_loop-heard rounds (k + 1) i own v a ne).1 (omega arith)),
)

-- A broadcast of another node, whose counts have at most three digits, raises the sender's entry to its
-- count for this node, if that is above 100, and changes no other entry; then `write_log` is called. This
-- node has number `n + 1` on wlan0, and the sender 101 + i on eth0.
pub recv_broadcast-join_loop :
    (net : Interfaces) (fresh : Text) (opened : Bool) (x y z i n own : ℕ) (b a : IntArray)
    → (x < 256) × (y < 256) × (z < 256)
    → i < 9
    → n < 9
    → get_last_ip_digit net (pos 1) ≡ done (pos own)
    → own ≢ 101 + i
    → get_last_ip_digit net (pos 2) ≡ done (pos (suc n))
    → All IsCount (row 9 0 b)
    → (join_loop 9 0 b [] >>= λ content.
        recv_broadcast net fresh opened (ip_text x y z (101 + i) []) content a)
      ≡ write_log fresh opened (heard i (b n) a)
unfolding recv_broadcast
recv_broadcast-join_loop net fresh opened x y z i n own b a (hx, hy, hz) hi hn e1 ne e2 h =
    rw
      (
        joined-dotted b (All-IsSpeed (row 9 0 b) h),
        get_last_digit_lem x y z (101 + i) (omega arith) (omega arith) (omega arith) (omega arith),
        e1,
        own_other own i ne,
        e2,
        cut_all b',' (dotted (row 9 0 b))
            (dotted-Lacks b',' (row 9 0 b) (omega arith) (omega arith) (omega arith)),
        read_back n b hn h,
        (keep_loop-heard 9 0 i own (b n) a ne).0 (omega arith) (omega arith),
      )
      refl

-- A node whose own number on eth0 has three digits, as the program's nodes 101 to 109 have, writes behind
-- the end of a buffer at every broadcast, whatever it holds, whose sender's address has four numbers of
-- at most three digits.
pub recv_broadcast_overrun :
    (net : Interfaces) (fresh : Text) (opened : Bool) (content : Text) (received : IntArray)
    (x y z w a b c d : ℕ)
    → (x < 256) × (y < 256) × (z < 256) × (w < 256)
    → address_of net (pos 1) ≡ done (ip_text a b c d [])
    → (a < 256) × (b < 256) × (c < 256)
    → 100 ≤ d
    → d < 256
    → recv_broadcast net fresh opened (ip_text x y z w []) content received ≡ fault
unfolding recv_broadcast
recv_broadcast_overrun net fresh opened content received x y z w a b c d (hx, hy, hz, hw) e
      (ha, hb, hc) lo hi =
    rw
      (
        get_last_digit_lem x y z w (omega arith) (omega arith) (omega arith) (omega arith),
        get_last_ip_digit_overrun net (pos 1) a b c d e (omega arith) (omega arith) (omega arith) lo
            (omega arith),
      )
      refl
