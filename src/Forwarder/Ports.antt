-- ===== src/Forwarder/Ports.antt =====
-- How ports are read from the bytes of a packet.
use rpi_hadoop.Prelude.{
  ℕ, zero, suc, ◌+◌, ◌*◌, ◌≤◌, ◌<◌, ◌≡◌, ◌≢◌, ◌↔◌, refl, Bool, true, false, ◌&&◌, not, arith, ◌==◌,
  ==_iff, ◌⊎◌,
}
use rpi_hadoop.PacketQueue.{Packet}
use rpi_hadoop.Forwarder.{port_of, shuffle_port, dropped, queued, fate}

byte_test : (ℕ → Bool) → ℕ → Bool
byte_test test zero = true
byte_test test (suc left) = byte_test test left && test left

byte_test-holds :
    (test : ℕ → Bool) (left b : ℕ) → b < left → byte_test test left ≡ true → test b ≡ true
unfolding byte_test
byte_test-holds test (suc left) b inside e = ground (arith, byte_test-holds test left b)
byte_test-holds test zero b inside e = absurd (omega arith)

two_bytes : (ℕ → ℕ → Bool) → Bool
two_bytes test = byte_test (λ hi. byte_test (test hi) 256) 256

two_bytes-holds :
    (test : ℕ → ℕ → Bool) (hi lo : ℕ)
    → two_bytes test ≡ true
    → hi < 256
    → lo < 256
    → test hi lo ≡ true
unfolding two_bytes
two_bytes-holds test hi lo e a b =
    byte_test-holds (test hi) 256 lo b (byte_test-holds (λ x. byte_test (test x) 256) 256 hi a e)

unsigned_table : two_bytes (λ hi lo. port_of false hi lo == hi * 256 + lo) ≡ true
unfolding two_bytes byte_test port_of
unsigned_table = refl

signed_table : two_bytes (λ hi lo. not (port_of true hi lo == shuffle_port)) ≡ true
unfolding two_bytes byte_test port_of
signed_table = refl

-- With unsigned `char`s the port is the number that its two bytes spell.
pub port_of_unsigned : (hi lo : ℕ) → hi < 256 → lo < 256 → port_of false hi lo ≡ hi * 256 + lo
port_of_unsigned hi lo h k = (==_iff _ _).0 (two_bytes-holds _ hi lo unsigned_table h k)

-- The bytes that the tests read are bytes.
pub record HasBytes (packet : Packet) : Type 0 where
  pub dest : packet.byte 19 < 256
  pub high : packet.byte 20 < 256
  pub low : packet.byte 21 < 256

-- On the Raspberry Pi a packet is queued exactly if its last address byte is one of 1 to 9, it comes
-- from port 13562, and it has more than 700 bytes; it is queued under that byte.
pub fate_queued_iff :
    (packet : Packet) (d : ℕ)
    → HasBytes packet
    → (fate false packet ≡ queued d) ↔ (
        (packet.byte 19 ≡ d)
        × (1 ≤ d)
        × (d ≤ 9)
        × (packet.byte 20 * 256 + packet.byte 21 ≡ shuffle_port)
        × (701 ≤ packet.size))
unfolding fate
fate_queued_iff packet d h =
    rw (port_of_unsigned (packet.byte 20) (packet.byte 21) h.high h.low)
      ((λ e. ground arith), (λ e. ground arith))

not-true : (b : Bool) → not b ≡ true → b ≡ false
not-true true h = cc
not-true false h = refl

-- Where `char` has a sign, no packet at all is queued: the low byte of 13562 is above 127, and its
-- sign is spread over the port.
pub fate_signed_ne_queued :
    (packet : Packet) (d : ℕ) → HasBytes packet → fate true packet ≢ queued d
unfolding fate
fate_signed_ne_queued packet d h =
    let other : (port_of true (packet.byte 20) (packet.byte 21) == shuffle_port) ≡ false =
      not-true _ (
        two_bytes-holds (λ hi lo. not (port_of true hi lo == shuffle_port)) (packet.byte 20)
          (packet.byte 21) signed_table h.high h.low) in
    rw other (λ e. ground arith)

-- A packet is left alone exactly if its last address byte is none of 1 to 9.
pub fate_dropped_iff :
    (char_signed : Bool) (packet : Packet)
    → HasBytes packet
    → (fate char_signed packet ≡ dropped) ↔ ((packet.byte 19 ≡ 0) ⊎ (10 ≤ packet.byte 19))
unfolding fate
fate_dropped_iff true packet h = ((λ e. ground arith), (λ e. ground arith))
fate_dropped_iff false packet h = ((λ e. ground arith), (λ e. ground arith))

-- A packet is queued under one of 1 to 9 only.
pub fate_queued_range :
    (char_signed : Bool) (packet : Packet) (d : ℕ)
    → fate char_signed packet ≡ queued d
    → (1 ≤ d) × (d ≤ 9)
unfolding fate
fate_queued_range char_signed packet d e = ground arith
