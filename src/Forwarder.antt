-- ===== src/Forwarder.antt =====
-- The packet path of a node, CreateLoopbackCS1Q.c: the loop of `main` reads packets from the tunnel and
-- queues the shuffle's, and `write_tun` writes queued packets to tun0 while the node has a slot.
pub mod Ports
pub mod Pipeline
pub mod Scan
pub mod Turns
pub mod Order
pub mod Fronts
pub mod Passes
pub mod Draining
pub mod Late
pub mod Limit
use Prim.Native.Nat.{bit_or}
use rpi_hadoop.Prelude.{
  ℕ, zero, suc, ◌+◌, ◌-◌, ◌*◌, ◌%◌, ◌^◌, ◌≤◌, ◌<◌, ◌≡◌, ◌≢◌, refl, Bool, true, false, ◌&&◌, ◌||◌,
  not, List, [], ◌∷◌, ◌++◌, Option, none, some, ltb, leb, ◌==◌, if◌then◌else◌, Run, done, fault,
  ◌>>=◌, ℤ, is_positive,
}
use rpi_hadoop.PacketQueue.{Packet, Ptr, null, Node, Heap}
use rpi_hadoop.PacketQueue.Array.{Store, enq_at, deq_at, is_empty}

-- A byte as a `char` that is promoted to `int`: its 32 bits. Whether `char` has a sign is the
-- compiler's choice: it has none on the Raspberry Pi, and has one on x86.
abbrev pub promote : Bool → ℕ → ℕ
promote char_signed b = if char_signed && leb 128 b then 2 ^ 32 - 256 + b else b

-- `port[0] << 8 | port[1]`
pub port_of : Bool → ℕ → ℕ → ℕ
port_of char_signed hi lo = bit_or (promote char_signed hi * 256 % 2 ^ 32) (promote char_signed lo)

-- The port of the shuffle's replies.
abbrev pub shuffle_port : ℕ
shuffle_port = 13562

-- What becomes of a packet: it is left alone, it is put into a queue, or it is written at once.
pub data Fate : Type 0 where
  dropped : Fate
  queued : ℕ → Fate
  forwarded : Fate

-- The tests of the loop of `main`. A `d` that is negative is above 9 as 32 bits.
unfoldable pub fate : Bool → Packet → Fate
unfolding port_of
fate char_signed packet =
    let d = promote char_signed (packet.byte 19) in
    let src = port_of char_signed (packet.byte 20) (packet.byte 21) in
    if leb d 9 && ltb 0 d
    then (if (src == shuffle_port) && ltb 700 packet.size then queued d else forwarded)
    else dropped

-- The packet is handled under the lock: the new queues, and what is written to tun0.
unfoldable pub handle : Fate → Ptr → Packet → Store → Run (Store × List Packet)
handle dropped fresh packet st = done (st, [])
handle (queued d) fresh packet st = do st' ← enq_at d fresh packet st; done (st', [])
handle forwarded fresh packet st = done (st, packet ∷ [])

-- `q[i].front->data`
unfoldable pub front_packet : ℕ → Store → Run Packet
front_packet i st = elim (st.heap (st.q i).front) [ none ↦ fault | some n ↦ done n.contents ]

-- `write_tun` at queue `i`, behind the wait for the slot. If the queues were empty, the mutex would be
-- unlocked twice.
unfoldable pub write_turn : ℕ → Store → Run (Store × List Packet)
write_turn i st =
    if leb (is_empty st) 0
    then fault
    else (do packet ← front_packet i st; st' ← deq_at (st.q i).id st; done (st', packet ∷ []))

-- The ports of Hadoop's heartbeats: `8041.9000` in the source is a number, which C truncates to 8041.
abbrev pub hadoop_port_list : List ℕ
hadoop_port_list = 8020 ∷ 50010 ∷ 50020 ∷ 8030 ∷ 8031 ∷ 8032 ∷ 8033 ∷ 8040 ∷ 8041 ∷ []

-- The search for a port of the list among the two of a packet.
pub search_ports : ℕ → ℕ → List ℕ → ℕ
search_ports src des [] = 0
search_ports src des (port ∷ ports) =
    if des == port then port else if src == port then port else search_ports src des ports

abbrev pub in_app_master : ℕ → Bool
in_app_master port = leb 55000 port && leb port 55005

-- `hadoop_hb`
unfoldable pub hadoop_hb : ℕ → ℕ → ℕ
unfolding search_ports
hadoop_hb src des =
    let found = search_ports src des hadoop_port_list in
    if leb found 0 && (in_app_master des || in_app_master src) then 1 else found
