-- ===== src/SlotWindow.antt =====
-- The first forwarder, CreateLoopback.c: a table of times sent by the controller divides an epoch into
-- windows, and a node forwards packets in its own window only.
pub mod Windows
use rpi_hadoop.Prelude.{
  ℕ, zero, suc, ◌+◌, ◌-◌, ◌%◌, ◌≡◌, refl, Bool, false, not, List, [], ◌∷◌, Option, none, some,
  if◌then◌else◌, Text, codes, take, Run, done, fault, ◌>>=◌, ℤ, pos, negsuc, neg, ltb_ℤ, add_int,
  ◌==◌,
}
use rpi_hadoop.CText.{tokens, atoi}
use rpi_hadoop.CArray.{IntArray, load, store}

-- `tAlloc`, of six elements, and `epoch`
pub record Config : Type 0 where
  pub t_alloc : IntArray
  pub epoch : ℤ

abbrev pub slots : ℕ
slots = 6

-- The loop of `recv_config` for element `k` on, which leaves `k`: `while (token != NULL && k <= 5)`.
pub config_loop : ℕ → ℕ → List Text → IntArray → ℕ × IntArray
config_loop zero k ts a = (k, a)
config_loop (suc left) k [] a = (k, a)
config_loop (suc left) k (token ∷ ts) a =
    config_loop left (k + 1) ts (λ i. if i == k then atoi token else a i)

-- k - 1
abbrev pub last_index : ℕ → ℤ
last_index zero = negsuc 0
last_index (suc k) = pos k

pub read_epoch : ℕ × IntArray → Run Config
read_epoch (k, a) = do
  epoch ← load slots a (last_index k)
  done (record { t_alloc = a; epoch = epoch })

-- The body of the loop of `recv_config`, for what `zmq_recv` leaves in `config1`: 31 bytes at most. The
-- bytes behind them are 0 here, as `memset` leaves them for all messages but the first.
-- The last number read becomes the epoch.
unfoldable pub recv_config : Text → Config → Run Config
unfolding config_loop read_epoch
recv_config [] s = done s
recv_config (c ∷ message) s =
    read_epoch (config_loop 6 0 (tokens b',' (take 31 (c ∷ message))) s.t_alloc)

-- -a
abbrev pub minus : ℤ → ℤ
minus (pos n) = neg n
minus (negsuc n) = pos (suc n)

-- `now - t < 0` for two `int`s
abbrev pub is_before : ℤ → ℤ → Bool
is_before now t = ltb_ℤ (add_int now (minus t)) (pos 0)

-- `(tv.tv_usec) % epoch`: a remainder by 0 is undefined, and the sign of a divisor does not matter.
pub time_in_epoch : ℕ → ℤ → Run ℤ
time_in_epoch usec (pos zero) = fault
time_in_epoch usec (pos (suc n)) = done (pos (usec % suc n))
time_in_epoch usec (negsuc n) = done (pos (usec % suc n))

-- The test whether this node may send: the second half is not looked at if the first fails.
unfoldable pub in_window : Config → ℤ → ℤ → Run Bool
in_window s my now = do
  end ← load slots s.t_alloc my
  if is_before now end
      then (do
        start ← load slots s.t_alloc (add_int my (negsuc 0))
        done (not (is_before now (add_int start (pos 500)))))
      else done false

-- The turn of `main` when a packet is ready, at `usec` microseconds of a second: what is written to
-- the other interface, 1500 bytes at most, and the packets counted.
unfoldable pub forward : Config → ℤ → ℕ → Text → ℕ → Run (Option Text × ℕ)
unfolding time_in_epoch in_window
forward s my usec packet tap2net = do
  now ← time_in_epoch usec s.epoch
  sending ← in_window s my now
  done (if sending then (some (take 1500 packet), tap2net + 1) else (none, tap2net))
