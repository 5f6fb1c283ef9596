-- ===== src/SlotWindow/Windows.antt =====
-- The windows of two nodes do not overlap, and a table from the controller can be used.
use rpi_hadoop.Prelude.{
  ℕ, zero, suc, ◌==◌, ◌+◌, ◌-◌, ◌^◌, ◌≤◌, ◌<◌, ◌≡◌, ◌≢◌, refl, sym, ap, ◌∙◌, Bool, true, false, not,
  List, [], ◌∷◌, if◌then◌else◌, Text, take, done, done-injective, pos, negsuc, add_int, arith, ltb,
  lt→ltb,
}
use native.Mathlib.Decide.{ℕ_discrete}
use rpi_hadoop.CText.{tokens, atoi}
use rpi_hadoop.CText.Tokens.{tokens-cons}
use rpi_hadoop.CArray.{IntArray}
use rpi_hadoop.SlotWindow.{
  Config, slots, recv_config, config_loop, read_epoch, in_window, is_before,
}

-- A table of times in order, small enough for the sums.
abbrev pub IsTable : (ℕ → ℕ) → IntArray → Type 0
IsTable t a =
    ((i : ℕ) → i < slots → (a i ≡ pos (t i)) × (t i < 2 ^ 30))
    × ((i : ℕ) → suc i < slots → t i ≤ t (suc i))

table_mono : (t : ℕ → ℕ) (a : IntArray) (j i : ℕ) → IsTable t a → i ≤ j → j < slots → t i ≤ t j
table_mono t a j i (h, mono) le lt = elim (ℕ_discrete i j) [
  | yes same ↦ rw same (omega arith)
  | no other ↦ below t a j i (h, mono) (omega arith) lt
]
  where
    below : (t : ℕ → ℕ) (a : IntArray) (j i : ℕ) → IsTable t a → i < j → j < slots → t i ≤ t j
    below t a zero i h le lt = absurd (omega arith)
    below t a (suc j) i (h, mono) le lt = elim (ℕ_discrete i j) [
      | yes same ↦ rw same (mono j lt)
      | no other ↦ omega (arith, below t a j i (h, mono) (omega arith) (omega arith), mono j lt)
    ]

is_before-ltb : (m n : ℕ) → m < 2 ^ 31 → n < 2 ^ 31 → is_before (pos m) (pos n) ≡ ltb m n
unfolding add_int
is_before-ltb m n hm hn = ground arith

one_less : (i : ℕ) → i < 2 ^ 30 → add_int (pos (suc i)) (negsuc 0) ≡ pos i
unfolding add_int
one_less i h = ground arith

add_500 : (n : ℕ) → n < 2 ^ 30 → add_int (pos n) (pos 500) ≡ pos (n + 500)
unfolding add_int
add_500 n h = ground arith

if_done : (b x : Bool) → (if b then done x else done false) ≡ done (if b then x else false)
if_done true x = refl
if_done false x = refl

-- Node `suc i` is in its window exactly from 500 behind the entry before its own up to its own.
in_window-IsTable :
    (s : Config) (t : ℕ → ℕ) (i now : ℕ)
    → IsTable t s.t_alloc
    → suc i < slots
    → now < 2 ^ 30
    → in_window s (pos (suc i)) (pos now)
      ≡ done (if ltb now (t (suc i)) then not (ltb now (t i + 500)) else false)
unfolding in_window
in_window-IsTable s t i now (h, mono) lt hn =
    rw
      (
        lt→ltb (suc i) slots lt,
        (h (suc i) lt).0,
        is_before-ltb now (t (suc i)) (omega arith) (omega (arith, (h (suc i) lt).1)),
        one_less i (omega arith),
        lt→ltb i slots (omega arith),
        (h i (omega arith)).0,
        add_500 (t i) ((h i (omega arith)).1),
        is_before-ltb now (t i + 500) (omega arith) (omega (arith, (h i (omega arith)).1)),
      )
      (if_done (ltb now (t (suc i))) (not (ltb now (t i + 500))))

within : (m a b : ℕ) → (if ltb m a then not (ltb m b) else false) ≡ true → (m < a) × (b ≤ m)
within m a b e = ground arith

-- At no time may two nodes send: the windows of a table in order do not overlap.
pub windows_disjoint :
    (s : Config) (t : ℕ → ℕ) (i j now : ℕ)
    → IsTable t s.t_alloc
    → i < j
    → suc j < slots
    → now < 2 ^ 30
    → in_window s (pos (suc i)) (pos now) ≡ done true
    → in_window s (pos (suc j)) (pos now) ≢ done true
windows_disjoint s t i j now h lt hj hn ei ej = omega (
  arith,
  within now _ _ (done-injective _ _ (sym (in_window-IsTable s t i now h (omega arith) hn) ∙ ei)),
  within now _ _ (done-injective _ _ (sym (in_window-IsTable s t j now h hj hn) ∙ ej)),
  table_mono t s.t_alloc j (suc i) h lt (omega arith),
)

-- The number of elements read, and the elements in front of `k`, which stay.
config_loop_lem :
    (left k : ℕ) (ts : List Text) (a : IntArray)
    → (config_loop left k ts a).0 ≤ k + left
      × (k ≤ (config_loop left k ts a).0)
      × ((i : ℕ) → i < k → (config_loop left k ts a).1 i ≡ a i)
unfolding config_loop
config_loop_lem zero k ts a = (omega arith, omega arith, λ i h. refl)
config_loop_lem (suc left) k [] a = (omega arith, omega arith, λ i h. refl)
config_loop_lem (suc left) k (token ∷ ts) a =
    let (lo, hi, same) =
      config_loop_lem left (k + 1) ts (λ i. if i == k then atoi token else a i) in
    (omega arith, omega arith, λ i h. same i (omega arith) ∙ rw (ne i k h) refl)
  where
    ne : (i k : ℕ) → i < k → (i == k) ≡ false
    ne i k h = ground arith

-- The state that a message leaves whose `k` numbers are `a`.
read_epoch_lem :
    (k : ℕ) (a : IntArray)
    → 1 ≤ k
    → k ≤ 6
    → read_epoch (k, a) ≡ done (record { t_alloc = a; epoch = a (k - 1) })
unfolding read_epoch
read_epoch_lem zero a lo hi = absurd (omega arith)
read_epoch_lem (suc k) a lo hi =
    rw (lt→ltb k slots (omega arith))
      (ap (λ i. done (record { t_alloc = a; epoch = a i })) (omega arith))

first_token : (rest : Text) → tokens b',' (b'0' ∷ b',' ∷ rest) ≡ (b'0' ∷ []) ∷ tokens b',' rest
first_token rest = tokens-cons b',' (b'0' ∷ []) rest (λ e. cc) ((λ h. omega arith), tt)

atoi_zero : atoi (b'0' ∷ []) ≡ pos 0
unfolding atoi
atoi_zero = refl

-- A message that passes the filter "0," is taken without fault, whatever follows: the first window
-- starts at 0, and the epoch is the last of the one to six times that were read.
pub recv_config_filtered :
    (m : Text) (s : Config)
    → (k : ℕ) × (a : IntArray) × (recv_config (b'0' ∷ b',' ∷ m) s
        ≡ done (record { t_alloc = a; epoch = a (k - 1) }))
      × (1 ≤ k)
      × (k ≤ 6)
      × (a 0 ≡ pos 0)
unfolding recv_config config_loop
recv_config_filtered m s =
    let (hi, lo, same) = config_loop_lem 5 1 (tokens b',' (take 29 m)) first in
    (
      k,
      a,
      rw (first_token (take 29 m)) (read_epoch_lem k a lo (omega arith)),
      lo,
      omega arith,
      same 0 (omega arith) ∙ atoi_zero,
    )
  where
    first : IntArray
    first i = if i == 0 then atoi (b'0' ∷ []) else s.t_alloc i

    k : ℕ
    k = (config_loop 5 1 (tokens b',' (take 29 m)) first).0

    a : IntArray
    a = (config_loop 5 1 (tokens b',' (take 29 m)) first).1
