-- ===== src/Prelude/Int.antt =====
-- Signed integers over the native numbers, under the library's names (its ℤ stands on the unary ℕ),
-- and the 32-bit `int` of the target: out of range the value wraps around.
use Prim.Native.Nat.{ℕ, zero, suc, ◌+◌, ◌-◌, ◌/◌, ◌%◌, ◌^◌, ◌<◌}
use mathlib.Core.Path.{◌≡◌}
use mathlib.Core.Bool.{Bool, true, false}
use native.Mathlib.Omega.{arith}
use rpi_hadoop.Prelude.Tests.{ltb, leb, ◌==◌, if◌then◌else◌}

-- `negsuc n` is -(n + 1).
pub data ℤ : Type 0 where
  pos : ℕ → ℤ
  negsuc : ℕ → ℤ

abbrev pub pos_part : ℤ → ℕ
pos_part (pos n) = n
pos_part (negsuc n) = 0

abbrev pub neg_part : ℤ → ℕ
neg_part (pos n) = 0
neg_part (negsuc n) = suc n

-- a - b, as an integer.
abbrev pub sub_ℕ : ℕ → ℕ → ℤ
sub_ℕ a b = if leb b a then pos (a - b) else negsuc (b - a - 1)

-- -n
abbrev pub neg : ℕ → ℤ
neg zero = pos 0
neg (suc n) = negsuc n

infixl 65 ◌+ℤ◌
unfoldable pub ◌+ℤ◌ : ℤ → ℤ → ℤ
a +ℤ b = sub_ℕ (pos_part a + pos_part b) (neg_part a + neg_part b)

-- 2 ^ 31
abbrev pub int_bound : ℕ
int_bound = 2 ^ 31

-- The values of an `int`.
abbrev pub InInt : ℤ → Type 0
InInt (pos n) = n < int_bound
InInt (negsuc n) = n < int_bound

-- The `int` that has the low 32 bits of an integer.
unfoldable pub to_int : ℤ → ℤ
to_int (pos n) = let r = n % 2 ^ 32 in if ltb r int_bound then pos r else negsuc (2 ^ 32 - 1 - r)
to_int (negsuc n) = let r = n % 2 ^ 32 in if ltb r int_bound then negsuc r else pos (2 ^ 32 - 1 - r)

pub to_int-InInt : (a : ℤ) → InInt (to_int a)
unfolding to_int
to_int-InInt (pos n) = ground arith
to_int-InInt (negsuc n) = ground arith

pub to_int_of_InInt : (a : ℤ) → InInt a → to_int a ≡ a
unfolding to_int
to_int_of_InInt (pos n) h = ground arith
to_int_of_InInt (negsuc n) h = ground arith

-- `+` of two `int`s
unfoldable pub add_int : ℤ → ℤ → ℤ
unfolding to_int ◌+ℤ◌
add_int a b = to_int (a +ℤ b)

pub add_int-InInt : (a b : ℤ) → InInt (add_int a b)
unfolding add_int
add_int-InInt a b = to_int-InInt (a +ℤ b)

-- `/` by a positive number rounds towards zero.
abbrev pub div_int : ℤ → ℕ → ℤ
div_int (pos n) d = pos (n / d)
div_int (negsuc n) d = neg (suc n / d)

-- The tests of an `int` against 0, and the order of two of them.
abbrev pub is_zero : ℤ → Bool
is_zero (pos n) = n == 0
is_zero (negsuc n) = false

abbrev pub is_positive : ℤ → Bool
is_positive (pos n) = ltb 0 n
is_positive (negsuc n) = false

abbrev pub ltb_ℤ : ℤ → ℤ → Bool
ltb_ℤ (pos a) (pos b) = ltb a b
ltb_ℤ (pos a) (negsuc b) = false
ltb_ℤ (negsuc a) (pos b) = true
ltb_ℤ (negsuc a) (negsuc b) = ltb b a

abbrev pub eqb_ℤ : ℤ → ℤ → Bool
eqb_ℤ (pos a) (pos b) = a == b
eqb_ℤ (pos a) (negsuc b) = false
eqb_ℤ (negsuc a) (pos b) = false
eqb_ℤ (negsuc a) (negsuc b) = a == b
