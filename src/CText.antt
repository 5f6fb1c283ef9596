-- ===== src/CText.antt =====
-- The C library's text functions as the program uses them: `strtok` with one separator, `atoi`,
-- `sprintf` of `%d` and `%s` into a buffer. A C string is the list of its bytes.
pub mod Tokens
pub mod Decimal
use rpi_hadoop.Prelude.{
  ℕ, zero, suc, ◌+◌, ◌-◌, ◌*◌, ◌/◌, ◌%◌, ◌≡◌, refl, Bool, ◌&&◌, ◌||◌, List, [], ◌∷◌, ◌++◌, Option,
  none, some, ltb, leb, ◌==◌, if◌then◌else◌, Text, codes, length, Run, done, fault, ℤ, pos, negsuc,
  neg, to_int, to_int-InInt, InInt,
}

-- A byte in front of a list of tokens: the one before it belongs to the first token.
abbrev pub flush : Text → List Text → List Text
flush [] later = later
flush (c ∷ t) later = (c ∷ t) ∷ later

-- The text up to the first separator, and the tokens after that.
pub split : ℕ → Text → Text × List Text
split sep [] = ([], [])
split sep (c ∷ s) =
    let (t, later) = split sep s in if c == sep then ([], flush t later) else (c ∷ t, later)

-- What `strtok(s, sep)`, `strtok(NULL, sep)`, … return in turn before NULL: the maximal non-empty
-- runs of bytes other than the separator.
unfoldable pub tokens : ℕ → Text → List Text
unfolding split
tokens sep s = let (t, later) = split sep s in flush t later

abbrev pub is_space : ℕ → Bool
is_space c = c == 32 || (leb 9 c && leb c 13)

abbrev pub is_digit : ℕ → Bool
is_digit c = leb b'0' c && leb c b'9'

pub skip_space : Text → Text
skip_space [] = []
skip_space (c ∷ s) = if is_space c then skip_space s else c ∷ s

-- The number that the leading digits spell behind `n`.
pub digits_value : ℕ → Text → ℕ
digits_value n [] = n
digits_value n (c ∷ s) =
    let rest = digits_value (n * 10 + (c - b'0')) s in if is_digit c then rest else n

pub signed_value : Text → ℤ
unfolding digits_value
signed_value [] = pos 0
signed_value (c ∷ s) =
    if c == b'-'
    then neg (digits_value 0 s)
    else if c == b'+'
    then pos (digits_value 0 s)
    else pos (digits_value 0 (c ∷ s))

-- `atoi(s)`, and `(int) strtol(s, NULL, 10)`: what does not fit wraps around.
unfoldable pub atoi : Text → ℤ
unfolding skip_space signed_value to_int
atoi s = to_int (signed_value (skip_space s))

pub atoi-InInt : (s : Text) → InInt (atoi s)
unfolding atoi
atoi-InInt s = to_int-InInt (signed_value (skip_space s))

-- The decimal digits of `n` in front of `out`.
pub digits_from : ℕ → ℕ → Text → Text
digits_from zero n out = out
digits_from (suc f) n out =
    let rest = digits_from f (n / 10) ((b'0' + n % 10) ∷ out) in
    if ltb n 10 then (b'0' + n) ∷ out else rest

-- `n + 1` digits are enough for `n`.
unfoldable pub decimal : ℕ → Text
unfolding digits_from
decimal n = digits_from (suc n) n []

-- `%d`
unfoldable pub format_int : ℤ → Text
unfolding decimal
format_int (pos n) = decimal n
format_int (negsuc n) = b'-' ∷ decimal (suc n)

-- `sprintf` into a buffer of `cap` bytes, the last for the terminator: a longer text is an overrun.
unfoldable pub sprintf : ℕ → Text → Run Text
sprintf cap s = if ltb (length s) cap then done s else fault

tokens_test : tokens b'.' (codes "..5.10..x") ≡ codes "5" ∷ codes "10" ∷ codes "x" ∷ []
unfolding tokens
tokens_test = refl

atoi_test : atoi (codes " -12x") ≡ negsuc 11
unfolding atoi
atoi_test = refl

format_test : format_int (negsuc 2_147_483_647) ≡ codes "-2147483648"
unfolding format_int
format_test = refl
