-- ===== src/CText/Decimal.antt =====
-- What `%d` prints, and that `atoi` reads it back.
use native.Mathlib.Nat.{pow-suc, one-le-pow}
use rpi_hadoop.Prelude.{
  ℕ, zero, suc, ◌+◌, ◌/◌, ◌%◌, ◌^◌, ◌≤◌, ◌<◌, ◌≡◌, ◌≢◌, refl, sym, ap, ◌∙◌, [], ◌∷◌, ◌++◌,
  append-nil, arith, Text, length, All, ltb, false, ℤ, pos, negsuc, InInt, int_bound,
  to_int_of_InInt, Bool-cases, inl, inr, to_int,
}
use rpi_hadoop.CText.{
  is_digit, skip_space, digits_value, signed_value, atoi, digits_from, decimal, format_int,
}
use rpi_hadoop.CText.Tokens.{Lacks}

abbrev pub IsDigit : ℕ → Type 0
IsDigit c = (b'0' ≤ c) × (c ≤ b'9')

-- No digit stands in front.
abbrev pub EndsNumber : Text → Type 0
EndsNumber [] = Unit
EndsNumber (c ∷ s) = is_digit c ≡ false

digits_from-append :
    (f n : ℕ) (out rest : Text) → digits_from f n out ++ rest ≡ digits_from f n (out ++ rest)
unfolding digits_from
digits_from-append zero n out rest = refl
digits_from-append (suc f) n out rest =
    ground (arith, digits_from-append f (n / 10) ((b'0' + n % 10) ∷ out) rest)

-- Reading the digits of `n` leads to `n`.
digits_value-digits_from :
    (f n : ℕ) (out : Text) → n < f → digits_value 0 (digits_from f n out) ≡ digits_value n out
unfolding digits_from digits_value
digits_value-digits_from zero n out h = absurd (omega arith)
digits_value-digits_from (suc f) n out h = elim (Bool-cases (ltb n 10)) [
  | inl small ↦ ground arith
  | inr large ↦
      rw large
        (digits_value-digits_from f (n / 10) ((b'0' + n % 10) ∷ out) (ground arith) ∙ ground arith)
]

digits_from-IsDigit : (f n : ℕ) (out : Text) → All IsDigit out → All IsDigit (digits_from f n out)
unfolding digits_from
digits_from-IsDigit zero n out h = h
digits_from-IsDigit (suc f) n out h =
    ground (arith, digits_from-IsDigit f (n / 10) ((b'0' + n % 10) ∷ out))

digits_from-ne-nil : (f n : ℕ) (out : Text) → out ≢ [] → digits_from f n out ≢ []
unfolding digits_from
digits_from-ne-nil zero n out h = h
digits_from-ne-nil (suc f) n out h =
    ground (arith, digits_from-ne-nil f (n / 10) ((b'0' + n % 10) ∷ out))

pub decimal-IsDigit : (n : ℕ) → All IsDigit (decimal n)
unfolding decimal
decimal-IsDigit n = digits_from-IsDigit (suc n) n [] tt

pub decimal-ne-nil : (n : ℕ) → decimal n ≢ []
unfolding decimal
decimal-ne-nil n = ground (arith, digits_from-ne-nil n (n / 10) ((b'0' + n % 10) ∷ []))

-- A number below 10 ^ (k + 1) has at most k + 1 digits.
length-digits_from-le :
    (f n k : ℕ) (out : Text)
    → n < f
    → n < 10 ^ suc k
    → length (digits_from f n out) ≤ suc k + length out
unfolding digits_from
length-digits_from-le zero n k out h b = absurd (omega arith)
length-digits_from-le (suc f) n zero out h b = ground arith
length-digits_from-le (suc f) n (suc k) out h b =
    ground (arith, pow-suc 10 (suc k), length-digits_from-le f (n / 10) k ((b'0' + n % 10) ∷ out))

-- A number that is 10 ^ k or more has at least k + 1 digits.
le-length-digits_from :
    (f n k : ℕ) (out : Text)
    → n < f
    → 10 ^ k ≤ n
    → suc k + length out ≤ length (digits_from f n out)
unfolding digits_from
le-length-digits_from zero n k out h b = absurd (omega arith)
le-length-digits_from (suc f) n zero out h b =
    ground (arith, le-length-digits_from f (n / 10) 0 ((b'0' + n % 10) ∷ out))
le-length-digits_from (suc f) n (suc k) out h b = ground (
  arith,
  pow-suc 10 k,
  one-le-pow k 10 (omega arith),
  le-length-digits_from f (n / 10) k ((b'0' + n % 10) ∷ out),
)

pub length-decimal-le : (n k : ℕ) → n < 10 ^ suc k → length (decimal n) ≤ suc k
unfolding decimal
length-decimal-le n k h = omega (arith, length-digits_from-le (suc n) n k [] (omega arith) h)

pub le-length-decimal : (n k : ℕ) → 10 ^ k ≤ n → suc k ≤ length (decimal n)
unfolding decimal
le-length-decimal n k h = omega (arith, le-length-digits_from (suc n) n k [] (omega arith) h)

digits_value_end : (n : ℕ) (rest : Text) → EndsNumber rest → digits_value n rest ≡ n
unfolding digits_value
digits_value_end n [] h = refl
digits_value_end n (c ∷ rest) h = rw h

digits_value-decimal :
    (n : ℕ) (rest : Text) → EndsNumber rest → digits_value 0 (decimal n ++ rest) ≡ n
unfolding decimal
digits_value-decimal n rest h =
    ap (digits_value 0) (digits_from-append (suc n) n [] rest)
    ∙ digits_value-digits_from (suc n) n rest (omega arith)
    ∙ digits_value_end n rest h

signed_value-digits :
    (t rest : Text)
    → t ≢ []
    → All IsDigit t
    → signed_value (skip_space (t ++ rest)) ≡ pos (digits_value 0 (t ++ rest))
unfolding signed_value skip_space
signed_value-digits [] rest ne h = absurd (ne refl)
signed_value-digits (c ∷ t) rest ne (d, h) = ground arith

-- `atoi` reads the digits in front, whatever ends them.
pub atoi-decimal :
    (n : ℕ) (rest : Text) → EndsNumber rest → n < int_bound → atoi (decimal n ++ rest) ≡ pos n
unfolding atoi
atoi-decimal n rest e h =
    ap to_int (signed_value-digits (decimal n) rest (decimal-ne-nil n) (decimal-IsDigit n))
    ∙ ap (λ m. to_int (pos m)) (digits_value-decimal n rest e)
    ∙ to_int_of_InInt (pos n) h

-- `atoi` undoes `%d`, for every `int`.
pub atoi-format_int : (a : ℤ) → InInt a → atoi (format_int a) ≡ a
unfolding format_int
atoi-format_int (pos n) h = rw (← append-nil (decimal n)) (atoi-decimal n [] tt h)
atoi-format_int (negsuc n) h = minus
  where
    value : digits_value 0 (decimal (suc n)) ≡ suc n
    value = rw (← append-nil (decimal (suc n))) (digits_value-decimal (suc n) [] tt)

    minus : atoi (b'-' ∷ decimal (suc n)) ≡ negsuc n
    minus = unfold atoi in rw value (to_int_of_InInt (negsuc n) h)

pub Lacks-of_IsDigit : (sep : ℕ) (t : Text) → sep < b'0' → All IsDigit t → Lacks sep t
Lacks-of_IsDigit sep [] lt h = tt
Lacks-of_IsDigit sep (c ∷ t) lt (d, h) = (omega arith, Lacks-of_IsDigit sep t lt h)

-- What `%d` prints is not empty, and holds no separator that is smaller than the digits, but `-`.
pub format_int-ne-nil : (a : ℤ) → format_int a ≢ []
unfolding format_int
format_int-ne-nil (pos n) = decimal-ne-nil n
format_int-ne-nil (negsuc n) = λ e. cc

pub format_int-Lacks : (sep : ℕ) (a : ℤ) → sep < b'0' → sep ≢ b'-' → Lacks sep (format_int a)
unfolding format_int
format_int-Lacks sep (pos n) lt ne = Lacks-of_IsDigit sep (decimal n) lt (decimal-IsDigit n)
format_int-Lacks sep (negsuc n) lt ne =
    (λ e. ne (sym e), Lacks-of_IsDigit sep (decimal (suc n)) lt (decimal-IsDigit (suc n)))

-- An `int` takes at most eleven bytes.
pub length-format_int-le : (a : ℤ) → InInt a → length (format_int a) ≤ 11
unfolding format_int
length-format_int-le (pos n) h = omega (arith, length-decimal-le n 9 (omega arith))
length-format_int-le (negsuc n) h = omega (arith, length-decimal-le (suc n) 9 (omega arith))
