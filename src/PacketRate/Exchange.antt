-- ===== src/PacketRate/Exchange.antt =====
-- What a node publishes, another reads back, and what the sniffer writes to its file.
use rpi_hadoop.Prelude.{
  true, false, is_zero, ℕ, zero, suc, ◌+◌, ◌<◌, ◌≡◌, refl, ap, ◌∙◌, fun_ext, List, [], ◌∷◌, map,
  arith, Option, none, some, Text, All, done, ◌>>=◌, ℤ, pos, negsuc,
}
use rpi_hadoop.CText.{atoi, sprintf, format_int, decimal}
use rpi_hadoop.CText.Decimal.{atoi-format_int, length-decimal-le}
use rpi_hadoop.CArray.{IntArray}
use rpi_hadoop.Report.{toa_loop}
use rpi_hadoop.Report.Buffers.{IsSpeed, row, dotted, toa_loop-dotted, length-dotted, sprintf-done}
use rpi_hadoop.Report.RoundTrip.{tokens-dotted}
use rpi_hadoop.PacketRate.{join_loop, sum_loop, write_log, digit_loop, get_digit_from_content}

-- The loop is the one of `int_arry_toa`.
join_loop-toa_loop :
    (rounds k : ℕ) (a : IntArray) (str : Text) → join_loop rounds k a str ≡ toa_loop rounds k a str
unfolding join_loop toa_loop
join_loop-toa_loop zero k a str = refl
join_loop-toa_loop (suc rounds) k a str =
    ap (λ next. sprintf 5 (format_int (a k)) >>= next)
      (fun_ext (λ c. join_loop-toa_loop rounds (k + 1) a _))

-- Counts of at most three digits.
abbrev pub IsCount : ℤ → Type 0
IsCount (pos n) = n < 1000
IsCount (negsuc n) = ⊥

IsSpeed-of_IsCount : (a : ℤ) → IsCount a → IsSpeed a
IsSpeed-of_IsCount (pos n) h = omega arith
IsSpeed-of_IsCount (negsuc n) h = absurd h

pub All-IsSpeed : (l : List ℤ) → All IsCount l → All IsSpeed l
All-IsSpeed [] h = tt
All-IsSpeed (a ∷ l) (v, h) = (IsSpeed-of_IsCount a v, All-IsSpeed l h)

-- Counts of at most four digits are joined as they are.
pub joined-dotted :
    (a : IntArray) → All IsSpeed (row 9 0 a) → join_loop 9 0 a [] ≡ done (dotted (row 9 0 a))
joined-dotted a h = join_loop-toa_loop 9 0 a [] ∙ toa_loop-dotted 9 0 a [] (omega arith) h

-- If a count is not 0, and the memory of `malloc` happens to start with a 0 byte, the file holds the
-- joined counts.
pub write_log_lem :
    (a : IntArray)
    → All IsSpeed (row 9 0 a)
    → is_zero (sum_loop 9 0 a (pos 0)) ≡ false
    → write_log [] true a ≡ done (record { from_others = a; speed_log = some (dotted (row 9 0 a)) })
unfolding write_log
write_log_lem a h e =
    rw
      (
        e,
        joined-dotted a h,
        sprintf-done 200 (dotted (row 9 0 a)) (omega (arith, length-dotted (row 9 0 a) h)),
      )
      refl

count-done : (v : ℤ) → IsCount v → sprintf 4 (format_int v) ≡ done (format_int v)
unfolding format_int
count-done (pos n) h = sprintf-done 4 (decimal n) (omega (arith, length-decimal-le n 2 h))
count-done (negsuc n) h = absurd h

-- The loop leaves the last of the first `left` numbers.
digit_loop-row :
    (left rounds k i : ℕ) (a : IntArray) (digit : Option Text)
    → k + left ≡ i
    → left < rounds
    → All IsCount (row rounds k a)
    → digit_loop (suc left) (map format_int (row rounds k a)) digit ≡ done (some (format_int (a i)))
unfolding digit_loop
digit_loop-row left zero k i a digit e lt h = absurd (omega arith)
digit_loop-row zero (suc rounds) k i a digit e lt (v, h) =
    rw (count-done (a k) v) (ap (λ x. done (some (format_int (a x)))) (omega arith))
digit_loop-row (suc left) (suc rounds) k i a digit e lt (v, h) =
    rw (count-done (a k) v) (
      digit_loop-row left rounds (k + 1) i a (some (format_int (a k))) (omega arith) (omega arith)
        h)

IsCount-atoi : (v : ℤ) → IsCount v → atoi (format_int v) ≡ v
IsCount-atoi (pos n) h = atoi-format_int (pos n) (omega arith)
IsCount-atoi (negsuc n) h = absurd h

row-IsCount :
    (left rounds k i : ℕ) (a : IntArray)
    → k + left ≡ i
    → left < rounds
    → All IsCount (row rounds k a)
    → IsCount (a i)
row-IsCount left zero k i a e lt h = absurd (omega arith)
row-IsCount zero (suc rounds) k i a e lt (v, h) = rw (here) v
  where
    here : i ≡ k
    here = omega arith
row-IsCount (suc left) (suc rounds) k i a e lt (v, h) =
    row-IsCount left rounds (k + 1) i a (omega arith) (omega arith) h

-- A node reads, from the counts that another has joined and published, the other's count for the
-- node itself, that of entry `n - 1` for host number `n`. Counts have at most three digits here.
pub get_digit_from_content-join_loop :
    (n : ℕ) (a : IntArray)
    → n < 9
    → All IsCount (row 9 0 a)
    → (join_loop 9 0 a [] >>= λ content. get_digit_from_content content (pos (suc n))) ≡ done (a n)
unfolding get_digit_from_content
get_digit_from_content-join_loop n a lt h =
    rw
      (
        joined-dotted a (All-IsSpeed (row 9 0 a) h),
        tokens-dotted (a 0) (row 8 1 a),
        digit_loop-row n 9 0 n a none (omega arith) lt h,
        IsCount-atoi (a n) (row-IsCount n 9 0 n a (omega arith) lt h),
      )
      refl
