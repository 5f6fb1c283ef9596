-- ===== src/Report/Buffers.antt =====
-- When the buffers of `int_arry_toa` and of the report are large enough, and what is written.
use rpi_hadoop.Prelude.{
  ℕ, zero, suc, ◌+◌, ◌≤◌, ◌<◌, ◌≡◌, ◌≢◌, sym, List, [], ◌∷◌, ◌++◌, append_assoc, append-nil, arith,
  ltb, if◌then◌else◌, Text, length, length-append, All, All-append, done, fault, ℤ, pos, negsuc,
  InInt, ◌*◌, ◌⊎◌, inl, inr, lt→ltb, false,
}
use native.Mathlib.Decide.{ℕ_discrete}
use rpi_hadoop.CText.{format_int, sprintf}
use rpi_hadoop.CText.Tokens.{Lacks}
use rpi_hadoop.CText.Decimal.{
  format_int-Lacks, length-decimal-le, le-length-decimal, length-format_int-le,
}
use rpi_hadoop.CArray.{IntArray}
use rpi_hadoop.Report.{toa_loop, int_arry_toa, compose_report}

-- A packet rate that `c_num` has room for: four digits.
abbrev pub IsSpeed : ℤ → Type 0
IsSpeed (pos n) = n < 10000
IsSpeed (negsuc n) = ⊥

-- The elements from `k` on.
abbrev pub row : ℕ → ℕ → IntArray → List ℤ
row zero k p = []
row (suc rounds) k p = p k ∷ row rounds (k + 1) p

-- Numbers with points between them.
abbrev pub dotted : List ℤ → Text
dotted [] = []
dotted (a ∷ []) = format_int a
dotted (a ∷ b ∷ l) = format_int a ++ b'.' ∷ dotted (b ∷ l)

pub sprintf-done : (cap : ℕ) (s : Text) → length s < cap → sprintf cap s ≡ done s
unfolding sprintf
sprintf-done cap s h = rw (lt→ltb _ _ h)

length-IsSpeed : (a : ℤ) → IsSpeed a → length (format_int a) < 5
unfolding format_int
length-IsSpeed (pos n) h = omega (arith, length-decimal-le n 3 h)
length-IsSpeed (negsuc n) h = absurd h

pub toa_loop-dotted :
    (rounds k : ℕ) (p : IntArray) (str : Text)
    → k + rounds ≡ 9
    → All IsSpeed (row rounds k p)
    → toa_loop rounds k p str ≡ done (str ++ dotted (row rounds k p))
unfolding toa_loop
toa_loop-dotted zero k p str e h = rw append-nil
toa_loop-dotted (suc zero) k p str e (v, h) =
    rw (sprintf-done 5 (format_int (p k)) (length-IsSpeed (p k) v)) (last (k + 1) (omega arith))
  where
    last :
        (m : ℕ)
        → m ≡ 9 + 0
        → done (str ++ (format_int (p k) ++ (if ltb k 8 then b'.' ∷ [] else [])))
          ≡ done (str ++ format_int (p k))
    last m e' = rw (end, append-nil)
      where
        end : ltb k 8 ≡ false
        end = ground arith
toa_loop-dotted (suc (suc r)) k p str e (v, h) =
    rw
      (
        sprintf-done 5 (format_int (p k)) (length-IsSpeed (p k) v),
        lt→ltb k 8 (omega arith),
        toa_loop-dotted (suc r) (k + 1) p (str ++ (format_int (p k) ++ b'.' ∷ [])) (omega arith) h,
      )
      (simp append_assoc)

-- Only digits, signs and points stand in it.
pub dotted-Lacks :
    (sep : ℕ) (l : List ℤ) → sep < b'0' → sep ≢ b'-' → sep ≢ b'.' → Lacks sep (dotted l)
dotted-Lacks sep [] lt minus point = tt
dotted-Lacks sep (a ∷ []) lt minus point = format_int-Lacks sep a lt minus
dotted-Lacks sep (a ∷ b ∷ l) lt minus point =
    All-append (λ c. c ≢ sep) (format_int a) (b'.' ∷ dotted (b ∷ l))
      (format_int-Lacks sep a lt minus)
      ((λ e. point (sym e)), dotted-Lacks sep (b ∷ l) lt minus point)

pub length-dotted : (l : List ℤ) → All IsSpeed l → length (dotted l) ≤ 5 * length l
length-dotted [] h = omega arith
length-dotted (a ∷ []) (v, h) = omega (arith, length-IsSpeed a v)
length-dotted (a ∷ b ∷ l) (v, h) = omega (
  arith,
  length-IsSpeed a v,
  length-append (format_int a) (b'.' ∷ dotted (b ∷ l)),
  length-dotted (b ∷ l) h,
)

pub sprintf_overrun : (cap : ℕ) (s : Text) → cap ≤ length s → sprintf cap s ≡ fault
unfolding sprintf
sprintf_overrun cap s h = ground arith

pub sprintf-cases : (cap : ℕ) (s : Text) → (sprintf cap s ≡ done s) ⊎ (sprintf cap s ≡ fault)
unfolding sprintf
sprintf-cases cap s = ground arith

length_of_large : (a : ℤ) (n : ℕ) → a ≡ pos n → 10000 ≤ n → 5 ≤ length (format_int a)
unfolding format_int
length_of_large a n e h = rw e (le-length-decimal n 4 h)

toa_loop_overrun :
    (rounds k j n : ℕ) (p : IntArray) (str : Text)
    → k ≤ j
    → j < k + rounds
    → p j ≡ pos n
    → 10000 ≤ n
    → toa_loop rounds k p str ≡ fault
unfolding toa_loop
toa_loop_overrun zero k j n p str lo hi e h = absurd (omega arith)
toa_loop_overrun (suc r) k j n p str lo hi e h = elim (ℕ_discrete j k) [
  | yes here ↦ rw (sprintf_overrun 5 (format_int (p k)) (length_of_large (p k) n (rw (← here) e) h))
  | no later ↦ elim (sprintf-cases 5 (format_int (p k))) [
    | inl fits ↦ rw fits (toa_loop_overrun r (k + 1) j n p _ (omega arith) (omega arith) e h)
    | inr over ↦ rw over
  ]
]

-- Nine rates of at most four digits are printed as they are, with points between them.
pub int_arry_toa-dotted :
    (p : IntArray) → All IsSpeed (row 9 0 p) → int_arry_toa p ≡ done (dotted (row 9 0 p))
unfolding int_arry_toa
int_arry_toa-dotted p h =
    rw (toa_loop-dotted 9 0 p [] (omega arith) h)
      (sprintf-done 100 (dotted (row 9 0 p)) (omega (arith, length-dotted (row 9 0 p) h)))

-- If one of the nine rates is 10000 or more, `int_arry_toa` writes behind the end of `c_num`,
-- whatever the other rates are.
pub int_arry_toa_overrun :
    (j n : ℕ) (p : IntArray) → j < 9 → p j ≡ pos n → 10000 ≤ n → int_arry_toa p ≡ fault
unfolding int_arry_toa
int_arry_toa_overrun j n p hi e h =
    rw (toa_loop_overrun 9 0 j n p [] (omega arith) (omega arith) e h)

-- The text of a report.
abbrev pub report_text : ℤ → ℤ → ℤ → IntArray → Text
report_text n size reduce p =
    format_int n
    ++ b'.' ∷ (format_int size ++ b'.' ∷ (format_int reduce ++ b'.' ∷ dotted (row 9 0 p)))

pub compose_report-done :
    (n size reduce : ℤ) (p : IntArray)
    → InInt n
    → InInt size
    → InInt reduce
    → All IsSpeed (row 9 0 p)
    → compose_report n size reduce p ≡ done (report_text n size reduce p)
unfolding compose_report
compose_report-done n size reduce p hn hs hr h = rw (int_arry_toa-dotted p h) (
    sprintf-done 200 (report_text n size reduce p) (
      omega (
        arith,
        length-append (format_int n)
            (b'.' ∷ (format_int size ++ b'.' ∷ (format_int reduce ++ b'.' ∷ dotted (row 9 0 p)))),
        length-append (format_int size) (b'.' ∷ (format_int reduce ++ b'.' ∷ dotted (row 9 0 p))),
        length-append (format_int reduce) (b'.' ∷ dotted (row 9 0 p)),
        length-format_int-le n hn,
        length-format_int-le size hs,
        length-format_int-le reduce hr,
        length-dotted (row 9 0 p) h,
      )))
