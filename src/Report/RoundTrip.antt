-- ===== src/Report/RoundTrip.antt =====
-- The scheduler reads from a report what the node put into it.
use rpi_hadoop.Prelude.{
  ℕ, ◌+◌, ◌*◌, ◌/◌, ◌<◌, ◌≡◌, List, [], ◌∷◌, ◌++◌, map, arith, ◌==◌, if◌then◌else◌, Text, length,
  All, done, ◌>>=◌, ℤ, pos, negsuc, pos_part, InInt, int_bound, ◌∙◌, ap, lt→ltb, add_int,
  Bool-cases, inl, inr, is_zero,
}
use rpi_hadoop.CText.{format_int, atoi, tokens}
use rpi_hadoop.CText.Decimal.{atoi-format_int, format_int-ne-nil, format_int-Lacks}
use rpi_hadoop.CText.Tokens.{tokens-cons, tokens_one}
use rpi_hadoop.CArray.{IntArray, update}
use rpi_hadoop.Report.{
  Tables, nodes, speed_loop, store_speed, store_report, process_tokens, process_report,
  process_report_lem, compose_report,
}
use rpi_hadoop.Report.Buffers.{IsSpeed, row, dotted, report_text, compose_report-done}

-- The sum of the rates, and how many are not 0.
abbrev pub total : List ℤ → ℕ
total [] = 0
total (v ∷ l) = pos_part v + total l

abbrev pub busy : List ℤ → ℕ
busy [] = 0
busy (v ∷ l) = (if is_zero v then 0 else 1) + busy l

tokens-int :
    (a : ℤ) (rest : Text)
    → tokens b'.' (format_int a ++ b'.' ∷ rest) ≡ format_int a ∷ tokens b'.' rest
tokens-int a rest =
    tokens-cons b'.' (format_int a) rest (format_int-ne-nil a)
      (format_int-Lacks b'.' a (omega arith) (omega arith))

pub tokens-dotted : (a : ℤ) (l : List ℤ) → tokens b'.' (dotted (a ∷ l)) ≡ map format_int (a ∷ l)
tokens-dotted a [] =
    tokens_one b'.' (format_int a) (format_int-ne-nil a)
      (format_int-Lacks b'.' a (omega arith) (omega arith))
tokens-dotted a (b ∷ l) =
    tokens-int a (dotted (b ∷ l)) ∙ ap (λ r. format_int a ∷ r) (tokens-dotted b l)

pub add_int_pos : (a b : ℕ) → a + b < int_bound → add_int (pos a) (pos b) ≡ pos (a + b)
unfolding add_int
add_int_pos a b h = ground arith

speed_loop-cons :
    (v : ℤ) (rest : List Text) (speed : ℤ) (count : ℕ)
    → InInt v
    → speed_loop (format_int v ∷ rest) speed count
      ≡ speed_loop rest (add_int speed v) (if is_zero v then count else count + 1)
unfolding speed_loop
speed_loop-cons v rest speed count h = rw (atoi-format_int v h)

speed_loop-total :
    (l : List ℤ) (a c : ℕ)
    → All IsSpeed l
    → a + 10000 * length l < int_bound
    → speed_loop (map format_int l) (pos a) c ≡ (pos (a + total l), c + busy l)
unfolding speed_loop
speed_loop-total [] a c h fits = ground arith
speed_loop-total (pos n ∷ l) a c (v, h) fits =
    speed_loop-cons (pos n) (map format_int l) (pos a) c (omega arith)
    ∙ rw (add_int_pos a n (omega arith))
        (speed_loop-total l (a + n) _ h (omega arith) ∙ ground arith)
speed_loop-total (negsuc n ∷ l) a c (v, h) fits = absurd v

pub rates-total :
    (l : List ℤ)
    → All IsSpeed l
    → 10000 * length l < int_bound
    → speed_loop (map format_int l) (pos 0) 0 ≡ (pos (total l), busy l)
rates-total l h fits = speed_loop-total l 0 0 h (omega arith) ∙ ground arith

-- The tables after a report of node `id`.
abbrev pub reported : ℕ → ℤ → ℤ → IntArray → Tables → Tables
reported id size reduce p t = record {
  p = update t.p id size;
  sp =
      if busy (row 9 0 p) == 0
      then t.sp
      else update t.sp id (pos (total (row 9 0 p) / busy (row 9 0 p)));
  reducer = update t.reducer id reduce;
}

process_tokens-average :
    (id sum count : ℕ) (size reduce : ℤ) (a b c : Text) (speeds : List Text) (t : Tables)
    → atoi a ≡ pos id
    → atoi b ≡ size
    → atoi c ≡ reduce
    → speed_loop speeds (pos 0) 0 ≡ (pos sum, count)
    → id < nodes
    → process_tokens (a ∷ b ∷ c ∷ speeds) t
      ≡ done (record {
        p = update t.p id size;
        sp = if count == 0 then t.sp else update t.sp id (pos (sum / count));
        reducer = update t.reducer id reduce;
      })
unfolding process_tokens store_report store_speed
process_tokens-average id sum count size reduce a b c speeds t ha hb hc hs h =
    rw (ha, hb, hc, hs, lt→ltb id nodes h)
      (elim (Bool-cases (count == 0)) [
        | inl none_busy ↦ rw none_busy
        | inr some_busy ↦ rw some_busy
      ])

pub tokens-report_text :
    (n size reduce : ℤ) (p : IntArray)
    → tokens b'.' (report_text n size reduce p)
      ≡ format_int n ∷ format_int size ∷ format_int reduce ∷ map format_int (row 9 0 p)
tokens-report_text n size reduce p =
    rw (tokens-int n _, tokens-int size _, tokens-int reduce _)
      (ap (λ l. format_int n ∷ format_int size ∷ format_int reduce ∷ l)
        (tokens-dotted (p 0) (row 8 1 p)))

-- The scheduler's tables hold, after the report that node `id` sends, exactly what the node
-- reported: its data size, its reducer's job, and the average of the rates that are not 0 (the old
-- average, if all are 0). This holds for every node of the table, all `int` sizes and jobs, and all
-- rates of at most four digits.
pub process_report-compose_report :
    (id : ℕ) (size reduce : ℤ) (p : IntArray) (t : Tables)
    → id < nodes
    → InInt size
    → InInt reduce
    → All IsSpeed (row 9 0 p)
    → (compose_report (pos id) size reduce p >>= λ content. process_report content t)
      ≡ done (reported id size reduce p t)
process_report-compose_report id size reduce p t hi hs hr h =
    rw
      (
        compose_report-done (pos id) size reduce p (omega arith) hs hr h,
        process_report_lem,
        tokens-report_text (pos id) size reduce p,
      )
      (process_tokens-average id _ _ size reduce _ _ _ (map format_int (row 9 0 p)) t
        (atoi-format_int (pos id) (omega arith)) (atoi-format_int size hs)
        (atoi-format_int reduce hr) (rates-total (row 9 0 p) h (omega arith)) hi)
