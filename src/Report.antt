-- ===== src/Report.antt =====
-- The report that a node sends to the scheduler: monitor.h composes it, and `process_report` of
-- CreateLoopbackMS.c takes it apart.
pub mod Buffers
pub mod RoundTrip
pub mod Safety
pub mod Server
pub mod Earlier
use rpi_hadoop.Prelude.{
  ℕ, zero, suc, ◌+◌, ◌<◌, ◌≡◌, refl, Bool, true, false, List, [], ◌∷◌, ◌++◌, ltb, ◌==◌,
  if◌then◌else◌, Text, codes, Run, done, fault, ◌>>=◌, ℤ, pos, negsuc, add_int, div_int, is_zero,
}
use rpi_hadoop.CText.{tokens, atoi, format_int, sprintf}
use rpi_hadoop.CArray.{IntArray, zeros, store}

-- The loop of `int_arry_toa` for the elements from `k` on: each number is printed into `c_num` (5
-- bytes), and appended to what `str` holds, with a point behind all but the last.
unfoldable pub toa_loop : ℕ → ℕ → (ℕ → ℤ) → Text → Run Text
toa_loop zero k p str = done str
toa_loop (suc rounds) k p str = do
  c_num ← sprintf 5 (format_int (p k))
  toa_loop rounds (k + 1) p (str ++ (c_num ++ (if ltb k 8 then b'.' ∷ [] else [])))

-- `int_arry_toa`: nine numbers into a buffer of 100 bytes.
pub int_arry_toa : (ℕ → ℤ) → Run Text
unfolding toa_loop
int_arry_toa p = do str ← toa_loop 9 0 p []; sprintf 100 str

-- The report `"%d.%d.%d.%s"` of node `n`, in a buffer of 200 bytes.
unfoldable pub compose_report : ℤ → ℤ → ℤ → (ℕ → ℤ) → Run Text
unfolding int_arry_toa
compose_report n size reduce p = do
  str ← int_arry_toa p
  sprintf 200 (format_int n ++ b'.' ∷ (format_int size ++ b'.' ∷ (format_int reduce ++ b'.' ∷ str)))

-- The scheduler's tables `p`, `sp` and `reducer`, of ten elements each.
pub record Tables : Type 0 where
  pub p : IntArray
  pub sp : IntArray
  pub reducer : IntArray

abbrev pub nodes : ℕ
nodes = 10

-- The loop over the speeds: their sum, and how many are not 0.
pub speed_loop : List Text → ℤ → ℕ → ℤ × ℕ
speed_loop [] speed count = (speed, count)
speed_loop (token ∷ rest) speed count =
    speed_loop rest (add_int speed (atoi token)) (if is_zero (atoi token) then count else count + 1)

-- `sp[nodeId] = speed / count`, if a speed was not 0.
pub store_speed : IntArray → ℤ → ℤ × ℕ → Run IntArray
store_speed sp id (speed, count) =
    if count == 0 then done sp else store nodes sp id (div_int speed count)

-- The writes of one report: node, size, reducer's job, and the outcome of the loop over the speeds.
pub store_report : ℤ → ℤ → ℤ → ℤ × ℕ → Tables → Run Tables
store_report id size is_reducer speeds t = do
  p' ← store nodes t.p id size
  reducer' ← store nodes t.reducer id is_reducer
  sp' ← store_speed t.sp id speeds
  done (record { p = p'; sp = sp'; reducer = reducer' })

-- The body of the loop of `process_report`. `atoi(NULL)` is undefined.
pub process_tokens : List Text → Tables → Run Tables
process_tokens [] t = done t
process_tokens (id ∷ []) t = fault
process_tokens (id ∷ size ∷ []) t = fault
process_tokens (id ∷ size ∷ is_reducer ∷ speeds) t =
    store_report (atoi id) (atoi size) (atoi is_reducer) (speed_loop speeds (pos 0) 0) t

unfoldable pub process_report : Text → Tables → Run Tables
unfolding process_tokens speed_loop store_report store_speed
process_report content t = process_tokens (tokens b'.' content) t

pub process_report_lem :
    (content : Text) (t : Tables)
    → process_report content t ≡ process_tokens (tokens b'.' content) t
unfolding process_report
process_report_lem content t = refl
