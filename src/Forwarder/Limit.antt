-- ===== src/Forwarder/Limit.antt =====
-- How `write_tun` of CreateLoopbackCS1Q.c starts: it computes a limit from the node's rates, which it does
-- not use.
use rpi_hadoop.Prelude.{
  ℕ, zero, suc, ◌+◌, ◌≤◌, ◌<◌, ◌≡◌, refl, inl, inr, Bool-cases, arith, ltb, if◌then◌else◌, Option,
  none, some, Text, Run, done, fault, ◌>>=◌, ℤ, pos, is_zero,
}
use rpi_hadoop.CArray.{IntArray, load}
use rpi_hadoop.LinkQuality.{get_link_quality}

-- C's `float`, as far as it is used: 0.0, the sum with an `int`, and the quotient by one.
pub record Floats : Type 1 where
  pub Float : Type 0
  pub zero_float : Float
  pub add : Float → ℤ → Float
  pub over : Float → ℤ → Float

-- The elements of the static `speed` of `get_link_quality`
abbrev pub speeds : ℕ
speeds = 9

module _ (f : Floats) where
  open f use {Float, zero_float, add, over}

  -- The loop over the rates from `i` on: the sum of those that are not 0, and how many they are.
  pub limit_loop : ℕ → ℕ → IntArray → Float → ℕ → Run (Float × ℕ)
  limit_loop zero i p limit count = done (limit, count)
  limit_loop (suc rounds) i p limit count = do
    v ← load speeds p (pos i)
    limit_loop rounds (i + 1) p (if is_zero v then limit else add limit v)
        (if is_zero v then count else count + 1)

  pub mean_limit : Float × ℕ → Run Float
  mean_limit (limit, count) = done (over limit (pos count))

  -- The start of `write_tun`, for speed_log.txt and what `speed` held before.
  pub write_limit : Option Text → IntArray → Run Float
  write_limit log speed = do
    p ← get_link_quality log speed
    r ← limit_loop 9 1 p zero_float 0
    mean_limit r

  limit_loop-overrun :
      (rounds i : ℕ) (p : IntArray) (limit : Float) (count : ℕ)
      → i ≤ speeds
      → speeds < i + rounds
      → limit_loop rounds i p limit count ≡ fault
  unfolding limit_loop
  limit_loop-overrun zero i p limit count lo hi = absurd (omega arith)
  limit_loop-overrun (suc rounds) i p limit count lo hi = elim (Bool-cases (ltb i speeds)) [
    | inl within ↦ rw within (limit_loop-overrun rounds (i + 1) p _ _ (ground arith) (omega arith))
    | inr beyond ↦ rw beyond refl
  ]

  -- Whatever the file holds, the loop reads behind the nine rates, or the file cannot be opened and the
  -- line is read through a null pointer.
  pub write_limit-overrun : (log : Option Text) (speed : IntArray) → write_limit log speed ≡ fault
  unfolding write_limit get_link_quality
  write_limit-overrun none speed = refl
  write_limit-overrun (some file) speed =
      rw (limit_loop-overrun 9 1 _ zero_float 0 (omega arith) (omega arith)) refl
