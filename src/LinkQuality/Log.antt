-- ===== src/LinkQuality/Log.antt =====
-- A node reads the rates that the sniffer has written.
use rpi_hadoop.Prelude.{
  ℕ, zero, suc, ◌+◌, ◌≤◌, ◌<◌, ◌≡◌, ◌≢◌, refl, sym, ap, ◌∙◌, true, false, [], ◌∷◌, map, arith, some,
  ◌==◌, Text, take_of_length-le, All, done, ◌>>=◌, is_zero, ℤ, pos, negsuc,
}
use native.Mathlib.Decide.{ℕ_discrete}
use rpi_hadoop.CText.{atoi, format_int}
use rpi_hadoop.CText.Tokens.{Lacks}
use rpi_hadoop.CText.Decimal.{atoi-format_int}
use rpi_hadoop.CArray.{IntArray, update}
use rpi_hadoop.Report.Buffers.{IsSpeed, row, dotted, length-dotted, dotted-Lacks}
use rpi_hadoop.Report.RoundTrip.{tokens-dotted}
use rpi_hadoop.PacketRate.{write_log, sum_loop}
use rpi_hadoop.PacketRate.Exchange.{write_log_lem}
use rpi_hadoop.LinkQuality.{quality_loop, skip_first, first_line, get_link_quality}

other_byte : (c : ℕ) → c ≢ 10 → (c == 10) ≡ false
other_byte c h = ground arith

first_line_all : (s : Text) → Lacks 10 s → first_line s ≡ s
unfolding first_line
first_line_all [] h = refl
first_line_all (c ∷ s) (ne, h) = rw (other_byte c ne, first_line_all s h) refl

atoi-IsSpeed : (v : ℤ) → IsSpeed v → atoi (format_int v) ≡ v
atoi-IsSpeed (pos n) h = atoi-format_int (pos n) (omega arith)
atoi-IsSpeed (negsuc n) h = absurd h

other_index : (i k : ℕ) → i ≢ k → (i == k) ≡ false
other_index i k h = ground arith

same_index : (i k : ℕ) → i ≡ k → (i == k) ≡ true
same_index i k h = ground arith

at_index :
    (a speed : IntArray) (i k : ℕ)
    → i ≡ k
    → IsSpeed (a k)
    → update speed k (atoi (format_int (a k))) i ≡ a i
at_index a speed i k e v = rw (same_index i k e) (atoi-IsSpeed (a k) v ∙ ap a (sym e))

-- The elements outside the loop's range stay, those in it are the row's.
quality_loop-row :
    (rounds k : ℕ) (a speed : IntArray) (i : ℕ)
    → All IsSpeed (row rounds k a)
    → (i < k → quality_loop rounds k (map format_int (row rounds k a)) speed i ≡ speed i)
      × (k ≤ i
          → i < k + rounds
          → quality_loop rounds k (map format_int (row rounds k a)) speed i ≡ a i)
unfolding quality_loop
quality_loop-row zero k a speed i h = (λ lt. refl, λ le lt. absurd (omega arith))
quality_loop-row (suc rounds) k a speed i (v, h) =
    let s' = update speed k (atoi (format_int (a k))) in
    let (below, within) = quality_loop-row rounds (k + 1) a s' i h in
    (
      λ lt. below (omega arith) ∙ rw (other_index i k (omega arith)) refl,
      λ le lt. elim (ℕ_discrete i k) [
        | yes here ↦ below (omega arith) ∙ at_index a speed i k here v
        | no later ↦ within (omega arith) (omega arith)
      ],
    )

-- A file that holds nine rates of at most four digits, joined with points, gives the
-- rates of nodes 2 to 9.
get_link_quality-dotted :
    (a speed : IntArray)
    → All IsSpeed (row 9 0 a)
    → (speed' : IntArray) × (get_link_quality (some (dotted (row 9 0 a))) speed ≡ done speed')
      × (speed' 0 ≡ speed 0)
      × ((i : ℕ) → 1 ≤ i → i < 9 → speed' i ≡ a i)
unfolding get_link_quality skip_first
get_link_quality-dotted a speed (v, h) = (
  quality_loop 8 1 (map format_int (row 8 1 a)) speed,
  rw
      (
        first_line_all (dotted (row 9 0 a))
            (dotted-Lacks 10 (row 9 0 a) (omega arith) (omega arith) (omega arith)),
        take_of_length-le 383 (dotted (row 9 0 a))
            (omega (arith, length-dotted (row 9 0 a) (v, h))),
        tokens-dotted (a 0) (row 8 1 a),
      )
      refl,
  (quality_loop-row 8 1 a speed 0 h).0 (omega arith),
  λ i lo hi. (quality_loop-row 8 1 a speed i h).1 lo (omega arith),
)

-- What the sniffer writes after a broadcast, if a count is not 0, a node reads back as the rates of nodes
-- 2 to 9; the first rate stays what it was. Counts have at most four digits, the file can be opened, and
-- the memory of `malloc` starts with a 0 byte.
pub get_link_quality-write_log :
    (a speed : IntArray)
    → All IsSpeed (row 9 0 a)
    → is_zero (sum_loop 9 0 a (pos 0)) ≡ false
    → (speed' : IntArray) × ((write_log [] true a >>= λ heard.
          get_link_quality heard.speed_log speed)
        ≡ done speed')
      × (speed' 0 ≡ speed 0)
      × ((i : ℕ) → 1 ≤ i → i < 9 → speed' i ≡ a i)
get_link_quality-write_log a speed h e =
    let (speed', run, first, rest) = get_link_quality-dotted a speed h in
    (speed', rw (write_log_lem a h e) run, first, rest)
