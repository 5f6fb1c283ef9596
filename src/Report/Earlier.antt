-- ===== src/Report/Earlier.antt =====
-- `response_task` of monitor.h, the earlier server of reports: it adds up the sizes of five nodes.
pub mod Sums
use rpi_hadoop.Prelude.{
  ℕ, zero, suc, ◌+◌, ◌≡◌, refl, Bool, false, List, [], ◌∷◌, ◌==◌, if◌then◌else◌, Text, Run, done,
  fault, ◌>>=◌, ℤ, pos, negsuc, add_int, div_int,
}
use rpi_hadoop.CText.{tokens, atoi}
use rpi_hadoop.CArray.{IntArray, update, load}
use rpi_hadoop.Report.{speed_loop}

-- The elements of `p`
abbrev pub places : ℕ
places = 6

-- i == nodeId
abbrev pub is_index : ℕ → ℤ → Bool
is_index i (pos n) = i == n
is_index i (negsuc n) = false

-- The loop over `p` from element `i` on, which adds the size to the element of the node.
pub add_loop : ℕ → ℕ → ℤ → ℤ → IntArray → IntArray
add_loop zero i id size p = p
add_loop (suc left) i id size p =
    add_loop left (i + 1) id size (if is_index i id then update p i (add_int (p i) size) else p)

-- The speed that is printed: the average, or the sum if no speed was counted.
pub mean_speed : ℤ × ℕ → ℤ
mean_speed (speed, count) = if count == 0 then speed else div_int speed count

-- What is printed of a report: the node, its entry of `p`, and the speed.
pub record Shown : Type 0 where
  pub node : ℤ
  pub size : ℤ
  pub speed : ℤ

-- The line that is printed reads `p[nodeId]`.
pub show_node : ℤ → ℤ → IntArray → Run (IntArray × Shown)
show_node id speed p = do
  size ← load places p id
  done (p, record { node = id; size = size; speed = speed })

-- The body of the loop of `response_task`, for the fields of a message. `atoi(NULL)` is undefined.
pub response_tokens : List Text → IntArray → Run (IntArray × Shown)
response_tokens [] p = show_node (pos 0) (pos 0) p
response_tokens (id ∷ []) p = fault
response_tokens (id ∷ size ∷ []) p = fault
response_tokens (id ∷ size ∷ is_reducer ∷ speeds) p =
    show_node (atoi id) (mean_speed (speed_loop speeds (pos 0) 0))
      (add_loop 5 1 (atoi id) (atoi size) p)

unfoldable pub response_task : Text → IntArray → Run (IntArray × Shown)
unfolding add_loop mean_speed show_node response_tokens
response_task content p = response_tokens (tokens b'.' content) p

pub response_task_lem :
    (content : Text) (p : IntArray)
    → response_task content p ≡ response_tokens (tokens b'.' content) p
unfolding response_task
response_task_lem content p = refl
