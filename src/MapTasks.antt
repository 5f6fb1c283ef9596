-- ===== src/MapTasks.antt =====
-- How a node follows its map outputs: `report_task` of monitor.h reads new lines of mapsToSend.txt,
-- keeps the outputs that wait in a list, and reports their size to the scheduler. The list is CZMQ's
-- `zlist_t`, which is an interface here.
pub mod Lists
pub mod Pending
pub mod Sending
pub mod Refinement
pub mod Instalments
pub mod Announced
pub mod Broadcast
use rpi_hadoop.Prelude.{
  ℕ, zero, suc, ◌+◌, ◌≡◌, refl, Bool, true, false, ◌&&◌, List, [], ◌∷◌, ◌++◌, Option, none, some,
  ltb, ◌==◌, if◌then◌else◌, Text, take, drop, Run, done, fault, out_of_fuel, ◌>>=◌, non_null, ℤ,
  pos, add_int, is_zero, eqb_ℤ,
}
use rpi_hadoop.CText.{tokens, atoi, sprintf}
use rpi_hadoop.CArray.{IntArray, zeros, store}
use rpi_hadoop.LinkQuality.{get_link_quality}
use rpi_hadoop.Report.{compose_report}

-- `struct mapper_t`: `job_id` is never read.
pub record Mapper : Type 0 where
  pub output_size : Text
  pub map_id : Text
  pub job_id : Text

-- The operations of `zlist_t` that the code calls. `first` and `next` move the list's cursor and return
-- the item there, `item` returns it again.
pub record ZList (L : Type 0) : Type 0 where
  pub first : L → Option Mapper × L
  pub next : L → Option Mapper × L
  pub item : L → Option Mapper
  pub append : L → Mapper → L
  pub remove : L → Mapper → L
  pub size : L → ℕ

-- `strcmp(a, b) == 0`
unfoldable pub eqb_text : Text → Text → Bool
eqb_text [] [] = true
eqb_text [] (d ∷ t) = false
eqb_text (c ∷ s) [] = false
eqb_text (c ∷ s) (d ∷ t) = c == d && eqb_text s t

-- What the task keeps: the outputs that wait and those that were fetched, the job that the node reduces,
-- the global `slot`, the static `speed` of `get_link_quality`, and whether a broadcast asked for a
-- report. `sent` are the reports so far.
pub record State (L : Type 0) : Type 0 where
  pub pre_map_list : L
  pub post_map_list : L
  pub reduce : ℤ
  pub slot : ℤ
  pub speed : IntArray
  pub fast_update : Bool
  pub sent : List Text

-- A new `mapper_t` from the tokens of a line.
pub new_mapper : Text → Text → Run Mapper
new_mapper id size = do
  map_id ← sprintf 39 id
  output_size ← sprintf 10 size
  done (record { output_size = output_size; map_id = map_id; job_id = take 18 (drop 8 map_id) })

-- The number of the job in a reducer's line: four bytes of the second token after the type are copied
-- into `sub_token`, of 5 bytes, and a terminator is written to its element 5.
pub reduce_line : List Text → Run ℤ
reduce_line [] = fault
reduce_line (message ∷ []) = fault
reduce_line (message ∷ token ∷ more) = do
  sub_token ← store 5 zeros (pos 5) (pos 0)
  done (atoi (take 4 (drop 22 token)))

module _ {L : Type 0} (z : ZList L) where
  -- The loop of `map_list_cmp`, where `next_map` is the item at the cursor.
  pub cmp_loop : ℕ → Option Mapper → Mapper → L → Run (Bool × L)
  cmp_loop zero next_map map list = out_of_fuel
  cmp_loop (suc left) none map list = done (false, list)
  cmp_loop (suc left) (some next_map) map list =
      let rest = cmp_loop left (z.next list).0 map (z.next list).1 in
      if eqb_text next_map.map_id map.map_id then done (true, list) else rest

  -- The loop of `get_data_size`.
  pub size_loop : ℕ → Option Mapper → ℤ → L → Run (ℤ × L)
  size_loop zero map size list = out_of_fuel
  size_loop (suc left) none size list = done (size, list)
  size_loop (suc left) (some map) size list =
      size_loop left (z.next list).0 (add_int size (atoi map.output_size)) (z.next list).1

-- `fuel` bounds the walks through a list.
module _ {L : Type 0} (z : ZList L) (fuel : ℕ) where
  pub map_list_cmp : L → Mapper → Run (Bool × L)
  unfolding cmp_loop
  map_list_cmp list map = cmp_loop z fuel (z.first list).0 map (z.first list).1

  pub get_data_size : L → Run (ℤ × L)
  unfolding size_loop
  get_data_size list = size_loop z fuel (z.first list).0 (pos 0) (z.first list).1

  -- `case 1`: an output waits from now on.
  pub map_waits : Mapper → State L → Run (State L)
  unfolding map_list_cmp
  map_waits map s = do
    (found, list) ← map_list_cmp s.pre_map_list map
    done (record s { pre_map_list = if found then list else (z.first (z.append list map)).1 })

-- `n` is the node's number.
module _ {L : Type 0} (z : ZList L) (fuel : ℕ) (n : ℤ) where
  -- A report to the scheduler, where `log` is what speed_log.txt holds.
  pub send_report : Option Text → State L → Run (State L)
  unfolding get_data_size
  send_report log s = do
    p ← get_link_quality log s.speed
    (size, list) ← get_data_size z fuel s.pre_map_list
    buff ← compose_report n size s.reduce p
    done (record s { pre_map_list = list; speed = p; sent = s.sent ++ buff ∷ [] })

  -- A report that takes the slot away.
  pub report_change : Option Text → State L → Run (State L)
  unfolding send_report
  report_change log s = send_report log (record s { slot = pos 0 })

  -- `case 0`: an output has been fetched.
  pub map_fetched : Option Text → Mapper → State L → Run (State L)
  unfolding map_list_cmp report_change
  map_fetched log map s = do
    (found, list) ← map_list_cmp z fuel s.pre_map_list map
    if found
        then (do
          cur ← non_null (z.item list)
          let s' = record s { pre_map_list = (z.first (z.remove list cur)).1 }
          s'' ← if is_zero s'.reduce then report_change log s' else done s'
          done (record s'' { post_map_list = z.append s''.post_map_list map }))
        else done (record s { pre_map_list = list })

  -- `case 2`: an output is no longer wanted.
  pub map_dropped : Option Text → Mapper → State L → Run (State L)
  unfolding map_list_cmp report_change
  map_dropped log map s = do
    (found, list) ← map_list_cmp z fuel s.pre_map_list map
    if found
        then (do
          cur ← non_null (z.item list)
          let s' = record s { pre_map_list = z.remove list cur }
          if z.size s'.pre_map_list == 0 && is_zero s'.reduce
              then report_change log s'
              else done s')
        else done (record s { pre_map_list = list })

  -- The `switch` over the type of the message.
  unfoldable pub handle_map : Option Text → ℤ → Mapper → State L → Run (State L)
  unfolding map_waits map_fetched map_dropped eqb_text
  handle_map log mess_type map s =
      if eqb_ℤ mess_type (pos 1)
      then map_waits z fuel map s
      else if eqb_ℤ mess_type (pos 0)
      then map_fetched log map s
      else if eqb_ℤ mess_type (pos 2)
      then map_dropped log map s
      else done s

  -- A line about a map output, behind its type.
  pub map_line : Option Text → ℤ → List Text → State L → Run (State L)
  unfolding handle_map
  map_line log mess_type [] s = fault
  map_line log mess_type (id ∷ []) s = fault
  map_line log mess_type (id ∷ size ∷ more) s = do
    map ← new_mapper id size
    handle_map log mess_type map s

  -- A line: the new state, and whether the loop over the lines is left.
  pub handle_line : Option Text → List Text → State L → Run (State L × Bool)
  unfolding map_line
  handle_line log [] s = done (s, false)
  handle_line log (type ∷ rest) s =
      if eqb_ℤ (atoi type) (pos 3)
      then (do job ← reduce_line rest; done (record s { reduce = job }, false))
      else if eqb_ℤ (atoi type) (pos 4)
      then done (record s { reduce = pos 0 }, true)
      else (do s' ← map_line log (atoi type) rest s; done (s', false))

  -- The loop over the lines that `fgets` returns, behind `i` of them: those up to the mark `read` are
  -- passed over. It leaves the new mark. `logs i` is what speed_log.txt holds while line `i` is
  -- handled.
  unfoldable pub lines_loop : (ℕ → Option Text) → ℕ → List Text → ℕ → State L → Run (State L × ℕ)
  unfolding handle_line handle_map new_mapper reduce_line
  lines_loop logs read [] i s = done (s, i)
  lines_loop logs read (line ∷ lines) i s = do
    (s', stop) ←
        if ltb read (i + 1)
        then handle_line (logs (i + 1)) (tokens b'.' line) s
        else done (s, false)
    let rest = lines_loop logs read lines (i + 1) s'
    if stop then done (s', i + 1) else rest

  -- The report that a broadcast asked for.
  pub answer_broadcast : Option Text → State L → Run (State L)
  answer_broadcast log s =
      if s.fast_update
      then (do s' ← send_report log s; done (record s' { fast_update = false }))
      else done s

  -- The body of the loop of `report_task`, for the lines of mapsToSend.txt if it can be opened.
  unfoldable pub poll : (ℕ → Option Text) → Option (List Text) → State L → ℕ → Run (State L × ℕ)
  unfolding lines_loop answer_broadcast
  poll logs file s read = do
    lines ← non_null file
    (s', read') ← lines_loop logs read lines 0 s
    s'' ← answer_broadcast (logs 0) s'
    done (s'', read')

  pub poll_lem :
      (logs : ℕ → Option Text) (lines : List Text) (s : State L) (read : ℕ)
      → poll logs (some lines) s read ≡ (
          lines_loop logs read lines 0 s >>= λ (r : State L × ℕ).
          answer_broadcast (logs 0) r.0 >>= λ s''. done (s'', r.1))
  unfolding poll
  poll_lem logs lines s read = refl

-- The body of the loop of `recv_broadcast`, for the sender's address if there is one.
pub note_broadcast : {L : Type 0} → Option Text → State L → State L
note_broadcast none s = s
note_broadcast (some ipaddress) s = record s { fast_update = true }
