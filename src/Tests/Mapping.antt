-- ===== src/Tests/Mapping.antt =====
-- The map outputs of a node at concrete inputs.
use rpi_hadoop.Prelude.{
  ℕ, ◌≡◌, refl, false, List, [], ◌∷◌, ◌++◌, arith, Option, none, some, Text, String, codes, All,
  done, pos, InInt, add_int,
}
use rpi_hadoop.CText.{tokens, atoi, sprintf, format_int}
use rpi_hadoop.LinkQuality.{get_link_quality}
use rpi_hadoop.Report.{Tables, compose_report, process_report}
use rpi_hadoop.Report.RoundTrip.{reported}
use rpi_hadoop.CArray.{IntArray, zeros, update}
use rpi_hadoop.MapTasks.{poll, note_broadcast, Mapper, State, eqb_text, handle_map, lines_loop}
use rpi_hadoop.MapTasks.Lists.{find, add_sizes}
use rpi_hadoop.MapTasks.Announced.{handle_map-process_report, handle_map-Distinct}
use rpi_hadoop.MapTasks.Pending.{step, without, Distinct}
use rpi_hadoop.MapTasks.Broadcast.{note_broadcast-process_report}
use rpi_hadoop.MapTasks.Sending.{view, CanReport}
use rpi_hadoop.MapTasks.Refinement.{handle_map-step}
use rpi_hadoop.MapTasks.Instalments.{GoesOn, lines_loop_twice}
use rpi_hadoop.Tests.Items.{Items, eqb_mapper, items, items-IsZList}

abbrev output : String → String → Mapper
output id size = record { output_size = codes size; map_id = codes id; job_id = [] }

abbrev node_state : State Items
node_state = record {
  pre_map_list = record {
    all = output "attempt_1" "1200" ∷ output "attempt_2" "300" ∷ [];
    now = none;
    later = [];
  };
  post_map_list = record { all = []; now = none; later = [] };
  reduce = pos 0;
  slot = pos 500;
  speed = zeros;
  fast_update = false;
  sent = [];
}

abbrev log : Option Text
log = some (codes "0.0.2259.0.1")

abbrev rates : IntArray
rates = update (update (update (update zeros 1 (pos 0)) 2 (pos 2259)) 3 (pos 0)) 4 (pos 1)

log-rates : get_link_quality log zeros ≡ done rates
unfolding get_link_quality tokens atoi
log-rates = refl

small_node : InInt (pos 3)
small_node = omega arith

node_state-CanReport : CanReport items items-IsZList 3 (pos 3) small_node log rates node_state
unfolding items-IsZList
node_state-CanReport = record {
  rates = log-rates;
  four_digits = omega arith;
  job = omega arith;
  fits = omega arith;
}

abbrev first_output : Mapper
first_output = output "attempt_1" "1200"

first_output-waits :
    find first_output.map_id (items-IsZList.contents node_state.pre_map_list) ≡ some first_output
unfolding find eqb_text items-IsZList
first_output-waits = refl

handle_map-step_example :
    (s' : State Items) × (handle_map items 3 (pos 3) log (pos 2) first_output node_state ≡ done s')
    × (view items items-IsZList s'
        ≡ step (pos 3) (pos 0) rates (pos 2) first_output (view items items-IsZList node_state))
    × (s'.reduce ≡ pos 0)
handle_map-step_example =
    handle_map-step items items-IsZList 3 (pos 3) small_node log rates (pos 2) first_output
      node_state node_state-CanReport

two-Distinct : Distinct (items-IsZList.contents node_state.pre_map_list)
unfolding find eqb_text items-IsZList
two-Distinct = (refl, (refl, tt))

handle_map-Distinct_example :
    (s' : State Items) × (handle_map items 3 (pos 3) log (pos 1) (output "attempt_3" "7") node_state
      ≡ done s')
    × Distinct (items-IsZList.contents s'.pre_map_list)
handle_map-Distinct_example =
    handle_map-Distinct items items-IsZList 3 (pos 3) small_node log rates (pos 1)
      (output "attempt_3" "7") node_state node_state-CanReport two-Distinct

abbrev no_tables : Tables
no_tables = record { p = zeros; sp = zeros; reducer = zeros }

handle_map-process_report_example :
    (s' : State Items) × (report : Text) × (handle_map items 3
        (pos 3)
        log
        (pos 0)
        first_output
        node_state
      ≡ done s')
    × (s'.sent ≡ [] ++ report ∷ [])
    × (process_report report no_tables
        ≡ done (
            reported 3
              (add_sizes
                (without first_output.map_id (items-IsZList.contents node_state.pre_map_list))
                (pos 0))
              (pos 0)
              rates
              no_tables))
handle_map-process_report_example =
    handle_map-process_report items items-IsZList 3 3 log rates first_output first_output node_state
      no_tables (omega arith) small_node node_state-CanReport refl first_output-waits

fetched :
    (s' : State Items) × (handle_map items 3 (pos 3) log (pos 0) first_output node_state ≡ done s')
    × (s'.sent ≡ codes "3.300.0.0.0.2259.0.1.0.0.0.0" ∷ [])
unfolding handle_map items get_link_quality compose_report sprintf format_int atoi add_int tokens
    eqb_mapper
fetched = (_, refl, refl)

abbrev old_lines : List Text
old_lines = codes "1.attempt_3.70.x.y" ∷ codes "" ∷ []

abbrev new_lines : List Text
new_lines = codes "0.attempt_3.70.x.y" ∷ []

abbrev logs : ℕ → Option Text
logs i = log

first_look :
    (r : State Items × ℕ) × (lines_loop items 5 (pos 3) logs 0 old_lines 0 node_state ≡ done r)
    × (r.1 ≡ 2)
unfolding lines_loop items tokens atoi sprintf
first_look = (_, refl, refl)

old-GoesOn : All GoesOn old_lines
unfolding tokens atoi
old-GoesOn = (refl, (refl, tt))

lines_loop_twice_example :
    lines_loop items 5 (pos 3) logs first_look.0.1 (old_lines ++ new_lines) 0 first_look.0.0
    ≡ lines_loop items 5 (pos 3) logs 0 (old_lines ++ new_lines) 0 node_state
lines_loop_twice_example =
    lines_loop_twice items 5 (pos 3) logs old_lines new_lines 0 node_state first_look.0.0
      first_look.0.1 old-GoesOn (omega arith) first_look.1

note_broadcast-process_report_example :
    (s' : State Items) × (report : Text) × (poll items 3
        (pos 3)
        logs
        (some old_lines)
        (note_broadcast (some (codes "10.0.0.101")) node_state)
        2
      ≡ done (s', 2))
    × (s'.fast_update ≡ false)
    × (items-IsZList.contents s'.pre_map_list ≡ items-IsZList.contents node_state.pre_map_list)
    × (s'.sent ≡ report ∷ [])
    × (process_report report no_tables
        ≡ done (
            reported 3
              (add_sizes (items-IsZList.contents node_state.pre_map_list) (pos 0))
              (pos 0)
              rates
              no_tables))
note_broadcast-process_report_example =
    note_broadcast-process_report items items-IsZList 3 3 (codes "10.0.0.101") logs rates old_lines
      2 node_state no_tables (omega arith) small_node node_state-CanReport (omega arith)
