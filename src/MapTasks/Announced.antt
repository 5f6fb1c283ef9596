-- ===== src/MapTasks/Announced.antt =====
-- What the scheduler knows once a node has handled a message.
use rpi_hadoop.Prelude.{
  ℕ, ◌<◌, ◌≡◌, refl, sym, ap, ◌∙◌, [], ◌∷◌, ◌++◌, arith, Option, some, Text, All, done, ℤ, pos,
  InInt,
}
use mathlib.Core.Path.{subst}
use rpi_hadoop.CArray.{IntArray}
use rpi_hadoop.Report.{Tables, nodes, process_report}
use rpi_hadoop.Report.Buffers.{IsSpeed, row, report_text, compose_report-done}
use rpi_hadoop.Report.RoundTrip.{reported, process_report-compose_report}
use rpi_hadoop.MapTasks.{Mapper, ZList, State, handle_map}
use rpi_hadoop.MapTasks.Lists.{IsZList, find, add_sizes}
use rpi_hadoop.MapTasks.Pending.{without, Outputs, step, Distinct, step-Distinct}
use rpi_hadoop.MapTasks.Sending.{view, CanReport, add_sizes-InInt}
use rpi_hadoop.MapTasks.Refinement.{handle_map-step}

pub process_report-report_text :
    (id : ℕ) (size reduce : ℤ) (p : IntArray) (t : Tables)
    → id < nodes
    → InInt size
    → InInt reduce
    → All IsSpeed (row 9 0 p)
    → process_report (report_text (pos id) size reduce p) t ≡ done (reported id size reduce p t)
process_report-report_text id size reduce p t hi hs hr h =
    rw (compose_report-done (pos id) size reduce p (omega arith) hs hr h) at
      (process_report-compose_report id size reduce p t hi hs hr h)

step_fetched :
    (n : ℤ) (p : IntArray) (map m : Mapper) (v : Outputs)
    → find map.map_id v.waiting ≡ some m
    → (step n (pos 0) p (pos 0) map v).sent
      ≡ v.sent ++ report_text n (add_sizes (without map.map_id v.waiting) (pos 0)) (pos 0) p ∷ []
unfolding step
step_fetched n p map m v e = rw e refl

-- When a node that reduces no job has handled the message that one of its waiting outputs was fetched,
-- it has sent one report more, and once the scheduler has processed that report, its tables hold for the
-- node the size of all the other outputs that wait, that the node reduces nothing, and the average of
-- the rates that are not 0. The rates have at most four digits.
pub handle_map-process_report :
    {L : Type 0} (z : ZList L) (laws : IsZList z) (fuel id : ℕ) (log : Option Text) (p : IntArray)
    (map m : Mapper) (s : State L) (t : Tables)
    → id < nodes
    → (small : InInt (pos id)) → CanReport z laws fuel (pos id) small log p s
    → s.reduce ≡ pos 0
    → find map.map_id (laws.contents s.pre_map_list) ≡ some m
    → (s' : State L) × (report : Text) × (handle_map z fuel (pos id) log (pos 0) map s ≡ done s')
      × (s'.sent ≡ s.sent ++ report ∷ [])
      × (process_report report t
          ≡ done (
              reported id
                (add_sizes (without map.map_id (laws.contents s.pre_map_list)) (pos 0))
                (pos 0)
                p
                t))
handle_map-process_report z laws fuel id log p map m s t hi small can free known =
    let (s', run, seen, job) = handle_map-step z laws fuel (pos id) small log p (pos 0) map s can in
    (
      s',
      report_text (pos id) (add_sizes (without map.map_id (laws.contents s.pre_map_list)) (pos 0))
          (pos 0) p,
      run,
      ap (λ v. v.sent) seen
          ∙ ap (λ r. (step (pos id) r p (pos 0) map (view z laws s)).sent) free
          ∙ step_fetched (pos id) p map m (view z laws s) known,
      process_report-report_text id _ (pos 0) p t hi
          (add_sizes-InInt (without map.map_id (laws.contents s.pre_map_list)) (pos 0)
            (omega arith))
          (omega arith) can.four_digits,
    )

-- No message makes two of the outputs that wait have the same ID.
pub handle_map-Distinct :
    {L : Type 0} (z : ZList L) (laws : IsZList z) (fuel : ℕ) (n : ℤ) (small : InInt n)
    (log : Option Text) (p : IntArray) (mess_type : ℤ) (map : Mapper) (s : State L)
    → CanReport z laws fuel n small log p s
    → Distinct (laws.contents s.pre_map_list)
    → (s' : State L) × (handle_map z fuel n log mess_type map s ≡ done s')
      × Distinct (laws.contents s'.pre_map_list)
handle_map-Distinct z laws fuel n small log p mess_type map s can d =
    let (s', run, seen, job) = handle_map-step z laws fuel n small log p mess_type map s can in
    let kept = step-Distinct n s.reduce p mess_type map (view z laws s) d in
    (s', run, subst (λ v. Distinct v.waiting) (sym seen) kept)
