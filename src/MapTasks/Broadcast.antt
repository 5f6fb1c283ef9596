-- ===== src/MapTasks/Broadcast.antt =====
-- The scheduler's beacon: `recv_broadcast` notes it, and the next turn of `report_task` answers it.
use rpi_hadoop.Prelude.{
  ℕ, ◌+◌, ◌≤◌, ◌<◌, ◌≡◌, refl, ap, ◌∙◌, Bool, true, false, List, [], ◌∷◌, ◌++◌, arith, Option, some,
  ltb, if◌then◌else◌, Text, length, done, ℤ, pos, InInt,
}
use rpi_hadoop.CArray.{IntArray}
use rpi_hadoop.Report.{Tables, nodes, process_report}
use rpi_hadoop.Report.Buffers.{report_text}
use rpi_hadoop.Report.RoundTrip.{reported}
use rpi_hadoop.MapTasks.{ZList, State, lines_loop, poll, poll_lem, answer_broadcast, note_broadcast}
use rpi_hadoop.MapTasks.Lists.{IsZList, add_sizes}
use rpi_hadoop.MapTasks.Sending.{CanReport, send_report-done, add_sizes-InInt}
use rpi_hadoop.MapTasks.Announced.{process_report-report_text}

if_true {ℓ} : {A : Type ℓ} (b : Bool) (x y : A) → b ≡ true → (if b then x else y) ≡ x
if_true true x y h = refl
if_true false x y h = absurd cc

module _ {L : Type 0} (z : ZList L) (laws : IsZList z) (fuel : ℕ) (n : ℤ) where
  -- Lines up to the mark are passed over.
  old_lines :
      (logs : ℕ → Option Text) (read : ℕ) (lines : List Text) (i : ℕ) (s : State L)
      → i + length lines ≤ read
      → lines_loop z fuel n logs read lines i s ≡ done (s, i + length lines)
  unfolding lines_loop
  old_lines logs read [] i s le = ap (λ k. done (s, k)) (omega arith)
  old_lines logs read (line ∷ lines) i s le =
      let old : ltb read (i + 1) ≡ false = ground arith in
      rw old
        (old_lines logs read lines (i + 1) s (omega arith) ∙ ap (λ k. done (s, k)) (omega arith))

  -- The state after a turn without new lines, where `l` is the list of outputs.
  abbrev pub answered : L → IntArray → State L → State L
  answered l p s = record s {
    pre_map_list = l;
    speed = p;
    sent =
        s.sent ++ report_text n (add_sizes (laws.contents s.pre_map_list) (pos 0)) s.reduce p ∷ [];
    fast_update = false;
  }

  answer_broadcast-done :
      (small : InInt n) (log : Option Text) (p : IntArray) (s : State L)
      → CanReport z laws fuel n small log p s
      → s.fast_update ≡ true
      → (l : L) × (answer_broadcast z fuel n log s ≡ done (answered l p s))
        × (laws.contents l ≡ laws.contents s.pre_map_list)
  unfolding answer_broadcast
  answer_broadcast-done small log p s can asked =
      let (l, run, same) = send_report-done z laws fuel n small log p s can in
      (l, if_true s.fast_update _ _ asked ∙ rw run refl, same)

  pub poll-answered :
      (small : InInt n) (logs : ℕ → Option Text) (p : IntArray) (lines : List Text) (read : ℕ)
      (s : State L)
      → CanReport z laws fuel n small (logs 0) p s
      → length lines ≤ read
      → s.fast_update ≡ true
      → (l : L) × (poll z fuel n logs (some lines) s read ≡ done (answered l p s, length lines))
        × (laws.contents l ≡ laws.contents s.pre_map_list)
  poll-answered small logs p lines read s can le asked =
      let (l, run, same) = answer_broadcast-done small (logs 0) p s can asked in
      (
        l,
        poll_lem z fuel n logs lines s read
            ∙ rw (old_lines logs read lines 0 s (omega arith), run)
                (ap (λ k. done (answered l p s, k)) (omega arith)),
        same,
      )

-- A node that has heard the scheduler's beacon, and has no new lines about its outputs, sends one report in
-- its next turn; the turn takes the request back and keeps the outputs that wait. Once the scheduler has
-- processed that report, its tables hold the size of those outputs and the job that the node reduces.
-- The rates have at most four digits.
pub note_broadcast-process_report :
    {L : Type 0} (z : ZList L) (laws : IsZList z) (fuel id : ℕ) (address : Text)
    (logs : ℕ → Option Text) (p : IntArray) (lines : List Text) (read : ℕ) (s : State L)
    (t : Tables)
    → id < nodes
    → (small : InInt (pos id)) → CanReport z laws fuel (pos id) small (logs 0) p s
    → length lines ≤ read
    → (s' : State L) × (report : Text) × (poll z fuel
          (pos id)
          logs
          (some lines)
          (note_broadcast (some address) s)
          read
        ≡ done (s', length lines))
      × (s'.fast_update ≡ false)
      × (laws.contents s'.pre_map_list ≡ laws.contents s.pre_map_list)
      × (s'.sent ≡ s.sent ++ report ∷ [])
      × (process_report report t
          ≡ done (reported id (add_sizes (laws.contents s.pre_map_list) (pos 0)) s.reduce p t))
unfolding note_broadcast
note_broadcast-process_report z laws fuel id address logs p lines read s t hi small can le =
    let (l, run, same) =
      poll-answered z laws fuel (pos id) small logs p lines read (note_broadcast (some address) s)
        (record {
          rates = can.rates;
          four_digits = can.four_digits;
          job = can.job;
          fits = can.fits;
        })
        le refl in
    (
      answered z laws fuel (pos id) l p (note_broadcast (some address) s),
      report_text (pos id) (add_sizes (laws.contents s.pre_map_list) (pos 0)) s.reduce p,
      run,
      refl,
      same,
      refl,
      process_report-report_text id (add_sizes (laws.contents s.pre_map_list) (pos 0)) s.reduce p t
          hi (add_sizes-InInt (laws.contents s.pre_map_list) (pos 0) (omega arith)) can.job
          can.four_digits,
    )
