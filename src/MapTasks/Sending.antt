-- ===== src/MapTasks/Sending.antt =====
-- Reports, and taking an output off: the steps that the messages share.
use rpi_hadoop.Prelude.{
  add_int-InInt, ℕ, ◌≤◌, ◌<◌, ◌≡◌, refl, sym, ap, ◌∙◌, Bool, true, false, List, [], ◌∷◌, ◌++◌,
  arith, Option, none, some, ◌==◌, if◌then◌else◌, Text, length, All, Run, done, ℤ, pos, InInt,
}
use rpi_hadoop.CArray.{IntArray}
use rpi_hadoop.CText.{atoi}
use rpi_hadoop.LinkQuality.{get_link_quality}
use rpi_hadoop.Report.Buffers.{IsSpeed, row, report_text, compose_report-done}
use rpi_hadoop.MapTasks.{Mapper, ZList, State, send_report, report_change}
use rpi_hadoop.MapTasks.Lists.{IsZList, find, is_some, add_sizes, get_data_size-add_sizes}
use rpi_hadoop.MapTasks.Pending.{without, Outputs, is_nil, announce, drop_output, when, find-split}

pub add_sizes-InInt : (xs : List Mapper) (size : ℤ) → InInt size → InInt (add_sizes xs size)
unfolding add_sizes
add_sizes-InInt [] size h = h
add_sizes-InInt (x ∷ xs) size h = add_sizes-InInt xs _ (add_int-InInt size (atoi x.output_size))

length-without-le : (id : Text) (xs : List Mapper) → length (without id xs) ≤ length xs
unfolding without
length-without-le id [] = omega arith
length-without-le id (x ∷ xs) = ground (arith, length-without-le id xs)

pub is_nil-length : (xs : List Mapper) → (length xs == 0) ≡ is_nil xs
is_nil-length [] = refl
is_nil-length (x ∷ xs) = ground arith

module _ {L : Type 0} (z : ZList L) (laws : IsZList z) where
  -- The state as plain lists.
  abbrev pub view : State L → Outputs
  view s = record {
    waiting = laws.contents s.pre_map_list;
    fetched = laws.contents s.post_map_list;
    slot = s.slot;
    sent = s.sent;
  }

module _ {L : Type 0} (z : ZList L) (laws : IsZList z) (fuel : ℕ) (n : ℤ) (small : InInt n)
    (log : Option Text) (p : IntArray) where
  -- What sending a report needs: rates that can be read, of at most four digits, and a job's number.
  pub record CanReport (s : State L) : Type 0 where
    pub rates : get_link_quality log s.speed ≡ done p
    pub four_digits : All IsSpeed (row 9 0 p)
    pub job : InInt s.reduce
    pub fits : length (laws.contents s.pre_map_list) < fuel

  pub send_report-done :
      (s : State L)
      → CanReport s
      → (l : L) × (send_report z fuel n log s
          ≡ done (record s {
            pre_map_list = l;
            speed = p;
            sent =
                s.sent
                ++ report_text n (add_sizes (laws.contents s.pre_map_list) (pos 0)) s.reduce p ∷ [];
          }))
        × (laws.contents l ≡ laws.contents s.pre_map_list)
  unfolding send_report
  send_report-done s can =
      let (l, run, same) = get_data_size-add_sizes z laws fuel s.pre_map_list can.fits in
      (
        l,
        rw
            (
              can.rates,
              run,
              compose_report-done n (add_sizes (laws.contents s.pre_map_list) (pos 0)) s.reduce p
                  small (add_sizes-InInt (laws.contents s.pre_map_list) (pos 0) (omega arith))
                  can.job can.four_digits,
            )
            refl,
        same,
      )

  -- What handling a message leaves: the view that is expected, and the job.
  abbrev pub Gives : State L → Run (State L) → Outputs → Type 0
  Gives s run v = (s' : State L) × (run ≡ done s') × (view z laws s' ≡ v) × (s'.reduce ≡ s.reduce)

  abbrev pub with_waiting : Outputs → List Mapper → Outputs
  with_waiting v w = record v { waiting = w }

  abbrev with_fetched : List Mapper → Outputs → Outputs
  with_fetched w v = record v { fetched = w }

  report_change-Gives :
      (s : State L)
      → CanReport s
      → Gives s (report_change z fuel n log s) (announce n s.reduce p (view z laws s))
  unfolding report_change
  report_change-Gives s can =
      let (l, run, same) =
        send_report-done (record s { slot = pos 0 })
          (record {
            rates = can.rates;
            four_digits = can.four_digits;
            job = can.job;
            fits = can.fits;
          }) in
      (
        record s {
          pre_map_list = l;
          slot = pos 0;
          speed = p;
          sent =
              s.sent
              ++ report_text n (add_sizes (laws.contents s.pre_map_list) (pos 0)) s.reduce p ∷ [];
        },
        run,
        ap (with_waiting (announce n s.reduce p (view z laws s))) same,
        refl,
      )

  pub some_of_is_some : (o : Option Mapper) → is_some o ≡ true → (m : Mapper) × (o ≡ some m)
  some_of_is_some none h = absurd cc
  some_of_is_some (some m) h = (m, refl)

  -- Taking off the item that the walk has found takes off the first of the ID.
  pub remove-without :
      (l : L) (xs : List Mapper) (id : Text) (m : Mapper)
      → laws.contents l ≡ xs
      → find id xs ≡ some m
      → laws.contents (z.remove l m) ≡ without id xs
  remove-without l xs id m same e =
      let (before, after, split, others, rest) = find-split id xs m e in
      laws.remove_contents l before m after (same ∙ split) others ∙ sym rest

  -- What is left to do in `case 0` and `case 2` when the item has been taken off.
  report_if-Gives :
      (b : Bool) (s : State L)
      → CanReport s
      → Gives s
          (if b then report_change z fuel n log s else done s)
          (when b (announce n s.reduce p) (view z laws s))
  report_if-Gives true s can = report_change-Gives s can
  report_if-Gives false s can = (s, refl, refl, refl)

  taken_off :
      (id : Text) (s : State L) (l : L)
      → CanReport s
      → laws.contents l ≡ without id (laws.contents s.pre_map_list)
      → CanReport (record s { pre_map_list = l })
  taken_off id s l can e = record {
    rates = can.rates;
    four_digits = can.four_digits;
    job = can.job;
    fits = rw e (omega (arith, length-without-le id (laws.contents s.pre_map_list), can.fits));
  }

  when-fetched :
      (b : Bool) (reduce : ℤ) (v : Outputs) → (when b (announce n reduce p) v).fetched ≡ v.fetched
  when-fetched true reduce v = refl
  when-fetched false reduce v = refl

  -- The same, in terms of the view before the item was taken off.
  pub dropped-Gives :
      (b : Bool) (id : Text) (s : State L) (l : L)
      → CanReport s
      → laws.contents l ≡ without id (laws.contents s.pre_map_list)
      → Gives s
          (if b
            then report_change z fuel n log (record s { pre_map_list = l })
            else done (record s { pre_map_list = l }))
          (when b (announce n s.reduce p) (drop_output id (view z laws s)))
  dropped-Gives b id s l can off =
      let (s', run, seen, job) =
        report_if-Gives b (record s { pre_map_list = l }) (taken_off id s l can off) in
      (
        s',
        run,
        seen ∙ ap (λ w. when b (announce n s.reduce p) (with_waiting (view z laws s) w)) off,
        job,
      )

  -- Keeping the fetched output, behind that.
  pub kept-Gives :
      (b : Bool) (id : Text) (map : Mapper) (s s' : State L)
      → view z laws s' ≡ when b (announce n s.reduce p) (drop_output id (view z laws s))
      → view z laws (record s' { post_map_list = z.append s'.post_map_list map })
        ≡ with_fetched
            (laws.contents s.post_map_list ++ map ∷ [])
            (when b (announce n s.reduce p) (drop_output id (view z laws s)))
  kept-Gives b id map s s' seen =
      ap (λ w. with_fetched w (view z laws s'))
        (laws.append_contents s'.post_map_list map
          ∙ ap (λ w. w ++ map ∷ [])
              (ap (λ v. v.fetched) seen ∙ when-fetched b s.reduce (drop_output id (view z laws s))))
      ∙ ap (with_fetched (laws.contents s.post_map_list ++ map ∷ [])) seen
