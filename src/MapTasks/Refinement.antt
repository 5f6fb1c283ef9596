-- ===== src/MapTasks/Refinement.antt =====
-- The handling of a message about an output, on CZMQ's lists, does what `step` does on plain lists.
use rpi_hadoop.Prelude.{
  ℕ, ◌≡◌, refl, sym, ap, ◌∙◌, true, false, ◌&&◌, [], ◌∷◌, ◌++◌, arith, Option, ◌==◌, Text, done, ℤ,
  pos, negsuc, is_zero, eqb_ℤ, Bool-cases, inl, inr, InInt,
}
use rpi_hadoop.CArray.{IntArray}
use rpi_hadoop.MapTasks.{Mapper, ZList, State, map_waits, map_fetched, map_dropped, handle_map}
use rpi_hadoop.MapTasks.Lists.{IsZList, find, is_some, map_list_cmp-find}
use rpi_hadoop.MapTasks.Pending.{without, Outputs, is_nil, step}
use rpi_hadoop.MapTasks.Sending.{
  view, CanReport, Gives, is_nil-length, with_waiting, some_of_is_some, remove-without,
  dropped-Gives, kept-Gives,
}

eqb_ℤ-eq : (a b : ℤ) → eqb_ℤ a b ≡ true → a ≡ b
eqb_ℤ-eq (pos a) (pos b) h = ground arith
eqb_ℤ-eq (pos a) (negsuc b) h = absurd cc
eqb_ℤ-eq (negsuc a) (pos b) h = absurd cc
eqb_ℤ-eq (negsuc a) (negsuc b) h = ground arith

step_unknown :
    (n reduce : ℤ) (p : IntArray) (mess_type : ℤ) (map : Mapper) (v : Outputs)
    → eqb_ℤ mess_type (pos 1) ≡ false
    → eqb_ℤ mess_type (pos 0) ≡ false
    → eqb_ℤ mess_type (pos 2) ≡ false
    → step n reduce p mess_type map v ≡ v
unfolding step
step_unknown n reduce p mess_type map v a b c = rw (a, b, c) refl

module _ {L : Type 0} (z : ZList L) (laws : IsZList z) (fuel : ℕ) (n : ℤ) (small : InInt n)
    (log : Option Text) (p : IntArray) where
  map_waits-Gives :
      (map : Mapper) (s : State L)
      → CanReport z laws fuel n small log p s
      → Gives z laws fuel n small log p s
          (map_waits z fuel map s)
          (step n s.reduce p (pos 1) map (view z laws s))
  unfolding map_waits step
  map_waits-Gives map s can =
      let (l, run, same, found) = map_list_cmp-find z laws fuel map s.pre_map_list can.fits in
      elim (Bool-cases (is_some (find map.map_id (laws.contents s.pre_map_list)))) [
        | inl known ↦ (
          record s { pre_map_list = l },
          rw (run, known) refl,
          rw known (ap (with_waiting z laws fuel n small log p (view z laws s)) same),
          refl,
        )
        | inr new ↦ (
          record s { pre_map_list = (z.first (z.append l map)).1 },
          rw (run, new) refl,
          rw new (
              ap (with_waiting z laws fuel n small log p (view z laws s)) (
                laws.first_contents (z.append l map)
                ∙ laws.append_contents l map
                ∙ ap (λ w. w ++ map ∷ []) same)),
          refl,
        )
      ]

  map_fetched-Gives :
      (map : Mapper) (s : State L)
      → CanReport z laws fuel n small log p s
      → Gives z laws fuel n small log p s
          (map_fetched z fuel n log map s)
          (step n s.reduce p (pos 0) map (view z laws s))
  unfolding map_fetched step
  map_fetched-Gives map s can =
      let (l, run, same, found) = map_list_cmp-find z laws fuel map s.pre_map_list can.fits in
      elim (Bool-cases (is_some (find map.map_id (laws.contents s.pre_map_list)))) [
        | inl known ↦
            (let (m, e) = some_of_is_some z laws fuel n small log p _ known in
              let off =
                laws.first_contents (z.remove l m)
                ∙ remove-without z laws fuel n small log p l (laws.contents s.pre_map_list)
                    map.map_id m same e in
              let (s', run', seen, job) =
                dropped-Gives z laws fuel n small log p (is_zero s.reduce) map.map_id s
                  (z.first (z.remove l m)).1 can off in
              (
                record s' { post_map_list = z.append s'.post_map_list map },
                rw (run, known, found m e, run') refl,
                rw known (
                    kept-Gives z laws fuel n small log p (is_zero s.reduce) map.map_id map s s'
                      seen),
                job,
              ))
        | inr new ↦ (
          record s { pre_map_list = l },
          rw (run, new) refl,
          rw new (ap (with_waiting z laws fuel n small log p (view z laws s)) same),
          refl,
        )
      ]

  map_dropped-Gives :
      (map : Mapper) (s : State L)
      → CanReport z laws fuel n small log p s
      → Gives z laws fuel n small log p s
          (map_dropped z fuel n log map s)
          (step n s.reduce p (pos 2) map (view z laws s))
  unfolding map_dropped step
  map_dropped-Gives map s can =
      let (l, run, same, found) = map_list_cmp-find z laws fuel map s.pre_map_list can.fits in
      elim (Bool-cases (is_some (find map.map_id (laws.contents s.pre_map_list)))) [
        | inl known ↦
            (let (m, e) = some_of_is_some z laws fuel n small log p _ known in
              let off =
                remove-without z laws fuel n small log p l (laws.contents s.pre_map_list) map.map_id
                  m same e in
              let empty =
                ap (λ k. k == 0) (laws.size_contents (z.remove l m))
                ∙ is_nil-length (laws.contents (z.remove l m))
                ∙ ap is_nil off in
              let (s', run', seen, job) =
                dropped-Gives z laws fuel n small log p
                  (is_nil (without map.map_id (laws.contents s.pre_map_list)) && is_zero s.reduce)
                  map.map_id s (z.remove l m) can off in
              (s', rw (run, known, found m e, empty) run', rw known seen, job))
        | inr new ↦ (
          record s { pre_map_list = l },
          rw (run, new) refl,
          rw new (ap (with_waiting z laws fuel n small log p (view z laws s)) same),
          refl,
        )
      ]

  at_type :
      (map : Mapper) (s : State L) (known mess_type : ℤ)
      → eqb_ℤ mess_type known ≡ true
      → step n s.reduce p known map (view z laws s)
        ≡ step n s.reduce p mess_type map (view z laws s)
  at_type map s known mess_type e =
      ap (λ t. step n s.reduce p t map (view z laws s)) (sym (eqb_ℤ-eq mess_type known e))

  -- Handling a message about an output never faults, and does to the lists, the slot and the reports
  -- exactly what `step` does to plain lists: messages of type 1 add the output, of types 0 and 2 take it
  -- off, an unknown type does nothing, and a report is sent with the size of all that still waits. This
  -- holds for every list of the interface, if the rates in speed_log.txt have at most four digits.
  pub handle_map-step :
      (mess_type : ℤ) (map : Mapper) (s : State L)
      → CanReport z laws fuel n small log p s
      → (s' : State L) × (handle_map z fuel n log mess_type map s ≡ done s')
        × (view z laws s' ≡ step n s.reduce p mess_type map (view z laws s))
        × (s'.reduce ≡ s.reduce)
  unfolding handle_map
  handle_map-step mess_type map s can = elim (Bool-cases (eqb_ℤ mess_type (pos 1))) [
    | inl one ↦
        (let (s', run, seen, job) = map_waits-Gives map s can in
          (s', rw one run, seen ∙ at_type map s (pos 1) mess_type one, job))
    | inr not_one ↦ elim (Bool-cases (eqb_ℤ mess_type (pos 0))) [
      | inl zero_type ↦
          (let (s', run, seen, job) = map_fetched-Gives map s can in
            (
              s',
              rw (not_one, zero_type) run,
              seen ∙ at_type map s (pos 0) mess_type zero_type,
              job,
            ))
      | inr not_zero ↦ elim (Bool-cases (eqb_ℤ mess_type (pos 2))) [
        | inl two ↦
            (let (s', run, seen, job) = map_dropped-Gives map s can in
              (
                s',
                rw (not_one, not_zero, two) run,
                seen ∙ at_type map s (pos 2) mess_type two,
                job,
              ))
        | inr not_two ↦ (
          s,
          rw (not_one, not_zero, not_two) refl,
          sym (step_unknown n s.reduce p mess_type map (view z laws s) not_one not_zero not_two),
          refl,
        )
      ]
    ]
  ]
