-- ===== src/MapTasks/Instalments.antt =====
-- Reading the file in instalments, as it grows, is reading it at once.
use rpi_hadoop.Prelude.{
  ℕ, suc, ◌+◌, ◌≤◌, ◌≡◌, refl, sym, ap, ◌∙◌, Bool, true, false, List, [], ◌∷◌, ◌++◌, arith, Option,
  ltb, if◌then◌else◌, Text, length, All, fun_ext, done-injective, Run, done, fault, out_of_fuel,
  ◌>>=◌, ℤ, pos, eqb_ℤ, Bool-cases, inl, inr,
}
use rpi_hadoop.CText.{tokens, atoi}
use rpi_hadoop.MapTasks.{ZList, State, reduce_line, map_line, handle_line, lines_loop}

-- A line of type 4: the job is done, and the loop over the lines is left.
abbrev pub is_final : List Text → Bool
is_final [] = false
is_final (type ∷ rest) = eqb_ℤ (atoi type) (pos 4)

abbrev pub GoesOn : Text → Type 0
GoesOn line = is_final (tokens b'.' line) ≡ false

module _ {L : Type 0} (z : ZList L) (fuel : ℕ) (n : ℤ) where
  flag_of_bind {ℓ} :
      {A : Type ℓ} (m : Run A) (f : A → State L) (s : State L) (b : Bool)
      → ◌>>=◌ {W = State L × Bool} m (λ a. done (f a, false)) ≡ done (s, b)
      → b ≡ false
  flag_of_bind (done a) f s b e = cc
  flag_of_bind fault f s b e = absurd cc
  flag_of_bind out_of_fuel f s b e = absurd cc

  handle_line-goes_on :
      (log : Option Text) (ts : List Text) (s s' : State L) (b : Bool)
      → is_final ts ≡ false
      → handle_line z fuel n log ts s ≡ done (s', b)
      → b ≡ false
  unfolding handle_line
  handle_line-goes_on log [] s s' b h e = cc
  handle_line-goes_on log (type ∷ rest) s s' b h e = elim (Bool-cases (eqb_ℤ (atoi type) (pos 3))) [
    | inl reducer ↦
        flag_of_bind (reduce_line rest) (λ job. record s { reduce = job }) s' b (rw reducer at e)
    | inr other ↦
        flag_of_bind (map_line z fuel n log (atoi type) rest s) (λ s''. s'') s' b
          (rw (other, h) at e)
  ]

  -- What follows a line, whose run is `m`: the loop is left with the mark `k`, or goes on.
  abbrev after : Run (State L × Bool) → ℕ → (State L → Run (State L × ℕ)) → Run (State L × ℕ)
  after m k next = m >>= λ r. if r.1 then done (r.0, k) else next r.0

  after_append :
      (m : Run (State L × Bool)) (k : ℕ) (next next' : State L → Run (State L × ℕ)) (s1 : State L)
      (r1 : ℕ) (target : Run (State L × ℕ)) (mark : ℕ)
      → ((s' : State L) (b : Bool) → m ≡ done (s', b) → b ≡ false)
      → ((s' : State L) → next s' ≡ done (s1, r1) → (next' s' ≡ target) × (r1 ≡ mark))
      → after m k next ≡ done (s1, r1)
      → (after m k next' ≡ target) × (r1 ≡ mark)
  after_append (done (s', true)) k next next' s1 r1 target mark flag ih e =
      absurd (cc (flag s' true refl))
  after_append (done (s', false)) k next next' s1 r1 target mark flag ih e = ih s' e
  after_append fault k next next' s1 r1 target mark flag ih e = absurd cc
  after_append out_of_fuel k next next' s1 r1 target mark flag ih e = absurd cc

  module _ (logs : ℕ → Option Text) where
    abbrev line : ℕ → Text → ℕ → State L → Run (State L × Bool)
    line read x i s =
        if ltb read (i + 1)
        then handle_line z fuel n (logs (i + 1)) (tokens b'.' x) s
        else done (s, false)

    line-GoesOn :
        (read : ℕ) (x : Text) (i : ℕ) (s s' : State L) (b : Bool)
        → GoesOn x
        → line read x i s ≡ done (s', b)
        → b ≡ false
    line-GoesOn read x i s s' b on e = elim (Bool-cases (ltb read (i + 1))) [
      | inl new ↦ handle_line-goes_on (logs (i + 1)) (tokens b'.' x) s s' b on (rw new at e)
      | inr old ↦ cc (rw old at e)
    ]

    abbrev loop : ℕ → List Text → ℕ → State L → Run (State L × ℕ)
    loop = lines_loop z fuel n logs

    -- Lines up to the mark are passed over.
    lines_skip :
        (xs ys : List Text) (read i : ℕ) (s : State L)
        → i + length xs ≤ read
        → loop read (xs ++ ys) i s ≡ loop read ys (i + length xs) s
    unfolding lines_loop
    lines_skip [] ys read i s le = ap (λ k. loop read ys k s) (omega arith)
    lines_skip (x ∷ xs) ys read i s le =
        rw (passed read i (omega arith))
          (lines_skip xs ys read (i + 1) s (omega arith) ∙ ap (λ k. loop read ys k s) (omega arith))
      where
        passed : (read i : ℕ) → i + 1 ≤ read → ltb read (i + 1) ≡ false
        passed read i h = ground arith

    -- Behind both marks it does not matter which one holds.
    lines_mark :
        (ys : List Text) (read read' i : ℕ) (s : State L)
        → read ≤ i
        → read' ≤ i
        → loop read ys i s ≡ loop read' ys i s
    unfolding lines_loop
    lines_mark [] read read' i s le le' = refl
    lines_mark (y ∷ ys) read read' i s le le' =
        rw (counted read i le, counted read' i le')
          (ap (λ next. after (handle_line z fuel n (logs (i + 1)) (tokens b'.' y) s) (i + 1) next)
            (fun_ext (λ s'. lines_mark ys read read' (i + 1) s' (omega arith) (omega arith))))
      where
        counted : (read i : ℕ) → read ≤ i → ltb read (i + 1) ≡ true
        counted read i h = ground arith

    lines_append :
        (xs ys : List Text) (read i : ℕ) (s s1 : State L) (r1 : ℕ)
        → All GoesOn xs
        → loop read xs i s ≡ done (s1, r1)
        → (loop read (xs ++ ys) i s ≡ loop read ys (i + length xs) s1) × (r1 ≡ i + length xs)
    unfolding lines_loop
    lines_append [] ys read i s s1 r1 h e =
        let same = done-injective (s, i) (s1, r1) e in
        let mark : i ≡ r1 = ap (λ r. r.1) same in
        (
          ap (λ r. loop read ys r.1 r.0) same ∙ ap (λ k. loop read ys k s1) (omega (arith, mark)),
          omega (arith, mark),
        )
    lines_append (x ∷ xs) ys read i s s1 r1 (on, h) e =
        after_append (line read x i s) (i + 1) (loop read xs (i + 1)) (loop read (xs ++ ys) (i + 1))
          s1 r1 (loop read ys (i + suc (length xs)) s1) (i + suc (length xs))
          (λ s' b. line-GoesOn read x i s s' b on)
          (λ s' e'.
            let (run, mark) = lines_append xs ys read (i + 1) s' s1 r1 h e' in
            (run ∙ ap (λ k. loop read ys k s1) (omega arith), omega (arith, mark)))
          e

    -- A file is read in instalments as it is read at once: if the lines `xs` were there when the task looked
    -- first, and `xs ++ ys` when it looks again, then the second look, from the mark that the first one
    -- left, ends as one look at `xs ++ ys` from the first mark would have. None of the lines `xs` ends the
    -- job, and the file had not been shortened before.
    pub lines_loop_twice :
        (xs ys : List Text) (read : ℕ) (s s1 : State L) (r1 : ℕ)
        → All GoesOn xs
        → read ≤ length xs
        → loop read xs 0 s ≡ done (s1, r1)
        → loop r1 (xs ++ ys) 0 s1 ≡ loop read (xs ++ ys) 0 s
    lines_loop_twice xs ys read s s1 r1 h le e =
        let (run, mark) = lines_append xs ys read 0 s s1 r1 h e in
        lines_skip xs ys r1 0 s1 (omega (arith, mark))
        ∙ lines_mark ys r1 read (0 + length xs) s1 (omega (arith, mark)) (omega (arith, le))
        ∙ sym run
