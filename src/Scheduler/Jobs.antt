-- ===== src/Scheduler/Jobs.antt =====
-- What the file of the job progress says: the job that is the furthest; and `max_array`.
use rpi_hadoop.Prelude.{
  ℕ, zero, suc, ◌+◌, ◌-◌, ◌≤◌, ◌<◌, ◌≡◌, refl, ◌⊎◌, inl, inr, true, false, arith, ◌∙◌, List, [],
  ◌∷◌, Text, All, ltb_ℤ, Bool-cases, ℤ, pos, negsuc, some,
}
use native.Mathlib.Decide.{ℕ_discrete}
use rpi_hadoop.CText.{tokens, atoi}
use rpi_hadoop.CArray.{IntArray}
use rpi_hadoop.Scheduler.{
  Progress, no_progress, progress_value, progress_line, progress_loop, read_progress, max_loop,
  max_array,
}

-- A line of two fields at least states that job `j` has the progress `v`.
abbrev pub States : ℤ → ℤ → List Text → Type 0
States j v [] = ⊥
States j v (job ∷ []) = ⊥
States j v (job ∷ value ∷ rest) = (atoi job ≡ j) × (atoi value ≡ v)

-- What a line states is not above `m`.
abbrev pub AtMost : ℤ → List Text → Type 0
AtMost m [] = Unit
AtMost m (job ∷ []) = Unit
AtMost m (job ∷ value ∷ rest) = ltb_ℤ m (atoi value) ≡ false

abbrev pub SomeLine : ℤ → ℤ → List Text → Type 0
SomeLine j v [] = ⊥
SomeLine j v (line ∷ lines) = States j v (tokens b':' line) ⊎ SomeLine j v lines

abbrev pub AllLines : ℤ → List Text → Type 0
AllLines m = All (λ line. AtMost m (tokens b':' line))

ltb_ℤ_le : (a b c : ℤ) → ltb_ℤ b a ≡ false → ltb_ℤ c b ≡ false → ltb_ℤ c a ≡ false
ltb_ℤ_le (pos a) (pos b) (pos c) h k = ground arith
ltb_ℤ_le (pos a) (pos b) (negsuc c) h k = ground arith
ltb_ℤ_le (pos a) (negsuc b) (pos c) h k = ground arith
ltb_ℤ_le (pos a) (negsuc b) (negsuc c) h k = ground arith
ltb_ℤ_le (negsuc a) (pos b) (pos c) h k = ground arith
ltb_ℤ_le (negsuc a) (pos b) (negsuc c) h k = ground arith
ltb_ℤ_le (negsuc a) (negsuc b) (pos c) h k = ground arith
ltb_ℤ_le (negsuc a) (negsuc b) (negsuc c) h k = ground arith

ltb_ℤ_lt_le : (a b c : ℤ) → ltb_ℤ a b ≡ true → ltb_ℤ c b ≡ false → ltb_ℤ a c ≡ true
ltb_ℤ_lt_le (pos a) (pos b) (pos c) h k = ground arith
ltb_ℤ_lt_le (pos a) (pos b) (negsuc c) h k = ground arith
ltb_ℤ_lt_le (pos a) (negsuc b) (pos c) h k = ground arith
ltb_ℤ_lt_le (pos a) (negsuc b) (negsuc c) h k = ground arith
ltb_ℤ_lt_le (negsuc a) (pos b) (pos c) h k = ground arith
ltb_ℤ_lt_le (negsuc a) (pos b) (negsuc c) h k = ground arith
ltb_ℤ_lt_le (negsuc a) (negsuc b) (pos c) h k = ground arith
ltb_ℤ_lt_le (negsuc a) (negsuc b) (negsuc c) h k = ground arith

ltb_ℤ_irrefl : (a : ℤ) → ltb_ℤ a a ≡ false
ltb_ℤ_irrefl (pos a) = ground arith
ltb_ℤ_irrefl (negsuc a) = ground arith

ltb_ℤ_asym : (a b : ℤ) → ltb_ℤ a b ≡ true → ltb_ℤ b a ≡ false
ltb_ℤ_asym (pos a) (pos b) h = ground arith
ltb_ℤ_asym (pos a) (negsuc b) h = ground arith
ltb_ℤ_asym (negsuc a) (pos b) h = ground arith
ltb_ℤ_asym (negsuc a) (negsuc b) h = ground arith

-- One line: the maximum does not fall, bounds what the line states, and is the old one or the line's.
record LineStep (s s' : Progress) (line : List Text) : Type 0 where
  grows : ltb_ℤ s'.max_progress s.max_progress ≡ false
  bounds : AtMost s'.max_progress line
  from :
      ((s'.max_progress ≡ s.max_progress) × (s'.pri_job ≡ s.pri_job))
      ⊎ (States s'.pri_job s'.max_progress line × (ltb_ℤ s.max_progress s'.max_progress ≡ true))

line_step : (line : List Text) (s : Progress) → LineStep s (progress_line line s) line
unfolding progress_line progress_value
line_step [] s = record {
  grows = ltb_ℤ_irrefl s.max_progress;
  bounds = tt;
  from = inl (refl, refl);
}
line_step (job ∷ []) s = record {
  grows = ltb_ℤ_irrefl s.max_progress;
  bounds = tt;
  from = inl (refl, refl);
}
line_step (job ∷ value ∷ rest) s = elim (Bool-cases (ltb_ℤ s.max_progress (atoi value))) [
  | inl larger ↦ rw larger (record {
    grows = ltb_ℤ_asym s.max_progress (atoi value) larger;
    bounds = ltb_ℤ_irrefl (atoi value);
    from = inr ((refl, refl), larger);
  })
  | inr not_larger ↦
      rw not_larger (record {
        grows = ltb_ℤ_irrefl s.max_progress;
        bounds = not_larger;
        from = inl (refl, refl);
      })
]

AtMost-le : (m m' : ℤ) (line : List Text) → ltb_ℤ m' m ≡ false → AtMost m line → AtMost m' line
AtMost-le m m' [] h b = tt
AtMost-le m m' (job ∷ []) h b = tt
AtMost-le m m' (job ∷ value ∷ rest) h b = ltb_ℤ_le (atoi value) m m' b h

-- What the loop has found, from `s` on.
pub record Best (lines : List Text) (s s' : Progress) : Type 0 where
  pub grows : ltb_ℤ s'.max_progress s.max_progress ≡ false
  pub bounds : AllLines s'.max_progress lines
  pub from :
      ((s'.max_progress ≡ s.max_progress) × (s'.pri_job ≡ s.pri_job))
      ⊎ (SomeLine s'.pri_job s'.max_progress lines × (ltb_ℤ s.max_progress s'.max_progress ≡ true))

combine :
    {s s' s'' : Progress} {line : Text} {lines : List Text}
    → LineStep s s' (tokens b':' line)
    → Best lines s' s''
    → Best (line ∷ lines) s s''
combine {s} {s'} {s''} {line} {lines} one more = record {
  grows = ltb_ℤ_le s.max_progress s'.max_progress s''.max_progress one.grows more.grows;
  bounds = (
    AtMost-le s'.max_progress s''.max_progress (tokens b':' line) more.grows one.bounds,
    more.bounds,
  );
  from = origin one.from more.from;
}
  where
    origin :
        ((s'.max_progress ≡ s.max_progress) × (s'.pri_job ≡ s.pri_job))
          ⊎ (States s'.pri_job s'.max_progress (tokens b':' line)
              × (ltb_ℤ s.max_progress s'.max_progress ≡ true))
        → ((s''.max_progress ≡ s'.max_progress) × (s''.pri_job ≡ s'.pri_job))
          ⊎ (SomeLine s''.pri_job s''.max_progress lines
              × (ltb_ℤ s'.max_progress s''.max_progress ≡ true))
        → ((s''.max_progress ≡ s.max_progress) × (s''.pri_job ≡ s.pri_job))
          ⊎ (SomeLine s''.pri_job s''.max_progress (line ∷ lines)
              × (ltb_ℤ s.max_progress s''.max_progress ≡ true))
    origin (inl (m, j)) (inl (m', j')) = inl (m' ∙ m, j' ∙ j)
    origin (inl (m, j)) (inr (found, lt)) = inr (inr found, rw m at lt)
    origin (inr (states, lt)) (inl (m', j')) = inr (inl (rw (m', j') states), rw m' lt)
    origin (inr (states, lt)) (inr (found, lt')) =
        inr (inr found, ltb_ℤ_lt_le s.max_progress s'.max_progress s''.max_progress lt more.grows)

progress_loop-Best : (lines : List Text) (s : Progress) → Best lines s (progress_loop lines s)
unfolding progress_loop
progress_loop-Best [] s = record {
  grows = ltb_ℤ_irrefl s.max_progress;
  bounds = tt;
  from = inl (refl, refl);
}
progress_loop-Best (line ∷ lines) s =
    combine (line_step (tokens b':' line) s) (progress_loop-Best lines _)

-- The progress that is read bounds what every line states, and is that of a line, with this line's job; if
-- no line states a positive progress, both are 0.
pub read_progress-Best : (lines : List Text) → Best lines no_progress (read_progress (some lines))
unfolding read_progress
read_progress-Best lines = progress_loop-Best lines no_progress

-- `max_loop` keeps the largest element so far, and its index.
max_loop_largest :
    (rounds i best : ℕ) (a : IntArray)
    → best < i
    → ((j : ℕ) → j < i → ltb_ℤ (a best) (a j) ≡ false)
    → (max_loop rounds i a (a best) best < i + rounds)
      × ((j : ℕ) → j < i + rounds → ltb_ℤ (a (max_loop rounds i a (a best) best)) (a j) ≡ false)
unfolding max_loop
max_loop_largest zero i best a lt h = (omega arith, λ j b. h j (omega arith))
max_loop_largest (suc n) i best a lt h = elim (Bool-cases (ltb_ℤ (a best) (a i))) [
  | inl larger ↦ rw larger (
      let (b, all) = max_loop_largest n (i + 1) i a (omega arith) (λ j b. elim (ℕ_discrete j i) [
        | yes same ↦ rw same (ltb_ℤ_irrefl (a i))
        | no other ↦
            ltb_ℤ_le (a j) (a best) (a i) (h j (omega arith)) (ltb_ℤ_asym (a best) (a i) larger)
      ]) in
      (omega (arith, b), λ j c. all j (omega arith)))
  | inr not_larger ↦ rw not_larger (
      let (b, all) = max_loop_largest n (i + 1) best a (omega arith) (λ j b. elim (ℕ_discrete j i) [
        | yes same ↦ rw same not_larger
        | no other ↦ h j (omega arith)
      ]) in
      (omega (arith, b), λ j c. all j (omega arith)))
]

-- `max_array` returns the index of a largest element.
pub max_array_largest :
    (a : IntArray) (size : ℕ)
    → 1 ≤ size
    → (max_array a size < size) × ((j : ℕ) → j < size → ltb_ℤ (a (max_array a size)) (a j) ≡ false)
unfolding max_array
max_array_largest a size h =
    let (b, all) =
      max_loop_largest (size - 1) 1 0 a (omega arith)
        (λ j lt. let e : j ≡ 0 = omega arith in rw e (ltb_ℤ_irrefl (a 0))) in
    (omega (arith, b), λ j lt. all j (omega arith))
