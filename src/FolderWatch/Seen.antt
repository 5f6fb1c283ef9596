-- ===== src/FolderWatch/Seen.antt =====
-- `reduce` is set if and only if a file of a reducer was seen.
use rpi_hadoop.Prelude.{
  ◌≡◌, refl, sym, ap, ◌∙◌, ◌⊎◌, ◌↔◌, inl, inr, Bool, true, false, ◌||◌, Bool-cases, List, [], ◌∷◌,
  ◌++◌, Option, none, some, Text, ℤ, pos, arith,
}
use rpi_hadoop.FolderWatch.{starts_with, strstr, reducer_mark, patch_loop, watch_loop}

-- The text contains the other.
abbrev pub Contains : Text → Text → Type 0
Contains s pattern = (before : Text) × (behind : Text) × (s ≡ before ++ (pattern ++ behind))

starts_with-append : (pattern s : Text) → starts_with pattern (pattern ++ s) ≡ true
unfolding starts_with
starts_with-append [] s = refl
starts_with-append (c ∷ pattern) s = ground (arith, starts_with-append pattern s)

starts_with-split :
    (pattern s : Text) → starts_with pattern s ≡ true → (behind : Text) × (s ≡ pattern ++ behind)
unfolding starts_with
starts_with-split [] s h = (s, refl)
starts_with-split (c ∷ pattern) [] h = absurd cc
starts_with-split (c ∷ pattern) (d ∷ s) h =
    let (behind, e) = starts_with-split pattern s (ground (arith)) in (behind, ground (arith, e))

or_right : (a : Bool) → (a || true) ≡ true
or_right true = refl
or_right false = refl

strstr-Contains : (s pattern : Text) → strstr s pattern ≡ true → Contains s pattern
unfolding strstr
strstr-Contains [] pattern h = let (behind, e) = starts_with-split pattern [] h in ([], behind, e)
strstr-Contains (c ∷ s) pattern h = elim (Bool-cases (starts_with pattern (c ∷ s))) [
  | inl found ↦ let (behind, e) = starts_with-split pattern (c ∷ s) found in ([], behind, e)
  | inr later ↦
      let (before, behind, e) = strstr-Contains s pattern (rw later at h) in
      (c ∷ before, behind, ap (λ (t : Text). c ∷ t) e)
]

strstr-first : (s pattern : Text) → starts_with pattern s ≡ true → strstr s pattern ≡ true
unfolding strstr
strstr-first [] pattern h = h
strstr-first (c ∷ s) pattern h = rw h refl

strstr-append :
    (before pattern behind : Text) → strstr (before ++ (pattern ++ behind)) pattern ≡ true
unfolding strstr
strstr-append [] pattern behind =
    strstr-first (pattern ++ behind) pattern (starts_with-append pattern behind)
strstr-append (c ∷ before) pattern behind = rw (strstr-append before pattern behind) (or_right _)

Contains-strstr : (s pattern : Text) → Contains s pattern → strstr s pattern ≡ true
Contains-strstr s pattern (before, behind, e) = rw e (strstr-append before pattern behind)

-- The name of a reducer's file is among the names.
abbrev pub HasMark : List Text → Type 0
HasMark [] = ⊥
HasMark (name ∷ names) = Contains name reducer_mark ⊎ HasMark names

-- It came before the program ended.
abbrev pub Seen : List (Option (List Text)) → Type 0
Seen [] = ⊥
Seen (none ∷ later) = ⊥
Seen (some names ∷ later) = HasMark names ⊎ Seen later

patch_loop_one : (names : List Text) → patch_loop names (pos 1) ≡ pos 1
unfolding patch_loop
patch_loop_one [] = refl
patch_loop_one (name ∷ names) = elim (Bool-cases (strstr name reducer_mark)) [
  | inl marked ↦ rw marked (patch_loop_one names)
  | inr plain ↦ rw plain (patch_loop_one names)
]

patch_loop-cases :
    (names : List Text) (reduce : ℤ)
    → (HasMark names × (patch_loop names reduce ≡ pos 1))
      ⊎ ((¬ HasMark names) × (patch_loop names reduce ≡ reduce))
unfolding patch_loop
patch_loop-cases [] reduce = inr (λ h. h, refl)
patch_loop-cases (name ∷ names) reduce = elim (Bool-cases (strstr name reducer_mark)) [
  | inl marked ↦
      inl (inl (strstr-Contains name reducer_mark marked), rw marked (patch_loop_one names))
  | inr plain ↦ elim (patch_loop-cases names reduce) [
    | inl (h, e) ↦ inl (inr h, rw plain e)
    | inr (h, e) ↦ inr (none_of name names plain h, rw plain e)
  ]
]
  where
    none_of :
        (name : Text) (names : List Text)
        → strstr name reducer_mark ≡ false
        → ¬ HasMark names
        → ¬ HasMark (name ∷ names)
    none_of name names plain h (inl c) = absurd (cc (plain, Contains-strstr name reducer_mark c))
    none_of name names plain h (inr m) = h m

watch_some :
    (names : List Text) (later : List (Option (List Text))) (reduce : ℤ)
    → watch_loop (some names ∷ later) reduce ≡ watch_loop later (patch_loop names reduce)
unfolding watch_loop
watch_some names later reduce = refl

watch_loop_one : (l : List (Option (List Text))) → (watch_loop l (pos 1)).0 ≡ pos 1
unfolding watch_loop
watch_loop_one [] = refl
watch_loop_one (none ∷ later) = refl
watch_loop_one (some names ∷ later) =
    ap (λ (r : ℤ × Bool). r.0)
      (watch_some names later (pos 1) ∙ ap (watch_loop later) (patch_loop_one names))
    ∙ watch_loop_one later

-- From 0, `reduce` becomes 1 if and only if, before `zsock_recv` fails, the name of a file that was
-- reported contains `_r_0000`.
pub watch_loop-Seen : (l : List (Option (List Text))) → ((watch_loop l (pos 0)).0 ≡ pos 1) ↔ Seen l
unfolding watch_loop
watch_loop-Seen [] = (λ e. absurd (ground arith), λ h. absurd h)
watch_loop-Seen (none ∷ later) = (λ e. absurd (ground arith), λ h. absurd h)
watch_loop-Seen (some names ∷ later) = elim (patch_loop-cases names (pos 0)) [
  | inl (h, e) ↦ (λ u. inl h, λ u. step e ∙ watch_loop_one later)
  | inr (h, e) ↦ (
    λ u. inr ((watch_loop-Seen later).0 (sym (step e) ∙ u)),
    λ u. step e ∙ (watch_loop-Seen later).1 (elim u [ inl m ↦ absurd (h m) | inr m ↦ m ]),
  )
]
  where
    step :
        {r : ℤ}
        → patch_loop names (pos 0) ≡ r
        → (watch_loop (some names ∷ later) (pos 0)).0 ≡ (watch_loop later r).0
    step e = ap (λ (r : ℤ × Bool). r.0) (watch_some names later (pos 0) ∙ ap (watch_loop later) e)
