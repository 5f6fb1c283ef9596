-- ===== src/MapTasks/Pending.antt =====
-- The outputs of a node as plain lists: what each message does to them.
use rpi_hadoop.Prelude.{
  ◌≡◌, ◌≢◌, refl, sym, ap, ◌∙◌, Bool, true, false, ◌&&◌, List, [], ◌∷◌, ◌++◌, arith, Option, none,
  some, if◌then◌else◌, Text, All, ℤ, pos, is_zero, eqb_ℤ, Bool-cases, inl, inr,
}
use rpi_hadoop.CArray.{IntArray}
use rpi_hadoop.Report.Buffers.{report_text}
use rpi_hadoop.MapTasks.{Mapper, eqb_text}
use rpi_hadoop.MapTasks.Lists.{find, is_some, add_sizes}

-- The list without the first item of an ID.
unfoldable pub without : Text → List Mapper → List Mapper
without id [] = []
without id (x ∷ xs) = if eqb_text x.map_id id then xs else x ∷ without id xs

-- The outputs that wait, those that were fetched, the slot, and the reports sent.
pub record Outputs : Type 0 where
  pub waiting : List Mapper
  pub fetched : List Mapper
  pub slot : ℤ
  pub sent : List Text

abbrev pub is_nil : List Mapper → Bool
is_nil [] = true
is_nil (x ∷ xs) = false

-- The slot ends, and the size of what still waits is reported, with the rates `p`, by node `n` that
-- reduces job `reduce`.
abbrev pub announce : ℤ → ℤ → IntArray → Outputs → Outputs
announce n reduce p v = record v {
  slot = pos 0;
  sent = v.sent ++ report_text n (add_sizes v.waiting (pos 0)) reduce p ∷ [];
}

-- The outputs of the ID `id` no longer wait.
abbrev pub drop_output : Text → Outputs → Outputs
drop_output id v = record v { waiting = without id v.waiting }

abbrev pub when : Bool → (Outputs → Outputs) → Outputs → Outputs
when true f v = f v
when false f v = v

-- What a message of type `mess_type` about `map` does.
unfoldable pub step : ℤ → ℤ → IntArray → ℤ → Mapper → Outputs → Outputs
step n reduce p mess_type map v =
    let known = is_some (find map.map_id v.waiting) in
    let v' = drop_output map.map_id v in
    if eqb_ℤ mess_type (pos 1)
    then (if known then v else record v { waiting = v.waiting ++ map ∷ [] })
    else if eqb_ℤ mess_type (pos 0)
    then (if known
        then record (when (is_zero reduce) (announce n reduce p) v') {
          fetched = v.fetched ++ map ∷ [];
        }
        else v)
    else if eqb_ℤ mess_type (pos 2)
    then (if known then when (is_nil v'.waiting && is_zero reduce) (announce n reduce p) v' else v)
    else v

-- No two items have the same ID.
abbrev pub Distinct : List Mapper → Type 0
Distinct [] = Unit
Distinct (x ∷ xs) = (find x.map_id xs ≡ none) × Distinct xs

pub eqb_text_refl : (s : Text) → eqb_text s s ≡ true
unfolding eqb_text
eqb_text_refl [] = refl
eqb_text_refl (c ∷ s) = ground (arith, eqb_text_refl s)

pub eqb_text-eq : (s t : Text) → eqb_text s t ≡ true → s ≡ t
unfolding eqb_text
eqb_text-eq [] [] h = refl
eqb_text-eq [] (d ∷ t) h = absurd cc
eqb_text-eq (c ∷ s) [] h = absurd cc
eqb_text-eq (c ∷ s) (d ∷ t) h = ground (arith, eqb_text-eq s t)

eqb_text_comm : (s t : Text) → eqb_text s t ≡ eqb_text t s
unfolding eqb_text
eqb_text_comm [] [] = refl
eqb_text_comm [] (d ∷ t) = refl
eqb_text_comm (c ∷ s) [] = refl
eqb_text_comm (c ∷ s) (d ∷ t) = ground (arith, eqb_text_comm s t)

find_here :
    (id : Text) (x : Mapper) (xs : List Mapper)
    → eqb_text x.map_id id ≡ true
    → find id (x ∷ xs) ≡ some x
unfolding find
find_here id x xs e = rw e refl

find_later :
    (id : Text) (x : Mapper) (xs : List Mapper)
    → eqb_text x.map_id id ≡ false
    → find id (x ∷ xs) ≡ find id xs
unfolding find
find_later id x xs e = rw e refl

find_nowhere :
    (id : Text) (x : Mapper) (xs : List Mapper)
    → find id (x ∷ xs) ≡ none
    → (eqb_text x.map_id id ≡ false) × (find id xs ≡ none)
find_nowhere id x xs e = elim (Bool-cases (eqb_text x.map_id id)) [
  | inl same ↦ absurd (cc (find_here id x xs same))
  | inr other ↦ (other, sym (find_later id x xs other) ∙ e)
]

find_id :
    (id : Text) (xs : List Mapper) (m : Mapper) → find id xs ≡ some m → eqb_text m.map_id id ≡ true
unfolding find
find_id id [] m e = absurd cc
find_id id (x ∷ xs) m e = elim (Bool-cases (eqb_text x.map_id id)) [
  | inl same ↦ cc (find_here id x xs same, same)
  | inr other ↦ find_id id xs m (sym (find_later id x xs other) ∙ e)
]

-- The first item of an ID stands behind items of others.
pub find-split :
    (id : Text) (xs : List Mapper) (m : Mapper)
    → find id xs ≡ some m
    → (before : List Mapper) × (after : List Mapper) × (xs ≡ before ++ m ∷ after)
      × All (λ x. x ≢ m) before
      × (without id xs ≡ before ++ after)
unfolding find without
find-split id [] m e = absurd cc
find-split id (x ∷ xs) m e = elim (Bool-cases (eqb_text x.map_id id)) [
  | inl same ↦ (([]), xs, cc (find_here id x xs same), tt, rw same refl)
  | inr other ↦
      let (before, after, e', others, w) =
        find-split id xs m (sym (find_later id x xs other) ∙ e) in
      (
        x ∷ before,
        after,
        ap (λ l. x ∷ l) e',
        (λ same. cc (find_id id (x ∷ xs) m e, other), others),
        rw other (ap (λ l. x ∷ l) w),
      )
]

find_snoc :
    (id : Text) (xs : List Mapper) (m : Mapper)
    → find id xs ≡ none
    → eqb_text m.map_id id ≡ false
    → find id (xs ++ m ∷ []) ≡ none
unfolding find
find_snoc id [] m h e = rw e refl
find_snoc id (x ∷ xs) m h e = ground (arith, find_snoc id xs m)

Distinct-snoc :
    (xs : List Mapper) (m : Mapper)
    → Distinct xs
    → find m.map_id xs ≡ none
    → Distinct (xs ++ m ∷ [])
unfolding find
Distinct-snoc [] m d h = (refl, tt)
Distinct-snoc (x ∷ xs) m (fresh, d) h = (
  find_snoc x.map_id xs m fresh
      (eqb_text_comm m.map_id x.map_id ∙ (find_nowhere m.map_id x xs h).0),
  Distinct-snoc xs m d ((find_nowhere m.map_id x xs h).1),
)

find-without :
    (id id' : Text) (xs : List Mapper) → find id' xs ≡ none → find id' (without id xs) ≡ none
unfolding find without
find-without id id' [] h = refl
find-without id id' (x ∷ xs) h = ground (arith, find-without id id' xs)

Distinct-without : (id : Text) (xs : List Mapper) → Distinct xs → Distinct (without id xs)
unfolding without
Distinct-without id [] d = tt
Distinct-without id (x ∷ xs) (fresh, d) = elim (Bool-cases (eqb_text x.map_id id)) [
  | inl same ↦ rw same d
  | inr other ↦ rw other (find-without id x.map_id xs fresh, Distinct-without id xs d)
]

if-Distinct :
    (b : Bool) (v w : Outputs)
    → (b ≡ true → Distinct v.waiting)
    → (b ≡ false → Distinct w.waiting)
    → Distinct ((if b then v else w).waiting)
if-Distinct true v w hv hw = hv refl
if-Distinct false v w hv hw = hw refl

when-waiting :
    (b : Bool) (n reduce : ℤ) (p : IntArray) (v : Outputs)
    → (when b (announce n reduce p) v).waiting ≡ v.waiting
when-waiting true n reduce p v = refl
when-waiting false n reduce p v = refl

none_of_is_some : (o : Option Mapper) → is_some o ≡ false → o ≡ none
none_of_is_some none h = refl
none_of_is_some (some x) h = absurd cc

-- No message makes two of the waiting outputs have the same ID.
pub step-Distinct :
    (n reduce : ℤ) (p : IntArray) (mess_type : ℤ) (map : Mapper) (v : Outputs)
    → Distinct v.waiting
    → Distinct (step n reduce p mess_type map v).waiting
unfolding step
step-Distinct n reduce p mess_type map v d =
    if-Distinct (eqb_ℤ mess_type (pos 1)) _ _
      (λ _.
        if-Distinct known v _ (λ _. d)
          (λ e. Distinct-snoc v.waiting map d (none_of_is_some (find map.map_id v.waiting) e)))
      (λ _.
        if-Distinct (eqb_ℤ mess_type (pos 0)) _ _
          (λ _.
            if-Distinct known _ v (λ _. rw (when-waiting (is_zero reduce) n reduce p v') dropped)
              (λ _. d))
          (λ _.
            if-Distinct (eqb_ℤ mess_type (pos 2)) _ v
              (λ _.
                if-Distinct known _ v
                  (λ _.
                    rw (when-waiting (is_nil v'.waiting && is_zero reduce) n reduce p v') dropped)
                  (λ _. d))
              (λ _. d)))
  where
    known : Bool
    known = is_some (find map.map_id v.waiting)

    v' : Outputs
    v' = drop_output map.map_id v

    dropped : Distinct v'.waiting
    dropped = Distinct-without map.map_id v.waiting d
