-- ===== src/MapTasks/Lists.antt =====
-- What the code relies on of `zlist_t`, and what its two walks through a list find.
use rpi_hadoop.Prelude.{
  ℕ, zero, suc, ◌<◌, ◌≡◌, ◌≢◌, refl, ◌∙◌, Bool, true, false, List, [], ◌∷◌, ◌++◌, arith, Option,
  none, some, if◌then◌else◌, Text, length, All, done, ℤ, pos, add_int, Bool-cases, inl, inr,
}
use rpi_hadoop.CText.{atoi}
use rpi_hadoop.MapTasks.{Mapper, ZList, eqb_text, cmp_loop, map_list_cmp, size_loop, get_data_size}

-- The documented behaviour of the operations, over the items of a list in order, and those behind its
-- cursor. `remove` takes off the first occurrence of an item.
pub record IsZList {L : Type 0} (z : ZList L) : Type 0 where
  pub contents : L → List Mapper
  pub behind : L → List Mapper
  pub first_none : (l : L) → contents l ≡ [] → (z.first l).0 ≡ none
  pub first_some :
      (l : L) (x : Mapper) (xs : List Mapper)
      → contents l ≡ x ∷ xs
      → ((z.first l).0 ≡ some x) × (z.item (z.first l).1 ≡ some x) × (behind (z.first l).1 ≡ xs)
  pub first_contents : (l : L) → contents (z.first l).1 ≡ contents l
  pub next_none : (l : L) → behind l ≡ [] → (z.next l).0 ≡ none
  pub next_some :
      (l : L) (x : Mapper) (xs : List Mapper)
      → behind l ≡ x ∷ xs
      → ((z.next l).0 ≡ some x) × (z.item (z.next l).1 ≡ some x) × (behind (z.next l).1 ≡ xs)
  pub next_contents : (l : L) → contents (z.next l).1 ≡ contents l
  pub append_contents : (l : L) (m : Mapper) → contents (z.append l m) ≡ contents l ++ m ∷ []
  pub remove_contents :
      (l : L) (xs : List Mapper) (m : Mapper) (ys : List Mapper)
      → contents l ≡ xs ++ m ∷ ys
      → All (λ x. x ≢ m) xs
      → contents (z.remove l m) ≡ xs ++ ys
  pub size_contents : (l : L) → z.size l ≡ length (contents l)

-- The first item with an ID.
unfoldable pub find : Text → List Mapper → Option Mapper
find id [] = none
find id (x ∷ xs) = if eqb_text x.map_id id then some x else find id xs

abbrev pub is_some : Option Mapper → Bool
is_some none = false
is_some (some x) = true

-- The sum of the sizes behind `size`.
unfoldable pub add_sizes : List Mapper → ℤ → ℤ
add_sizes [] size = size
add_sizes (x ∷ xs) size = add_sizes xs (add_int size (atoi x.output_size))

module _ {L : Type 0} (z : ZList L) (laws : IsZList z) where
  open laws use {
    contents, behind, first_none, first_some, first_contents, next_none, next_some, next_contents,
    append_contents, remove_contents, size_contents,
  }

  -- The cursor is at the first of the items, and the others are behind it.
  abbrev At : L → Option Mapper → List Mapper → Type 0
  At l now [] = now ≡ none
  At l now (x ∷ xs) = (now ≡ some x) × (z.item l ≡ some x) × (behind l ≡ xs)

  first-At : (l : L) (xs : List Mapper) → contents l ≡ xs → At (z.first l).1 (z.first l).0 xs
  first-At l [] e = first_none l e
  first-At l (x ∷ xs) e = first_some l x xs e

  next-At : (l : L) (xs : List Mapper) → behind l ≡ xs → At (z.next l).1 (z.next l).0 xs
  next-At l [] e = next_none l e
  next-At l (x ∷ xs) e = next_some l x xs e

  cmp_loop-find :
      (left : ℕ) (xs : List Mapper) (now : Option Mapper) (map : Mapper) (l : L)
      → At l now xs
      → length xs < left
      → (l' : L) × (cmp_loop z left now map l ≡ done (is_some (find map.map_id xs), l'))
        × (contents l' ≡ contents l)
        × ((m : Mapper) → find map.map_id xs ≡ some m → z.item l' ≡ some m)
  unfolding cmp_loop find
  cmp_loop-find zero xs now map l at fits = absurd (omega arith)
  cmp_loop-find (suc left) [] now map l at fits = (l, rw at refl, refl, λ m e. cc)
  cmp_loop-find (suc left) (x ∷ xs) now map l at fits =
      let (l', run, same_contents, found) =
        cmp_loop-find left xs (z.next l).0 map (z.next l).1 (next-At l xs at.2) (omega arith) in
      elim (Bool-cases (eqb_text x.map_id map.map_id)) [
        | inl same ↦ (l, rw (at.0, same) refl, refl, rw same (λ m e. at.1 ∙ e))
        | inr other ↦ rw other (l', rw (at.0, other) run, same_contents ∙ next_contents l, found)
      ]

  -- `map_list_cmp` tells whether the list has an item of the ID, leaves the first such one at the
  -- cursor, and changes nothing else.
  pub map_list_cmp-find :
      (fuel : ℕ) (map : Mapper) (l : L)
      → length (contents l) < fuel
      → (l' : L) × (map_list_cmp z fuel l map ≡ done (is_some (find map.map_id (contents l)), l'))
        × (contents l' ≡ contents l)
        × ((m : Mapper) → find map.map_id (contents l) ≡ some m → z.item l' ≡ some m)
  unfolding map_list_cmp
  map_list_cmp-find fuel map l fits =
      let (l', run, same_contents, found) =
        cmp_loop-find fuel (contents l) (z.first l).0 map (z.first l).1
          (first-At l (contents l) refl) fits in
      (l', run, same_contents ∙ first_contents l, found)

  size_loop-add_sizes :
      (left : ℕ) (xs : List Mapper) (now : Option Mapper) (size : ℤ) (l : L)
      → At l now xs
      → length xs < left
      → (l' : L) × (size_loop z left now size l ≡ done (add_sizes xs size, l'))
        × (contents l' ≡ contents l)
  unfolding size_loop add_sizes
  size_loop-add_sizes zero xs now size l at fits = absurd (omega arith)
  size_loop-add_sizes (suc left) [] now size l at fits = (l, rw at refl, refl)
  size_loop-add_sizes (suc left) (x ∷ xs) now size l at fits =
      let (l', run, same_contents) =
        size_loop-add_sizes left xs (z.next l).0 (add_int size (atoi x.output_size)) (z.next l).1
          (next-At l xs at.2) (omega arith) in
      (l', rw at.0 run, same_contents ∙ next_contents l)

  -- `get_data_size` adds up the sizes of all items, and leaves them as they are.
  pub get_data_size-add_sizes :
      (fuel : ℕ) (l : L)
      → length (contents l) < fuel
      → (l' : L) × (get_data_size z fuel l ≡ done (add_sizes (contents l) (pos 0), l'))
        × (contents l' ≡ contents l)
  unfolding get_data_size
  get_data_size-add_sizes fuel l fits =
      let (l', run, same_contents) =
        size_loop-add_sizes fuel (contents l) (z.first l).0 (pos 0) (z.first l).1
          (first-At l (contents l) refl) fits in
      (l', run, same_contents ∙ first_contents l)
