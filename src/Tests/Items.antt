-- ===== src/Tests/Items.antt =====
-- A list of map outputs that keeps its cursor beside its items, as the one of the library.
use rpi_hadoop.Prelude.{
  ◌≡◌, ◌≢◌, refl, ap, ◌∙◌, Bool, true, false, ◌&&◌, List, [], ◌∷◌, ◌++◌, Option, none, some,
  if◌then◌else◌, length, All, Bool-cases, inl, inr,
}
use rpi_hadoop.MapTasks.{Mapper, ZList, eqb_text}
use rpi_hadoop.MapTasks.Lists.{IsZList}
use rpi_hadoop.MapTasks.Pending.{eqb_text-eq, eqb_text_refl}

pub record Items : Type 0 where
  pub all : List Mapper
  pub now : Option Mapper
  pub later : List Mapper

pub move : List Mapper → List Mapper → Option Mapper × Items
move all [] = (none, record { all = all; now = none; later = [] })
move all (x ∷ xs) = (some x, record { all = all; now = some x; later = xs })

unfoldable pub eqb_mapper : Mapper → Mapper → Bool
eqb_mapper a b =
    eqb_text a.map_id b.map_id
    && (eqb_text a.output_size b.output_size && eqb_text a.job_id b.job_id)

pub take_off : Mapper → List Mapper → List Mapper
take_off m [] = []
take_off m (x ∷ xs) = if eqb_mapper x m then xs else x ∷ take_off m xs

unfoldable pub items : ZList Items
unfolding move take_off
items = record {
  first = λ l. move l.all l.all;
  next = λ l. move l.all l.later;
  item = λ l. l.now;
  append = λ l m. record l { all = l.all ++ m ∷ [] };
  remove = λ l m. record l { all = take_off m l.all };
  size = λ l. length l.all;
}

and_left : (b c : Bool) → (b && c) ≡ true → b ≡ true
and_left true c h = refl
and_left false c h = h

and_right : (b c : Bool) → (b && c) ≡ true → c ≡ true
and_right true c h = h
and_right false c h = absurd cc

eqb_mapper-eq : (a b : Mapper) → eqb_mapper a b ≡ true → a ≡ b
unfolding eqb_mapper
eqb_mapper-eq a b h =
    let others = and_right (eqb_text a.map_id b.map_id) _ h in
    let id = eqb_text-eq a.map_id b.map_id (and_left _ _ h) in
    let size = eqb_text-eq a.output_size b.output_size (and_left _ _ others) in
    let job = eqb_text-eq a.job_id b.job_id (and_right _ _ others) in cc

eqb_mapper_refl : (a : Mapper) → eqb_mapper a a ≡ true
unfolding eqb_mapper
eqb_mapper_refl a =
    rw (eqb_text_refl a.map_id, eqb_text_refl a.output_size, eqb_text_refl a.job_id) refl

pub take_off-split :
    (xs : List Mapper) (m : Mapper) (ys : List Mapper)
    → All (λ x. x ≢ m) xs
    → take_off m (xs ++ m ∷ ys) ≡ xs ++ ys
unfolding take_off
take_off-split [] m ys h = rw (eqb_mapper_refl m) refl
take_off-split (x ∷ xs) m ys (ne, h) = elim (Bool-cases (eqb_mapper x m)) [
  | inl same ↦ absurd (ne (eqb_mapper-eq x m same))
  | inr other ↦ rw (other, take_off-split xs m ys h) refl
]

pub move-none : (all xs : List Mapper) → xs ≡ [] → (move all xs).0 ≡ none
unfolding move
move-none all xs e = rw e refl

pub move-some :
    (all xs : List Mapper) (x : Mapper) (rest : List Mapper)
    → xs ≡ x ∷ rest
    → ((move all xs).0 ≡ some x) × ((move all xs).1.now ≡ some x) × ((move all xs).1.later ≡ rest)
unfolding move
move-some all xs x rest e = rw e (refl, refl, refl)

pub move-all : (all xs : List Mapper) → (move all xs).1.all ≡ all
unfolding move
move-all all [] = refl
move-all all (x ∷ xs) = refl

unfoldable pub items-IsZList : IsZList items
unfolding items
items-IsZList = record {
  contents = λ l. l.all;
  behind = λ l. l.later;
  first_none = λ l e. move-none l.all l.all e;
  first_some = λ l x xs e. move-some l.all l.all x xs e;
  first_contents = λ l. move-all l.all l.all;
  next_none = λ l e. move-none l.all l.later e;
  next_some = λ l x xs e. move-some l.all l.later x xs e;
  next_contents = λ l. move-all l.all l.later;
  append_contents = λ l m. refl;
  remove_contents = λ l xs m ys e h. ap (take_off m) e ∙ take_off-split xs m ys h;
  size_contents = λ l. refl;
}
