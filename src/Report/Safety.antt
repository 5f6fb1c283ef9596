-- ===== src/Report/Safety.antt =====
-- Which messages `process_report` can take: it tests neither the node's number nor the number of
-- fields.
use rpi_hadoop.Prelude.{
  ℕ, ◌<◌, ◌≡◌, ◌≢◌, refl, List, [], ◌∷◌, arith, ◌==◌, lt→ltb, Bool-cases, inl, inr, Text, done,
  fault, ℤ, pos, negsuc, ap, div_int,
}
use rpi_hadoop.CText.{atoi, tokens}
use rpi_hadoop.CArray.{IntArray, update, store}
use rpi_hadoop.Report.{
  Tables, nodes, store_speed, store_report, process_tokens, process_report, process_report_lem,
}

-- An index of the tables.
abbrev pub InTable : ℤ → Type 0
InTable (pos n) = n < nodes
InTable (negsuc n) = ⊥

-- Nothing at all, or three fields at least, of which the first is an index of the tables.
abbrev pub IsWellFormed : List Text → Type 0
IsWellFormed [] = Unit
IsWellFormed (id ∷ []) = ⊥
IsWellFormed (id ∷ size ∷ []) = ⊥
IsWellFormed (id ∷ size ∷ is_reducer ∷ speeds) = InTable (atoi id)

-- The tables are as before, but for the entries of one node.
abbrev pub SameBut : ℤ → Tables → Tables → Type 0
SameBut id t t' =
    (j : ℕ) → pos j ≢ id → (t'.p j ≡ t.p j) × (t'.sp j ≡ t.sp j) × (t'.reducer j ≡ t.reducer j)

-- The node that the message is about; it does not matter in an empty message.
abbrev pub sender : List Text → ℤ
sender [] = pos 0
sender (id ∷ rest) = atoi id

store_out : (a : IntArray) (i v : ℤ) → ¬ InTable i → store nodes a i v ≡ fault
store_out a (pos n) v h = ground arith
store_out a (negsuc n) v h = refl

store_speed_safe :
    (sp : IntArray) (k : ℕ) (c : ℤ × ℕ)
    → k < nodes
    → (sp' : IntArray) × (store_speed sp (pos k) c ≡ done sp') × ((j : ℕ) → j ≢ k → sp' j ≡ sp j)
unfolding store_speed
store_speed_safe sp k (speed, count) h = elim (Bool-cases (count == 0)) [
  | inl idle ↦ (sp, rw idle, λ j ne. refl)
  | inr busy ↦
      (update sp k (div_int speed count), rw (busy, lt→ltb k nodes h), λ j ne. ground arith)
]

store_report_safe :
    (i n r : ℤ) (c : ℤ × ℕ) (t : Tables)
    → InTable i
    → (t' : Tables) × (store_report i n r c t ≡ done t') × SameBut i t t'
unfolding store_report
store_report_safe (pos k) n r c t h =
    let (sp', e, same) = store_speed_safe t.sp k c h in
    (
      record { p = update t.p k n; sp = sp'; reducer = update t.reducer k r },
      rw (lt→ltb k nodes h, e),
      λ j ne. let ne' : j ≢ k = λ q. ne (ap pos q) in (ground arith, same j ne', ground arith),
    )
store_report_safe (negsuc k) n r c t h = absurd h

-- A well-formed message is processed without a fault, and changes no entry but its sender's.
pub process_report_safe :
    (content : Text) (t : Tables)
    → IsWellFormed (tokens b'.' content)
    → (t' : Tables) × (process_report content t ≡ done t')
      × SameBut (sender (tokens b'.' content)) t t'
unfolding process_tokens
process_report_safe content t h = rw process_report_lem (go (tokens b'.' content) h)
  where
    go :
        (l : List Text)
        → IsWellFormed l
        → (t' : Tables) × (process_tokens l t ≡ done t') × SameBut (sender l) t t'
    go [] h = (t, refl, λ j ne. (refl, refl, refl))
    go (id ∷ []) h = absurd h
    go (id ∷ size ∷ []) h = absurd h
    go (id ∷ size ∷ is_reducer ∷ speeds) h = store_report_safe (atoi id) _ _ _ t h

store_report_fault :
    (i n r : ℤ) (c : ℤ × ℕ) (t : Tables) → ¬ InTable i → store_report i n r c t ≡ fault
unfolding store_report
store_report_fault i n r c t h = rw (store_out t.p i n h)

-- Any other message makes the scheduler read or write out of bounds.
pub process_report_fault :
    (content : Text) (t : Tables)
    → ¬ IsWellFormed (tokens b'.' content)
    → process_report content t ≡ fault
unfolding process_tokens
process_report_fault content t h = rw process_report_lem (go (tokens b'.' content) h)
  where
    go : (l : List Text) → ¬ IsWellFormed l → process_tokens l t ≡ fault
    go [] h = absurd (h tt)
    go (id ∷ []) h = refl
    go (id ∷ size ∷ []) h = refl
    go (id ∷ size ∷ is_reducer ∷ speeds) h = store_report_fault (atoi id) _ _ _ t h
