-- ===== src/Cluster/Threads/Turns.antt =====
-- A node at the turns of its `recv_config`: it stays idle without a message, and busy until its answer is
-- taken.
use rpi_hadoop.Prelude.{
  add_int-InInt, ℕ, ◌≤◌, ◌≡◌, ◌≢◌, refl, sym, ◌∙◌, false, List, [], ◌∷◌, ◌++◌, Text, done, arith,
  pos, negsuc, InInt, is_positive, take_of_length-le, done-injective, codes, length,
}
use mathlib.Core.Path.{subst}
use native.Mathlib.Decide.{ℕ_discrete}
use rpi_hadoop.CText.{tokens}
use rpi_hadoop.Scheduler.Grants.{IsGrant}
use rpi_hadoop.Slot.{Slot, granted}
use rpi_hadoop.Slot.Grant.{tokens-config_text, config_text_short, granted_lem}
use rpi_hadoop.Cluster.{put}
use rpi_hadoop.Cluster.Threads.{
  waiting, counting, ending, NodeThread, take_fields, take_message, Turn, receives, sleeps, leaves,
  answers, stopped,
}

-- A node without a slot: nothing is on its way in either direction.
pub record IsIdle (n : NodeThread) : Type 0 where
  pub stage : n.stage ≡ waiting
  pub inbox : n.inbox ≡ []
  pub replies : n.replies ≡ []
  pub slot : is_positive n.slot.slot ≡ false

-- The node whose answer the master awaits: its message is on the way, it counts down, it is about to
-- answer, or its answer is on the way.
pub data IsBusy (n : NodeThread) : Type 0 where
  on_way :
      (message : Text)
      → IsGrant message
      → n.stage ≡ waiting
      → n.inbox ≡ message ∷ []
      → n.replies ≡ []
      → is_positive n.slot.slot ≡ false
      → IsBusy n
  runs : n.stage ≡ counting → n.inbox ≡ [] → n.replies ≡ [] → InInt n.slot.slot → IsBusy n
  ends : n.stage ≡ ending → n.inbox ≡ [] → n.replies ≡ [] → IsBusy n
  answered :
      (answer : Text)
      → n.stage ≡ waiting
      → n.inbox ≡ []
      → n.replies ≡ answer ∷ []
      → is_positive n.slot.slot ≡ false
      → IsBusy n

module _ {ℓ} {A : Type ℓ} (f : ℕ → A) (k : ℕ) (a : A) where
  pub put_self : put f k a k ≡ a
  put_self = ground arith

  pub put_other : (j : ℕ) → j ≢ k → put f k a j ≡ f j
  put_other j h = ground arith

  pub put-all : (P : A → Type 0) → P a → ((j : ℕ) → j ≢ k → P (f j)) → (j : ℕ) → P (put f k a j)
  put-all P now others j = elim (ℕ_discrete j k) [
    | yes e ↦ rw (e, put_self) now
    | no ne ↦ rw (put_other j ne) (others j ne)
  ]

  -- What is kept where the value changes is kept everywhere.
  pub put-kept : (P : A → Type 0) → (P (f k) → P a) → (j : ℕ) → P (f j) → P (put f k a j)
  put-kept P kept j h = elim (ℕ_discrete j k) [
    | yes e ↦ rw (e, put_self) (kept (rw (← e) h))
    | no ne ↦ rw (put_other j ne) h
  ]

take_message_short :
    (c : ℕ) (message : Text) (n : NodeThread)
    → length (c ∷ message) ≤ 31
    → take_message (c ∷ message) n ≡ take_fields (tokens b',' (c ∷ message)) n
unfolding take_message
take_message_short c message n h = rw (take_of_length-le 30 message (omega arith)) refl

take_fields_three :
    (name a b : Text) (n : NodeThread)
    → take_fields (name ∷ a ∷ b ∷ []) n
      ≡ done (record n { stage = counting; slot = granted a (b ∷ []) n.slot })
unfolding take_fields
take_fields_three name a b n = refl

-- The message of a slot takes `recv_config` to its loop.
pub take_message-grant :
    (message : Text) (n : NodeThread)
    → IsGrant message
    → (slot : Slot) × (take_message message n ≡ done (record n { stage = counting; slot = slot }))
      × InInt slot.slot
take_message-grant message n g = (
  record { slot = g.slot; est = g.slot; priority_reducer = pos g.reducer },
  rw g.text (
      take_message_short _ _ n
        (config_text_short g.node g.slot g.reducer g.node_small g.slot_small g.reducer_small)
      ∙ rw (tokens-config_text g.node g.slot g.reducer) (
          take_fields_three _ _ _ n
          ∙ rw (granted_lem g.slot g.reducer n.slot g.slot_small g.reducer_small) refl)),
  g.slot_small,
)

pub Turn-IsIdle : {n n' : NodeThread} → IsIdle n → ¬ Turn n n'
Turn-IsIdle i (receives message rest at some_in e) = cc (i.inbox, some_in)
Turn-IsIdle i (sleeps at more) = cc (i.stage, at)
Turn-IsIdle i (leaves at over) = cc (i.stage, at)
Turn-IsIdle i (answers at) = cc (i.stage, at)

pub Turn-IsBusy : {n n' : NodeThread} → IsBusy n → Turn n n' → IsBusy n'
Turn-IsBusy {n} (on_way message g s i r p) (receives message' rest at some_in e) =
    let same : message' ≡ message = cc in
    let none_left : rest ≡ [] = cc in
    let (slot, run, small) = take_message-grant message (record n { inbox = rest }) g in
    subst IsBusy (done-injective _ _ (sym run ∙ rw (← same) e)) (runs refl none_left r small)
Turn-IsBusy (on_way message g s i r p) (sleeps at more) = absurd (cc (s, at))
Turn-IsBusy (on_way message g s i r p) (leaves at over) = absurd (cc (s, at))
Turn-IsBusy (on_way message g s i r p) (answers at) = absurd (cc (s, at))
Turn-IsBusy (runs s i r b) (receives message rest at some_in e) = absurd (cc (s, at))
Turn-IsBusy {n} (runs s i r b) (sleeps at more) = runs s i r (add_int-InInt n.slot.slot (negsuc 99))
Turn-IsBusy (runs s i r b) (leaves at over) = ends refl i r
Turn-IsBusy (runs s i r b) (answers at) = absurd (cc (s, at))
Turn-IsBusy (ends s i r) (receives message rest at some_in e) = absurd (cc (s, at))
Turn-IsBusy (ends s i r) (sleeps at more) = absurd (cc (s, at))
Turn-IsBusy (ends s i r) (leaves at over) = absurd (cc (s, at))
Turn-IsBusy (ends s i r) (answers at) = answered (codes "1") refl i (rw r refl) refl
Turn-IsBusy (answered a s i r p) (receives message rest at some_in e) = absurd (cc (i, some_in))
Turn-IsBusy (answered a s i r p) (sleeps at more) = absurd (cc (s, at))
Turn-IsBusy (answered a s i r p) (leaves at over) = absurd (cc (s, at))
Turn-IsBusy (answered a s i r p) (answers at) = absurd (cc (s, at))

pub stopped-IsIdle : {n : NodeThread} → IsIdle n → IsIdle (stopped n)
stopped-IsIdle i = record { stage = i.stage; inbox = i.inbox; replies = i.replies; slot = refl }

pub stopped-IsBusy : {n : NodeThread} → IsBusy n → IsBusy (stopped n)
stopped-IsBusy (on_way message g s i r p) = on_way message g s i r refl
stopped-IsBusy (runs s i r b) = runs s i r (omega arith)
stopped-IsBusy (ends s i r) = ends s i r
stopped-IsBusy (answered a s i r p) = answered a s i r refl

pub posted-IsBusy :
    {n : NodeThread} (message : Text)
    → IsGrant message
    → IsIdle n
    → IsBusy (record n { inbox = n.inbox ++ message ∷ [] })
posted-IsBusy message g i = on_way message g i.stage (rw i.inbox refl) i.replies i.slot

pub heard-IsIdle :
    {n : NodeThread} (answer : Text) (rest : List Text)
    → n.replies ≡ answer ∷ rest
    → IsBusy n
    → IsIdle (record n { replies = rest })
heard-IsIdle answer rest e (on_way message g s i r p) = absurd (cc (r, e))
heard-IsIdle answer rest e (runs s i r b) = absurd (cc (r, e))
heard-IsIdle answer rest e (ends s i r) = absurd (cc (r, e))
heard-IsIdle answer rest e (answered a s i r p) = record {
  stage = s;
  inbox = i;
  replies = cc;
  slot = p;
}
