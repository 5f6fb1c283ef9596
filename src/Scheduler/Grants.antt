-- ===== src/Scheduler/Grants.antt =====
-- Every message of a sequence of rounds is a slot's message, of a node and a reducer of the table.
use rpi_hadoop.Prelude.{
  ℕ, zero, suc, ◌+◌, ◌≤◌, ◌<◌, ◌≡◌, refl, inl, inr, List, [], ◌∷◌, ◌++◌, Text, arith, done,
  Bool-cases, is_zero, ℤ, InInt, Yields, Yields-bind, Yields-any,
}
use rpi_hadoop.CArray.{IntArray}
use rpi_hadoop.Report.{nodes}
use rpi_hadoop.Scheduler.{
  State, Plan, Event, publish, silence, sent, awaited, dispatch_node, dispatch_loop, plan, serve,
  Progress, has_data, next_pri,
}
use rpi_hadoop.Scheduler.Allocation.{alloc_loop_slots, alloc_loop_last, idle_loop_lem}
use rpi_hadoop.Scheduler.Dispatch.{config_text, config_message-done}
use rpi_hadoop.Scheduler.Fairness.{Input, rounds}
use rpi_hadoop.Scheduler.Events.{all_events, rounds-all_events}

-- The message of a slot.
pub record IsGrant (message : Text) : Type 0 where
  pub node : ℕ
  pub slot : ℤ
  pub reducer : ℕ
  pub text : message ≡ config_text node slot reducer
  pub node_small : node < nodes
  pub slot_small : InInt slot
  pub reducer_small : reducer < nodes

abbrev pub AreGrants : List Event → Type 0
AreGrants [] = Unit
AreGrants (publish ∷ events) = AreGrants events
AreGrants (silence ∷ events) = AreGrants events
AreGrants (sent k message ∷ events) = IsGrant message × AreGrants events
AreGrants (awaited k ∷ events) = AreGrants events

AreGrants-append : (xs ys : List Event) → AreGrants xs → AreGrants ys → AreGrants (xs ++ ys)
AreGrants-append [] ys h h' = h'
AreGrants-append (publish ∷ xs) ys h h' = AreGrants-append xs ys h h'
AreGrants-append (silence ∷ xs) ys h h' = AreGrants-append xs ys h h'
AreGrants-append (sent k message ∷ xs) ys (g, h) h' = (g, AreGrants-append xs ys h h')
AreGrants-append (awaited k ∷ xs) ys h h' = AreGrants-append xs ys h h'

dispatch_node-AreGrants :
    (k : ℕ) (t : IntArray) (r : ℕ)
    → k < nodes
    → InInt (t k)
    → r < nodes
    → Yields AreGrants (dispatch_node k t r)
unfolding dispatch_node
dispatch_node-AreGrants k t r hk ht hr = elim (Bool-cases (is_zero (t k))) [
  | inl idle ↦ rw idle tt
  | inr busy ↦
      rw (busy, config_message-done k (t k) r (omega arith) ht (omega arith))
        (
          record {
            node = k;
            slot = t k;
            reducer = r;
            text = refl;
            node_small = hk;
            slot_small = ht;
            reducer_small = hr;
          },
          tt,
        )
]

-- The slots of the nodes are `int`s.
abbrev Bounded : IntArray → Type 0
Bounded t = (j : ℕ) → 1 ≤ j → j < nodes → InInt (t j)

dispatch_loop-AreGrants :
    (n k : ℕ) (t : IntArray) (r : ℕ)
    → 1 ≤ k
    → k + n ≤ nodes
    → Bounded t
    → r < nodes
    → Yields AreGrants (dispatch_loop n k t r)
unfolding dispatch_loop
dispatch_loop-AreGrants zero k t r lo hi ht hr = tt
dispatch_loop-AreGrants (suc n) k t r lo hi ht hr =
    Yields-bind AreGrants AreGrants (dispatch_node k t r) _
      (dispatch_node-AreGrants k t r (omega arith) (ht k lo (omega arith)) hr)
      (λ now h.
        Yields-bind AreGrants AreGrants (dispatch_loop n (k + 1) t r) _
          (dispatch_loop-AreGrants n (k + 1) t r (omega arith) (omega arith) ht hr)
          (λ later h'. AreGrants-append now later h h'))

abbrev SmallPlan : Plan → Type 0
SmallPlan r = Bounded r.t_alloc × (r.pri_reducer < nodes)

plan-SmallPlan :
    (fuel : ℕ) (p reducer : IntArray) (job : Progress) (s : State)
    → Yields SmallPlan (plan fuel p reducer job s)
unfolding plan
plan-SmallPlan fuel p reducer job s = elim (Bool-cases (has_data p)) [
  | inl data_there ↦ rw data_there (
      Yields-bind (λ k. Unit {0}) SmallPlan (next_pri fuel p s.pri) _ (Yields-any _)
        (λ k u. (
          λ j lo hi. rw (alloc_loop_slots reducer job k j s.t_alloc lo hi) (ground arith),
          ground (arith, (alloc_loop_last reducer job k 9 1 0 s.t_alloc).found),
        )))
  | inr none_there ↦
      rw none_there (λ j lo hi. rw (idle_loop_lem j s.t_alloc lo hi) (omega arith), omega arith)
]

serve-AreGrants :
    (fuel : ℕ) (p reducer : IntArray) (job : Progress) (s : State)
    → Yields (λ (out : State × List Event). AreGrants out.1) (serve fuel p reducer job s)
unfolding serve
serve-AreGrants fuel p reducer job s =
    Yields-bind SmallPlan _ (plan fuel p reducer job s) _ (plan-SmallPlan fuel p reducer job s)
      (λ r small.
        Yields-bind AreGrants _ (dispatch_loop 8 2 r.t_alloc r.pri_reducer) _
          (dispatch_loop-AreGrants 8 2 r.t_alloc r.pri_reducer (omega arith) (omega arith) small.0
            small.1)
          (λ events h. h))

pub rounds-AreGrants :
    (l : List Input) (s : State) (outs : List (State × List Event))
    → rounds l s ≡ done outs
    → AreGrants (all_events outs)
rounds-AreGrants = rounds-all_events AreGrants tt AreGrants-append serve-AreGrants
