-- ===== src/Scheduler/Exclusive.antt =====
-- The channel is never given to two nodes at once.
use rpi_hadoop.Prelude.{
  ℕ, zero, suc, ◌+◌, ◌≡◌, refl, List, [], ◌∷◌, ◌++◌, Option, none, some, done, Yields, Yields-bind,
  Yields-any, Bool-cases, inl, inr, is_zero,
}
use rpi_hadoop.CArray.{IntArray}
use rpi_hadoop.Scheduler.{
  State, Event, publish, silence, sent, awaited, config_message, dispatch_node, dispatch_loop, plan,
  serve, Progress,
}
use rpi_hadoop.Scheduler.Fairness.{Input, rounds}
use rpi_hadoop.Scheduler.Events.{all_events, rounds-all_events}

-- `holder` has a slot when the events begin, and none has one behind them: a slot is sent only while no
-- node has one, and the answer awaited is that of the node that has one.
abbrev pub OneAtATime : Option ℕ → List Event → Type 0
OneAtATime holder [] = holder ≡ none
OneAtATime holder (publish ∷ events) = OneAtATime holder events
OneAtATime holder (silence ∷ events) = OneAtATime holder events
OneAtATime holder (sent k message ∷ events) = (holder ≡ none) × OneAtATime (some k) events
OneAtATime holder (awaited k ∷ events) = (holder ≡ some k) × OneAtATime none events

OneAtATime-append :
    (holder : Option ℕ) (xs ys : List Event)
    → OneAtATime holder xs
    → OneAtATime none ys
    → OneAtATime holder (xs ++ ys)
OneAtATime-append holder [] ys h h' = rw h h'
OneAtATime-append holder (publish ∷ xs) ys h h' = OneAtATime-append holder xs ys h h'
OneAtATime-append holder (silence ∷ xs) ys h h' = OneAtATime-append holder xs ys h h'
OneAtATime-append holder (sent k message ∷ xs) ys (free, h) h' =
    (free, OneAtATime-append (some k) xs ys h h')
OneAtATime-append holder (awaited k ∷ xs) ys (held, h) h' =
    (held, OneAtATime-append none xs ys h h')

dispatch_node-OneAtATime :
    (k : ℕ) (t : IntArray) (r : ℕ) → Yields (OneAtATime none) (dispatch_node k t r)
unfolding dispatch_node
dispatch_node-OneAtATime k t r = elim (Bool-cases (is_zero (t k))) [
  | inl idle ↦ rw idle refl
  | inr busy ↦ rw busy (
      Yields-bind (λ m. Unit {0}) (OneAtATime none) (config_message k (t k) r) _ (Yields-any _)
        (λ m u. (refl, (refl, refl))))
]

dispatch_loop-OneAtATime :
    (n k : ℕ) (t : IntArray) (r : ℕ) → Yields (OneAtATime none) (dispatch_loop n k t r)
unfolding dispatch_loop
dispatch_loop-OneAtATime zero k t r = refl
dispatch_loop-OneAtATime (suc n) k t r =
    Yields-bind (OneAtATime none) (OneAtATime none) (dispatch_node k t r) _
      (dispatch_node-OneAtATime k t r)
      (λ now h.
        Yields-bind (OneAtATime none) (OneAtATime none) (dispatch_loop n (k + 1) t r) _
          (dispatch_loop-OneAtATime n (k + 1) t r)
          (λ later h'. OneAtATime-append none now later h h'))

serve-OneAtATime :
    (fuel : ℕ) (p reducer : IntArray) (job : Progress) (s : State)
    → Yields (λ (out : State × List Event). OneAtATime none out.1) (serve fuel p reducer job s)
unfolding serve
serve-OneAtATime fuel p reducer job s =
    Yields-bind (λ r. Unit {0}) _ (plan fuel p reducer job s) _ (Yields-any _)
      (λ r u.
        Yields-bind (OneAtATime none) _ (dispatch_loop 8 2 r.t_alloc r.pri_reducer) _
          (dispatch_loop-OneAtATime 8 2 r.t_alloc r.pri_reducer) (λ events h. h))

-- Through any sequence of rounds, whatever the tables and the progress files hold, the scheduler sends a
-- slot only while no node has one, and awaits the answer of the node that has it before anything else is
-- sent; behind the last round no node has a slot.
pub rounds-OneAtATime :
    (l : List Input) (s : State) (outs : List (State × List Event))
    → rounds l s ≡ done outs
    → OneAtATime none (all_events outs)
rounds-OneAtATime =
    rounds-all_events (OneAtATime none) refl (λ xs ys h h'. OneAtATime-append none xs ys h h')
      serve-OneAtATime
