-- ===== src/Cluster/Threads/Exclusive.antt =====
-- No two nodes have a slot at once.
use rpi_hadoop.Prelude.{ℕ, ◌≡◌, ◌≢◌, refl, sym, ◌∙◌, true, List, none, some, done, is_positive}
use mathlib.Core.Path.{subst}
use native.Mathlib.Decide.{ℕ_discrete}
use rpi_hadoop.Scheduler.{State, Event}
use rpi_hadoop.Scheduler.Fairness.{Input, rounds}
use rpi_hadoop.Scheduler.Events.{all_events}
use rpi_hadoop.Scheduler.Exclusive.{OneAtATime, rounds-OneAtATime}
use rpi_hadoop.Scheduler.Grants.{AreGrants, rounds-AreGrants}
use rpi_hadoop.Cluster.Threads.{
  World, Action, publishes, silences, sends, hears, turns, Step, acts, stops, Reach, here, next,
  start,
}
use rpi_hadoop.Cluster.Threads.Turns.{
  IsIdle, IsBusy, put_self, put_other, put-all, put-kept, Turn-IsIdle, Turn-IsBusy, stopped-IsIdle,
  stopped-IsBusy, posted-IsBusy, heard-IsIdle,
}

pub data IsSound (w : World) : Type 0 where
  free : OneAtATime none w.ahead → AreGrants w.ahead → ((j : ℕ) → IsIdle (w.node j)) → IsSound w
  held :
      (k : ℕ)
      → OneAtATime (some k) w.ahead
      → AreGrants w.ahead
      → IsBusy (w.node k)
      → ((j : ℕ) → j ≢ k → IsIdle (w.node j))
      → IsSound w

pub Action-IsSound : {w w' : World} → IsSound w → Action w w' → IsSound w'
Action-IsSound (free one grants idle) (publishes later e) =
    free (subst (OneAtATime none) e one) (subst AreGrants e grants) idle
Action-IsSound (free one grants idle) (silences later e) =
    free (subst (OneAtATime none) e one) (subst AreGrants e grants) idle
Action-IsSound {w} (free one grants idle) (sends k message later e) =
    let one' = subst (OneAtATime none) e one in
    let grants' = subst AreGrants e grants in
    held k one'.1 grants'.1 (rw (put_self w.node k _) (posted-IsBusy message grants'.0 (idle k)))
      (λ j ne. rw (put_other w.node k _ j ne) (idle j))
Action-IsSound (free one grants idle) (hears k answer rest later e some_reply) =
    absurd (cc (subst (OneAtATime none) e one).0)
Action-IsSound (free one grants idle) (turns k n t) = absurd (Turn-IsIdle (idle k) t)
Action-IsSound (held k one grants busy idle) (publishes later e) =
    held k (subst (OneAtATime (some k)) e one) (subst AreGrants e grants) busy idle
Action-IsSound (held k one grants busy idle) (silences later e) =
    held k (subst (OneAtATime (some k)) e one) (subst AreGrants e grants) busy idle
Action-IsSound (held k one grants busy idle) (sends k' message later e) =
    absurd (cc (subst (OneAtATime (some k)) e one).0)
Action-IsSound {w} (held k one grants busy idle) (hears k' answer rest later e some_reply) =
    let one' = subst (OneAtATime (some k)) e one in
    let same : k ≡ k' = cc (one'.0) in
    free one'.1 (subst AreGrants e grants) (
      put-all w.node k' _ IsIdle (heard-IsIdle answer rest some_reply (rw (← same) busy))
        (λ j ne. idle j (rw same ne)))
Action-IsSound {w} (held k one grants busy idle) (turns k' n t) = elim (ℕ_discrete k k') [
  | yes e ↦
      held k' (rw (← e) one) grants (rw (put_self w.node k' n) (Turn-IsBusy (rw (← e) busy) t))
        (λ j ne. rw (put_other w.node k' n j ne) (idle j (rw e ne)))
  | no ne ↦ absurd (Turn-IsIdle (idle k' (λ e. ne (sym e))) t)
]

Step-IsSound : {w w' : World} → IsSound w → Step w w' → IsSound w'
Step-IsSound sound (acts a) = Action-IsSound sound a
Step-IsSound {w} (free one grants idle) (stops k) =
    free one grants (λ j. put-kept w.node k _ IsIdle stopped-IsIdle j (idle j))
Step-IsSound {w} (held k one grants busy idle) (stops k') =
    held k one grants (put-kept w.node k' _ IsBusy stopped-IsBusy k busy)
      (λ j ne. put-kept w.node k' _ IsIdle stopped-IsIdle j (idle j ne))

Reach-IsSound : {w w' : World} → IsSound w → Reach w w' → IsSound w'
Reach-IsSound sound here = sound
Reach-IsSound sound (next r step) = Step-IsSound (Reach-IsSound sound r) step

same_holder :
    {w : World}
    → IsSound w
    → (j k : ℕ) → is_positive (w.node j).slot.slot ≡ true
    → is_positive (w.node k).slot.slot ≡ true
    → j ≡ k
same_holder (free one grants idle) j k pj pk = absurd (cc ((idle j).slot, pj))
same_holder {w} (held h one grants busy idle) j k pj pk = own j pj ∙ sym (own k pk)
  where
    own : (i : ℕ) → is_positive (w.node i).slot.slot ≡ true → i ≡ h
    own i p = elim (ℕ_discrete i h) [ yes e ↦ e | no ne ↦ absurd (cc ((idle i ne).slot, p)) ]

module _ (l : List Input) (s : State) (outs : List (State × List Event))
    (run : rounds l s ≡ done outs) where
  pub rounds-IsSound : {w : World} → Reach (start (all_events outs)) w → IsSound w
  rounds-IsSound r =
      Reach-IsSound
        (free (rounds-OneAtATime l s outs run) (rounds-AreGrants l s outs run)
          (λ j. record { stage = refl; inbox = refl; replies = refl; slot = refl }))
        r

  -- The nodes, the master and the monitor take turns as they may: through any sequence of rounds, whatever the
  -- tables and the progress files hold, two nodes with a positive slot are the same node.
  pub Reach-one_sender :
      {w : World}
      → Reach (start (all_events outs)) w
      → (j k : ℕ) → is_positive (w.node j).slot.slot ≡ true
      → is_positive (w.node k).slot.slot ≡ true
      → j ≡ k
  Reach-one_sender r j k pj pk = same_holder (rounds-IsSound r) j k pj pk
