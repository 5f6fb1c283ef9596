-- ===== src/Scheduler/Events.antt =====
-- What holds of the events of each round, and of any two sequences of events joined, holds of all that a
-- sequence of rounds does.
use rpi_hadoop.Prelude.{ℕ, ◌≡◌, List, [], ◌∷◌, ◌++◌, done, Yields, Yields-bind}
use mathlib.Core.Path.{subst}
use rpi_hadoop.CArray.{IntArray}
use rpi_hadoop.Scheduler.{State, Event, serve, round_lem, Progress, read_progress}
use rpi_hadoop.Scheduler.Fairness.{Input, rounds}

-- All that the scheduler does on its sockets in a sequence of rounds.
abbrev pub all_events : List (State × List Event) → List Event
all_events [] = []
all_events (out ∷ outs) = out.1 ++ all_events outs

module _ (P : List Event → Type 0) (nothing : P [])
    (joined : (xs ys : List Event) → P xs → P ys → P (xs ++ ys))
    (each : (fuel : ℕ) (p reducer : IntArray) (job : Progress) (s : State)
      → Yields (λ (out : State × List Event). P out.1) (serve fuel p reducer job s)) where
  rounds-Yields :
      (l : List Input) (s : State)
      → Yields (λ (outs : List (State × List Event)). P (all_events outs)) (rounds l s)
  unfolding rounds
  rounds-Yields [] s = nothing
  rounds-Yields (i ∷ later) s = rw (round_lem 9 i.p i.reducer i.file s) (
      Yields-bind (λ (out : State × List Event). P out.1) _
        (serve 9 i.p i.reducer (read_progress i.file) s) _
        (each 9 i.p i.reducer (read_progress i.file) s)
        (λ out h.
          Yields-bind (λ (outs : List (State × List Event)). P (all_events outs)) _
            (rounds later out.0) _ (rounds-Yields later out.0)
            (λ outs h'. joined out.1 (all_events outs) h h')))

  pub rounds-all_events :
      (l : List Input) (s : State) (outs : List (State × List Event))
      → rounds l s ≡ done outs
      → P (all_events outs)
  rounds-all_events l s outs e =
      subst (Yields (λ (outs : List (State × List Event)). P (all_events outs))) e
        (rounds-Yields l s)
