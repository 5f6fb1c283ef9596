-- ===== src/Tests/Scheduling.antt =====
-- Rounds of the scheduler at concrete inputs.
use rpi_hadoop.Prelude.{
  ltb, if◌then◌else◌, ℕ, ◌≡◌, refl, List, [], ◌∷◌, none, some, arith, Text, codes, done,
  out_of_fuel, pos,
}
use rpi_hadoop.CText.{tokens, atoi}
use rpi_hadoop.CArray.{IntArray, zeros, update}
use rpi_hadoop.Scheduler.{State, Event, round, next_node, read_progress, no_progress}
use rpi_hadoop.Scheduler.RoundRobin.{FirstAhead}
use rpi_hadoop.Scheduler.Jobs.{Best, read_progress-Best}
use rpi_hadoop.Scheduler.Round.{Turn, round_serves, round_hangs}
use rpi_hadoop.Scheduler.Live.{Found, search_live, search_live-Found}
use rpi_hadoop.Scheduler.Fairness.{Input, rounds, Served, rounds_serve}

abbrev two_ready : IntArray
two_ready = update (update zeros 3 (pos 10)) 7 (pos 20)

abbrev first : State
first = record { pri = 0; t_alloc = zeros; slot = pos 0 }

abbrev after_three : State
after_three = record { pri = 3; t_alloc = zeros; slot = pos 0 }

round_serves_example :
    (k : ℕ) × (out : State × List Event) × (round 9 two_ready zeros none after_three ≡ done out)
    × FirstAhead two_ready (next_node 3) 8 k
    × Turn zeros (read_progress none) k out
round_serves_example =
    round_serves 3 two_ready zeros none after_three (omega arith) (omega arith) (omega arith) refl

-- Only node 1 has data.
round_hangs_example : round 1000 (update zeros 1 (pos 5)) zeros none after_three ≡ out_of_fuel
round_hangs_example =
    round_hangs 1000 1 (update zeros 1 (pos 5)) zeros none after_three (omega arith) (omega arith)
      (omega arith) (omega arith) refl (λ i lo hi. ground arith)

abbrev input : Input
input = record { p = two_ready; reducer = zeros; file = none }

abbrev inputs : List Input
inputs = input ∷ input ∷ input ∷ input ∷ input ∷ input ∷ input ∷ input ∷ input ∷ []

rounds_serve_example :
    (outs : List (State × List Event)) × (rounds inputs first ≡ done outs) × Served 7 outs
rounds_serve_example =
    rounds_serve {j = 7} (omega arith) (omega arith) inputs first (omega arith) refl
      (refl, (refl, (refl, (refl, (refl, (refl, (refl, (refl, (refl, tt)))))))))

-- The reports of nodes 3 and 7 come in before the fourth read.
abbrev filling : ℕ → IntArray
filling t = if ltb t 3 then zeros else two_ready

search_live-Found_example : Found filling 13 (search_live 13 filling 0 9)
search_live-Found_example =
    search_live-Found filling 3 13 9 3 (omega arith) (omega arith) (omega arith)
      (λ i le. ground arith) (omega arith)

abbrev progress_file : List Text
progress_file = codes "12:30" ∷ codes "13:80" ∷ codes "14" ∷ codes "15:80" ∷ []

progress_test :
    read_progress (some progress_file)
    ≡ record { job_temp = pos 15; max_progress = pos 80; pri_job = pos 13 }
unfolding read_progress tokens atoi
progress_test = refl

read_progress-Best_example : Best progress_file no_progress (read_progress (some progress_file))
read_progress-Best_example = read_progress-Best progress_file
