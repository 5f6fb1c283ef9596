-- ===== src/Scheduler/Fairness.antt =====
-- No node starves: a node that has data keeps its turn coming.
use rpi_hadoop.Prelude.{
  ℕ, suc, ◌+◌, ◌-◌, ◌≤◌, ◌<◌, ◌≡◌, refl, ◌⊎◌, inl, inr, arith, ◌∙◌, sym, ap, List, [], ◌∷◌, Text,
  length, Run, done, ◌>>=◌, Option, All,
}
use native.Mathlib.Decide.{ℕ_discrete, dec_le}
use rpi_hadoop.CArray.{IntArray}
use rpi_hadoop.Report.{nodes}
use rpi_hadoop.Scheduler.{State, Event, Progress, publish, silence, full_slot, round, next_node}
use rpi_hadoop.Scheduler.RoundRobin.{
  HasData, FirstAhead, FirstAhead-range, next_reaches, ahead, ahead-add, ahead-suc, ahead_eq,
  NoData,
}
use rpi_hadoop.Scheduler.Round.{Turn, round_serves}
use rpi_hadoop.Scheduler.Dispatch.{slot_events}

-- What a round finds: the tables `p` and `reducer`, and the file of the job progress.
pub record Input : Type 0 where
  pub p : IntArray
  pub reducer : IntArray
  pub file : Option (List Text)

-- The loop `while (1)` over a sequence of rounds: the states behind them, and their events.
unfoldable pub rounds : List Input → State → Run (List (State × List Event))
rounds [] s = done []
rounds (i ∷ later) s = do
  out ← round 9 i.p i.reducer i.file s
  rest ← rounds later out.0
  done (out ∷ rest)

-- The round sent node `j` a whole slot.
abbrev pub GivesSlot : ℕ → State × List Event → Type 0
GivesSlot j out = (r : ℕ) × (out.1 ≡ publish ∷ silence ∷ slot_events j full_slot r)

abbrev pub Served : ℕ → List (State × List Event) → Type 0
Served j [] = ⊥
Served j (out ∷ outs) = GivesSlot j out ⊎ Served j outs

-- Node `j` has data whenever a round looks.
abbrev pub AlwaysReady : ℕ → List Input → Type 0
AlwaysReady j = All (λ (i : Input). HasData i.p j)

module _ {j : ℕ} (lo : 2 ≤ j) (hi : j < nodes) where
  rounds_total :
      (l : List Input) (s : State)
      → s.pri < nodes
      → AlwaysReady j l
      → (outs : List (State × List Event)) × (rounds l s ≡ done outs)
  unfolding rounds
  rounds_total [] s small h = ([], refl)
  rounds_total (i ∷ l) s small (ready, h) =
      let (k, out, run, first, t) = round_serves j i.p i.reducer i.file s small lo hi ready in
      let (outs, rest) = rounds_total l out.0 (rw t.now (FirstAhead-range small first).1) h in
      (out ∷ outs, rw (run, rest))

  gives_own_slot :
      {reducer : IntArray} {job : Progress} {k : ℕ} {out : State × List Event}
      → k ≡ j
      → Turn reducer job k out
      → GivesSlot j out
  gives_own_slot {k} e t =
      (t.pri_reducer, t.events ∙ rw e (ap (λ l. publish ∷ silence ∷ l) (ground arith)))

  -- The first node with data is no further than one that is known to have data.
  away-le :
      {p : IntArray} {start d e k : ℕ}
      → (first : FirstAhead p start e k) → ahead d start ≡ j
      → HasData p j
      → first.away ≤ d
  away-le {p} {start} {d} first place ready = elim (dec_le first.away d) [
    | yes le ↦ le
    | no gt ↦
        let empty : NoData p (ahead d start) = first.skipped d (omega arith) in
        let empty' : NoData p j = rw place at empty in cc
  ]

  closer :
      (start d e k : ℕ)
      → ahead d start ≡ j
      → ahead e start ≡ k
      → e < d
      → ahead (d - suc e) (next_node k) ≡ j
  closer start d e k place at_k lt =
      rw (← at_k, ← ahead-suc e start)
        (sym (ahead-add (suc e) (d - suc e) start)
          ∙ ahead_eq (suc e + (d - suc e)) d start (omega arith)
          ∙ place)

  serve_within :
      (d : ℕ) (l : List Input) (s : State)
      → s.pri < nodes
      → d < length l
      → ahead d (next_node s.pri) ≡ j
      → AlwaysReady j l
      → (outs : List (State × List Event)) × (rounds l s ≡ done outs) × Served j outs
  unfolding rounds
  serve_within d [] s small long place h = absurd (omega arith)
  serve_within d (i ∷ l) s small long place (ready, h) =
      let (k, out, run, first, t) = round_serves j i.p i.reducer i.file s small lo hi ready in
      let small' : out.0.pri < nodes = rw t.now (FirstAhead-range small first).1 in
      let le : first.away ≤ d = away-le first place ready in
      elim (ℕ_discrete first.away d) [
        | yes same ↦
            let k-j : k ≡ j =
              sym first.place ∙ ahead_eq first.away d (next_node s.pri) same ∙ place in
            let (outs, rest) = rounds_total l out.0 small' h in
            (out ∷ outs, rw (run, rest), inl (gives_own_slot k-j t))
        | no sooner ↦
            let nearer : ahead (d - suc first.away) (next_node out.0.pri) ≡ j =
              rw t.now (closer (next_node s.pri) d first.away k place first.place (omega arith)) in
            let (outs, rest, served) =
              serve_within (d - suc first.away) l out.0 small' (omega arith) nearer h in
            (out ∷ outs, rw (run, rest), inr served)
      ]

  -- A node from 2 to 9 that has data whenever a round looks is sent a whole slot in one of any nine
  -- rounds, whatever the other nodes report; and all these rounds end.
  pub rounds_serve :
      (l : List Input) (s : State)
      → s.pri < nodes
      → length l ≡ 9
      → AlwaysReady j l
      → (outs : List (State × List Event)) × (rounds l s ≡ done outs) × Served j outs
  rounds_serve l s small nine h =
      let (d, near, place) = next_reaches s.pri j small lo hi in
      serve_within d l s small (omega arith) place h
