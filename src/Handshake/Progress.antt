-- ===== src/Handshake/Progress.antt =====
-- The exchange never stops before its end, and nothing starts too early.
use rpi_hadoop.Prelude.{
  ℕ, zero, suc, ◌+◌, ◌-◌, ◌*◌, ◌≤◌, ◌<◌, ◌≡◌, refl, ap, ◌∙◌, arith, some, ◌⊎◌, inl, inr,
}
use native.Mathlib.Decide.{ℕ_discrete, dec_lt}
use rpi_hadoop.Handshake.{
  receive, start_reports, answer, master_action, request, await, start_config, start_report,
  node_action, System, put, IsNode, Step, master_receives, master_starts, master_answers,
  node_requests, node_awaits, node_configures, node_reports, Reach, here, next,
}
use rpi_hadoop.Handshake.Invariant.{Balanced, IsSound, Reach-IsSound}

pub Finished : System → Type 0
Finished s = (s.master ≡ 25) × ((k : ℕ) → IsNode k → s.node k ≡ 5)

node_actions :
    (node_action 0 ≡ some request)
    × (node_action 1 ≡ some await)
    × (node_action 2 ≡ some request)
    × (node_action 3 ≡ some start_config)
    × (node_action 4 ≡ some start_report)
unfolding node_action
node_actions = (refl, refl, refl, refl, refl)

-- A node that is not at its end can act, unless it waits for an answer that has not been sent.
node_can :
    (s : System) (k : ℕ)
    → IsNode k
    → s.node k < 5
    → (s.node k ≡ 1 → 1 ≤ s.replies k)
    → (t : System) × Step s t
node_can s k i lt replied = go (s.node k) refl lt
  where
    at : (n : ℕ) → s.node k ≡ n → node_action (s.node k) ≡ node_action n
    at n e = ap node_action e

    go : (n : ℕ) → s.node k ≡ n → n < 5 → (t : System) × Step s t
    go zero e h = (_, node_requests k i (at 0 e ∙ node_actions.0))
    go (suc zero) e h = (_, node_awaits k i (at 1 e ∙ node_actions.1) (replied e))
    go (suc (suc zero)) e h = (_, node_requests k i (at 2 e ∙ node_actions.2))
    go (suc (suc (suc zero))) e h = (_, node_configures k i (at 3 e ∙ node_actions.3))
    go (suc (suc (suc (suc zero)))) e h = (_, node_reports k i (at 4 e ∙ node_actions.4))
    go (suc (suc (suc (suc (suc n))))) e h = absurd (omega arith)

receive_first : (pc : ℕ) → pc < 8 → master_action pc ≡ some (receive (pc + 2))
unfolding master_action
receive_first pc h = ground arith

starts_at : (pc : ℕ) → pc ≡ 8 → master_action pc ≡ some start_reports
unfolding master_action
starts_at pc h = ground arith

answers_at : (pc : ℕ) → 9 ≤ pc → pc < 17 → master_action pc ≡ some (answer (pc - 7))
unfolding master_action
answers_at pc h h' = ground arith

receive_second : (pc : ℕ) → 17 ≤ pc → pc < 25 → master_action pc ≡ some (receive (pc - 15))
unfolding master_action
receive_second pc h h' = ground arith

-- A node from which the master waits for a request can act.
awaited :
    (pc k n q r : ℕ)
    → Balanced pc k n q r
    → q ≡ 0
    → ((pc < 8) × (k ≡ pc + 2)) ⊎ ((17 ≤ pc) × (pc < 25) × (k + 15 ≡ pc))
    → (n < 5) × (n ≡ 1 → 1 ≤ r)
awaited pc k n q r b e at = (grind arith, λ one. grind arith)

receiving :
    (s : System) (k : ℕ)
    → IsSound s
    → IsNode k
    → master_action s.master ≡ some (receive k)
    → ((s.master < 8) × (k ≡ s.master + 2))
      ⊎ ((17 ≤ s.master) × (s.master < 25) × (k + 15 ≡ s.master))
    → (t : System) × Step s t
receiving s k is i e at = elim (ℕ_discrete (s.requests k) 0) [
  | yes none_left ↦
      (let (behind, replied) =
          awaited s.master k (s.node k) (s.requests k) (s.replies k) (is.balanced k i) none_left
            at in
        node_can s k i behind replied)
  | no some_left ↦ (_, master_receives k e (omega arith))
]

-- The master at an action that is not its last can act, or the node that it waits for can.
master_can : (s : System) → IsSound s → s.master < 25 → (t : System) × Step s t
master_can s is lt = elim (dec_lt s.master 8) [
  | yes first ↦
      receiving s (s.master + 2) is (omega arith) (receive_first s.master first) (inl (first, refl))
  | no not_first ↦ elim (ℕ_discrete s.master 8) [
    | yes starting ↦ (_, master_starts (starts_at s.master starting))
    | no not_start ↦ elim (dec_lt s.master 17) [
      | yes answering ↦
          (_, master_answers (s.master - 7) (answers_at s.master (omega arith) answering))
      | no not_answer ↦
          receiving s (s.master - 15) is (omega arith) (receive_second s.master (omega arith) lt)
            (inr (omega arith, lt, omega arith))
    ]
  ]
]

replied_at_end : (pc k n q r : ℕ) → pc ≡ 25 → IsNode k → Balanced pc k n q r → n ≡ 1 → 1 ≤ r
replied_at_end pc k n q r at i b e = grind arith

-- All nodes stand at their end, or one can act.
nodes_can :
    (s : System) (left : ℕ)
    → IsSound s
    → s.master ≡ 25
    → left ≤ 8
    → ((t : System) × Step s t) ⊎ ((k : ℕ) → IsNode k → k < 2 + left → s.node k ≡ 5)
nodes_can s zero is e le = inr (λ k i lt. absurd (omega arith))
nodes_can s (suc left) is e le = elim (nodes_can s left is e (omega arith)) [
  | inl step ↦ inl step
  | inr ended ↦ elim (dec_lt (s.node (2 + left)) 5) [
    | yes behind ↦ inl (
        node_can s (2 + left) (omega arith) behind (λ one.
          replied_at_end s.master (2 + left) _ _ _ e (omega arith)
            (is.balanced (2 + left) (omega arith)) one))
    | no at_end ↦ inr (λ k i lt. elim (ℕ_discrete k (2 + left)) [
      | yes last ↦ rw last (omega (arith, (is.balanced (2 + left) (omega arith)).ends))
      | no before ↦ ended k i (omega arith)
    ])
  ]
]

-- The actions of the first nodes, from node 2 on.
sum : ℕ → (ℕ → ℕ) → ℕ
sum zero f = 0
sum (suc left) f = sum left f + f (2 + left)

sum-put_far : (left : ℕ) (f : ℕ → ℕ) (k v : ℕ) → 2 + left ≤ k → sum left (put f k v) ≡ sum left f
unfolding sum
sum-put_far zero f k v h = refl
sum-put_far (suc left) f k v h = ground (arith, sum-put_far left f k v)

sum-put :
    (left : ℕ) (f : ℕ → ℕ) (k : ℕ)
    → 2 ≤ k
    → k < 2 + left
    → sum left (put f k (f k + 1)) ≡ sum left f + 1
unfolding sum
sum-put zero f k lo hi = absurd (omega arith)
sum-put (suc left) f k lo hi = elim (ℕ_discrete k (2 + left)) [
  | yes last ↦ rw last (ground (arith, sum-put_far left f (2 + left) (f (2 + left) + 1)))
  | no before ↦ ground (arith, sum-put left f k lo)
]

sum-le : (left : ℕ) (f : ℕ → ℕ) → ((k : ℕ) → IsNode k → f k ≤ 5) → left ≤ 8 → sum left f ≤ 5 * left
unfolding sum
sum-le zero f h le = omega arith
sum-le (suc left) f h le = omega (arith, sum-le left f h (omega arith), h (2 + left) (omega arith))

sum-zero : (left : ℕ) → sum left (λ k. 0) ≡ 0
unfolding sum
sum-zero zero = refl
sum-zero (suc left) = omega (arith, sum-zero left)

Step-sum : {s t : System} → Step s t → t.master + sum 8 t.node ≡ s.master + sum 8 s.node + 1
Step-sum {s} (master_receives k e h) = omega arith
Step-sum {s} (master_starts e) = omega arith
Step-sum {s} (master_answers k e) = omega arith
Step-sum {s} (node_requests k i e) = omega (arith, sum-put 8 s.node k i.0 (omega arith))
Step-sum {s} (node_awaits k i e h) = omega (arith, sum-put 8 s.node k i.0 (omega arith))
Step-sum {s} (node_configures k i e) = omega (arith, sum-put 8 s.node k i.0 (omega arith))
Step-sum {s} (node_reports k i e) = omega (arith, sum-put 8 s.node k i.0 (omega arith))

Reach-sum : {n : ℕ} {s : System} → Reach n s → n ≡ s.master + sum 8 s.node
Reach-sum here = omega (arith, sum-zero 8)
Reach-sum (next r st) = omega (arith, Reach-sum r, Step-sum st)

-- However the master and the nodes take turns, the exchange never stops before its end, and ends after at
-- most 65 actions: in every state that is reached an action is possible, or the master and all nodes have
-- done all of theirs.
pub Reach-Finished :
    {n : ℕ} {s : System} → Reach n s → (n ≤ 65) × (((t : System) × Step s t) ⊎ Finished s)
unfolding Finished
Reach-Finished {n} {s} r = (
  omega
      (arith, Reach-sum r, is.ends, sum-le 8 s.node (λ k i. (is.balanced k i).ends) (omega arith)),
  elim (dec_lt s.master 25) [
    | yes going ↦ inl (master_can s is going)
    | no over ↦ elim (nodes_can s 8 is (omega (arith, is.ends)) (omega arith)) [
      | inl step ↦ inl step
      | inr ended ↦ inr (omega (arith, is.ends), λ k i. ended k i (omega arith))
    ]
  ],
)
  where
    is : IsSound s
    is = Reach-IsSound r

at_most_one : (pc k n q r : ℕ) → Balanced pc k n q r → q ≤ 1
at_most_one pc k n q r b = grind arith

started : (pc k n q r : ℕ) → Balanced pc k n q r → IsNode k → n ≡ 5 → 9 ≤ pc
started pc k n q r b i e = grind arith

-- No node sends reports before the master's thread for reports has been started, and no node has more
-- than one request on its way.
pub Reach-started :
    {n : ℕ} {s : System}
    → Reach n s
    → (k : ℕ) → IsNode k
    → (s.node k ≡ 5 → 9 ≤ s.master) × (s.requests k ≤ 1)
Reach-started {n} {s} r k i =
    (started s.master k _ _ _ (balanced k i) i, at_most_one s.master k _ _ _ (balanced k i))
  where
    open (Reach-IsSound r) use {balanced}
