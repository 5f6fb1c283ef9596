-- ===== src/Handshake/Invariant.antt =====
-- How far the master and a node can be apart.
use rpi_hadoop.Prelude.{
  ℕ, ◌+◌, ◌-◌, ◌≤◌, ◌<◌, ◌≡◌, ◌≢◌, sym, Bool, arith, some, ltb, if◌then◌else◌, ◌⊎◌,
}
use native.Mathlib.Decide.{ℕ_discrete}
use rpi_hadoop.Handshake.{
  receive, start_reports, answer, master_action, request, await, start_config, start_report,
  node_action, System, put, IsNode, start, Step, master_receives, master_starts, master_answers,
  node_requests, node_awaits, node_configures, node_reports, Reach, here, next,
}

abbrev count : Bool → ℕ
count b = if b then 1 else 0

-- How often the master at `pc` has received from node `k`, and answered it.
abbrev pub received : ℕ → ℕ → ℕ
received pc k = count (ltb k (pc + 2)) + count (ltb (k + 15) pc)

abbrev pub answered : ℕ → ℕ → ℕ
answered pc k = count (ltb (k + 7) pc)

-- How often a node at `pc` has sent a request, and got an answer.
abbrev pub asked : ℕ → ℕ
asked pc = count (ltb 0 pc) + count (ltb 2 pc)

abbrev pub got : ℕ → ℕ
got pc = count (ltb 1 pc)

-- The messages of node `k` on their way are those sent and not yet received.
pub record Balanced (pc k node requests replies : ℕ) : Type 0 where
  pub requests_sent : requests + received pc k ≡ asked node
  pub replies_sent : replies + got node ≡ answered pc k
  pub ends : node ≤ 5

pub record IsSound (s : System) : Type 0 where
  pub balanced : (k : ℕ) → IsNode k → Balanced s.master k (s.node k) (s.requests k) (s.replies k)
  pub ends : s.master ≤ 25

receive_at :
    (pc k : ℕ)
    → master_action pc ≡ some (receive k)
    → ((pc < 8) × (k ≡ pc + 2)) ⊎ ((17 ≤ pc) × (pc < 25) × (k + 15 ≡ pc))
unfolding master_action
receive_at pc k e = ground arith

start_at : (pc : ℕ) → master_action pc ≡ some start_reports → pc ≡ 8
unfolding master_action
start_at pc e = ground arith

answer_at : (pc k : ℕ) → master_action pc ≡ some (answer k) → (9 ≤ pc) × (pc < 17) × (k + 7 ≡ pc)
unfolding master_action
answer_at pc k e = ground arith

request_at : (pc : ℕ) → node_action pc ≡ some request → (pc ≡ 0) ⊎ (pc ≡ 2)
unfolding node_action
request_at pc e = ground arith

await_at : (pc : ℕ) → node_action pc ≡ some await → pc ≡ 1
unfolding node_action
await_at pc e = ground arith

config_at : (pc : ℕ) → node_action pc ≡ some start_config → pc ≡ 3
unfolding node_action
config_at pc e = ground arith

report_at : (pc : ℕ) → node_action pc ≡ some start_report → pc ≡ 4
unfolding node_action
report_at pc e = ground arith

put_self : (f : ℕ → ℕ) (k v : ℕ) → put f k v k ≡ v
put_self f k v = ground arith

put_other : (f : ℕ → ℕ) (k v j : ℕ) → j ≢ k → put f k v j ≡ f j
put_other f k v j h = ground arith

-- A change at node `k`, seen from node `j`.
at_node :
    (P : ℕ → ℕ → Type 0) (f : ℕ → ℕ) (k v j : ℕ)
    → (j ≡ k → P k v)
    → (j ≢ k → P j (f j))
    → P j (put f k v j)
at_node P f k v j changed kept = elim (ℕ_discrete j k) [
  | yes same ↦ rw (same, put_self f k v) (changed same)
  | no away ↦ rw (put_other f k v j away) (kept away)
]

receives-here :
    (pc k n q r : ℕ)
    → Balanced pc k n q r
    → master_action pc ≡ some (receive k)
    → 1 ≤ q
    → Balanced (pc + 1) k n (q - 1) r
receives-here pc k n q r b e h = grind (arith, receive_at pc k e)

receives-other :
    (pc k j n q r : ℕ)
    → Balanced pc j n q r
    → master_action pc ≡ some (receive k)
    → IsNode j
    → j ≢ k
    → Balanced (pc + 1) j n q r
receives-other pc k j n q r b e i h = grind (arith, receive_at pc k e)

starts-any :
    (pc j n q r : ℕ)
    → Balanced pc j n q r
    → master_action pc ≡ some start_reports
    → IsNode j
    → Balanced (pc + 1) j n q r
starts-any pc j n q r b e i = grind (arith, start_at pc e)

answers-here :
    (pc k n q r : ℕ)
    → Balanced pc k n q r
    → master_action pc ≡ some (answer k)
    → Balanced (pc + 1) k n q (r + 1)
answers-here pc k n q r b e = grind (arith, answer_at pc k e)

answers-other :
    (pc k j n q r : ℕ)
    → Balanced pc j n q r
    → master_action pc ≡ some (answer k)
    → IsNode j
    → j ≢ k
    → Balanced (pc + 1) j n q r
answers-other pc k j n q r b e i h = grind (arith, answer_at pc k e)

requests-here :
    (pc k n q r : ℕ)
    → Balanced pc k n q r
    → node_action n ≡ some request
    → Balanced pc k (n + 1) (q + 1) r
requests-here pc k n q r b e = grind (arith, request_at n e)

awaits-here :
    (pc k n q r : ℕ)
    → Balanced pc k n q r
    → node_action n ≡ some await
    → 1 ≤ r
    → Balanced pc k (n + 1) q (r - 1)
awaits-here pc k n q r b e h = grind (arith, await_at n e)

configures-here :
    (pc k n q r : ℕ)
    → Balanced pc k n q r
    → node_action n ≡ some start_config
    → Balanced pc k (n + 1) q r
configures-here pc k n q r b e = grind (arith, config_at n e)

reports-here :
    (pc k n q r : ℕ)
    → Balanced pc k n q r
    → node_action n ≡ some start_report
    → Balanced pc k (n + 1) q r
reports-here pc k n q r b e = grind (arith, report_at n e)

-- A change of two counts at node `k`, seen from node `j`.
at_node_twice :
    (P : ℕ → ℕ → ℕ → Type 0) (f g : ℕ → ℕ) (k v w j : ℕ)
    → (j ≡ k → P k v w)
    → (j ≢ k → P j (f j) (g j))
    → P j (put f k v j) (put g k w j)
at_node_twice P f g k v w j changed kept = elim (ℕ_discrete j k) [
  | yes same ↦ rw (same, put_self f k v, put_self g k w) (changed same)
  | no away ↦ rw (put_other f k v j away, put_other g k w j away) (kept away)
]

pub start-IsSound : IsSound start
start-IsSound = record {
  balanced =
      λ k i. record { requests_sent = grind arith; replies_sent = grind arith; ends = omega arith };
  ends = omega arith;
}

pub Step-IsSound : {s t : System} → Step s t → IsSound s → IsSound t
Step-IsSound {s} (master_receives k e h) is = record {
  balanced = λ j i.
      at_node (λ x q. Balanced (s.master + 1) x (s.node x) q (s.replies x)) s.requests k _ j
        (λ same. receives-here s.master k _ _ _ (is.balanced k (rw (sym same) i)) e h)
        (λ away. receives-other s.master k j _ _ _ (is.balanced j i) e i away);
  ends = grind (arith, is.ends, receive_at s.master k e);
}
Step-IsSound {s} (master_starts e) is = record {
  balanced = λ j i. starts-any s.master j _ _ _ (is.balanced j i) e i;
  ends = omega (arith, start_at s.master e);
}
Step-IsSound {s} (master_answers k e) is = record {
  balanced = λ j i.
      at_node (λ x r. Balanced (s.master + 1) x (s.node x) (s.requests x) r) s.replies k _ j
        (λ same. answers-here s.master k _ _ _ (is.balanced k (rw (sym same) i)) e)
        (λ away. answers-other s.master k j _ _ _ (is.balanced j i) e i away);
  ends = omega (arith, answer_at s.master k e);
}
Step-IsSound {s} (node_requests k i e) is = record {
  balanced = λ j i'.
      at_node_twice (λ x n q. Balanced s.master x n q (s.replies x)) s.node s.requests k _ _ j
        (λ same. requests-here s.master k _ _ _ (is.balanced k i) e) (λ away. is.balanced j i');
  ends = is.ends;
}
Step-IsSound {s} (node_awaits k i e h) is = record {
  balanced = λ j i'.
      at_node_twice (λ x n r. Balanced s.master x n (s.requests x) r) s.node s.replies k _ _ j
        (λ same. awaits-here s.master k _ _ _ (is.balanced k i) e h) (λ away. is.balanced j i');
  ends = is.ends;
}
Step-IsSound {s} (node_configures k i e) is = record {
  balanced = λ j i'.
      at_node (λ x n. Balanced s.master x n (s.requests x) (s.replies x)) s.node k _ j
        (λ same. configures-here s.master k _ _ _ (is.balanced k i) e) (λ away. is.balanced j i');
  ends = is.ends;
}
Step-IsSound {s} (node_reports k i e) is = record {
  balanced = λ j i'.
      at_node (λ x n. Balanced s.master x n (s.requests x) (s.replies x)) s.node k _ j
        (λ same. reports-here s.master k _ _ _ (is.balanced k i) e) (λ away. is.balanced j i');
  ends = is.ends;
}

pub Reach-IsSound : {n : ℕ} {s : System} → Reach n s → IsSound s
Reach-IsSound here = start-IsSound
Reach-IsSound (next r st) = Step-IsSound st (Reach-IsSound r)
