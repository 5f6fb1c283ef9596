-- ===== src/Scheduler/RoundRobin.antt =====
-- The choice of the next node: `pri++` and the loop that skips the nodes without data.
use rpi_hadoop.Prelude.{
  ℕ, zero, suc, ◌+◌, ◌-◌, ◌≤◌, ◌<◌, ◌≡◌, refl, inl, inr, true, false, arith, ltb, leb, Bool-cases,
  lt→ltb, ltb→lt, ◌∙◌, ap, done, out_of_fuel, is_positive, is_zero, ℤ, pos, negsuc,
}
use rpi_hadoop.CArray.{IntArray}
use rpi_hadoop.Report.{nodes}
use rpi_hadoop.Scheduler.{next_node, skip_loop, next_pri}

-- The node that is `d` places behind another in the ring.
abbrev pub ahead : ℕ → ℕ → ℕ
ahead zero pri = pri
ahead (suc d) pri = ahead d (next_node pri)

abbrev pub HasData : IntArray → ℕ → Type 0
HasData p i = is_positive (p i) ≡ true

abbrev pub NoData : IntArray → ℕ → Type 0
NoData p i = is_positive (p i) ≡ false

pub nonzero_of_positive : (v : ℤ) → is_positive v ≡ true → is_zero v ≡ false
nonzero_of_positive (pos n) h = ground arith
nonzero_of_positive (negsuc n) h = refl

-- From `start` on, `k` is the first node with data, and at most `d` places away.
pub record FirstAhead (p : IntArray) (start d k : ℕ) : Type 0 where
  pub away : ℕ
  pub near : away ≤ d
  pub place : ahead away start ≡ k
  pub ready : HasData p k
  pub skipped : (e : ℕ) → e < away → NoData p (ahead e start)

pub widen :
    {p : IntArray} {start d k : ℕ} (e : ℕ) → d ≤ e → FirstAhead p start d k → FirstAhead p start e k
widen e h first = record {
  away = first.away;
  near = omega (arith, first.near);
  place = first.place;
  ready = first.ready;
  skipped = first.skipped;
}

pub next_node-lt : (pri : ℕ) → pri < nodes → next_node pri < nodes
next_node-lt pri h = ground arith

pub ahead-lt : (d pri : ℕ) → pri < nodes → ahead d pri < nodes
ahead-lt zero pri h = h
ahead-lt (suc d) pri h = ahead-lt d (next_node pri) (next_node-lt pri h)

pub ahead-pos : (d pri : ℕ) → 1 ≤ pri → 1 ≤ ahead d pri
ahead-pos zero pri h = h
ahead-pos (suc d) pri h = ahead-pos d (next_node pri) (ground arith)

-- The first node with data behind `pri` is one of the nodes 1 to 9.
pub FirstAhead-range :
    {p : IntArray} {pri d k : ℕ}
    → pri < nodes
    → FirstAhead p (next_node pri) d k
    → (1 ≤ k) × (k < nodes)
FirstAhead-range {pri} h first = (
  rw (← first.place) (ahead-pos first.away (next_node pri) (ground arith)),
  rw (← first.place) (ahead-lt first.away (next_node pri) (next_node-lt pri h)),
)

skip_stop :
    (fuel : ℕ) (p : IntArray) (pri : ℕ)
    → pri < nodes
    → HasData p pri
    → skip_loop (suc fuel) p pri ≡ done pri
unfolding skip_loop
skip_stop fuel p pri h ready = rw (lt→ltb pri nodes h, ready)

pub skip_next :
    (fuel : ℕ) (p : IntArray) (pri : ℕ)
    → pri < nodes
    → NoData p pri
    → skip_loop (suc fuel) p pri ≡ skip_loop fuel p (next_node pri)
unfolding skip_loop
skip_next fuel p pri h empty = rw (lt→ltb pri nodes h, empty)

skip_loop_first :
    (d fuel pri : ℕ) (p : IntArray)
    → pri < nodes
    → d < fuel
    → HasData p (ahead d pri)
    → (k : ℕ) × (skip_loop fuel p pri ≡ done k) × FirstAhead p pri d k
skip_loop_first d zero pri p h f r = absurd (omega arith)
skip_loop_first zero (suc fuel) pri p h f r = (
  pri,
  skip_stop fuel p pri h r,
  record {
    away = 0;
    near = omega arith;
    place = refl;
    ready = r;
    skipped = λ e lt. absurd (omega arith);
  },
)
skip_loop_first (suc d) (suc fuel) pri p h f r = elim (Bool-cases (is_positive (p pri))) [
  | inl ready ↦ (
    pri,
    skip_stop fuel p pri h ready,
    record {
      away = 0;
      near = omega arith;
      place = refl;
      ready = ready;
      skipped = λ e lt. absurd (omega arith);
    },
  )
  | inr empty ↦
      let (k, run, first) =
        skip_loop_first d fuel (next_node pri) p (next_node-lt pri h) (omega arith) r in
      (k, skip_next fuel p pri h empty ∙ run, further empty first)
]
  where
    further : {k : ℕ} → NoData p pri → FirstAhead p (next_node pri) d k → FirstAhead p pri (suc d) k
    further empty first = record {
      away = suc first.away;
      near = omega (arith, first.near);
      place = first.place;
      ready = first.ready;
      skipped = before;
    }
      where
        before : (e : ℕ) → e < suc first.away → NoData p (ahead e pri)
        before zero lt = empty
        before (suc e) lt = first.skipped e (omega arith)

-- Every node from 2 on is at most seven places behind any node from 2 on.
pub ahead_up : (d pri : ℕ) → pri + d < nodes → ahead d pri ≡ pri + d
ahead_up zero pri h = omega arith
ahead_up (suc d) pri h = elim (Bool-cases (leb nodes (pri + 1))) [
  | inl wrap ↦ absurd (ground arith)
  | inr up ↦ rw up (ahead_up d (pri + 1) (omega arith) ∙ omega arith)
]

pub ahead_eq : (a b pri : ℕ) → a ≡ b → ahead a pri ≡ ahead b pri
ahead_eq a b pri e = ap (λ n. ahead n pri) e

pub ahead-add : (d e pri : ℕ) → ahead (d + e) pri ≡ ahead e (ahead d pri)
ahead-add zero e pri = ahead_eq (0 + e) e pri (omega arith)
ahead-add (suc d) e pri =
    ahead_eq (suc d + e) (suc (d + e)) pri (omega arith) ∙ ahead-add d e (next_node pri)

pub ahead-suc : (d pri : ℕ) → ahead (suc d) pri ≡ next_node (ahead d pri)
ahead-suc zero pri = refl
ahead-suc (suc d) pri = ahead-suc d (next_node pri)

ahead_wrap : (pri : ℕ) → 2 ≤ pri → pri < nodes → ahead (nodes - pri) pri ≡ 2
ahead_wrap pri lo hi =
    ahead_eq (nodes - pri) (suc (9 - pri)) pri (omega arith)
    ∙ ahead-suc (9 - pri) pri
    ∙ rw (ahead_up (9 - pri) pri (omega arith)) (ground arith)

pub ahead_reaches :
    (pri j : ℕ) → 2 ≤ pri → pri < nodes → 2 ≤ j → j < nodes → (d : ℕ) × (d ≤ 7) × (ahead d pri ≡ j)
ahead_reaches pri j lo hi lo' hi' = elim (Bool-cases (ltb j pri)) [
  | inl behind ↦
      let lt = ltb→lt j pri behind in
      (
        (nodes - pri) + (j - 2),
        omega arith,
        ahead-add (nodes - pri) (j - 2) pri
            ∙ rw (ahead_wrap pri lo hi) (ahead_up (j - 2) 2 (omega arith) ∙ omega arith),
      )
  | inr after ↦ (j - pri, omega arith, ahead_up (j - pri) pri (ground arith) ∙ ground arith)
]

next_pri-skip_loop :
    (fuel pri : ℕ) (p : IntArray) → next_pri fuel p pri ≡ skip_loop fuel p (next_node pri)
unfolding next_pri
next_pri-skip_loop fuel pri p = ap (skip_loop fuel p) (ground arith)

-- With a node in view the choice is made within as many rounds of the loop as the node is away.
pub next_pri_first :
    (d fuel pri : ℕ) (p : IntArray)
    → pri < nodes
    → d < fuel
    → HasData p (ahead d (next_node pri))
    → (k : ℕ) × (next_pri fuel p pri ≡ done k) × FirstAhead p (next_node pri) d k
next_pri_first d fuel pri p h f r =
    let (k, run, first) = skip_loop_first d fuel (next_node pri) p (next_node-lt pri h) f r in
    (k, next_pri-skip_loop fuel pri p ∙ run, first)

-- From any last node a node from 2 on is at most eight places behind the next one.
pub next_reaches :
    (pri j : ℕ)
    → pri < nodes
    → 2 ≤ j
    → j < nodes
    → (d : ℕ) × (d ≤ 8) × (ahead d (next_node pri) ≡ j)
next_reaches zero j hi lo' hi' =
    let (d, near, place) = ahead_reaches 2 j (omega arith) (omega arith) lo' hi' in
    (suc d, omega arith, place)
next_reaches (suc pri) j hi lo' hi' =
    let (d, near, place) =
      ahead_reaches (next_node (suc pri)) j (ground arith) (next_node-lt (suc pri) hi) lo' hi' in
    (d, omega arith, place)

-- The choice of the next node ends, within nine rounds of its loop, if one of the nodes 2 to 9 has
-- data, and yields the first node behind the last one, round the ring, that has data.
pub next_pri_total :
    (pri j : ℕ) (p : IntArray)
    → pri < nodes
    → 2 ≤ j
    → j < nodes
    → HasData p j
    → (k : ℕ) × (next_pri 9 p pri ≡ done k) × FirstAhead p (next_node pri) 8 k
next_pri_total pri j p hi lo' hi' r =
    let (d, near, place) = next_reaches pri j hi lo' hi' in
    let (k, run, first) = next_pri_first d 9 pri p hi (omega arith) (rw place r) in
    (k, run, widen 8 near first)

skip_loop_hangs :
    (fuel pri : ℕ) (p : IntArray)
    → 2 ≤ pri
    → pri < nodes
    → ((j : ℕ) → 2 ≤ j → j < nodes → NoData p j)
    → skip_loop fuel p pri ≡ out_of_fuel
skip_loop_hangs zero pri p lo hi h = unfold skip_loop in refl
skip_loop_hangs (suc fuel) pri p lo hi h =
    skip_next fuel p pri hi (h pri lo hi)
    ∙ skip_loop_hangs fuel (next_node pri) p (ground arith) (next_node-lt pri hi) h

-- If none of the nodes 2 to 9 has data, the loop runs for ever.
pub next_pri_hangs :
    (fuel pri : ℕ) (p : IntArray)
    → 1 ≤ pri
    → pri < nodes
    → ((j : ℕ) → 2 ≤ j → j < nodes → NoData p j)
    → next_pri fuel p pri ≡ out_of_fuel
next_pri_hangs fuel pri p one hi h =
    next_pri-skip_loop fuel pri p
    ∙ skip_loop_hangs fuel (next_node pri) p (ground arith) (next_node-lt pri hi) h
