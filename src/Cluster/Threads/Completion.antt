-- ===== src/Cluster/Threads/Completion.antt =====
-- The master is never left waiting: from wherever the threads stand, they can go on to the end of its
-- rounds.
use rpi_hadoop.Prelude.{
  ℕ, zero, suc, ◌-◌, ◌<◌, ◌≡◌, refl, ap, ◌∙◌, false, List, [], ◌∷◌, ◌++◌, none, some, Text, codes,
  done, arith, ℤ, pos, negsuc, InInt, pos_part, is_positive,
}
use mathlib.Core.Path.{subst}
use native.Mathlib.Decide.{dec_le}
use rpi_hadoop.Scheduler.{State, Event, publish, silence, sent, awaited}
use rpi_hadoop.Scheduler.Fairness.{Input, rounds}
use rpi_hadoop.Scheduler.Events.{all_events}
use rpi_hadoop.Scheduler.Exclusive.{OneAtATime}
use rpi_hadoop.Slot.Grant.{above_100, below_100}
use rpi_hadoop.Cluster.{put}
use rpi_hadoop.Cluster.Threads.{
  waiting, counting, ending, NodeThread, Turn, receives, sleeps, leaves, answers, World, Action,
  publishes, silences, sends, hears, turns, Reach, Continues, stays, goes_on, start,
}
use rpi_hadoop.Cluster.Threads.Turns.{
  IsIdle, IsBusy, on_way, runs, ends, answered, take_message-grant, put_self,
}
use rpi_hadoop.Cluster.Threads.Exclusive.{IsSound, free, held, Action-IsSound, rounds-IsSound}

-- The turns of one node's `recv_config`, one after another.
data Turns : NodeThread → NodeThread → Type 0 where
  over : (n : NodeThread) → Turns n n
  turn : {n n' n'' : NodeThread} → Turn n n' → Turns n' n'' → Turns n n''

-- `recv_config` has left its loop.
record Counted (n : NodeThread) : Type 0 where
  after : NodeThread
  path : Turns n after
  stage : after.stage ≡ ending
  replies : after.replies ≡ []

leaves_now :
    (n : NodeThread)
    → n.stage ≡ counting
    → n.replies ≡ []
    → is_positive n.slot.slot ≡ false
    → Counted n
leaves_now n at r p = record {
  after = record n { stage = ending };
  path = turn (leaves at p) (over _);
  stage = refl;
  replies = r;
}

Counted-Turn : {n n' : NodeThread} → Turn n n' → Counted n' → Counted n
Counted-Turn t c = record {
  after = c.after;
  path = turn t c.path;
  stage = c.stage;
  replies = c.replies;
}

-- The countdown of any slot comes to its end.
counts_down :
    (fuel : ℕ) (z : ℤ) (n : NodeThread)
    → n.slot.slot ≡ z
    → n.stage ≡ counting
    → n.replies ≡ []
    → InInt z
    → pos_part z < fuel
    → Counted n
counts_down zero z n e at r b h = absurd (omega arith)
counts_down (suc fuel) (negsuc v) n e at r b h = leaves_now n at r (rw e refl)
counts_down (suc fuel) (pos zero) n e at r b h = leaves_now n at r (rw e refl)
counts_down (suc fuel) (pos (suc v)) n e at r b h =
    Counted-Turn (sleeps at (rw e (ground arith))) (elim (dec_le 99 v) [
      | yes long ↦
          counts_down fuel (pos (v - 99)) _ (rw e (above_100 v long (omega arith))) at r
            (omega arith) (omega arith)
      | no short ↦ leaves_now _ at r (rw e (below_100 v (omega arith)))
    ])

-- The answer of a busy node is on its way.
record Answering (n : NodeThread) : Type 0 where
  after : NodeThread
  path : Turns n after
  answer : Text
  replies : after.replies ≡ answer ∷ []

Answering-Turn : {n n' : NodeThread} → Turn n n' → Answering n' → Answering n
Answering-Turn t a = record {
  after = a.after;
  path = turn t a.path;
  answer = a.answer;
  replies = a.replies;
}

Turns-append : {n n' n'' : NodeThread} → Turns n n' → Turns n' n'' → Turns n n''
Turns-append (over n) later = later
Turns-append (turn t ts) later = turn t (Turns-append ts later)

ends-Answering : (n : NodeThread) → n.stage ≡ ending → n.replies ≡ [] → Answering n
ends-Answering n at r = record {
  after = record n {
    stage = waiting;
    slot = record n.slot { slot = pos 0; priority_reducer = pos 0 };
    replies = n.replies ++ codes "1" ∷ [];
  };
  path = turn (answers at) (over _);
  answer = codes "1";
  replies = rw r refl;
}

Counted-Answering : (n : NodeThread) → Counted n → Answering n
Counted-Answering n c =
    let a = ends-Answering c.after c.stage c.replies in
    record {
      after = a.after;
      path = Turns-append c.path a.path;
      answer = a.answer;
      replies = a.replies;
    }

runs-Answering :
    (n : NodeThread) → n.stage ≡ counting → n.replies ≡ [] → InInt n.slot.slot → Answering n
runs-Answering n at r b =
    Counted-Answering n
      (counts_down (suc (pos_part n.slot.slot)) n.slot.slot n refl at r b (omega arith))

IsBusy-Answering : (n : NodeThread) → IsBusy n → Answering n
IsBusy-Answering n (on_way message g s i r p) =
    let (slot, run, small) = take_message-grant message (record n { inbox = [] }) g in
    Answering-Turn (receives message [] s i run) (runs-Answering _ refl r small)
IsBusy-Answering n (runs s i r b) = runs-Answering n s r b
IsBusy-Answering n (ends s i r) = ends-Answering n s r
IsBusy-Answering n (answered a s i r p) = record {
  after = n;
  path = over n;
  answer = a;
  replies = r;
}

-- What the master and the nodes do from `w` to the end of the master's rounds.
record Completed (w : World) : Type 0 where
  to : World
  path : Continues w to
  ahead : to.ahead ≡ []
  idle : (k : ℕ) → IsIdle (to.node k)

Continues-first : {w w' w'' : World} → Action w w' → Continues w' w'' → Continues w w''
Continues-first a stays = goes_on stays a
Continues-first a (goes_on c b) = goes_on (Continues-first a c) b

Completed-first : {w w' : World} → Action w w' → Completed w' → Completed w
Completed-first a c = record {
  to = c.to;
  path = Continues-first a c.path;
  ahead = c.ahead;
  idle = c.idle;
}

-- If a node's turns take it to a state from which the end is reached, then it is reached.
Turns-Completed :
    (k : ℕ) {n n' : NodeThread} (w : World)
    → Turns n n'
    → w.node k ≡ n
    → IsSound w
    → ((w' : World) → w'.ahead ≡ w.ahead → w'.node k ≡ n' → IsSound w' → Completed w')
    → Completed w
Turns-Completed k w (over n) e sound goal = goal w refl e sound
Turns-Completed k w (turn {n' = n1} t ts) e sound goal =
    let a : Action w (record w { node = put w.node k n1 }) = turns k n1 (rw e t) in
    Completed-first a (
      Turns-Completed k _ ts (put_self w.node k n1) (Action-IsSound sound a)
        (λ w' same at s. goal w' same at s))

completes : (events : List Event) (w : World) → w.ahead ≡ events → IsSound w → Completed w
completes [] w e (free one grants idle) = record { to = w; path = stays; ahead = e; idle = idle }
completes [] w e (held k one grants busy idle) = absurd (cc (subst (OneAtATime (some k)) e one))
completes (publish ∷ later) w e sound =
    Completed-first (publishes later e)
      (completes later _ refl (Action-IsSound sound (publishes later e)))
completes (silence ∷ later) w e sound =
    Completed-first (silences later e)
      (completes later _ refl (Action-IsSound sound (silences later e)))
completes (sent k message ∷ later) w e sound =
    Completed-first (sends k message later e)
      (completes later _ refl (Action-IsSound sound (sends k message later e)))
completes (awaited k ∷ later) w e (free one grants idle) =
    absurd (cc ((subst (OneAtATime none) e one).0))
completes (awaited k ∷ later) w e (held h one grants busy idle) =
    let same : h ≡ k = cc ((subst (OneAtATime (some h)) e one).0) in
    let a = IsBusy-Answering (w.node k) (rw (← same) busy) in
    Turns-Completed k w a.path refl (held h one grants busy idle) (λ w' ahead at sound.
      let heard : Action w'
          (record { ahead = later; node = put w'.node k (record (w'.node k) { replies = [] }) }) =
        hears k a.answer [] later (ahead ∙ e) (ap (λ (n : NodeThread). n.replies) at ∙ a.replies) in
      Completed-first heard (completes later _ refl (Action-IsSound sound heard)))

-- Wherever the master, the nodes and the monitor have got to in a sequence of rounds, the master and the
-- nodes can go on, without the monitor, until the master has done all that the rounds ask for, and every
-- node waits, with no slot and nothing on its way.
pub Reach-completes :
    (l : List Input) (s : State) (outs : List (State × List Event))
    → rounds l s ≡ done outs
    → {w : World} → Reach (start (all_events outs)) w
    → (w' : World) × Continues w w' × (w'.ahead ≡ []) × ((k : ℕ) → IsIdle (w'.node k))
Reach-completes l s outs run {w} r =
    let c = completes w.ahead w refl (rounds-IsSound l s outs run r) in
    (c.to, c.path, c.ahead, c.idle)
