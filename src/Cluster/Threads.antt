-- ===== src/Cluster/Threads.antt =====
-- The threads of the cluster, a step at a time: `send_config` of CreateLoopbackMS.c works through the
-- events of its rounds, `recv_config` of CreateLoopbackCS1Q.c runs on each node, and so does
-- `report_task` of monitor.h, which may end a slot.
pub mod Turns
pub mod Exclusive
pub mod Completion
use rpi_hadoop.Prelude.{
  ℕ, ◌≡◌, true, false, List, [], ◌∷◌, ◌++◌, Text, codes, take, Run, done, fault, ◌>>=◌, pos, negsuc,
  is_positive, add_int,
}
use rpi_hadoop.CText.{tokens}
use rpi_hadoop.Scheduler.{Event, publish, silence, sent, awaited}
use rpi_hadoop.Slot.{Slot, granted}
use rpi_hadoop.Cluster.{put}

-- Where `recv_config` stands: at `zmq_recv`, at the test of `while (slot > 0)`, or behind the loop.
pub data Stage : Type 0 where
  waiting : Stage
  counting : Stage
  ending : Stage

-- A node's `recv_config`, with the messages on the way to it and the answers on the way from it.
pub record NodeThread : Type 0 where
  pub stage : Stage
  pub slot : Slot
  pub inbox : List Text
  pub replies : List Text

-- From the fields of the message to the loop, or past it if there are none. `atoi(NULL)` is undefined.
pub take_fields : List Text → NodeThread → Run NodeThread
take_fields [] n = done (record n { stage = ending })
take_fields (name ∷ []) n = fault
take_fields (name ∷ slot ∷ rest) n =
    done (record n { stage = counting; slot = granted slot rest n.slot })

-- What `recv_config` does with a message: with an empty one, nothing.
unfoldable pub take_message : Text → NodeThread → Run NodeThread
unfolding take_fields
take_message [] n = done n
take_message (c ∷ message) n = take_fields (tokens b',' (take 31 (c ∷ message))) n

-- A turn of a node's `recv_config`.
pub data Turn (n : NodeThread) : NodeThread → Type 0 where
  receives :
      {n' : NodeThread} (message : Text) (rest : List Text)
      → n.stage ≡ waiting
      → n.inbox ≡ message ∷ rest
      → take_message message (record n { inbox = rest }) ≡ done n'
      → Turn n n'
  sleeps :
      n.stage ≡ counting
      → is_positive n.slot.slot ≡ true
      → Turn n (record n { slot = record n.slot { slot = add_int n.slot.slot (negsuc 99) } })
  leaves :
      n.stage ≡ counting → is_positive n.slot.slot ≡ false → Turn n (record n { stage = ending })
  answers :
      n.stage ≡ ending
      → Turn n (record n {
        stage = waiting;
        slot = record n.slot { slot = pos 0; priority_reducer = pos 0 };
        replies = n.replies ++ codes "1" ∷ [];
      })

-- The events that the master has ahead of it, and the nodes.
pub record World : Type 0 where
  pub ahead : List Event
  pub node : ℕ → NodeThread

-- An action of the master's thread, or of `recv_config` on a node. The wait for an answer ends when there
-- is one.
pub data Action (w : World) : World → Type 0 where
  publishes :
      (later : List Event) → w.ahead ≡ publish ∷ later → Action w (record w { ahead = later })
  silences :
      (later : List Event) → w.ahead ≡ silence ∷ later → Action w (record w { ahead = later })
  sends :
      (k : ℕ) (message : Text) (later : List Event)
      → w.ahead ≡ sent k message ∷ later
      → Action w (record {
        ahead = later;
        node = put w.node k (record (w.node k) { inbox = (w.node k).inbox ++ message ∷ [] });
      })
  hears :
      (k : ℕ) (answer : Text) (rest : List Text) (later : List Event)
      → w.ahead ≡ awaited k ∷ later
      → (w.node k).replies ≡ answer ∷ rest
      → Action w
          (record { ahead = later; node = put w.node k (record (w.node k) { replies = rest }) })
  turns :
      (k : ℕ) (n : NodeThread) → Turn (w.node k) n → Action w (record w { node = put w.node k n })

-- The slot of a node ended, as `report_task` does when the node has nothing left to send.
abbrev pub stopped : NodeThread → NodeThread
stopped n = record n { slot = record n.slot { slot = pos 0 } }

-- `report_task` may end a slot at any time.
pub data Step (w : World) : World → Type 0 where
  acts : {w' : World} → Action w w' → Step w w'
  stops : (k : ℕ) → Step w (record w { node = put w.node k (stopped (w.node k)) })

pub data Reach (w : World) : World → Type 0 where
  here : Reach w w
  next : {w' w'' : World} → Reach w w' → Step w' w'' → Reach w w''

-- What the master and `recv_config` do on their own.
pub data Continues (w : World) : World → Type 0 where
  stays : Continues w w
  goes_on : {w' w'' : World} → Continues w w' → Action w' w'' → Continues w w''

-- Behind the handshake: all nodes wait, no slot is given, and nothing is on its way.
abbrev pub start : List Event → World
start events = record {
  ahead = events;
  node = λ k. record {
    stage = waiting;
    slot = record { slot = pos 0; est = pos 0; priority_reducer = pos 0 };
    inbox = [];
    replies = [];
  };
}
