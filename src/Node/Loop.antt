-- ===== src/Node/Loop.antt =====
-- internal/raft/node.go: the goroutines of a node. The event loop, the callers of ProposeAdd and the
-- goroutines that the loop starts meet in the channels proposeC, stopC, doneC and one resultC for each
-- proposal; every interleaving of them is a sequence of the steps below. etcd's Tick and Advance
-- change nothing of the node's own state, so they are no steps of it.
pub mod Conserved
pub mod Progress
pub mod Counting
use time_series_cardinality.Base.{
  ℕ, ◌+◌, ◌≤◌, ◌<◌, ◌≡◌, Bool, true, false, Option, List, [], ◌∷◌, ◌++◌, Bytes, length,
}
use time_series_cardinality.Errors.{Error, done}
use time_series_cardinality.Sketch.{SketchOps, Algorithm}
use time_series_cardinality.Engine.{Engine, Gob}
use time_series_cardinality.Store.{Badger, BadgerStore}
use time_series_cardinality.Node.{Node, Proto, Entry, MemoryStorage, new_node, ready}

-- The capacity of proposeC.
abbrev pub propose_cap : ℕ
propose_cap = 128

-- The struct propose. Its resultC, which no other proposal has and which takes one value without a
-- receiver, is the ticket.
pub record Propose : Type 0 where
  pub bytes : Bytes
  pub ticket : ℕ

-- stopC and doneC are open; stopC is closed; Run has returned, which closed doneC.
pub data Phase : Type 0 where
  running stopping exited : Phase

-- The select of Run is not left yet.
unfoldable pub selects : Phase → Bool
selects running = true
selects stopping = true
selects exited = false

module _ (o : SketchOps) (alg : Algorithm o) (Db Storage : Type 0) where
  -- `queue` is what proposeC buffers, in_flight are the goroutines that are in etcd's Propose,
  -- `answers` is what was sent to the resultCs, and `issued` counts the proposals sent so far.
  pub record Loop : Type 0 where
    pub raft : Node o alg Db Storage
    pub queue : List Propose
    pub in_flight : List Propose
    pub answers : List (ℕ × Option Error)
    pub issued : ℕ
    pub phase : Phase

  unfoldable pub new_loop : ℕ → Engine o alg → BadgerStore Db → Storage → Loop
  unfolding new_node
  new_loop id e st storage = record {
    raft = new_node o alg Db Storage id e st storage;
    queue = [];
    in_flight = [];
    answers = [];
    issued = 0;
    phase = running;
  }

  module _ (badger : Badger Db) (proto : Proto) (memory : MemoryStorage Storage) (gob : Gob) where
    pub data Step : Loop → Loop → Type 0 where
      -- A caller of ProposeAdd: proposeC has room, whether or not Run has returned.
      send :
          (s : Loop) (b : Bytes)
          → length s.queue < propose_cap
          → Step s (record s {
            queue = s.queue ++ record { bytes = b; ticket = s.issued } ∷ [];
            issued = s.issued + 1;
          })
      -- The loop receives from proposeC and starts a goroutine.
      take :
          (s : Loop) (p : Propose) (rest : List Propose)
          → selects s.phase ≡ true
          → s.queue ≡ p ∷ rest
          → Step s (record s { queue = rest; in_flight = s.in_flight ++ p ∷ [] })
      -- A goroutine has what etcd's Propose returned, and sends it.
      answer :
          (s : Loop) (before after : List Propose) (p : Propose) (r : Option Error)
          → s.in_flight ≡ before ++ p ∷ after
          → Step s (record s { in_flight = before ++ after; answers = (p.ticket, r) ∷ s.answers })
      -- The loop receives a Ready.
      receive :
          (s : Loop) (rd : List Entry × List Entry) (n : Node o alg Db Storage)
          → selects s.phase ≡ true
          → ready o alg Db Storage badger proto memory gob rd s.raft ≡ done n
          → Step s (record s { raft = n })
      -- Stop closes stopC.
      stop : (s : Loop) → s.phase ≡ running → Step s (record s { phase = stopping })
      -- The loop receives from stopC, and Run returns.
      leave : (s : Loop) → s.phase ≡ stopping → Step s (record s { phase = exited })

    -- Any number of steps.
    pub data Steps : Loop → Loop → Type 0 where
      stay : (s : Loop) → Steps s s
      step : {s t u : Loop} → Step s t → Steps t u → Steps s u
