-- ===== src/Node.antt =====
-- internal/raft/node.go: what a node does with the entries that Raft commits, its snapshots, and
-- its proposals. The event loop runs one case of its select at a time, so each is a step on the
-- node's state; mu guards two fields that the loop alone writes. Loop has its channels.
pub mod Laws
pub mod Truncated
pub mod Batching
pub mod Loop
use time_series_cardinality.Base.{
  ℕ, ◌+◌, ◌%◌, ◌^◌, Bool, true, false, not, ◌||◌, ◌&&◌, Option, none, some, List, [], ◌∷◌, Bytes,
  if◌then◌else◌, length, ltb, nat_eqb,
}
use time_series_cardinality.Errors.{Error, Result, ok, err, Run, done, panic}
use time_series_cardinality.Varint.{append_uvarint}
use time_series_cardinality.Sketch.{SketchOps, Algorithm}
use time_series_cardinality.Engine.{Engine, Gob, add, merge_bytes, persist, marshal}
use time_series_cardinality.Handler.{Command, Adder, type_add, default_registry, dispatch}
use time_series_cardinality.Handler.Safety.{engine_adder}
use time_series_cardinality.Store.{Badger, BadgerStore, save}

abbrev pub snapshot_threshold : ℕ
snapshot_threshold = 10000

-- google.golang.org/protobuf at the type pb.Command
pub record Proto : Type 0 where
  pub marshal : Command → Result Bytes
  pub unmarshal : Bytes → Result Command

-- raftpb.Entry; `bytes` is Data, and `normal` says that Type is EntryNormal
pub record Entry : Type 0 where
  pub normal : Bool
  pub index : ℕ
  pub bytes : Bytes

-- go.etcd.io/etcd/raft/v3: the calls of MemoryStorage, with the snapshot's index, term and data.
pub record MemoryStorage (Storage : Type 0) : Type 0 where
  pub append : List Entry → Storage → Option Error × Storage
  pub apply_snapshot : ℕ → ℕ → Bytes → Storage → Option Error × Storage
  pub compact : ℕ → Storage → Option Error × Storage

-- etcdraft.Status, as far as Status reads it.
pub record RaftStatus : Type 0 where
  pub term : ℕ
  pub lead : ℕ

unfoldable pub add_command : Bytes → ℕ → Command
unfolding append_uvarint
add_command group id = record { type = type_add; group = group; payload = append_uvarint id }

-- ProposeAdd waits twice: for the event loop to take the proposal, where the context may end first
-- with an error, and then for its answer, where it may again. The result is the error that
-- ProposeAdd returns, and the bytes that it handed to the loop, if any.
unfoldable pub propose_add :
    Proto → Bytes → ℕ → Option Error → Result (Option Error) → Option Error × Option Bytes
unfolding add_command
propose_add proto group id taken answer = elim (proto.marshal (add_command group id)) [
  | err x ↦ (some x, none)
  | ok bytes ↦ elim taken [
    | some x ↦ (some x, none)
    | none ↦ elim answer [ err x ↦ (some x, some bytes) | ok r ↦ (r, some bytes) ]
  ]
]

module _ (o : SketchOps) (alg : Algorithm o) (Db Storage : Type 0) where
  pub record Node : Type 0 where
    pub id : ℕ
    pub engine : Engine o alg
    pub store : BadgerStore Db
    pub storage : Storage
    pub applied_idx : ℕ
    pub snap_count : ℕ

  -- NewNode, on the storage that etcd's NewMemoryStorage makes.
  unfoldable pub new_node : ℕ → Engine o alg → BadgerStore Db → Storage → Node
  new_node id engine st storage = record {
    id = id;
    engine = engine;
    store = st;
    storage = storage;
    applied_idx = 0;
    snap_count = 0;
  }

  unfoldable pub status : RaftStatus → Node → ℕ × (Bool × ℕ)
  status st n = (st.term, (not (nat_eqb st.lead 0) && nat_eqb st.lead n.id, n.applied_idx))

  module _ (badger : Badger Db) (proto : Proto) where
    -- The end of the loop's body, behind a Dispatch that returned nil. An error of Persist is logged.
    unfoldable pub persist_entry : ℕ → Command → Node → Node
    unfolding persist
    persist_entry index cmd n =
        let (r, st) = persist o alg cmd.group (save badger cmd.group) n.engine n.store in
        record n { store = st; applied_idx = index; snap_count = (n.snap_count + 1) % 2 ^ 64 }

    -- The body of the loop of applyEntries. `continue` leaves the node as it is by then.
    unfoldable pub apply_entry : Entry → Node → Run Node
    unfolding dispatch persist_entry length
    apply_entry e n =
        if not e.normal || nat_eqb (length e.bytes) 0
        then done n
        else elim (proto.unmarshal e.bytes) [
          | err x ↦ done n
          | ok cmd ↦
              elim (dispatch default_registry (some cmd) (some (engine_adder o alg)) n.engine) [
                | panic ↦ panic
                | done (some x, engine) ↦ done (record n { engine = engine })
                | done (none, engine) ↦
                    done (persist_entry e.index cmd (record n { engine = engine }))
              ]
        ]

    unfoldable pub apply_entries : List Entry → Node → Run Node
    unfolding apply_entry
    apply_entries [] n = done n
    apply_entries (e ∷ entries) n = elim (apply_entry e n) [
      | panic ↦ panic
      | done n' ↦ apply_entries entries n'
    ]

  module _ (memory : MemoryStorage Storage) (gob : Gob) where
    -- An error of Compact is logged at most, so it does not count.
    unfoldable pub maybe_snapshot : Node → Node
    unfolding marshal
    maybe_snapshot n =
        if ltb n.snap_count snapshot_threshold then n else elim (marshal o alg gob n.engine) [
          | err x ↦ n
          | ok bytes ↦
              let (r, storage) = memory.apply_snapshot n.applied_idx 1 bytes n.storage in
              elim r [
                | some x ↦ record n { storage = storage }
                | none ↦
                    let (c, compacted) = memory.compact n.applied_idx storage in
                    record n { storage = compacted; snap_count = 0 }
              ]
        ]

  module _ (badger : Badger Db) (proto : Proto) (memory : MemoryStorage Storage) (gob : Gob) where
    -- The case of Run for a Ready: entries for the storage, and committed entries. An error of Append
    -- is logged.
    unfoldable pub ready : List Entry × List Entry → Node → Run Node
    unfolding apply_entries maybe_snapshot
    ready (entries, committed) n =
        let (r, storage) = memory.append entries n.storage in
        elim (apply_entries badger proto committed (record n { storage = storage })) [
          | panic ↦ panic
          | done n' ↦ done (maybe_snapshot memory gob n')
        ]

    -- The Readys that Run takes up, in order; its other cases leave the node's own fields alone.
    unfoldable pub run : List (List Entry × List Entry) → Node → Run Node
    unfolding ready
    run [] n = done n
    run (rd ∷ rest) n = elim (ready rd n) [ panic ↦ panic | done n' ↦ run rest n' ]
