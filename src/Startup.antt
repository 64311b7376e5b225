-- ===== src/Startup.antt =====
-- cmd/server/main.go: what `run` sets up before it serves: the engine's state from the store, the
-- ring from the flag -peers, and this node's own address on it. Process has `run` as a whole.
pub mod Recovery
pub mod Durable
pub mod Failures
pub mod Restart
pub mod Cluster
pub mod Routing
pub mod Entries
pub mod Process
pub mod Muxes
use mathlib.Core.List.{foldl}
use time_series_cardinality.Base.{
  ℕ, zero, suc, ◌+◌, ◌-◌, ◌^◌, Bool, ◌&&◌, ◌||◌, Option, none, some, List, [], ◌∷◌, Bytes, bytes_eq,
  ◌==◌, if◌then◌else◌, length, ltb, leb, nat_eqb,
}
use time_series_cardinality.External.{Murmur}
use time_series_cardinality.Errors.{Error, Run, done, panic}
use time_series_cardinality.Sketch.{SketchOps, Algorithm}
use time_series_cardinality.Engine.{Engine, new_engine, restore}
use time_series_cardinality.Store.{Badger, BadgerStore, load_all}
use time_series_cardinality.Router
use time_series_cardinality.Router.{Ring, add_node}

module _ (o : SketchOps) (alg : Algorithm o) where
  -- The function that run passes to LoadAll, with the variable `restored`.
  unfoldable pub restore_item : Bytes → Bytes → Engine o alg × ℕ → Option Error × (Engine o alg × ℕ)
  restore_item group b (e, restored) =
      let (r, e') = restore o alg group b e in
      elim r [ some x ↦ (some x, (e', restored)) | none ↦ (none, (e', restored + 1)) ]

  -- The engine that run serves, and how many groups it has restored.
  unfoldable pub rebuild :
      {Db : Type 0} → Badger Db → BadgerStore Db → Option Error × (Engine o alg × ℕ)
  unfolding restore_item
  rebuild badger st = load_all badger restore_item st (new_engine o alg, 0)

-- strings.Split(s, ",")
unfoldable pub split_commas : Bytes → List Bytes
split_commas [] = [] ∷ []
split_commas (b ∷ bs) =
    let rest = split_commas bs in
    if nat_eqb b b',' then [] ∷ rest else elim rest [ [] ↦ (b ∷ []) ∷ [] | s ∷ ss ↦ (b ∷ s) ∷ ss ]

-- peerAddrs[i]: an index past the end panics.
unfoldable pub index_peer : List Bytes → ℕ → Run Bytes
index_peer [] i = panic
index_peer (a ∷ addrs) zero = done a
index_peer (a ∷ addrs) (suc i) = index_peer addrs i

-- The address of node `node_id`, a uint64: int(*nodeID) is negative from 2 ^ 63 on.
unfoldable pub self_address : ℕ → List Bytes → Run Bytes
unfolding index_peer length
self_address node_id addrs =
    if ltb 0 node_id && (leb (2 ^ 63) node_id || leb node_id (length addrs))
    then index_peer addrs (node_id - 1)
    else done []

-- The ring and the address; `none` is the nil ring of a node with no peers.
unfoldable pub configure : Murmur → ℕ → Bytes → Run (Option Ring × Bytes)
unfolding split_commas self_address
configure m node_id peers =
    if peers == []
    then done (none, [])
    else (let addrs = split_commas peers in
        let ring = foldl (λ (r : Ring) (addr : Bytes). add_node m addr r) Router.new addrs in
        elim (self_address node_id addrs) [ panic ↦ panic | done self ↦ done (some ring, self) ])
