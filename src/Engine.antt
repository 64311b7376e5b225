-- ===== src/Engine.antt =====
-- internal/cardinality/engine.go. Add, Cardinality, CardinalityAll, AddAndPersist and Persist hold
-- the engine's lock from their first line to their last. Restore, Merge, MergeBytes and Unmarshal
-- check and parse their arguments before they take it, and Marshal encodes a copy after it has let
-- go of it: those parts neither read nor write `groups`, whose use is one locked section in every
-- method, so each method is one step on the state. A pointer in `groups` is the sketch it points to:
-- the engine alone holds it, since Merge stores a clone and Restore what Parse has just made.
pub mod Groups
pub mod Streams
pub mod Snapshots
pub mod Restoring
pub mod Merging
use time_series_cardinality.Base.{
  ℕ, Bool, Option, none, some, List, [], ◌∷◌, Bytes, Eq, bytes_eq, ◌==◌, not, if◌then◌else◌, map,
}
use time_series_cardinality.Map
use time_series_cardinality.Map.{Map, lookup, insert}
use time_series_cardinality.Errors.{
  Error, unknown_group, algo_mismatch, nil_remote, parse_group, Result, ok, err, Run, done, panic,
  Action,
}
use time_series_cardinality.Sketch.{SketchOps, Algorithm}

-- encoding/gob at the type map[string][]byte: Encode may fail, and Decode rejects what is no gob.
pub record Gob : Type 0 where
  pub encode : Map Bytes Bytes → Result Bytes
  pub decode : Bytes → Result (Map Bytes Bytes)

-- A callback that may fail and writes to a world W, such as the store behind Save.
abbrev pub Save {ℓ} : Type ℓ → Type ℓ
Save W = Bytes → W → Option Error × W

-- The field alg is set by NewEngine and never written again: it is a parameter here.
module _ (o : SketchOps) (alg : Algorithm o) where
  open o use {
    Sketch, algo_name, add as sketch_add, cardinality as sketch_cardinality, merge as sketch_merge,
    bytes, clone,
  }

  pub record Engine : Type 0 where
    pub groups : Map Bytes Sketch

  unfoldable pub new_engine : Engine
  new_engine = record { groups = Map.empty }

  -- sk, ok := e.groups[group]; if !ok { sk = alg.New() }
  unfoldable pub sketch_of : Bytes → Engine → Sketch
  sketch_of group e = elim (lookup group e.groups) [ none ↦ alg.new | some sk ↦ sk ]

  -- The shared lines of Add and AddAndPersist: create the group if absent, and add.
  unfoldable pub added : Bytes → ℕ → Engine → Engine
  unfolding sketch_of
  added group id e = record e { groups = insert group (sketch_add (sketch_of group e) id) e.groups }

  unfoldable pub add : Bytes → ℕ → Action Engine
  unfolding added
  add group id e = done (none, added group id e)

  unfoldable pub cardinality : Bytes → Engine → Result ℕ
  cardinality group e = elim (lookup group e.groups) [
    | none ↦ err (unknown_group group)
    | some sk ↦ ok (sketch_cardinality sk)
  ]

  -- The loop of CardinalityAll over the groups.
  unfoldable pub counts : List (Bytes × Sketch) → Map Bytes ℕ → Map Bytes ℕ
  counts [] out = out
  counts ((group, sk) ∷ rest) out = counts rest (insert group (sketch_cardinality sk) out)

  unfoldable pub cardinality_all : Engine → Map Bytes ℕ
  unfolding counts
  cardinality_all e = counts e.groups.entries Map.empty

  unfoldable pub add_and_persist {ℓ} :
      {W : Type ℓ} → Bytes → ℕ → Save W → Engine → W → Option Error × (Engine × W)
  unfolding sketch_of
  add_and_persist group id save e w =
      let sk = sketch_add (sketch_of group e) id in
      let (r, w') = save (bytes sk) w in (r, (record e { groups = insert group sk e.groups }, w'))

  unfoldable pub persist {ℓ} : {W : Type ℓ} → Bytes → Save W → Engine → W → Option Error × W
  persist group save e w = elim (lookup group e.groups) [
    | none ↦ (some (unknown_group group), w)
    | some sk ↦ save (bytes sk) w
  ]

  unfoldable pub restore : Bytes → Bytes → Engine → Option Error × Engine
  restore group b e = elim (alg.parse b) [
    | err x ↦ (some (parse_group group x), e)
    | ok sk ↦ (none, record e { groups = insert group sk e.groups })
  ]

  -- sk.Merge(remote) on the group's sketch, or a clone of remote where there is none.
  unfoldable pub merged : Bytes → Sketch → Engine → Run (Option Error × Engine)
  merged group remote e = elim (lookup group e.groups) [
    | none ↦ done (none, record e { groups = insert group (clone remote) e.groups })
    | some sk ↦ elim (sketch_merge sk remote) [
      | panic ↦ panic
      | done sk' ↦ done (none, record e { groups = insert group sk' e.groups })
    ]
  ]

  unfoldable pub merge : Bytes → Option Sketch → Action Engine
  unfolding merged
  merge group none e = done (some nil_remote, e)
  merge group (some remote) e =
      if not (algo_name remote == alg.name)
      then done (some (algo_mismatch alg.name (algo_name remote)), e)
      else merged group remote e

  unfoldable pub merge_bytes : Bytes → Bytes → Bytes → Action Engine
  unfolding merge
  merge_bytes group algo b e =
      if not (algo == alg.name)
      then done (some (algo_mismatch alg.name algo), e)
      else elim (alg.parse b) [
        | err x ↦ done (some (parse_group group x), e)
        | ok remote ↦ merge group (some remote) e
      ]

  -- The loop of Marshal over the groups.
  unfoldable pub wire : List (Bytes × Sketch) → Map Bytes Bytes → Map Bytes Bytes
  wire [] out = out
  wire ((group, sk) ∷ rest) out = wire rest (insert group (bytes sk) out)

  unfoldable pub marshal : Gob → Engine → Result Bytes
  unfolding wire
  marshal gob e = gob.encode (wire e.groups.entries Map.empty)

  -- The loop of Unmarshal: the first entry that does not parse ends it.
  unfoldable pub parse_all : List (Bytes × Bytes) → Map Bytes Sketch → Result (Map Bytes Sketch)
  parse_all [] out = ok out
  parse_all ((group, b) ∷ rest) out = elim (alg.parse b) [
    | err x ↦ err (parse_group group x)
    | ok sk ↦ parse_all rest (insert group sk out)
  ]

  unfoldable pub unmarshal : Gob → Bytes → Engine → Option Error × Engine
  unfolding parse_all
  unmarshal gob b e = elim (gob.decode b) [
    | err x ↦ (some x, e)
    | ok w ↦ elim (parse_all w.entries Map.empty) [
      | err x ↦ (some x, e)
      | ok groups ↦ (none, record e { groups = groups })
    ]
  ]
