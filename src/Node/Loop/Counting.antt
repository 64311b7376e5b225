-- ===== src/Node/Loop/Counting.antt =====
-- internal/raft/node.go: from the ids that ProposeAdd was called with to the counts of the engine.
use time_series_cardinality.Base.{
  ℕ, ◌≡◌, refl, sym, ◌∙◌, ap, true, not, ◌||◌, none, some, List, [], ◌∷◌, Bytes, length, nat_eqb,
}
use time_series_cardinality.Errors.{ok, done}
use time_series_cardinality.Sketch.{SketchOps, Algorithm, IsLawful}
use time_series_cardinality.Engine.{Gob, new_engine, cardinality}
use time_series_cardinality.Engine.Groups.{new_engine-IsSound}
use time_series_cardinality.Engine.Streams.{adds, stream, answer, cardinality-adds}
use time_series_cardinality.Handler.Payloads.{IsId}
use time_series_cardinality.Store.{Badger, BadgerStore}
use time_series_cardinality.Node.{
  Node, Proto, Entry, MemoryStorage, new_node, propose_add, apply_entry, apply_entries,
}
use time_series_cardinality.Node.Laws.{IsProto, apply_entry-propose_add}
use time_series_cardinality.Node.Batching.{committed}
use time_series_cardinality.Node.Loop.{Loop, new_loop, Steps}
use time_series_cardinality.Node.Loop.Conserved.{received, Steps-apply_entries}

-- The entries carry what ProposeAdd hands to Raft for the calls, in order. Between them there may be
-- entries that applyEntries skips, such as the empty one of a new leader.
pub data Carries (proto : Proto) : List (Bytes × ℕ) → List Entry → Type 0 where
  no_more : Carries proto [] []
  skipped :
      (e : Entry) (es : List Entry) (calls : List (Bytes × ℕ))
      → (not e.normal || nat_eqb (length e.bytes) 0) ≡ true
      → Carries proto calls es
      → Carries proto calls (e ∷ es)
  proposal :
      (group : Bytes) (id index : ℕ) (b : Bytes) (es : List Entry) (calls : List (Bytes × ℕ))
      → IsId id
      → (propose_add proto group id none (ok none)).1 ≡ some b
      → Carries proto calls es
      → Carries proto
          ((group, id) ∷ calls)
          (record { normal = true; index = index; bytes = b } ∷ es)

module _ {o : SketchOps} {alg : Algorithm o} {Db Storage : Type 0} (badger : Badger Db)
    (proto : Proto) (is_proto : IsProto proto) where
  apply_entry_blank :
      (e : Entry) (n : Node o alg Db Storage)
      → (not e.normal || nat_eqb (length e.bytes) 0) ≡ true
      → apply_entry o alg Db Storage badger proto e n ≡ done n
  unfolding apply_entry
  apply_entry_blank e n blank = rw blank refl

  apply_entries-adds :
      (calls : List (Bytes × ℕ)) (es : List Entry) (n : Node o alg Db Storage)
      → Carries proto calls es
      → (m : Node o alg Db Storage) × (apply_entries o alg Db Storage badger proto es n ≡ done m)
        × (m.engine ≡ adds o alg n.engine calls)
  unfolding apply_entries adds
  apply_entries-adds calls es n no_more = (n, refl, refl)
  apply_entries-adds calls es n (skipped e rest calls' blank h) =
      let (m, ran, same) = apply_entries-adds calls' rest n h in
      (m, rw (apply_entry_blank e n blank, apply_entries) ran, same)
  apply_entries-adds calls es n (proposal group id index b rest calls' small handed h) =
      let (n', p, engine, index_now, others) =
        apply_entry-propose_add badger proto is_proto group id index none (ok none) b n small
          handed in
      let (m, ran, same) = apply_entries-adds calls' rest n' h in
      (m, rw (p, apply_entries) ran, same ∙ ap (λ e. adds o alg e calls') engine)

  -- Whatever the interleaving of the event loop and its callers, and however Raft batches: when the
  -- entries that a new node has applied are those of some calls of ProposeAdd, with ids of 64 bits,
  -- and entries that applyEntries skips, the node answers for every group the count of exactly the
  -- ids of the calls for it, and an unknown group if there is none.
  pub Steps-cardinality :
      (law : IsLawful o alg) (memory : MemoryStorage Storage) (gob : Gob) (id : ℕ)
      (st : BadgerStore Db) (storage : Storage) (t : Loop o alg Db Storage)
      (steps : Steps o alg Db Storage badger proto memory gob
        (new_loop o alg Db Storage id (new_engine o alg) st storage)
        t)
      (calls : List (Bytes × ℕ))
      → Carries proto calls (committed (received badger proto memory gob steps))
      → (g : Bytes) → cardinality o alg g t.raft.engine ≡ answer o alg g (stream g calls)
  unfolding new_loop new_node
  Steps-cardinality law memory gob id st storage t steps calls h g =
      let (m, applied, same) =
        Steps-apply_entries badger proto memory gob {law = law} _ t steps is_proto
          (new_engine-IsSound law) in
      let (m', applied', counted) =
        apply_entries-adds calls (committed (received badger proto memory gob steps)) _ h in
      let now : t.raft.engine ≡ adds o alg (new_engine o alg) calls =
        same.engine ∙ ap (λ n. n.engine) (done-injective (sym applied ∙ applied')) ∙ counted in
      ap (cardinality o alg g) now ∙ cardinality-adds o alg calls g
    where
      done-injective : {n n' : Node o alg Db Storage} → done n ≡ done n' → n ≡ n'
      done-injective p = cc p
