-- ===== src/Startup/Failures/Interleaved.antt =====
-- A restart after a node was stopped at any point of its event loop.
use time_series_cardinality.Base.{ℕ, ◌≡◌, none, Bytes, ◌∙◌, ap, sym}
use time_series_cardinality.Errors.{ok}
use time_series_cardinality.Sketch.{SketchOps, Algorithm, IsLawful}
use time_series_cardinality.Engine.{Gob, new_engine, cardinality}
use time_series_cardinality.Engine.Groups.{new_engine-IsSound}
use time_series_cardinality.Store.{Badger, BadgerStore, key}
use time_series_cardinality.Store.Laws.{IsBadger}
use time_series_cardinality.Store.Scan.{IsScan}
use time_series_cardinality.Node.{Proto, MemoryStorage, new_node}
use time_series_cardinality.Node.Laws.{IsProto}
use time_series_cardinality.Node.Batching.{committed}
use time_series_cardinality.Node.Loop.{Loop, new_loop, Steps}
use time_series_cardinality.Node.Loop.Conserved.{received, Steps-apply_entries}
use time_series_cardinality.Startup.{rebuild}
use time_series_cardinality.Startup.Failures.Committed.{last_written, rebuild-last_written}

-- Whatever the interleaving of the event loop and its callers, whatever entries Raft commits, and
-- whatever the calls of Save return: a node that began with an empty store can be ended after any
-- step. A restart then reports no error, and answers for every group what the node answered right
-- after the last committed entry on the group that was handled without an error and whose Save
-- returned nil, which is an unknown group if there is none.
pub rebuild-Steps :
    {o : SketchOps} {alg : Algorithm o} (law : IsLawful o alg) {Db Storage : Type 0}
    (badger : Badger Db) (proto : Proto) (memory : MemoryStorage Storage) (gob : Gob)
    → IsBadger badger
    → IsScan badger
    → IsProto proto
    → (id : ℕ) (st : BadgerStore Db) (storage : Storage)
    → ((g : Bytes) → badger.get (key g) st.db ≡ ok none)
    → (t : Loop o alg Db Storage)
      (steps : Steps o alg Db Storage badger proto memory gob
        (new_loop o alg Db Storage id (new_engine o alg) st storage)
        t)
    → ((rebuild o alg badger t.raft.store).0 ≡ none)
      × ((g : Bytes)
          → cardinality o alg g (rebuild o alg badger t.raft.store).1.0
            ≡ cardinality o alg g (
                last_written Storage badger proto
                  (committed (received badger proto memory gob steps))
                  (new_node o alg Db Storage id (new_engine o alg) st storage)
                  (λ j. new_engine o alg)
                  g))
unfolding new_loop new_node
rebuild-Steps {o} {alg} law {Db} {Storage} badger proto memory gob doc scan is_proto id st storage
      bare t steps =
    let n = new_node o alg Db Storage id (new_engine o alg) st storage in
    let (m, applied, same) =
      Steps-apply_entries badger proto memory gob {law = law} _ t steps is_proto
        (new_engine-IsSound law) in
    let (m', applied', fine, answers) =
      rebuild-last_written Storage badger proto law doc is_proto
        (committed (received badger proto memory gob steps)) n scan (new_engine-IsSound law) bare in
    let here : m'.store ≡ t.raft.store = cc (applied, applied', same.store) in
    (
      ap (λ s. (rebuild o alg badger s).0) (sym here) ∙ fine,
      λ g. ap (λ s. cardinality o alg g (rebuild o alg badger s).1.0) (sym here) ∙ answers g,
    )
