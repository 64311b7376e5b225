-- ===== src/Startup/Failures/Calls.antt =====
-- A restart after calls of AddAndPersist, of which some returned the store's error.
use time_series_cardinality.Base.{ℕ, ◌≡◌, none, List, [], ◌∷◌, Bytes, bytes_eq}
use time_series_cardinality.Map.{lookup-insert_self}
use time_series_cardinality.Errors.{ok}
use time_series_cardinality.Sketch.{SketchOps, Algorithm, IsLawful}
use time_series_cardinality.Engine.{Engine, new_engine, added, add_and_persist, cardinality}
use time_series_cardinality.Engine.Groups.{
  IsSound, new_engine-IsSound, added-Touches, sketch_of-Made,
}
use time_series_cardinality.Store.{Badger, BadgerStore, key}
use time_series_cardinality.Store.Laws.{IsBadger}
use time_series_cardinality.Store.Scan.{IsScan}
use time_series_cardinality.Startup.{rebuild}
use time_series_cardinality.Startup.Durable.{acknowledged, serve}
use time_series_cardinality.Startup.Failures.{recorded, Lags, empty-Lags, save-Lags, rebuild-Lags}

module _ {o : SketchOps} {alg : Algorithm o} {Db : Type 0} (badger : Badger Db) where
  -- For each group, the engine as the group's last call that returned nil left it.
  unfoldable pub last_acknowledged :
      List (Bytes × ℕ)
      → Engine o alg
      → BadgerStore Db
      → (Bytes → Engine o alg)
      → Bytes
      → Engine o alg
  unfolding recorded
  last_acknowledged [] e st d = d
  last_acknowledged ((g, id) ∷ calls) e st d =
      let r = acknowledged o alg badger g id e st in
      last_acknowledged calls r.1.0 r.1.1 (recorded g r.0 r.1.0 d)

  module _ (law : IsLawful o alg) (doc : IsBadger badger) where
    serve-Lags :
        (calls : List (Bytes × ℕ)) (e : Engine o alg) (st : BadgerStore Db)
        (d : Bytes → Engine o alg)
        → IsSound law e
        → Lags law badger d st
        → Lags law badger (last_acknowledged calls e st d) (serve o alg badger calls e st).1
    unfolding serve last_acknowledged add_and_persist
    serve-Lags [] e st d sound h = h
    serve-Lags ((g, id) ∷ calls) e st d sound h =
        serve-Lags calls _ _ _ (unfold added in (added-Touches law g id sound).sound) (
          save-Lags law badger g _ _ d st doc (law.made_add id (sketch_of-Made law g sound))
            (lookup-insert_self g _ e.groups) h)

    -- From an empty store, after calls of AddAndPersist of which any may have failed in the store: a
    -- restart reports no error, and answers for every group what the engine answered right after
    -- the last call for that group that returned nil, which is an unknown group if there is none.
    pub rebuild-last_acknowledged :
        (calls : List (Bytes × ℕ)) (st : BadgerStore Db)
        → IsScan badger
        → ((g : Bytes) → badger.get (key g) st.db ≡ ok none)
        → let new = new_engine o alg in
          let final = serve o alg badger calls new st in
          ((rebuild o alg badger final.1).0 ≡ none)
          × ((g : Bytes)
              → cardinality o alg g (rebuild o alg badger final.1).1.0
                ≡ cardinality o alg g (last_acknowledged calls new st (λ j. new) g))
    rebuild-last_acknowledged calls st scan bare =
        let new = new_engine o alg in
        rebuild-Lags law badger _ _ scan (
          serve-Lags calls new st (λ j. new) (new_engine-IsSound law)
            (empty-Lags law badger st bare))
