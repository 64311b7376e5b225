-- ===== src/Server/Standalone.antt =====
-- Requests that a node without Raft answers itself.
use time_series_cardinality.Base.{
  ℕ, ◌≡◌, ◌≢◌, refl, ◌∙◌, ap, inl, inr, [], Bytes, arith, Option-cases, true, false, bytes_eq,
  bytes_eqb_iff, ◌==◌, Option, none, some,
}
use time_series_cardinality.Map.{lookup, lookup-insert_self}
use time_series_cardinality.External.{Murmur}
use time_series_cardinality.Errors.{Error, internal, engine_add, Result, ok, err}
use time_series_cardinality.Sketch.{SketchOps, Algorithm}
use time_series_cardinality.Engine.{Engine, sketch_of, added}
use time_series_cardinality.Engine.Snapshots.{cardinality_known}
use time_series_cardinality.Store.{Badger, BadgerStore, save, load}
use time_series_cardinality.Store.Laws.{IsBadger, load_saved}
use time_series_cardinality.Server.{
  Server, Network, Config, finish, peer_of, add_owned, add_id, add_body, add, query_body,
  query_owned, query, AddResponse, add_method,
}
use time_series_cardinality.Server.Forwarding.{finish-same}

module _ (o : SketchOps) (alg : Algorithm o) (Db : Type 0) {W : Type 0} (net : Network W)
    (badger : Badger Db) (m : Murmur) (config : Config W) (group : Bytes) where
  -- The group's sketch after the add, and what Save makes of it.
  abbrev pub next_sketch : ℕ → Server o alg Db net → o.Sketch
  next_sketch id s = o.add (sketch_of o alg group s.engine) id

  abbrev pub saved : ℕ → Server o alg Db net → Option Error × BadgerStore Db
  saved id s = save badger group (o.bytes (next_sketch id s)) s.store

  -- One id on the engine and in the store: the engine has it, whether or not Save failed.
  pub record Stored (id : ℕ) (s t : Server o alg Db net) : Type 0 where
    pub engine : t.engine ≡ added o alg group id s.engine
    pub store : t.store ≡ (saved id s).1

  -- What Add answers from what Save returned.
  abbrev pub answered : Option Error → Result AddResponse
  answered none = ok (record { ok = true })
  answered (some x) = err (internal engine_add x)

  some_name : group ≢ [] → (group == []) ≡ false
  some_name named = ground (arith, bytes_eqb_iff group [])

  -- Query of a named group on a node that answers itself, with Raft or without.
  pub query_own :
      peer_of m config group ≡ none
      → group ≢ []
      → (s : Server o alg Db net)
      → (query o alg Db net badger m config group s).0
        ≡ ok (query_owned o alg Db net badger m config group s)
  unfolding query query_body finish
  query_own own named s = rw (some_name named, own) refl

  module _ (own : peer_of m config group ≡ none) (alone : config.node ≡ none) where
    pub add_id_standalone :
        (method : Bytes) (id : ℕ) (s : Server o alg Db net)
        → ((saved id s).0 ≡ none → (add_id o alg Db net badger m config method group id s).0 ≡ none)
          × ((x : Error)
              → (saved id s).0 ≡ some x
              → (add_id o alg Db net badger m config method group id s).0
                ≡ some (internal engine_add x))
          × Stored id s (add_id o alg Db net badger m config method group id s).1
    unfolding add_id add_owned added
    add_id_standalone method id s = elim (Option-cases (saved id s).0) [
      | inl fine ↦
          rw (own, add_id)
            (rw (alone, add_owned)
              (rw (fine, add_owned)
                (λ h. refl, λ x bad. cc bad, record { engine = refl; store = refl })))
      | inr (y, failed) ↦
          rw (own, add_id)
            (rw (alone, add_owned)
              (rw (failed, add_owned)
                (λ fine. cc fine, λ x bad. cc bad, record { engine = refl; store = refl })))
    ]

    module _ (named : group ≢ []) where
      add_body-standalone :
          (id : ℕ) (s : Server o alg Db net)
          → ((saved id s).0 ≡ none
              → (add_body o alg Db net badger m config group id s).0.0 ≡ ok (record { ok = true }))
            × ((x : Error)
                → (saved id s).0 ≡ some x
                → (add_body o alg Db net badger m config group id s).0.0
                  ≡ err (internal engine_add x))
            × ((add_body o alg Db net badger m config group id s).1
                ≡ (add_id o alg Db net badger m config add_method group id s).1)
      unfolding add_body
      add_body-standalone id s =
          let (fine, failed, stored) = add_id_standalone add_method id s in
          elim (Option-cases (add_id o alg Db net badger m config add_method group id s).0) [
            | inl passed ↦
                rw (some_name named, passed) (λ h. refl, λ x bad. cc (passed, failed x bad), refl)
            | inr (y, stopped) ↦
                rw (some_name named, stopped)
                  (λ h. cc (stopped, fine h), λ x bad. cc (stopped, failed x bad), refl)
          ]

      add_cases :
          (id : ℕ) (s : Server o alg Db net)
          → ((saved id s).0 ≡ none
              → (add o alg Db net badger m config group id s).0 ≡ ok (record { ok = true }))
            × ((x : Error)
                → (saved id s).0 ≡ some x
                → (add o alg Db net badger m config group id s).0 ≡ err (internal engine_add x))
            × Stored id s (add o alg Db net badger m config group id s).1
      unfolding add
      add_cases id s =
          let (fine, failed, stored) = add_id_standalone add_method id s in
          let (fine', failed', same) = add_body-standalone id s in
          let (e, kept, st) =
            finish-same o alg Db net badger m config add_method
              (add_body o alg Db net badger m config group id s) in
          (
            λ h. e ∙ fine' h,
            λ x h. e ∙ failed' x h,
            record {
              engine = kept ∙ ap (λ (u : Server o alg Db net). u.engine) same ∙ stored.engine;
              store = st ∙ ap (λ (u : Server o alg Db net). u.store) same ∙ stored.store;
            },
          )

      -- Add for a named group on a node that answers itself, without Raft: it returns ok if Save
      -- returns nil, and else the error of Save behind codes.Internal. On either way the id is in the
      -- engine, and the store is what Save made of the group's new sketch.
      pub add_standalone :
          (id : ℕ) (s : Server o alg Db net)
          → ((add o alg Db net badger m config group id s).0 ≡ answered (saved id s).0)
            × Stored id s (add o alg Db net badger m config group id s).1
      add_standalone id s =
          let (fine, failed, stored) = add_cases id s in
          elim (Option-cases (saved id s).0) [
            | inl kept ↦ rw kept (fine kept, stored)
            | inr (x, bad) ↦ rw bad (failed x bad, stored)
          ]

      query_known :
          (s : Server o alg Db net) {sk : o.Sketch}
          → lookup group s.engine.groups ≡ some sk
          → query_owned o alg Db net badger m config group s
            ≡ record { group = group; cardinality = o.cardinality sk }
      unfolding query_owned
      query_known s found = rw (cardinality_known o alg group s.engine found) refl

      -- On a node that answers itself, without Raft, and for a named group: after an Add whose Save
      -- returned nil, Query answers with the count of the sketch that has the id, and the store
      -- holds exactly that sketch's bytes.
      pub query-add :
          (id : ℕ) (s : Server o alg Db net)
          → IsBadger badger
          → (saved id s).0 ≡ none
          → ((query o alg Db net badger m config group
                (add o alg Db net badger m config group id s).1).0
              ≡ ok (record { group = group; cardinality = o.cardinality (next_sketch id s) }))
            × (load badger group (add o alg Db net badger m config group id s).1.store
                ≡ ok (o.bytes (next_sketch id s)))
      query-add id s law fine =
          let (_, _, stored) = add_cases id s in
          let t = (add o alg Db net badger m config group id s).1 in
          (
            query_own own named t
                ∙ ap ok (
                    query_known t (
                      ap (λ (e : Engine o alg). lookup group e.groups) stored.engine
                      ∙ unfold added in lookup-insert_self group _ s.engine.groups)),
            ap (load badger group) stored.store
                ∙ (load_saved badger law group (o.bytes (next_sketch id s)) s.store fine).0,
          )
