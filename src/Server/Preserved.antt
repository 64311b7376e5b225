-- ===== src/Server/Preserved.antt =====
-- What every request keeps on its way through the code, before its own metrics are written.
use time_series_cardinality.Base.{
  ℕ, sym, subst, inl, inr, List, [], ◌∷◌, Bytes, Option-cases, Bool-cases, bytes_eq, ◌==◌, length,
}
use time_series_cardinality.External.{Murmur}
use time_series_cardinality.Errors.{Result, Result-cases}
use time_series_cardinality.Sketch.{SketchOps, Algorithm}
use time_series_cardinality.Engine.{Engine, add_and_persist}
use time_series_cardinality.Store.{Badger, BadgerStore, save}
use time_series_cardinality.Server.{
  Server, Network, Config, Event, batch_size, raft_proposal, forwarded, forwarded_error, note,
  get_peer_client, forward, forward_request, success_status, error_status, peer_of, add_owned,
  add_id, add_body, add_ids, batch_add_body, query_body, add_method, batch_add_method, query_method,
}
use time_series_cardinality.Server.Metrics.{IsQuiet, forward_request-forward}

module _ (o : SketchOps) (alg : Algorithm o) (Db : Type 0) {W : Type 0} (net : Network W) where
  -- A relation between a server before and after a step that the shapes of the code keep: nothing,
  -- one step after another, an event other than a request, calls that change only the world or only
  -- the engine and the store, and the lookup of a connection.
  pub record IsKept (R : Server o alg Db net → Server o alg Db net → Type 0) : Type 0 where
    pub nothing : (s : Server o alg Db net) → R s s
    pub steps : (s t u : Server o alg Db net) → R s t → R t u → R s u
    pub noted : (e : Event) (s : Server o alg Db net) → IsQuiet e → R s (note o alg Db net e s)
    pub called : (w : W) (s : Server o alg Db net) → R s (record s { world = w })
    pub written :
        (e : Engine o alg) (st : BadgerStore Db) (s : Server o alg Db net)
        → R s (record s { engine = e; store = st })
    pub dialled :
        (addr : Bytes) (s : Server o alg Db net) → R s (get_peer_client o alg Db net addr s).1

module _ (o : SketchOps) (alg : Algorithm o) (Db : Type 0) {W : Type 0} (net : Network W)
    (badger : Badger Db) (m : Murmur) (config : Config W)
    {R : Server o alg Db net → Server o alg Db net → Type 0} (kept : IsKept o alg Db net R) where
  forward-Kept :
      {A : Type 0} (owner method : Bytes) (call : net.ClientConn → W → Result A × W)
      (s : Server o alg Db net)
      → R s (forward o alg Db net owner method call s).1
  unfolding forward
  forward-Kept owner method call s =
      let s₁ = note o alg Db net (forwarded owner method) s in
      let t = (get_peer_client o alg Db net owner s₁).1 in
      let before =
        kept.steps s s₁ t (kept.noted (forwarded owner method) s tt) (kept.dialled owner s₁) in
      elim (Result-cases (get_peer_client o alg Db net owner s₁).0) [
        | inr (x, failed) ↦
            rw (failed, forward)
              (kept.steps s t _ before (kept.noted (forwarded_error owner method) t tt))
        | inl (c, got) ↦
            let u : Server o alg Db net = record t { world = (call c t.world).1 } in
            let after = kept.steps s t u before (kept.called (call c t.world).1 t) in
            elim (Result-cases (call c t.world).0) [
              | inl (a, fine) ↦ rw (got, fine, forward) after
              | inr (x, bad) ↦
                  rw (got, bad, forward)
                    (kept.steps s u _ after (kept.noted (forwarded_error owner method) u tt))
            ]
      ]

  forward_request-Kept :
      {A : Type 0} (owner method : Bytes) (call : net.ClientConn → W → Result A × W)
      (s : Server o alg Db net)
      → R s (forward_request o alg Db net owner method call s).1
  forward_request-Kept owner method call s =
      subst (R s) (sym (forward_request-forward owner method call s).1)
        (forward-Kept owner method call s)

  add_owned-Kept :
      (group : Bytes) (id : ℕ) (s : Server o alg Db net)
      → R s (add_owned o alg Db net badger m config group id s).1
  unfolding add_owned
  add_owned-Kept group id s = elim (Option-cases config.node) [
    | inr (node, there) ↦
        let t : Server o alg Db net = record s { world = (node.propose_add group id s.world).1 } in
        elim (Option-cases (node.propose_add group id s.world).0) [
          | inl fine ↦
              rw (there, fine, add_owned)
                (kept.steps s t _ (kept.called _ s)
                  (kept.noted (raft_proposal success_status) t tt))
          | inr (x, bad) ↦
              rw (there, bad, add_owned)
                (kept.steps s t _ (kept.called _ s) (kept.noted (raft_proposal error_status) t tt))
        ]
    | inl alone ↦
        elim (Option-cases
          (add_and_persist o alg group id (save badger group) s.engine s.store).0) [
            | inl fine ↦ rw (alone, fine, add_owned) (kept.written _ _ s)
            | inr (x, bad) ↦ rw (alone, bad, add_owned) (kept.written _ _ s)
          ]
  ]

  add_id-Kept :
      (method group : Bytes) (id : ℕ) (s : Server o alg Db net)
      → R s (add_id o alg Db net badger m config method group id s).1
  unfolding add_id
  add_id-Kept method group id s = elim (Option-cases (peer_of m config group)) [
    | inl own ↦ rw (own, add_id) (add_owned-Kept group id s)
    | inr (owner, other) ↦
        rw (other, add_id) (forward-Kept owner method (λ c. net.add c group id) s)
  ]

  pub add_body-Kept :
      (group : Bytes) (id : ℕ) (s : Server o alg Db net)
      → R s (add_body o alg Db net badger m config group id s).1
  unfolding add_body
  add_body-Kept group id s = elim (Bool-cases (group == [])) [
    | inl nameless ↦ rw nameless (kept.nothing s)
    | inr named ↦
        let one = add_id-Kept add_method group id s in
        elim (Option-cases (add_id o alg Db net badger m config add_method group id s).0) [
          | inl fine ↦ rw (named, fine, add_body) one
          | inr (x, bad) ↦ rw (named, bad, add_body) one
        ]
  ]

  add_ids-Kept :
      (group : Bytes) (ids : List ℕ) (s : Server o alg Db net)
      → R s (add_ids o alg Db net badger m config group ids s).1
  unfolding add_ids
  add_ids-Kept group [] s = kept.nothing s
  add_ids-Kept group (v ∷ ids) s =
      let one = add_id-Kept batch_add_method group v s in
      let t = (add_id o alg Db net badger m config batch_add_method group v s).1 in
      elim (Option-cases (add_id o alg Db net badger m config batch_add_method group v s).0) [
        | inl fine ↦ rw (fine, add_ids) (kept.steps s t _ one (add_ids-Kept group ids t))
        | inr (x, bad) ↦ rw (bad, add_ids) one
      ]

  pub batch_add_body-Kept :
      (group : Bytes) (ids : List ℕ) (s : Server o alg Db net)
      → R s (batch_add_body o alg Db net badger m config group ids s).1
  unfolding batch_add_body
  batch_add_body-Kept group ids s = elim (Bool-cases (group == [])) [
    | inl nameless ↦ rw nameless (kept.nothing s)
    | inr named ↦ elim (Option-cases (peer_of m config group)) [
      | inr (owner, other) ↦
          rw (named, other)
            (forward_request-Kept owner batch_add_method (λ c. net.batch_add c group ids) s)
      | inl own ↦
          rw (named, own)
            (kept.steps s (note o alg Db net (batch_size (length ids)) s) _
              (kept.noted (batch_size (length ids)) s tt) (add_ids-Kept group ids _))
    ]
  ]

  pub query_body-Kept :
      (group : Bytes) (s : Server o alg Db net)
      → R s (query_body o alg Db net badger m config group s).1
  unfolding query_body
  query_body-Kept group s = elim (Bool-cases (group == [])) [
    | inl nameless ↦ rw nameless (kept.nothing s)
    | inr named ↦ elim (Option-cases (peer_of m config group)) [
      | inr (owner, other) ↦
          rw (named, other) (forward_request-Kept owner query_method (λ c. net.query c group) s)
      | inl own ↦ rw (named, own) (kept.nothing s)
    ]
  ]
