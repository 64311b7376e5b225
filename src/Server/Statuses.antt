-- ===== src/Server/Statuses.antt =====
-- The status that each handler has set by the time it returns: on every branch that of its result.
use time_series_cardinality.Base.{
  ℕ, ◌≡◌, refl, inl, inr, List, [], ◌∷◌, Bytes, Option-cases, Bool-cases, bytes_eq, ◌==◌, length,
}
use time_series_cardinality.External.{Murmur}
use time_series_cardinality.Sketch.{SketchOps, Algorithm}
use time_series_cardinality.Store.{Badger}
use time_series_cardinality.Server.{
  Server, Network, Config, batch_size, note, peer_of, add_id, add_body, add_ids, batch_add_body,
  query_body, add_method, batch_add_method, query_method,
}
use time_series_cardinality.Server.Metrics.{status_of, forward_request-forward}

module _ (o : SketchOps) (alg : Algorithm o) (Db : Type 0) {W : Type 0} (net : Network W)
    (badger : Badger Db) (m : Murmur) (config : Config W) (group : Bytes) where
  pub add_body-status :
      (id : ℕ) (s : Server o alg Db net)
      → let p = add_body o alg Db net badger m config group id s in p.0.1 ≡ status_of p.0.0
  unfolding add_body
  add_body-status id s = elim (Bool-cases (group == [])) [
    | inl nameless ↦ rw (nameless, add_body) refl
    | inr named ↦
        elim (Option-cases (add_id o alg Db net badger m config add_method group id s).0) [
          | inl fine ↦ rw (named, fine, add_body) refl
          | inr (x, bad) ↦ rw (named, bad, add_body) refl
        ]
  ]

  add_ids-status :
      (ids : List ℕ) (s : Server o alg Db net)
      → let p = add_ids o alg Db net badger m config group ids s in p.0.1 ≡ status_of p.0.0
  unfolding add_ids
  add_ids-status [] s = refl
  add_ids-status (v ∷ ids) s =
      let (r, t) = add_id o alg Db net badger m config batch_add_method group v s in
      elim (Option-cases r) [
        | inl fine ↦ rw (fine, add_ids) (add_ids-status ids t)
        | inr (x, bad) ↦ rw (bad, add_ids) refl
      ]

  pub batch_add_body-status :
      (ids : List ℕ) (s : Server o alg Db net)
      → let p = batch_add_body o alg Db net badger m config group ids s in p.0.1 ≡ status_of p.0.0
  unfolding batch_add_body
  batch_add_body-status ids s = elim (Bool-cases (group == [])) [
    | inl nameless ↦ rw (nameless, batch_add_body) refl
    | inr named ↦ elim (Option-cases (peer_of m config group)) [
      | inr (owner, other) ↦
          rw (named, other, batch_add_body)
            (forward_request-forward owner batch_add_method (λ c. net.batch_add c group ids) s).2
      | inl own ↦
          rw (named, own, batch_add_body)
            (add_ids-status ids (note o alg Db net (batch_size (length ids)) s))
    ]
  ]

  pub query_body-status :
      (s : Server o alg Db net)
      → let p = query_body o alg Db net badger m config group s in p.0.1 ≡ status_of p.0.0
  unfolding query_body
  query_body-status s = elim (Bool-cases (group == [])) [
    | inl nameless ↦ rw (nameless, query_body) refl
    | inr named ↦ elim (Option-cases (peer_of m config group)) [
      | inr (owner, other) ↦
          rw (named, other, query_body)
            (forward_request-forward owner query_method (λ c. net.query c group) s).2
      | inl own ↦ rw (named, own, query_body) refl
    ]
  ]
