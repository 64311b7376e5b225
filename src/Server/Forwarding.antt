-- ===== src/Server/Forwarding.antt =====
-- Requests for a group of another node.
use time_series_cardinality.Base.{
  ℕ, ◌≡◌, ◌≢◌, refl, sym, ◌∙◌, ap, subst, inl, inr, List, [], Bytes, arith, Option-cases,
  Bool-cases, true, false, bytes_eq, bytes_eqb_iff, ◌==◌, Option, none, some, if◌then◌else◌,
}
use time_series_cardinality.External.{Murmur}
use time_series_cardinality.Errors.{Result}
use time_series_cardinality.Sketch.{SketchOps, Algorithm}
use time_series_cardinality.Router.{Ring, resolve}
use time_series_cardinality.Store.{Badger}
use time_series_cardinality.Server.{
  Server, Network, Config, note, finish, forward, forward_request, Handled, peer_of, add_id,
  add_body, add, batch_add_body, batch_add, query_body, query, error_of, add_method,
  batch_add_method, query_method,
}
use time_series_cardinality.Server.Metrics.{Passed, forward-Passed, forward_request-forward}

-- The owner that `peer_of` leaves of a ring's answer.
other_owner : Bytes → Bytes → Option Bytes
other_owner self owner = if owner == [] then none else if owner == self then none else some owner

peer_of-ring :
    {W : Type 0} (m : Murmur) (config : Config W) (group : Bytes) (ring : Ring)
    → config.router ≡ some ring
    → config.self_addr ≢ []
    → peer_of m config group ≡ other_owner config.self_addr (resolve m group ring)
unfolding peer_of other_owner
peer_of-ring m config group ring there named =
    let known : (config.self_addr == []) ≡ false =
      ground (arith, bytes_eqb_iff config.self_addr []) in
    rw (there, peer_of) (rw known refl)

peer_of_lone :
    {W : Type 0} (m : Murmur) (config : Config W) (group : Bytes)
    → config.router ≡ none
    → peer_of m config group ≡ none
unfolding peer_of
peer_of_lone m config group there = rw (there, peer_of) refl

peer_of_nameless :
    {W : Type 0} (m : Murmur) (config : Config W) (group : Bytes)
    → config.self_addr ≡ []
    → peer_of m config group ≡ none
unfolding peer_of
peer_of_nameless m config group nameless = elim (Option-cases config.router) [
  | inl lone ↦ rw (lone, peer_of) refl
  | inr (ring, there) ↦
      let known : (config.self_addr == []) ≡ true =
        ground (arith, bytes_eqb_iff config.self_addr []) in
      rw (there, peer_of) (rw known refl)
]

other_owner_lem :
    (self answer owner : Bytes)
    → other_owner self answer ≡ some owner
    → (answer ≡ owner) × (owner ≢ []) × (owner ≢ self)
unfolding other_owner
other_owner_lem self answer owner p = elim (Bool-cases (answer == [])) [
  | inl nobody ↦ cc (rw nobody at p)
  | inr somebody ↦ elim (Bool-cases (answer == self)) [
    | inl mine ↦ cc (rw (somebody, mine) at p)
    | inr other ↦
        let same : answer ≡ owner = cc (rw (somebody, other) at p) in
        (
          same,
          λ e. cc (somebody, (bytes_eqb_iff answer []).1 (same ∙ e)),
          λ e. cc (other, (bytes_eqb_iff answer self).1 (same ∙ e)),
        )
  ]
]

-- A group has a peer to forward to exactly for a node with a ring and an address of its own, and
-- then the peer is the ring's owner of the group, and another node.
peer_of_other :
    {W : Type 0} (m : Murmur) (config : Config W) (group owner : Bytes)
    → peer_of m config group ≡ some owner
    → (ring : Ring) × (config.router ≡ some ring)
      × (resolve m group ring ≡ owner)
      × (owner ≢ [])
      × (owner ≢ config.self_addr)
peer_of_other m config group owner p = elim (Option-cases config.router) [
  | inl lone ↦ cc (p, peer_of_lone m config group lone)
  | inr (ring, there) ↦ elim (Bool-cases (config.self_addr == [])) [
    | inl nameless ↦ cc (p, peer_of_nameless m config group ((bytes_eqb_iff _ _).0 nameless))
    | inr named ↦
        let e =
          peer_of-ring m config group ring there
            (λ q. cc (named, (bytes_eqb_iff config.self_addr []).1 q)) in
        let (same, some_name, other) =
          other_owner_lem config.self_addr (resolve m group ring) owner (sym e ∙ p) in
        (ring, there, same, some_name, other)
  ]
]

other_owner_self : (self answer : Bytes) → answer ≡ self → other_owner self answer ≡ none
unfolding other_owner
other_owner_self self answer e = ground (arith, bytes_eqb_iff answer self)

-- A request is forwarded once at most: the peer that a node forwards a group to is another node,
-- and where that peer has the same ring and is known by the address it was found under, it does not
-- forward the group again.
pub forwards_once :
    {W : Type 0} (m : Murmur) (config config' : Config W) (group owner : Bytes)
    → peer_of m config group ≡ some owner
    → config'.router ≡ config.router
    → config'.self_addr ≡ owner
    → (owner ≢ config.self_addr) × (peer_of m config' group ≡ none)
forwards_once m config config' group owner p same_ring me =
    let (ring, there, found, some_name, other) = peer_of_other m config group owner p in
    (
      other,
      peer_of-ring m config' group ring (same_ring ∙ there) (λ e. some_name (sym me ∙ e))
          ∙ other_owner_self config'.self_addr (resolve m group ring) (found ∙ sym me),
    )

module _ (o : SketchOps) (alg : Algorithm o) (Db : Type 0) {W : Type 0} (net : Network W)
    (badger : Badger Db) (m : Murmur) (config : Config W) where
  pub finish-same :
      {A : Type 0} (method : Bytes) (p : Handled A × Server o alg Db net)
      → ((finish o alg Db net method p).0 ≡ p.0.0)
        × ((finish o alg Db net method p).1.engine ≡ p.1.engine)
        × ((finish o alg Db net method p).1.store ≡ p.1.store)
  unfolding finish note
  finish-same method ((r, status), t) = (refl, refl, refl)

  -- The engine and the store of t are those of s.
  pub record Untouched (s t : Server o alg Db net) : Type 0 where
    pub engine : t.engine ≡ s.engine
    pub store : t.store ≡ s.store

  finish-Untouched :
      {A : Type 0} (method : Bytes) (p : Handled A × Server o alg Db net) (s : Server o alg Db net)
      → Passed s p.1
      → Untouched s (finish o alg Db net method p).1
  finish-Untouched method p s h =
      let (same, e, st) = finish-same method p in
      record { engine = e ∙ h.engine; store = st ∙ h.store }

  module _ (group owner : Bytes) (named : group ≢ [])
      (other : peer_of m config group ≡ some owner) where
    some_name : (group == []) ≡ false
    some_name = ground (arith, bytes_eqb_iff group [])

    add_id_forwarded :
        (method : Bytes) (id : ℕ) (s : Server o alg Db net)
        → let r = forward o alg Db net owner method (λ c. net.add c group id) s in
          add_id o alg Db net badger m config method group id s ≡ (error_of r.0, r.1)
    unfolding add_id
    add_id_forwarded method id s = rw (other, add_id) refl

    add_body-add_id :
        (id : ℕ) (s : Server o alg Db net)
        → (add_body o alg Db net badger m config group id s).1
          ≡ (add_id o alg Db net badger m config add_method group id s).1
    unfolding add_body
    add_body-add_id id s =
        elim (Option-cases (add_id o alg Db net badger m config add_method group id s).0) [
          | inl fine ↦ rw (some_name, fine) refl
          | inr (x, bad) ↦ rw (some_name, bad) refl
        ]

    add_body_forwarded :
        (id : ℕ) (s : Server o alg Db net)
        → Passed s (add_body o alg Db net badger m config group id s).1
    add_body_forwarded id s =
        subst (λ t. Passed s t)
          (sym (add_body-add_id id s ∙ ap (λ r. r.1) (add_id_forwarded add_method id s)))
          (forward-Passed owner add_method (λ c. net.add c group id) s)

    forward_request-Passed :
        {A : Type 0} (owner method : Bytes) (call : net.ClientConn → W → Result A × W)
        (s : Server o alg Db net)
        → Passed s (forward_request o alg Db net owner method call s).1
    forward_request-Passed owner method call s =
        subst (λ t. Passed s t) (sym (forward_request-forward owner method call s).1)
          (forward-Passed owner method call s)

    pub batch_add_body_forwarded :
        (ids : List ℕ) (s : Server o alg Db net)
        → batch_add_body o alg Db net badger m config group ids s
          ≡ forward_request o alg Db net owner batch_add_method (λ c. net.batch_add c group ids) s
    unfolding batch_add_body
    batch_add_body_forwarded ids s = rw (some_name, other) refl

    pub query_body_forwarded :
        (s : Server o alg Db net)
        → query_body o alg Db net badger m config group s
          ≡ forward_request o alg Db net owner query_method (λ c. net.query c group) s
    unfolding query_body
    query_body_forwarded s = rw (some_name, other) refl

    -- A request for a named group of another node, forwarded or failed on the way, leaves this node's
    -- engine and store as they are.
    pub forwarded_elsewhere :
        (id : ℕ) (ids : List ℕ) (s : Server o alg Db net)
        → Untouched s (add o alg Db net badger m config group id s).1
          × Untouched s (batch_add o alg Db net badger m config group ids s).1
          × Untouched s (query o alg Db net badger m config group s).1
    unfolding add batch_add query
    forwarded_elsewhere id ids s = (
      finish-Untouched add_method (add_body o alg Db net badger m config group id s) s
          (add_body_forwarded id s),
      finish-Untouched batch_add_method (batch_add_body o alg Db net badger m config group ids s) s
          (rw (batch_add_body_forwarded ids s)
            (forward_request-Passed owner batch_add_method (λ c. net.batch_add c group ids) s)),
      finish-Untouched query_method (query_body o alg Db net badger m config group s) s (
          rw (query_body_forwarded s)
            (forward_request-Passed owner query_method (λ c. net.query c group) s)),
    )
