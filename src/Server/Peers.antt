-- ===== src/Server/Peers.antt =====
-- The connections to peers: dialled once, and what comes back over them.
use time_series_cardinality.Base.{
  ℕ, ◌≡◌, ◌≢◌, refl, ◌∙◌, ap, inl, inr, List, [], ◌∷◌, Bytes, Option-cases, bytes_eq, some,
}
use time_series_cardinality.Map.{lookup, lookup-insert_self}
use time_series_cardinality.External.{Murmur}
use time_series_cardinality.Errors.{Error, internal, dial_peer, Result, ok, err, Result-cases}
use time_series_cardinality.Sketch.{SketchOps, Algorithm}
use time_series_cardinality.Store.{Badger}
use time_series_cardinality.Server.{
  batch_add_body, query_body, Server, Network, Config, note, forwarded, get_peer_client, forward,
  peer_of, batch_add, query, batch_add_method, query_method,
}
use time_series_cardinality.Server.Metrics.{forward_request-forward}
use time_series_cardinality.Server.Forwarding.{
  finish-same, batch_add_body_forwarded, query_body_forwarded,
}

module _ (o : SketchOps) (alg : Algorithm o) (Db : Type 0) {W : Type 0} (net : Network W) where
  pub get_peer_client_known :
      (addr : Bytes) (s : Server o alg Db net) {c : net.ClientConn}
      → lookup addr s.conns ≡ some c
      → get_peer_client o alg Db net addr s ≡ (ok c, s)
  unfolding get_peer_client
  get_peer_client_known addr s known = rw (known, get_peer_client) refl

  pub get_peer_client_kept :
      (addr : Bytes) (s : Server o alg Db net) (c : net.ClientConn)
      → (get_peer_client o alg Db net addr s).0 ≡ ok c
      → lookup addr (get_peer_client o alg Db net addr s).1.conns ≡ some c
  unfolding get_peer_client
  get_peer_client_kept addr s c p = elim (Option-cases (lookup addr s.conns)) [
    | inr (d, known) ↦ rw (known, get_peer_client) (known ∙ cc (rw (known, get_peer_client) at p))
    | inl unknown ↦ elim (Result-cases (net.dial addr (net.insecure ∷ s.dial_opts) s.world).0) [
      | inl (d, dialled) ↦
          rw (unknown, dialled, get_peer_client)
            (lookup-insert_self addr d s.conns ∙ cc (rw (unknown, dialled, get_peer_client) at p))
      | inr (x, failed) ↦ cc (rw (unknown, failed, get_peer_client) at p)
    ]
  ]

  -- A peer that was reached once is not dialled again: a second request for its client gives the
  -- same connection, and changes nothing on the server or outside it.
  pub get_peer_client_again :
      (addr : Bytes) (s : Server o alg Db net) (c : net.ClientConn)
      → (get_peer_client o alg Db net addr s).0 ≡ ok c
      → get_peer_client o alg Db net addr (get_peer_client o alg Db net addr s).1
        ≡ (ok c, (get_peer_client o alg Db net addr s).1)
  get_peer_client_again addr s c p = get_peer_client_known addr _ (get_peer_client_kept addr s c p)

  -- What a forwarded call answers: the error of the dial, or the peer's answer, error or not.
  pub forward_answers :
      {A : Type 0} (owner method : Bytes) (call : net.ClientConn → W → Result A × W)
      (s : Server o alg Db net)
      → let r = get_peer_client o alg Db net owner (note o alg Db net (forwarded owner method) s) in
        ((x : Error)
          → r.0 ≡ err x
          → (forward o alg Db net owner method call s).0 ≡ err (internal dial_peer x))
        × ((c : net.ClientConn)
            → r.0 ≡ ok c
            → (forward o alg Db net owner method call s).0 ≡ (call c r.1.world).0)
  unfolding forward
  forward_answers owner method call s =
      let r = get_peer_client o alg Db net owner (note o alg Db net (forwarded owner method) s) in
      (
        λ x failed. rw (failed, forward) refl,
        λ c got. elim (Result-cases (call c r.1.world).0) [
          | inl (a, fine) ↦ rw (got, fine, forward) refl
          | inr (x, bad) ↦ rw (got, bad, forward) refl
        ],
      )

  known_client :
      (owner method : Bytes) (s : Server o alg Db net) (c : net.ClientConn)
      → lookup owner s.conns ≡ some c
      → get_peer_client o alg Db net owner (note o alg Db net (forwarded owner method) s)
        ≡ (ok c, note o alg Db net (forwarded owner method) s)
  known_client owner method s c known = get_peer_client_known owner _ (unfold note in known)

  forward_known :
      {A : Type 0} (owner method : Bytes) (call : net.ClientConn → W → Result A × W)
      (s : Server o alg Db net) (c : net.ClientConn)
      → lookup owner s.conns ≡ some c
      → (forward o alg Db net owner method call s).0 ≡ (call c s.world).0
  forward_known owner method call s c known =
      let e = known_client owner method s c known in
      (forward_answers owner method call s).1 c (ap (λ r. r.0) e)
      ∙ ap (λ r. (call c r.1.world).0) e
      ∙ unfold note in refl

  module _ (badger : Badger Db) (m : Murmur) (config : Config W) where
    -- On a node with a connection to the other node that owns a named group, BatchAdd and Query of
    -- that group answer exactly what the owner answers, its errors included.
    pub forwarded_answers :
        (group owner : Bytes) (ids : List ℕ) (s : Server o alg Db net) (c : net.ClientConn)
        → group ≢ []
        → peer_of m config group ≡ some owner
        → lookup owner s.conns ≡ some c
        → ((batch_add o alg Db net badger m config group ids s).0
            ≡ (net.batch_add c group ids s.world).0)
          × ((query o alg Db net badger m config group s).0 ≡ (net.query c group s.world).0)
    unfolding batch_add query
    forwarded_answers group owner ids s c named other known = (
      (finish-same o alg Db net badger m config batch_add_method
            (batch_add_body o alg Db net badger m config group ids s)).0
          ∙ ap (λ r. r.0.0)
              (batch_add_body_forwarded o alg Db net badger m config group owner named other ids s)
          ∙ (forward_request-forward owner batch_add_method (λ d. net.batch_add d group ids) s).0
          ∙ forward_known owner batch_add_method (λ d. net.batch_add d group ids) s c known,
      (finish-same o alg Db net badger m config query_method
            (query_body o alg Db net badger m config group s)).0
          ∙ ap (λ r. r.0.0)
              (query_body_forwarded o alg Db net badger m config group owner named other s)
          ∙ (forward_request-forward owner query_method (λ d. net.query d group) s).0
          ∙ forward_known owner query_method (λ d. net.query d group) s c known,
    )
