-- ===== src/Startup/Process/Reading.antt =====
-- cmd/server/main.go and internal/server/grpc.go: what a service reads out on Query, as run hands it
-- the engine, the store, the ring and the node's own address.
use time_series_cardinality.Base.{
  ℕ, ◌≡◌, refl, ◌∙◌, ap, [], ◌∷◌, Bytes, some, none, inl, inr, bytes_eq, ◌==◌, if◌then◌else◌,
  Bool-cases, Option-cases,
}
use time_series_cardinality.Map
use time_series_cardinality.Map.{lookup}
use time_series_cardinality.External.{Murmur}
use time_series_cardinality.Errors.{
  ok, err, Result, Result-cases, group_required, internal, dial_peer,
}
use time_series_cardinality.Sketch.{SketchOps, Algorithm}
use time_series_cardinality.Engine.{Engine, cardinality}
use time_series_cardinality.Store.{Badger}
use time_series_cardinality.Server
use time_series_cardinality.Server.{
  Network, RaftNode, Config, QueryResponse, note, get_peer_client, forward, finish, peer_of,
  query_body, query, query_owned, query_method, forwarded,
}
use time_series_cardinality.Server.Metrics.{forward_request-forward}
use time_series_cardinality.Server.Peers.{forward_answers}
use time_series_cardinality.Startup.Process.{Service, Effect, serving_grpc}

-- What Query makes of a count: a group that the engine does not know reads as 0.
abbrev pub count_or_zero : Result ℕ → ℕ
count_or_zero (ok n) = n
count_or_zero (err x) = 0

module _ (o : SketchOps) (alg : Algorithm o) (Db Storage : Type 0) {W : Type 0} (net : Network W)
    (raft : RaftNode W) (w : W) (badger : Badger Db) (m : Murmur) where
  -- The server that server.New makes of the parts that run passes to it.
  abbrev pub config_of : Service o alg Db Storage → Config W
  config_of service = record {
    node = some raft;
    router = service.router;
    self_addr = service.self_addr;
  }

  abbrev pub server_of : Service o alg Db Storage → Server.Server o alg Db net
  server_of service = Server.new o alg Db net service.node.engine service.node.store w

  -- The answer of a node that has to be dialled first.
  abbrev pub asked : Bytes → Bytes → Result QueryResponse
  asked owner j =
      let (r, w') = net.dial owner (net.insecure ∷ []) w in
      elim r [ err x ↦ err (internal dial_peer x) | ok c ↦ (net.query c j w').0 ]

  abbrev pub response : Bytes → Result ℕ → QueryResponse
  response j count = record { group = j; cardinality = count_or_zero count }

  -- What the first Query of the group j is to answer, from the count of j.
  abbrev pub answer : Service o alg Db Storage → Bytes → Result ℕ → Result QueryResponse
  answer service j count =
      if j == [] then err group_required else elim (peer_of m (config_of service) j) [
        | some owner ↦ asked owner j
        | none ↦ ok (response j count)
      ]

  -- A service whose engine reads each group as the group's own engine does, and whose Query, as its
  -- first request, answers from that count where it is not the node to ask another.
  unfoldable pub AnswersLike : (Bytes → Engine o alg) → Effect o alg Db Storage → Type 0
  AnswersLike d (serving_grpc service) =
      (j : Bytes)
      → (cardinality o alg j service.node.engine ≡ cardinality o alg j (d j))
        × ((query o alg Db net badger m (config_of service) j (server_of service)).0
            ≡ answer service j (cardinality o alg j (d j)))
  AnswersLike d other = Unit

  query_owned-response :
      (service : Service o alg Db Storage) (j : Bytes)
      → query_owned o alg Db net badger m (config_of service) j (server_of service)
        ≡ response j (cardinality o alg j service.node.engine)
  unfolding query_owned Server.new
  query_owned-response service j = elim (Result-cases (cardinality o alg j service.node.engine)) [
    | inl (n, known) ↦ rw known refl
    | inr (x, unknown) ↦ rw unknown refl
  ]

  -- A server that has no connections dials the owner.
  dialled_anew :
      (service : Service o alg Db Storage) (owner : Bytes)
      → let p =
          get_peer_client o alg Db net owner
            (note o alg Db net (forwarded owner query_method) (server_of service)) in
        let q = net.dial owner (net.insecure ∷ []) w in (p.0 ≡ q.0) × (p.1.world ≡ q.1)
  unfolding get_peer_client note Server.new lookup Map.empty
  dialled_anew service owner = elim (Result-cases (net.dial owner (net.insecure ∷ []) w).0) [
    | inl (c, fine) ↦ rw (fine, get_peer_client) (refl, refl)
    | inr (x, failed) ↦ rw (failed, get_peer_client) (refl, refl)
  ]

  forward-asked :
      (service : Service o alg Db Storage) (owner j : Bytes)
      → (forward o alg Db net owner query_method (λ c. net.query c j) (server_of service)).0
        ≡ asked owner j
  forward-asked service owner j =
      let call = λ (c : net.ClientConn). net.query c j in
      let (failing, fine) =
        forward_answers o alg Db net owner query_method call (server_of service) in
      let (same, world) = dialled_anew service owner in
      elim (Result-cases (net.dial owner (net.insecure ∷ []) w).0) [
        | inr (x, failed) ↦ rw (failed, asked) (failing x (same ∙ failed))
        | inl (c, got) ↦ rw (got, asked) (fine c (same ∙ got) ∙ ap (λ v. (call c v).0) world)
      ]

  query-answer :
      (service : Service o alg Db Storage) (j : Bytes)
      → (query o alg Db net badger m (config_of service) j (server_of service)).0
        ≡ answer service j (cardinality o alg j service.node.engine)
  unfolding query finish query_body
  query-answer service j = elim (Bool-cases (j == [])) [
    | inl nameless ↦ rw nameless refl
    | inr named ↦ elim (Option-cases (peer_of m (config_of service) j)) [
      | inl own ↦ rw (named, own) (ap ok (query_owned-response service j))
      | inr (owner, other) ↦
          rw (named, other)
            ((forward_request-forward owner query_method (λ c. net.query c j) (server_of service)).0
              ∙ forward-asked service owner j)
    ]
  ]

  -- It is enough that the engines agree.
  pub service-AnswersLike :
      (d : Bytes → Engine o alg) (service : Service o alg Db Storage)
      → ((j : Bytes) → cardinality o alg j service.node.engine ≡ cardinality o alg j (d j))
      → AnswersLike d (serving_grpc service)
  unfolding AnswersLike
  service-AnswersLike d service same j =
      (same j, query-answer service j ∙ ap (answer service j) (same j))
