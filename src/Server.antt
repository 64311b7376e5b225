-- ===== src/Server.antt =====
-- internal/server/grpc.go: the gRPC service. A request is a step on the server's state; requests
-- that run at the same time meet only in the parts that their own locks guard.
pub mod Metrics
pub mod Preserved
pub mod Statuses
pub mod Requests
pub mod Forwarding
pub mod Peers
pub mod Closing
pub mod Standalone
pub mod Batches
use mathlib.Core.List.{foldl}
use time_series_cardinality.Base.{
  ℕ, Bool, true, false, Option, none, some, List, [], ◌∷◌, ◌++◌, Bytes, lit, bytes_eq, ◌==◌,
  if◌then◌else◌, length,
}
use time_series_cardinality.Map
use time_series_cardinality.Map.{Map, lookup, insert}
use time_series_cardinality.External.{Murmur}
use time_series_cardinality.Errors.{
  Error, group_required, internal, dial_peer, raft_propose, engine_add, Result, ok, err,
}
use time_series_cardinality.Sketch.{SketchOps, Algorithm}
use time_series_cardinality.Engine
use time_series_cardinality.Engine.{Engine, add_and_persist}
use time_series_cardinality.Router.{Ring, resolve}
use time_series_cardinality.Store.{Badger, BadgerStore, save}

pub record AddResponse : Type 0 where
  pub ok : Bool

pub record QueryResponse : Type 0 where
  pub group : Bytes
  pub cardinality : ℕ

-- google.golang.org/grpc: dialling a peer with some options, the calls of the peer's service, and
-- closing a connection, whose error is ignored. `insecure` is WithTransportCredentials of
-- insecure.NewCredentials. W is the world outside this server.
pub record Network (W : Type 0) : Type 1 where
  pub ClientConn : Type 0
  pub DialOption : Type 0
  pub insecure : DialOption
  pub dial : Bytes → List DialOption → W → Result ClientConn × W
  pub close_conn : ClientConn → W → W
  pub add : ClientConn → Bytes → ℕ → W → Result AddResponse × W
  pub batch_add : ClientConn → Bytes → List ℕ → W → Result AddResponse × W
  pub query : ClientConn → Bytes → W → Result QueryResponse × W

-- The interface RaftNode.
pub record RaftNode (W : Type 0) : Type 0 where
  pub propose_add : Bytes → ℕ → W → Option Error × W

-- What is written to the metrics of internal/server/metrics.go, with their labels. A request writes
-- its counter and its duration.
pub data Event : Type 0 where
  request : Bytes → Bytes → Event
  forwarded forwarded_error : Bytes → Bytes → Event
  raft_proposal : Bytes → Event
  batch_size : ℕ → Event

-- The values that a handler writes to its variable statusStr.
abbrev pub success_status : Bytes
success_status = lit "success"

abbrev pub error_status : Bytes
error_status = lit "error"

-- What a handler returns, and what statusStr is by then.
abbrev pub Handled {ℓ} : Type ℓ → Type ℓ
Handled A = Result A × Bytes

abbrev pub add_method : Bytes
add_method = lit "Add"

abbrev pub batch_add_method : Bytes
batch_add_method = lit "BatchAdd"

abbrev pub query_method : Bytes
query_method = lit "Query"

abbrev pub error_of {ℓ} : {A : Type ℓ} → Result A → Option Error
error_of (ok a) = none
error_of (err e) = some e

-- The fields of Server that New sets for good: a nil router and a nil node are `none`.
pub record Config (W : Type 0) : Type 0 where
  pub node : Option (RaftNode W)
  pub router : Option Ring
  pub self_addr : Bytes

-- The peer that a group's requests are forwarded to.
unfoldable pub peer_of : {W : Type 0} → Murmur → Config W → Bytes → Option Bytes
peer_of m config group = elim config.router [
  | none ↦ none
  | some ring ↦
      if config.self_addr == []
      then none
      else (let owner = resolve m group ring in
          if owner == [] then none else if owner == config.self_addr then none else some owner)
]

module _ (o : SketchOps) (alg : Algorithm o) (Db : Type 0) {W : Type 0} (net : Network W) where
  -- The fields of Server that change, and the metrics.
  pub record Server : Type 0 where
    pub engine : Engine o alg
    pub store : BadgerStore Db
    pub dial_opts : List net.DialOption
    pub conns : Map Bytes net.ClientConn
    pub world : W
    pub events : List Event

  unfoldable pub new : Engine o alg → BadgerStore Db → W → Server
  new engine store w = record {
    engine = engine;
    store = store;
    dial_opts = [];
    conns = Map.empty;
    world = w;
    events = [];
  }

  unfoldable pub set_dial_options : List net.DialOption → Server → Server
  set_dial_options opts s = record s { dial_opts = opts }

  -- Close: the connections stay in the map.
  unfoldable pub close : Server → Server
  close s = record s {
    world =
        foldl (λ (w : W) (entry : Bytes × net.ClientConn). net.close_conn entry.1 w) s.world
          s.conns.entries;
  }

  unfoldable pub note : Event → Server → Server
  note e s = record s { events = s.events ++ e ∷ [] }

  -- The deferred function of a request, which reads statusStr.
  unfoldable pub finish {ℓ} : {A : Type ℓ} → Bytes → Handled A × Server → Result A × Server
  unfolding note
  finish method ((r, status), s) = (r, note (request method status) s)

  unfoldable pub get_peer_client : Bytes → Server → Result net.ClientConn × Server
  get_peer_client addr s = elim (lookup addr s.conns) [
    | some conn ↦ (ok conn, s)
    | none ↦
        let (r, w) = net.dial addr (net.insecure ∷ s.dial_opts) s.world in
        elim r [
          | err x ↦ (err x, record s { world = w })
          | ok conn ↦ (ok conn, record s { conns = insert addr conn s.conns; world = w })
        ]
  ]

  -- The block of addID that forwards a call to the owner.
  unfoldable pub forward {ℓ} :
      {A : Type ℓ}
      → Bytes
      → Bytes
      → (net.ClientConn → W → Result A × W)
      → Server
      → Result A × Server
  unfolding note get_peer_client
  forward owner method call s =
      let (r, t) = get_peer_client owner (note (forwarded owner method) s) in
      elim r [
        | err x ↦ (err (internal dial_peer x), note (forwarded_error owner method) t)
        | ok client ↦
            let (a, w) = call client t.world in
            let u : Server = record t { world = w } in
            elim a [
              | err x ↦ (err x, note (forwarded_error owner method) u)
              | ok resp ↦ (ok resp, u)
            ]
      ]

  -- The same block of BatchAdd and of Query, which sets statusStr before each return with an error.
  unfoldable pub forward_request {ℓ} :
      {A : Type ℓ}
      → Bytes
      → Bytes
      → (net.ClientConn → W → Result A × W)
      → Server
      → Handled A × Server
  unfolding note get_peer_client
  forward_request owner method call s =
      let (r, t) = get_peer_client owner (note (forwarded owner method) s) in
      elim r [
        | err x ↦
            ((err (internal dial_peer x), error_status), note (forwarded_error owner method) t)
        | ok client ↦
            let (a, w) = call client t.world in
            let u : Server = record t { world = w } in
            elim a [
              | err x ↦ ((err x, error_status), note (forwarded_error owner method) u)
              | ok resp ↦ ((ok resp, success_status), u)
            ]
      ]

  module _ (badger : Badger Db) (m : Murmur) (config : Config W) where
    -- addID on the node that owns the group: through Raft, or in standalone mode on the engine.
    unfoldable pub add_owned : Bytes → ℕ → Server → Option Error × Server
    unfolding note add_and_persist
    add_owned group id s = elim config.node [
      | some node ↦
          let (r, w) = node.propose_add group id s.world in
          let t : Server = record s { world = w } in
          elim r [
            | some x ↦ (some (internal raft_propose x), note (raft_proposal error_status) t)
            | none ↦ (none, note (raft_proposal success_status) t)
          ]
      | none ↦
          let (r, (e, st)) = add_and_persist o alg group id (save badger group) s.engine s.store in
          let t : Server = record s { engine = e; store = st } in
          elim r [ some x ↦ (some (internal engine_add x), t) | none ↦ (none, t) ]
    ]

    unfoldable pub add_id : Bytes → Bytes → ℕ → Server → Option Error × Server
    unfolding peer_of forward add_owned
    add_id method group id s = elim (peer_of m config group) [
      | some owner ↦
          let (r, t) = forward owner method (λ client. net.add client group id) s in (error_of r, t)
      | none ↦ add_owned group id s
    ]

    unfoldable pub add_body : Bytes → ℕ → Server → Handled AddResponse × Server
    unfolding add_id
    add_body group id s =
        if group == []
        then ((err group_required, error_status), s)
        else (let (r, t) = add_id add_method group id s in
            elim r [
              | some x ↦ ((err x, error_status), t)
              | none ↦ ((ok (record { ok = true }), success_status), t)
            ])

    unfoldable pub add : Bytes → ℕ → Server → Result AddResponse × Server
    unfolding finish add_body
    add group id s = finish add_method (add_body group id s)

    -- The loop of BatchAdd over the ids.
    unfoldable pub add_ids : Bytes → List ℕ → Server → Handled AddResponse × Server
    unfolding add_id
    add_ids group [] s = ((ok (record { ok = true }), success_status), s)
    add_ids group (v ∷ ids) s =
        let (r, t) = add_id batch_add_method group v s in
        elim r [ some x ↦ ((err x, error_status), t) | none ↦ add_ids group ids t ]

    unfoldable pub batch_add_body : Bytes → List ℕ → Server → Handled AddResponse × Server
    unfolding peer_of forward_request add_ids note length
    batch_add_body group ids s =
        if group == []
        then ((err group_required, error_status), s)
        else elim (peer_of m config group) [
          | some owner ↦
              forward_request owner batch_add_method (λ client. net.batch_add client group ids) s
          | none ↦ add_ids group ids (note (batch_size (length ids)) s)
        ]

    unfoldable pub batch_add : Bytes → List ℕ → Server → Result AddResponse × Server
    unfolding finish batch_add_body
    batch_add group ids s = finish batch_add_method (batch_add_body group ids s)

    -- An unknown group reads as empty.
    unfoldable pub query_owned : Bytes → Server → QueryResponse
    query_owned group s = record {
      group = group;
      cardinality = elim (Engine.cardinality o alg group s.engine) [ ok n ↦ n | err x ↦ 0 ];
    }

    unfoldable pub query_body : Bytes → Server → Handled QueryResponse × Server
    unfolding peer_of forward_request query_owned
    query_body group s =
        if group == []
        then ((err group_required, error_status), s)
        else elim (peer_of m config group) [
          | some owner ↦ forward_request owner query_method (λ client. net.query client group) s
          | none ↦ ((ok (query_owned group s), success_status), s)
        ]

    unfoldable pub query : Bytes → Server → Result QueryResponse × Server
    unfolding finish query_body
    query group s = finish query_method (query_body group s)
