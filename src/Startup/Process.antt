-- ===== src/Startup/Process.antt =====
-- cmd/server/main.go: `run` as a whole and `main`, with what they do to the world in order, the
-- deferred calls, and the routes of the two HTTP muxes.
pub mod Unwinding
pub mod Keeping
pub mod Serving
pub mod Reading
pub mod Answers
pub mod Exits
pub mod Codes
use time_series_cardinality.Base.{
  ℕ, Bool, Option, none, some, List, [], ◌∷◌, Bytes, lit, if◌then◌else◌,
}
use time_series_cardinality.External.{Murmur, Floats, Roaring}
use time_series_cardinality.Errors.{Error, Result, ok, err, Run, done, panic}
use time_series_cardinality.Collector.{ℤ, pos}
use time_series_cardinality.Sketch.{SketchOps, Algorithm}
use time_series_cardinality.Backends.{sketch_ops, hll_algorithm}
use time_series_cardinality.Engine.{Engine}
use time_series_cardinality.Router.{Ring}
use time_series_cardinality.Store
use time_series_cardinality.Store.{Badger, BadgerStore}
use time_series_cardinality.Node.{Node, new_node}
use time_series_cardinality.Startup.{rebuild, configure}

-- The variables that the flags set.
pub record Flags : Type 0 where
  pub grpc_port : ℤ
  pub http_port : ℤ
  pub metrics_port : ℤ
  pub metrics_max_groups : ℤ
  pub data_dir : Bytes
  pub node_id : ℕ
  pub peers : Bytes

-- Their values where the command line sets none.
abbrev pub default_flags : Flags
default_flags = record {
  grpc_port = pos 9090;
  http_port = pos 8080;
  metrics_port = pos 8081;
  metrics_max_groups = pos 1000;
  data_dir = lit "/tmp/cardinality-data";
  node_id = 1;
  peers = [];
}

-- The error that run returns: the message of its stage around the error of the call.
pub data Failure : Type 0 where
  open_store restore_state listen_grpc register_gateway : Error → Failure

-- How run ends. `waiting` is the receive from `sig` where no signal comes: run does not end.
pub data Exit : Type 0 where
  returned : Option Failure → Exit
  panicked waiting : Exit

-- The packages that run calls, by what each call gives at the one place where it stands: badger.Open
-- (with WithSyncWrites), etcd's NewMemoryStorage and StartNode, prometheus.MustRegister, net.Listen and
-- the gateway's registration at a port, and whether a signal comes.
pub record Host (Db Storage : Type 0) : Type 0 where
  pub badger_open : Bytes → Bool → Result Db
  pub start_node : ℕ → Run Storage
  pub must_register : Run {0} Unit
  pub listen : ℤ → Option Error
  pub register_gateway : ℤ → Option Error
  pub signal : Bool

-- The exit code of main, and none while run does not end. An unrecovered panic exits with 2.
unfoldable pub exit_code : Exit → Option ℕ
exit_code (returned none) = some 0
exit_code (returned (some x)) = some 1
exit_code panicked = some 2
exit_code waiting = none

module _ (o : SketchOps) (alg : Algorithm o) (Db Storage : Type 0) where
  -- What server.New is given. The engine and the store are those of the node.
  pub record Service : Type 0 where
    pub node : Node o alg Db Storage
    pub router : Option Ring
    pub self_addr : Bytes

  -- What run does that is seen outside, and the deferred calls.
  pub data Effect : Type 0 where
    opened : Bytes → Effect
    restored : ℕ → Effect
    started created_server created_context created_timeout : Effect
    registered : ℤ → Effect
    listening : ℤ → Effect
    serving_grpc : Service → Effect
    gateway_to serving_http serving_metrics : ℤ → Effect
    signalled grpc_stopped http_down metrics_down : Effect
    timeout_cancelled cancelled server_closed node_stopped store_closed : Effect

  -- The rest of run, from what was done so far, the last first.
  abbrev pub Body : Type 0
  Body = List Effect → Exit × List Effect

  abbrev pub returns : Option Failure → Body
  returns r t = (returned r, t)

  abbrev pub does : Effect → Body → Body
  does e body t = body (e ∷ t)

  -- `defer`: on each way out, with a panic too.
  unfoldable pub deferred : Effect → Body → Body
  deferred e body t =
      let (exit, u) = body t in
      elim exit [
        | returned r ↦ (returned r, e ∷ u)
        | panicked ↦ (panicked, e ∷ u)
        | waiting ↦ (waiting, u)
      ]

  -- `if err != nil { return fmt.Errorf(…) }`
  unfoldable pub checked : (Error → Failure) → Option Error → Body → Body
  checked failure none body t = body t
  checked failure (some x) body t = (returned (some (failure x)), t)

  -- A call that may panic.
  unfoldable pub calling {ℓ} : {A : Type ℓ} → Run A → (A → Body) → Body
  calling panic body t = (panicked, t)
  calling (done a) body t = body a t

  module _ (badger : Badger Db) (m : Murmur) (host : Host Db Storage) (flags : Flags) where
    -- From the wait for a signal on.
    unfoldable pub shut_down : Body
    unfolding deferred
    shut_down t =
        if host.signal
        then does signalled
            (does grpc_stopped (
              does created_timeout
                (deferred timeout_cancelled (does http_down (does metrics_down (returns none))))))
            t
        else (waiting, t)

    -- From net.Listen on.
    unfoldable pub serve : Service → Body
    unfolding shut_down deferred checked
    serve service = checked listen_grpc (host.listen flags.grpc_port) (
        does (listening flags.grpc_port) (
          does (serving_grpc service) (
            does created_context (
              deferred cancelled (
                checked register_gateway (host.register_gateway flags.grpc_port) (
                  does (gateway_to flags.grpc_port) (
                    does (serving_http flags.http_port)
                      (does (serving_metrics flags.metrics_port) shut_down))))))))

    -- From raft.NewNode on.
    unfoldable pub start : Engine o alg → BadgerStore Db → Option Ring × Bytes → Body
    unfolding serve deferred calling
    start e st (ring, self) = calling (host.start_node flags.node_id) (λ storage.
        let node = new_node o alg Db Storage flags.node_id e st storage in
        does started (
          deferred node_stopped (
            calling host.must_register (λ u. does (registered flags.metrics_max_groups) (
              does created_server (
                deferred server_closed
                  (serve (record { node = node; router = ring; self_addr = self }))))))))

    -- From LoadAll on.
    unfoldable pub restore : BadgerStore Db → Body
    unfolding start checked calling
    restore st =
        let (r, (e, groups)) = rebuild o alg badger st in
        checked restore_state r
          (does (restored groups) (calling (configure m flags.node_id flags.peers) (start e st)))

    unfoldable pub run_with : Body
    unfolding restore deferred
    run_with t = elim (Store.open_at host.badger_open flags.data_dir) [
      | err x ↦ returns (some (open_store x)) t
      | ok st ↦ does (opened flags.data_dir) (deferred store_closed (restore st)) t
    ]

module _ (m : Murmur) (f : Floats) (r : Roaring) (Db Storage : Type 0) where
  -- run, whose engine is of hll.Algorithm, and all that it has done, the last first.
  unfoldable pub run :
      Badger Db
      → Host Db Storage
      → Flags
      → Exit × List (Effect (sketch_ops m f r) (hll_algorithm m f r) Db Storage)
  unfolding run_with
  run badger host flags =
      run_with (sketch_ops m f r) (hll_algorithm m f r) Db Storage badger m host flags []

  unfoldable pub main : Badger Db → Host Db Storage → Flags → Option ℕ
  unfolding run exit_code
  main badger host flags = exit_code (run badger host flags).0
