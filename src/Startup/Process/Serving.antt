-- ===== src/Startup/Process/Serving.antt =====
-- cmd/server/main.go: what run serves, and on which ports.
use time_series_cardinality.Base.{ℕ, ◌≡◌, refl, ap, inl, inr, Option, none, Bytes}
use time_series_cardinality.External.{Murmur}
use time_series_cardinality.Errors.{ok, Result-cases, done}
use time_series_cardinality.Sketch.{SketchOps, Algorithm}
use time_series_cardinality.Collector.{ℤ}
use time_series_cardinality.Engine.{Engine}
use time_series_cardinality.Router.{Ring}
use time_series_cardinality.Store
use time_series_cardinality.Store.{Badger, BadgerStore}
use time_series_cardinality.Node.{new_node}
use time_series_cardinality.Startup.{rebuild, configure}
use time_series_cardinality.Startup.Process.{
  Flags, Host, Service, Effect, opened, started, created_server, created_context, created_timeout,
  timeout_cancelled, cancelled, server_closed, node_stopped, store_closed, signalled, grpc_stopped,
  http_down, metrics_down, listening, serving_grpc, gateway_to, serving_http, serving_metrics,
  registered, restored, listen_grpc, register_gateway, restore_state, shut_down, serve, start,
  restore, run_with,
}
use time_series_cardinality.Startup.Process.Keeping.{
  Kept, Keeps, returns-Keeps, does-Keeps, deferred-Keeps, checked-Keeps, calling-Keeps, if-Kept,
}

module _ (o : SketchOps) (alg : Algorithm o) (Db Storage : Type 0) (badger : Badger Db) (m : Murmur)
    (host : Host Db Storage) (flags : Flags) where
  -- The store opened at -data, and all of it restored without an error.
  pub record ReadsBack : Type 0 where
    pub db : BadgerStore Db
    pub engine : Engine o alg
    pub groups : ℕ
    pub opened_store : Store.open_at host.badger_open flags.data_dir ≡ ok db
    pub rebuilt : rebuild o alg badger db ≡ (none, (engine, groups))

  -- The service has the store, the engine rebuilt from it, and the ring and the address that the
  -- flags give.
  pub record Restores (service : Service o alg Db Storage) : Type 0 where
    pub read : ReadsBack
    pub same_store : service.node.store ≡ read.db
    pub same_engine : service.node.engine ≡ read.engine
    pub set_up : configure m flags.node_id flags.peers ≡ done (service.router, service.self_addr)

  -- A port is the flag's, and opens only after the restore.
  abbrev AtPort : ℤ → ℤ → Type 0
  AtPort flag port = (port ≡ flag) × ReadsBack

  unfoldable pub Proper : Effect o alg Db Storage → Type 0
  Proper (listening port) = AtPort flags.grpc_port port
  Proper (serving_grpc service) = Restores service
  Proper (gateway_to port) = AtPort flags.grpc_port port
  Proper (serving_http port) = AtPort flags.http_port port
  Proper (serving_metrics port) = AtPort flags.metrics_port port
  Proper other = Unit

module _ {o : SketchOps} {alg : Algorithm o} {Db Storage : Type 0} (badger : Badger Db) (m : Murmur)
    (host : Host Db Storage) (flags : Flags) where
  abbrev P : Effect o alg Db Storage → Type 0
  P = Proper o alg Db Storage badger m host flags

  shut_down-Keeps : Keeps P (shut_down o alg Db Storage badger m host flags)
  unfolding shut_down Proper
  shut_down-Keeps t k =
      if-Kept P host.signal _ _
        (does-Keeps P signalled _ tt
          (does-Keeps P grpc_stopped _ tt (
            does-Keeps P created_timeout _ tt (
              deferred-Keeps P timeout_cancelled _ tt (
                does-Keeps P http_down _ tt
                  (does-Keeps P metrics_down _ tt (returns-Keeps P none))))))
          t k)
        (unfold Kept in k)

  serve-Keeps :
      (service : Service o alg Db Storage)
      → Restores o alg Db Storage badger m host flags service
      → Keeps P (serve o alg Db Storage badger m host flags service)
  unfolding serve Proper
  serve-Keeps service h = checked-Keeps P listen_grpc (host.listen flags.grpc_port) _ (λ listened.
      does-Keeps P (listening flags.grpc_port) _ (refl, h.read)
        (does-Keeps P (serving_grpc service) _ h (
          does-Keeps P created_context _ tt (
            deferred-Keeps P cancelled _ tt (
              checked-Keeps P register_gateway (host.register_gateway flags.grpc_port) _ (λ reached.
                does-Keeps P (gateway_to flags.grpc_port) _ (refl, h.read)
                  (does-Keeps P (serving_http flags.http_port) _ (refl, h.read)
                    (does-Keeps P (serving_metrics flags.metrics_port) _ (refl, h.read)
                      shut_down-Keeps))))))))

  start-Keeps :
      (read : ReadsBack o alg Db Storage badger m host flags) (c : Option Ring × Bytes)
      → configure m flags.node_id flags.peers ≡ done c
      → Keeps P (start o alg Db Storage badger m host flags read.engine read.db c)
  unfolding start Proper new_node
  start-Keeps read (ring, self) set_up =
      calling-Keeps P (host.start_node flags.node_id) _ (λ storage made. does-Keeps P started _ tt (
        deferred-Keeps P node_stopped _ tt (
          calling-Keeps P host.must_register _ (λ u fine.
            does-Keeps P (registered flags.metrics_max_groups) _ tt (
              does-Keeps P created_server _ tt (
                deferred-Keeps P server_closed _ tt (
                  serve-Keeps _ (record {
                    read = read;
                    same_store = refl;
                    same_engine = refl;
                    set_up = set_up;
                  }))))))))

  restore-Keeps :
      (st : BadgerStore Db)
      → Store.open_at host.badger_open flags.data_dir ≡ ok st
      → Keeps P (restore o alg Db Storage badger m host flags st)
  unfolding restore Proper
  restore-Keeps st there =
      let r = rebuild o alg badger st in
      checked-Keeps P restore_state r.0 _ (λ fine. does-Keeps P (restored r.1.1) _ tt (
        calling-Keeps P (configure m flags.node_id flags.peers) _ (λ c set_up.
          start-Keeps
            (record {
              db = st;
              engine = r.1.0;
              groups = r.1.1;
              opened_store = there;
              rebuilt = ap (λ x. (x, r.1)) fine;
            })
            c set_up)))

  pub run_with-Keeps : Keeps P (run_with o alg Db Storage badger m host flags)
  unfolding run_with Proper
  run_with-Keeps t k = elim (Result-cases (Store.open_at host.badger_open flags.data_dir)) [
    | inr (x, failed) ↦ rw (failed, run_with) (unfold Kept in k)
    | inl (st, fine) ↦
        rw (fine, run_with)
          (does-Keeps P (opened flags.data_dir) _ tt
            (deferred-Keeps P store_closed _ tt (restore-Keeps st fine)) t k)
  ]
