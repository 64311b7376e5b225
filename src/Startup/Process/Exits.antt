-- ===== src/Startup/Process/Exits.antt =====
-- cmd/server/main.go: the ways out of run and the exit codes of main, each with its cause.
use time_series_cardinality.Base.{
  ◌≡◌, refl, inl, inr, Bool, true, false, Option, none, some, List, ◌∷◌, Bytes, if◌then◌else◌,
}
use time_series_cardinality.External.{Murmur}
use time_series_cardinality.Errors.{Error, ok, err, Result-cases, Run, done, panic}
use time_series_cardinality.Sketch.{SketchOps, Algorithm}
use time_series_cardinality.Engine.{Engine}
use time_series_cardinality.Router.{Ring}
use time_series_cardinality.Store
use time_series_cardinality.Store.{Badger, BadgerStore}
use time_series_cardinality.Startup.{rebuild, configure}
use time_series_cardinality.Startup.Process.{
  Flags, Failure, open_store, restore_state, listen_grpc, register_gateway, Exit, returned,
  panicked, waiting, Host, Service, Effect, Body, does, deferred, checked, calling, shut_down,
  serve, start, restore, run_with,
}

module _ (o : SketchOps) (alg : Algorithm o) {Db Storage : Type 0} (badger : Badger Db) (m : Murmur)
    (host : Host Db Storage) (flags : Flags) where
  -- The store opened, it was restored without an error, and the flags gave a ring and an address.
  pub record Prepared : Type 0 where
    pub db : BadgerStore Db
    pub opened_store : Store.open_at host.badger_open flags.data_dir ≡ ok db
    pub rebuilt : (rebuild o alg badger db).0 ≡ none
    pub config : Option Ring × Bytes
    pub set_up : configure m flags.node_id flags.peers ≡ done config

  -- And the Raft node started, the collectors were registered, the listener opened, and the gateway
  -- was registered.
  pub record Starts : Type 0 where
    pub prepared : Prepared
    pub storage : Storage
    pub started : host.start_node flags.node_id ≡ done storage
    pub registered : host.must_register ≡ done tt
    pub listened : host.listen flags.grpc_port ≡ none
    pub reached : host.register_gateway flags.grpc_port ≡ none

  -- The first call that fails decides how run ends; where none does, the signal.
  pub data Ends : Exit → Type 0 where
    no_store :
        (x : Error)
        → Store.open_at host.badger_open flags.data_dir ≡ err x
        → Ends (returned (some (open_store x)))
    no_state :
        (db : BadgerStore Db) (x : Error)
        → Store.open_at host.badger_open flags.data_dir ≡ ok db
        → (rebuild o alg badger db).0 ≡ some x
        → Ends (returned (some (restore_state x)))
    no_ring :
        (db : BadgerStore Db)
        → Store.open_at host.badger_open flags.data_dir ≡ ok db
        → (rebuild o alg badger db).0 ≡ none
        → configure m flags.node_id flags.peers ≡ panic
        → Ends panicked
    no_node : Prepared → host.start_node flags.node_id ≡ panic → Ends panicked
    no_collectors :
        (storage : Storage)
        → Prepared
        → host.start_node flags.node_id ≡ done storage
        → host.must_register ≡ panic
        → Ends panicked
    no_listener :
        (storage : Storage) (x : Error)
        → Prepared
        → host.start_node flags.node_id ≡ done storage
        → host.must_register ≡ done tt
        → host.listen flags.grpc_port ≡ some x
        → Ends (returned (some (listen_grpc x)))
    no_gateway :
        (storage : Storage) (x : Error)
        → Prepared
        → host.start_node flags.node_id ≡ done storage
        → host.must_register ≡ done tt
        → host.listen flags.grpc_port ≡ none
        → host.register_gateway flags.grpc_port ≡ some x
        → Ends (returned (some (register_gateway x)))
    stopped : Starts → host.signal ≡ true → Ends (returned none)
    serves : Starts → host.signal ≡ false → Ends waiting

-- A predicate on how a body ends.
module _ {o : SketchOps} {alg : Algorithm o} {Db Storage : Type 0} (Q : Exit → Type 0) where
  unfoldable pub Exits : Exit × List (Effect o alg Db Storage) → Type 0
  Exits (exit, t) = Q exit

  deferred-Exits :
      (e : Effect o alg Db Storage) (t : List (Effect o alg Db Storage))
      (b : Exit × List (Effect o alg Db Storage))
      → Exits b
      → Exits (deferred o alg Db Storage e (λ u. b) t)
  unfolding deferred Exits
  deferred-Exits e t (returned r, u) h = h
  deferred-Exits e t (panicked, u) h = h
  deferred-Exits e t (waiting, u) h = h

  if-Exits :
      (c : Bool) (x y : Exit × List (Effect o alg Db Storage))
      → (c ≡ true → Exits x)
      → (c ≡ false → Exits y)
      → Exits (if c then x else y)
  if-Exits true x y h k = h refl
  if-Exits false x y h k = k refl

  abbrev Always : Body o alg Db Storage → Type 0
  Always body = (t : List (Effect o alg Db Storage)) → Exits (body t)

  does-Always :
      (e : Effect o alg Db Storage) (body : Body o alg Db Storage)
      → Always body
      → Always (does o alg Db Storage e body)
  does-Always e body h t = h (e ∷ t)

  deferred-Always :
      (e : Effect o alg Db Storage) (body : Body o alg Db Storage)
      → Always body
      → Always (deferred o alg Db Storage e body)
  unfolding deferred
  deferred-Always e body h t = deferred-Exits e t (body t) (h t)

  checked-Always :
      (failure : Error → Failure) (x : Option Error) (body : Body o alg Db Storage)
      → ((y : Error) → x ≡ some y → Q (returned (some (failure y))))
      → (x ≡ none → Always body)
      → Always (checked o alg Db Storage failure x body)
  unfolding checked Exits
  checked-Always failure none body bad h = h refl
  checked-Always failure (some y) body bad h = λ t. bad y refl

  calling-Always {ℓ} :
      {A : Type ℓ} (call : Run A) (body : A → Body o alg Db Storage)
      → (call ≡ panic → Q panicked)
      → ((a : A) → call ≡ done a → Always (body a))
      → Always (calling o alg Db Storage call body)
  unfolding calling Exits
  calling-Always panic body bad h = λ t. bad refl
  calling-Always (done a) body bad h = h a refl

module _ (o : SketchOps) (alg : Algorithm o) {Db Storage : Type 0} (badger : Badger Db) (m : Murmur)
    (host : Host Db Storage) (flags : Flags) where
  abbrev Q : Exit → Type 0
  Q = Ends o alg badger m host flags

  shut_down-Always :
      Starts o alg badger m host flags → Always Q (shut_down o alg Db Storage badger m host flags)
  unfolding shut_down Exits deferred
  shut_down-Always h t =
      if-Exits Q host.signal _ _ (λ came. stopped h came) (λ quiet. serves h quiet)

  serve-Always :
      (p : Prepared o alg badger m host flags) (storage : Storage)
      (service : Service o alg Db Storage)
      → host.start_node flags.node_id ≡ done storage
      → host.must_register ≡ done tt
      → Always Q (serve o alg Db Storage badger m host flags service)
  unfolding serve
  serve-Always p storage service made fine =
      checked-Always Q listen_grpc (host.listen flags.grpc_port) _
        (λ x e. no_listener storage x p made fine e)
        (λ listened. does-Always Q _ _ (
          does-Always Q _ _ (
            does-Always Q _ _ (
              deferred-Always Q _ _ (
                checked-Always Q register_gateway (host.register_gateway flags.grpc_port) _
                  (λ x e. no_gateway storage x p made fine listened e)
                  (λ reached. does-Always Q _ _ (
                    does-Always Q _ _ (
                      does-Always Q _ _ (
                        shut_down-Always (record {
                          prepared = p;
                          storage = storage;
                          started = made;
                          registered = fine;
                          listened = listened;
                          reached = reached;
                        }))))))))))

  start-Always :
      (p : Prepared o alg badger m host flags) (e : Engine o alg)
      → Always Q (start o alg Db Storage badger m host flags e p.db p.config)
  unfolding start
  start-Always p e =
      calling-Always Q (host.start_node flags.node_id) _ (λ bad. no_node p bad)
        (λ storage made. does-Always Q _ _ (
          deferred-Always Q _ _ (
            calling-Always Q host.must_register _ (λ bad. no_collectors storage p made bad)
              (λ u fine.
                does-Always Q _ _ (
                  does-Always Q _ _
                    (deferred-Always Q _ _ (serve-Always p storage _ made fine)))))))

  restore-Always :
      (st : BadgerStore Db)
      → Store.open_at host.badger_open flags.data_dir ≡ ok st
      → Always Q (restore o alg Db Storage badger m host flags st)
  unfolding restore
  restore-Always st there =
      checked-Always Q restore_state (rebuild o alg badger st).0 _
        (λ x bad. no_state st x there bad)
        (λ fine. does-Always Q _ _ (
          calling-Always Q (configure m flags.node_id flags.peers) _
            (λ bad. no_ring st there fine bad)
            (λ c set_up.
              start-Always
                (record {
                  db = st;
                  opened_store = there;
                  rebuilt = fine;
                  config = c;
                  set_up = set_up;
                })
                (rebuild o alg badger st).1.0)))

  pub run_with-Always : Always Q (run_with o alg Db Storage badger m host flags)
  unfolding run_with
  run_with-Always t = elim (Result-cases (Store.open_at host.badger_open flags.data_dir)) [
    | inr (x, failed) ↦ rw (failed, run_with) (unfold Exits in no_store x failed)
    | inl (st, fine) ↦
        rw (fine, run_with) (does-Always Q _ _ (deferred-Always Q _ _ (restore-Always st fine)) t)
  ]
