-- ===== src/Tests/Processes.antt =====
-- The theorems on `run` and `main` of cmd/server/main.go, at a host where every call succeeds and a
-- signal comes, over a database that an earlier process wrote.
use time_series_cardinality.Base.{
  ℕ, ◌≡◌, ◌≢◌, refl, true, none, some, List, [], ◌∷◌, Bytes, lit, bytes_eq, bytes_eqb, All,
}
use time_series_cardinality.Map
use time_series_cardinality.Map.{lookup}
use time_series_cardinality.Errors.{external, ok, done}
use time_series_cardinality.Engine.{Engine, new_engine, add_and_persist}
use time_series_cardinality.Engine.Groups.{new_engine-IsSound}
use time_series_cardinality.Health
use time_series_cardinality.Store.{BadgerStore, save, key, load_all, load_items}
use time_series_cardinality.Store
use time_series_cardinality.Startup.{rebuild, configure}
use time_series_cardinality.Startup.Durable.{IsDurable, serve, empty-IsDurable, serve-IsDurable}
use time_series_cardinality.Startup.Restart.{serve-IsSound}
use time_series_cardinality.Startup.Process.{
  default_flags, Host, run, main, run_with, restore, checked, calling, start, deferred, exit_code,
}
use time_series_cardinality.Startup.Process.Unwinding.{Leaves, run-Leaves}
use time_series_cardinality.Startup.Process.Serving.{Proper}
use time_series_cardinality.Startup.Process.Answers.{run-Proper, run-AnswersLike}
use time_series_cardinality.Startup.Process.Reading.{AnswersLike}
use time_series_cardinality.Startup.Process.Exits.{Ends}
use time_series_cardinality.Startup.Process.Codes.{run-Ends}
use time_series_cardinality.Startup.Muxes.{
  promhttp, gateway, respond, route, main_mux, metrics_mux, muxes_lem,
}
use time_series_cardinality.Tests.Packages.{
  network, raft, weights, integers, ops, hll, hll_law, Storage, group,
}
use time_series_cardinality.Tests.Bitmaps.{list_roaring}
use time_series_cardinality.Tests.Databases.{
  Db, memory_badger, memory_badger-IsBadger, memory_badger-IsScan, fresh_store,
}

abbrev calls : List (Bytes × ℕ)
calls = (group, 5) ∷ (group, 6) ∷ []

-- What the earlier process left.
abbrev served : Engine ops hll × BadgerStore Db
served = serve ops hll memory_badger calls (new_engine ops hll) fresh_store

abbrev host : Host Db Storage
host = record {
  badger_open = λ dir sync. ok served.1.db;
  start_node = λ id. done [];
  must_register = done tt;
  listen = λ port. none;
  register_gateway = λ port. none;
  signal = true;
}

-- The same host where the gRPC port is taken.
abbrev taken : Host Db Storage
taken = record host { listen = λ port. some (external 98) }

bare : (g : Bytes) → memory_badger.get (key g) fresh_store.db ≡ ok none
unfolding memory_badger lookup Map.empty
bare g = refl

saves : (g b : Bytes) (st : BadgerStore Db) → (save memory_badger g b st).0 ≡ none
unfolding save memory_badger
saves g b st = refl

served-IsDurable : IsDurable ops hll memory_badger served.0 served.1
unfolding add_and_persist
served-IsDurable =
    serve-IsDurable ops hll memory_badger calls (new_engine ops hll) fresh_store
      memory_badger-IsBadger (empty-IsDurable ops hll memory_badger fresh_store bare)
      (saves _ _ _, (saves _ _ _, tt))

run-Leaves_example :
    Leaves [] (run weights integers list_roaring Db Storage memory_badger taken default_flags)
run-Leaves_example =
    run-Leaves weights integers list_roaring Db Storage memory_badger taken default_flags

run-Proper_example :
    All
      (Proper ops hll Db Storage memory_badger weights host default_flags)
      (run weights integers list_roaring Db Storage memory_badger host default_flags).1
run-Proper_example =
    run-Proper weights integers list_roaring Db Storage memory_badger host default_flags

run-AnswersLike_example :
    All
      (AnswersLike ops hll Db Storage network raft 0 memory_badger weights (λ j. served.0))
      (run weights integers list_roaring Db Storage memory_badger host default_flags).1
run-AnswersLike_example =
    run-AnswersLike weights integers list_roaring Db Storage memory_badger host default_flags
      network raft 0 served.0 served.1 memory_badger-IsScan refl
      (serve-IsSound hll_law memory_badger calls (new_engine ops hll) fresh_store
        (new_engine-IsSound hll_law))
      served-IsDurable

run-Ends_example :
    Ends ops hll memory_badger weights taken default_flags
      (run weights integers list_roaring Db Storage memory_badger taken default_flags).0
run-Ends_example = run-Ends weights integers list_roaring memory_badger taken default_flags

muxes_lem_example :
    (respond true (route main_mux (lit "/healthz")) ≡ some Health.healthz)
    × (respond true (route metrics_mux (lit "/healthz")) ≡ some Health.healthz)
    × (respond true (route main_mux (lit "/readyz")) ≡ some (Health.readyz true))
    × (respond true (route metrics_mux (lit "/readyz")) ≡ some (Health.readyz true))
    × ((path pattern : Bytes) → route main_mux path ≢ some (pattern, promhttp))
    × ((path pattern : Bytes) → route metrics_mux path ≢ some (pattern, gateway))
muxes_lem_example = muxes_lem true

-- The same host over an empty database.
abbrev unused : Host Db Storage
unused = record taken { badger_open = λ dir sync. ok Map.empty }

-- The port that is taken gives the exit code 1.
code_taken :
    main weights integers list_roaring Db Storage memory_badger unused default_flags ≡ some 1
unfolding main run run_with Store.open_at rebuild load_all load_items memory_badger Map.empty
    restore checked calling configure start deferred exit_code bytes_eqb
code_taken = refl
