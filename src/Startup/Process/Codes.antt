-- ===== src/Startup/Process/Codes.antt =====
-- cmd/server/main.go: how run ends on each way, and the exit code of main.
use time_series_cardinality.Base.{◌≡◌, refl, true, none, some, [], arith, if◌then◌else◌}
use time_series_cardinality.External.{Murmur, Floats, Roaring}
use time_series_cardinality.Sketch.{SketchOps, Algorithm}
use time_series_cardinality.Backends.{sketch_ops, hll_algorithm}
use time_series_cardinality.Store.{Badger}
use time_series_cardinality.Startup.Process.{Flags, Exit, Host, exit_code, run, main}
use time_series_cardinality.Startup.Process.Exits.{
  Starts, Ends, no_store, no_state, no_ring, no_node, no_collectors, no_listener, no_gateway,
  stopped, serves, Exits, run_with-Always,
}

module _ (o : SketchOps) (alg : Algorithm o) {Db Storage : Type 0} (badger : Badger Db) (m : Murmur)
    (host : Host Db Storage) (flags : Flags) where
  -- A process that starts ends only on a signal.
  Starts-code :
      (x : Exit)
      → Ends o alg badger m host flags x
      → Starts o alg badger m host flags
      → exit_code x ≡ (if host.signal then some 0 else none)
  unfolding exit_code
  Starts-code x (no_store y e) h = cc (e, h.prepared.opened_store)
  Starts-code x (no_state db y there e) h =
      cc (there, e, h.prepared.opened_store, h.prepared.rebuilt)
  Starts-code x (no_ring db there fine e) h = cc (e, h.prepared.set_up)
  Starts-code x (no_node p e) h = cc (e, h.started)
  Starts-code x (no_collectors storage p made e) h = cc (e, h.registered)
  Starts-code x (no_listener storage y p made fine e) h = cc (e, h.listened)
  Starts-code x (no_gateway storage y p made fine there e) h = cc (e, h.reached)
  Starts-code x (stopped s e) h = rw e refl
  Starts-code x (serves s e) h = rw e refl

  -- A process that exits with 0 had started, and was signalled.
  zero-Starts :
      (x : Exit)
      → Ends o alg badger m host flags x
      → exit_code x ≡ some 0
      → Starts o alg badger m host flags × (host.signal ≡ true)
  unfolding exit_code
  zero-Starts x (no_store y e) z = ground arith
  zero-Starts x (no_state db y there e) z = ground arith
  zero-Starts x (no_ring db there fine e) z = ground arith
  zero-Starts x (no_node p e) z = ground arith
  zero-Starts x (no_collectors storage p made e) z = ground arith
  zero-Starts x (no_listener storage y p made fine e) z = ground arith
  zero-Starts x (no_gateway storage y p made fine there e) z = ground arith
  zero-Starts x (stopped s e) z = (s, e)
  zero-Starts x (serves s e) z = cc z

module _ (m : Murmur) (f : Floats) (r : Roaring) {Db Storage : Type 0} (badger : Badger Db)
    (host : Host Db Storage) (flags : Flags) where
  -- run ends with the error of the first call that fails, under the message of its stage, and with a
  -- panic where the ring, the Raft node or the registration of the collectors panics. If no call
  -- fails it returns nil on a signal, and else goes on serving.
  pub run-Ends :
      Ends
        (sketch_ops m f r)
        (hll_algorithm m f r)
        badger
        m
        host
        flags
        (run m f r Db Storage badger host flags).0
  unfolding run
  run-Ends =
      unfold Exits in
      run_with-Always (sketch_ops m f r) (hll_algorithm m f r) badger m host flags []

  -- A process whose start succeeds exits with code 0 if a signal comes, and goes on serving if none
  -- does; and only such a process, signalled, exits with code 0.
  pub main_lem :
      (Starts (sketch_ops m f r) (hll_algorithm m f r) badger m host flags
        → main m f r Db Storage badger host flags ≡ (if host.signal then some 0 else none))
      × (main m f r Db Storage badger host flags ≡ some 0
          → Starts (sketch_ops m f r) (hll_algorithm m f r) badger m host flags
            × (host.signal ≡ true))
  unfolding main
  main_lem = (
    λ h. Starts-code _ _ badger m host flags _ run-Ends h,
    λ z. zero-Starts _ _ badger m host flags _ run-Ends z,
  )
