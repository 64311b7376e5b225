-- ===== src/Node/Truncated.antt =====
-- A committed BATCH_ADD that is rejected: what it leaves in the engine never reaches the store.
use time_series_cardinality.Base.{
  ℕ, suc, ◌+◌, ◌≡◌, ◌<◌, refl, false, true, some, List, Bytes, bytes_eq, arith, length, nat_eqb,
  nat_eqb_iff, All,
}
use time_series_cardinality.Errors.{Error, ok, done}
use time_series_cardinality.Sketch.{SketchOps, Algorithm}
use time_series_cardinality.Engine.{Engine}
use time_series_cardinality.Engine.Streams.{adds}
use time_series_cardinality.Handler.{Command, default_registry, dispatch}
use time_series_cardinality.Handler.Payloads.{IsId}
use time_series_cardinality.Handler.Safety.{engine_adder}
use time_series_cardinality.Handler.Batches.{calls_of, truncated_command, dispatch-batch_truncated}
use time_series_cardinality.Store.{Badger}
use time_series_cardinality.Node.{Node, Proto, apply_entry}

module _ {o : SketchOps} {alg : Algorithm o} {Db Storage : Type 0} (badger : Badger Db)
    (proto : Proto) where
  apply_entry_failed :
      (index : ℕ) (b : Bytes) (cmd : Command) (x : Error) (engine : Engine o alg)
      (n : Node o alg Db Storage)
      → 0 < length b
      → proto.unmarshal b ≡ ok cmd
      → dispatch default_registry (some cmd) (some (engine_adder o alg)) n.engine
        ≡ done (some x, engine)
      → apply_entry o alg Db Storage badger proto
          (record { normal = true; index = index; bytes = b })
          n
        ≡ done (record n { engine = engine })
  unfolding apply_entry
  apply_entry_failed index b cmd x engine n some_bytes decoded ran =
      let full : nat_eqb (length b) 0 ≡ false = ground (arith, nat_eqb_iff (length b) 0) in
      rw (full, decoded, apply_entry) (rw ran refl)

  -- A committed BATCH_ADD that states more ids than it carries, all of 64 bits: the ids that it
  -- carries are counted by the engine, while the store, the applied index and the count of entries
  -- stay as they were.
  pub apply_entry_truncated :
      (group : Bytes) (ids : List ℕ) (missing index : ℕ) (b : Bytes) (n : Node o alg Db Storage)
      → All IsId ids
      → IsId (length ids + suc missing)
      → 0 < length b
      → proto.unmarshal b ≡ ok (truncated_command group ids missing)
      → apply_entry o alg Db Storage badger proto
          (record { normal = true; index = index; bytes = b })
          n
        ≡ done (record n { engine = adds o alg n.engine (calls_of group ids) })
  apply_entry_truncated group ids missing index b n fit h some_bytes decoded =
      apply_entry_failed index b (truncated_command group ids missing) _
        (adds o alg n.engine (calls_of group ids)) n some_bytes decoded
        (dispatch-batch_truncated group ids n.engine fit missing h)
