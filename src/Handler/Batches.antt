-- ===== src/Handler/Batches.antt =====
-- BATCH_ADD commands on an engine.
use time_series_cardinality.Base.{
  ℕ, suc, ◌+◌, ◌≡◌, refl, ◌∙◌, ap, Option, none, some, List, [], ◌∷◌, ◌++◌, map, Bytes, All, length,
}
use time_series_cardinality.Errors.{Error, bad_payload, id_truncated, Run, done, then_do}
use time_series_cardinality.Varint.{append_uvarint}
use time_series_cardinality.Sketch.{SketchOps, Algorithm}
use time_series_cardinality.Engine.{Engine, add, added}
use time_series_cardinality.Engine.Streams.{adds}
use time_series_cardinality.Handler.Dispatching.{dispatch-default}
use time_series_cardinality.Handler.{Command, type_batch_add, default_registry, dispatch}
use time_series_cardinality.Handler.Payloads.{
  IsId, encoded_ids, add_each, apply_batch_add-encoded, apply_batch_add-truncated,
}
use time_series_cardinality.Handler.Safety.{engine_adder}

-- The ids of a batch as calls of Add on its group.
abbrev pub calls_of : Bytes → List ℕ → List (Bytes × ℕ)
calls_of group ids = map (λ id. (group, id)) ids

-- A BATCH_ADD that states `stated` ids and carries `ids`, with bytes behind them.
abbrev pub batch_command : Bytes → ℕ → List ℕ → Bytes → Command
batch_command group stated ids more = record {
  type = type_batch_add;
  group = group;
  payload = append_uvarint stated ++ (encoded_ids ids ++ more);
}

-- A BATCH_ADD that states `missing + 1` ids more than it carries.
abbrev pub truncated_command : Bytes → List ℕ → ℕ → Command
truncated_command group ids missing = record {
  type = type_batch_add;
  group = group;
  payload = append_uvarint (length ids + suc missing) ++ encoded_ids ids;
}

module _ {o : SketchOps} {alg : Algorithm o} where
  add_each-engine :
      (group : Bytes) (ids : List ℕ) (e : Engine o alg)
      → add_each (engine_adder o alg) group ids e ≡ done (none, adds o alg e (calls_of group ids))
  unfolding add_each adds add
  add_each-engine group [] e = refl
  add_each-engine group (id ∷ ids) e = add_each-engine group ids (added o alg group id e)

  module _ (group : Bytes) (ids : List ℕ) (e : Engine o alg) (fit : All IsId ids) where
    -- A BATCH_ADD with as many 64-bit ids as it states is the sequence of their Adds, and succeeds; bytes
    -- behind the last id are ignored.
    pub dispatch-batch :
        (more : Bytes)
        → IsId (length ids)
        → dispatch default_registry
            (some (batch_command group (length ids) ids more))
            (some (engine_adder o alg))
            e
          ≡ done (none, adds o alg e (calls_of group ids))
    dispatch-batch more h =
        (dispatch-default (batch_command group (length ids) ids more) (engine_adder o alg) e).1 refl
        ∙ apply_batch_add-encoded type_batch_add group more ids (engine_adder o alg) e fit h
        ∙ add_each-engine group ids e

    -- A BATCH_ADD that states more ids than it carries, all of 64 bits, is an error that names the first id that is
    -- not there, and the ids that are there have been added all the same.
    pub dispatch-batch_truncated :
        (missing : ℕ)
        → IsId (length ids + suc missing)
        → dispatch default_registry
            (some (truncated_command group ids missing))
            (some (engine_adder o alg))
            e
          ≡ done (
            some (bad_payload (id_truncated (length ids + 1) (length ids + suc missing))),
            adds o alg e (calls_of group ids),
          )
    dispatch-batch_truncated missing h =
        (dispatch-default (truncated_command group ids missing) (engine_adder o alg) e).1 refl
        ∙ apply_batch_add-truncated type_batch_add group ids missing (engine_adder o alg) e fit h
        ∙ ap
            (λ (r : Run (Option Error × Engine o alg)). then_do r (λ t.
              done
                (some (bad_payload (id_truncated (length ids + 1) (length ids + suc missing))), t)))
            (add_each-engine group ids e)
