-- ===== src/Tests/Commands.antt =====
-- The theorems on internal/raft/handler, at concrete commands.
use time_series_cardinality.Base.{ℕ, ◌≡◌, none, some, List, [], ◌∷◌, All, lit, arith, length}
use time_series_cardinality.Errors.{done, Returns}
use time_series_cardinality.Engine.{Engine, new_engine}
use time_series_cardinality.Engine.Groups.{Touches, new_engine-IsSound}
use time_series_cardinality.Engine.Streams.{adds}
use time_series_cardinality.Handler.{Command, type_add, default_registry, dispatch}
use time_series_cardinality.Handler.Payloads.{IsId}
use time_series_cardinality.Handler.Safety.{engine_adder, dispatch-Touches}
use time_series_cardinality.Handler.Batches.{calls_of, batch_command, dispatch-batch}
use time_series_cardinality.Tests.Packages.{ops, hll, hll_law, group}

-- An ADD with a byte behind its varint.
abbrev long_add : Command
long_add = record { type = type_add; group = group; payload = 5 ∷ 6 ∷ [] }

abbrev fresh : Engine ops hll
fresh = new_engine ops hll

dispatch-Touches_example :
    Returns
      (Touches hll_law group fresh)
      (dispatch default_registry (some long_add) (some (engine_adder ops hll)) fresh)
dispatch-Touches_example =
    dispatch-Touches hll_law long_add (new_engine-IsSound hll_law) (omega arith, (omega arith, tt))

abbrev pub ids : List ℕ
ids = 5 ∷ 300 ∷ []

pub ids-IsId : All IsId ids
ids-IsId = (omega arith, (omega arith, tt))

dispatch-batch_example :
    dispatch default_registry
      (some (batch_command group (length ids) ids (lit "more")))
      (some (engine_adder ops hll))
      fresh
    ≡ done (none, adds ops hll fresh (calls_of group ids))
dispatch-batch_example =
    dispatch-batch group ids fresh ids-IsId (lit "more") (unfold length in omega arith)
