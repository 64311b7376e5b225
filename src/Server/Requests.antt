-- ===== src/Server/Requests.antt =====
-- Every call of the service is one request in the metrics, whatever way it takes.
use time_series_cardinality.Base.{ℕ, refl, List, Bytes, bytes_eq}
use time_series_cardinality.External.{Murmur}
use time_series_cardinality.Sketch.{SketchOps, Algorithm}
use time_series_cardinality.Store.{Badger}
use time_series_cardinality.Server.{
  Server, Network, Config, add_body, batch_add_body, query_body, add, batch_add, query, add_method,
  batch_add_method, query_method,
}
use time_series_cardinality.Server.Metrics.{
  Uncounted, Uncounted-refl, Uncounted-trans, note-Passed, get_peer_client-Passed, status_of,
  Counted, finish-Counted,
}
use time_series_cardinality.Server.Preserved.{
  IsKept, add_body-Kept, batch_add_body-Kept, query_body-Kept,
}
use time_series_cardinality.Server.Statuses.{
  add_body-status, batch_add_body-status, query_body-status,
}

module _ (o : SketchOps) (alg : Algorithm o) (Db : Type 0) {W : Type 0} (net : Network W)
    (badger : Badger Db) (m : Murmur) (config : Config W) where
  Uncounted-IsKept : IsKept o alg Db net Uncounted
  Uncounted-IsKept = record {
    nothing = Uncounted-refl;
    steps = λ s t u h k. Uncounted-trans h k;
    noted = λ e s q. (note-Passed e s q).uncounted;
    called = λ w s. record { same = refl };
    written = λ e st s. record { same = refl };
    dialled = λ addr s. (get_peer_client-Passed addr s).uncounted;
  }

  -- Add, BatchAdd and Query, on whatever way through the handler, with an error or without: the
  -- metrics count one request more than before, noted last under the method's own name, with
  -- "success" exactly if the call returns no error.
  pub request-Counted :
      (group : Bytes) (id : ℕ) (ids : List ℕ) (s : Server o alg Db net)
      → Counted add_method
          (status_of (add o alg Db net badger m config group id s).0)
          s
          (add o alg Db net badger m config group id s).1
        × Counted batch_add_method
            (status_of (batch_add o alg Db net badger m config group ids s).0)
            s
            (batch_add o alg Db net badger m config group ids s).1
        × Counted query_method
            (status_of (query o alg Db net badger m config group s).0)
            s
            (query o alg Db net badger m config group s).1
  unfolding add batch_add query
  request-Counted group id ids s = (
    finish-Counted add_method (add_body o alg Db net badger m config group id s) s
        (add_body-Kept o alg Db net badger m config Uncounted-IsKept group id s)
        (add_body-status o alg Db net badger m config group id s),
    finish-Counted batch_add_method (batch_add_body o alg Db net badger m config group ids s) s
        (batch_add_body-Kept o alg Db net badger m config Uncounted-IsKept group ids s)
        (batch_add_body-status o alg Db net badger m config group ids s),
    finish-Counted query_method (query_body o alg Db net badger m config group s) s
        (query_body-Kept o alg Db net badger m config Uncounted-IsKept group s)
        (query_body-status o alg Db net badger m config group s),
  )
