-- ===== src/Store/Scan.antt =====
-- What LoadAll reads: the iterator's view of the database against Get.
use time_series_cardinality.Base.{◌≡◌, none, some, ◌++◌, Bytes, bytes_eq}
use time_series_cardinality.Map.{Distinct, find}
use time_series_cardinality.Errors.{Result, ok}
use time_series_cardinality.Store.{Badger}

-- What badger documents of an iterator with a prefix: it visits each key once, only keys with the
-- prefix, and exactly those that Get finds, with the same value.
pub record IsScan {Db : Type 0} (badger : Badger Db) : Type 0 where
  pub distinct : (p : Bytes) (db : Db) → Distinct (badger.scan p db)
  pub prefixed :
      (p : Bytes) (db : Db) (k : Bytes) (item : Result Bytes)
      → find k (badger.scan p db) ≡ some item
      → (rest : Bytes) × (k ≡ p ++ rest)
  pub found :
      (p rest b : Bytes) (db : Db)
      → badger.get (p ++ rest) db ≡ ok (some b)
      → find (p ++ rest) (badger.scan p db) ≡ some (ok b)
  pub missing :
      (p rest : Bytes) (db : Db)
      → badger.get (p ++ rest) db ≡ ok none
      → find (p ++ rest) (badger.scan p db) ≡ none
