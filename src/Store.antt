-- ===== src/Store.antt =====
-- internal/store/badger.go: serialised sketches in a BadgerDB, under the keys "sketch/<group>".
pub mod Laws
pub mod Scan
use time_series_cardinality.Base.{
  ℕ, suc, ◌+◌, Bool, false, Option, none, some, List, [], ◌∷◌, ◌++◌, Bytes, lit, bytes_eq, ◌==◌,
  if◌then◌else◌, length, take, drop,
}
use time_series_cardinality.Errors.{Error, not_found, store_open, Result, ok, err}

-- github.com/dgraph-io/badger/v4, one transaction per call. `set` is an Update with one Set; `get` is
-- a View with one Get, where `none` is ErrKeyNotFound; `scan` is what an iterator with a prefix
-- visits, in key order: a key and what Value gives for it.
pub record Badger (Db : Type 0) : Type 0 where
  pub set : Bytes → Bytes → Db → Option Error × Db
  pub get : Bytes → Db → Result (Option Bytes)
  pub scan : Bytes → Db → List (Bytes × Result Bytes)

-- The database, and the counters of the two metrics that Save writes: observations of its duration,
-- and errors.
pub record BadgerStore (Db : Type 0) : Type 0 where
  pub db : Db
  pub saves : ℕ
  pub save_errors : ℕ

-- Open, over badger.Open at a directory and the option WithSyncWrites.
unfoldable pub open_at :
    {Db : Type 0} → (Bytes → Bool → Result Db) → Bytes → Result (BadgerStore Db)
open_at badger_open dir = elim (badger_open dir false) [
  | err x ↦ err (store_open x)
  | ok db ↦ ok (record { db = db; saves = 0; save_errors = 0 })
]

-- Close, over the database's own.
unfoldable pub close :
    {Db : Type 0} → (Db → Option Error × Db) → BadgerStore Db → Option Error × BadgerStore Db
close badger_close s = let (e, db) = badger_close s.db in (e, record s { db = db })

abbrev pub key_prefix : Bytes
key_prefix = lit "sketch/"

unfoldable pub key : Bytes → Bytes
key group = key_prefix ++ group

-- bytes.TrimPrefix
unfoldable pub trim_prefix : Bytes → Bytes → Bytes
unfolding take drop length
trim_prefix b prefix = if take (length prefix) b == prefix then drop (length prefix) b else b

-- The loop of LoadAll over the items that the iterator has left.
unfoldable pub load_items {ℓ} :
    {W : Type ℓ}
    → (Bytes → Bytes → W → Option Error × W)
    → List (Bytes × Result Bytes)
    → W
    → Option Error × W
unfolding trim_prefix
load_items fn [] w = (none, w)
load_items fn ((k, item) ∷ items) w = elim item [
  | err x ↦ (some x, w)
  | ok b ↦
      let (e, w') = fn (trim_prefix k key_prefix) b w in
      elim e [ none ↦ load_items fn items w' | some x ↦ (some x, w') ]
]

module _ {Db : Type 0} (badger : Badger Db) where
  unfoldable pub save : Bytes → Bytes → BadgerStore Db → Option Error × BadgerStore Db
  unfolding key
  save group b s =
      let (e, db) = badger.set (key group) b s.db in
      let s' : BadgerStore Db = record s { db = db; saves = s.saves + 1 } in
      elim e [
        | none ↦ (none, s')
        | some x ↦ (some x, record s' { save_errors = s'.save_errors + 1 })
      ]

  unfoldable pub load : Bytes → BadgerStore Db → Result Bytes
  unfolding key
  load group s = elim (badger.get (key group) s.db) [
    | err x ↦ err x
    | ok none ↦ err not_found
    | ok (some b) ↦ ok b
  ]

  unfoldable pub load_all {ℓ} :
      {W : Type ℓ} → (Bytes → Bytes → W → Option Error × W) → BadgerStore Db → W → Option Error × W
  unfolding load_items
  load_all fn s w = load_items fn (badger.scan key_prefix s.db) w
