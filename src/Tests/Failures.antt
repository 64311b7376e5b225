-- ===== src/Tests/Failures.antt =====
-- The theorems on restarts after failed writes, at a database that refuses large values.
use time_series_cardinality.Base.{
  ℕ, ◌≡◌, refl, ap, inl, inr, none, some, List, [], ◌∷◌, Bytes, bytes_eq, length, take, drop, ltb,
  bytes_eqb, Bool-cases, if◌then◌else◌,
}
use time_series_cardinality.Map
use time_series_cardinality.Map.{find, lookup, insert, lookup-insert_self, lookup-insert_ne}
use time_series_cardinality.Errors.{external, ok}
use time_series_cardinality.Engine.{
  Engine, new_engine, cardinality, add_and_persist, sketch_of, restore,
}
use time_series_cardinality.Store.{
  Badger, BadgerStore, key, save, trim_prefix, load_items, load_all,
}
use time_series_cardinality.Store.Laws.{IsBadger}
use time_series_cardinality.Store.Scan.{IsScan}
use time_series_cardinality.Startup.{rebuild, restore_item}
use time_series_cardinality.Startup.Durable.{serve}
use time_series_cardinality.Startup.Failures.Calls.{last_acknowledged, rebuild-last_acknowledged}
use time_series_cardinality.Bitmap
use time_series_cardinality.Tests.Bitmaps.{list_roaring}
use time_series_cardinality.Tests.Packages.{ops, bitmap, bitmap_law, group, other}
use time_series_cardinality.Tests.Databases.{Db, memory_badger, memory_badger-IsScan, fresh_store}

-- Set refuses a value of more than eight bytes.
unfoldable small_badger : Badger Db
unfolding length
small_badger = record {
  set = λ k b db. if ltb 8 (length b) then (some (external 7), db) else (none, insert k b db);
  get = λ k db. ok (lookup k db);
  scan = memory_badger.scan;
}

small_badger-IsBadger : IsBadger small_badger
unfolding small_badger
small_badger-IsBadger = record {
  get-set = λ k b db h. elim (Bool-cases (ltb 8 (length b))) [
    | inl large ↦ cc (rw large at h)
    | inr small ↦ rw small (ap ok (lookup-insert_self k b db))
  ];
  get-set_other = λ k j b db n. elim (Bool-cases (ltb 8 (length b))) [
    | inl large ↦ rw large refl
    | inr small ↦ rw small (ap ok (lookup-insert_ne k j b db n))
  ];
  failed_set = λ k b db x h. elim (Bool-cases (ltb 8 (length b))) [
    | inl large ↦ rw large refl
    | inr small ↦ cc (rw small at h)
  ];
}

small_badger-IsScan : IsScan small_badger
unfolding small_badger memory_badger
small_badger-IsScan = record {
  distinct = memory_badger-IsScan.distinct;
  prefixed = memory_badger-IsScan.prefixed;
  found = memory_badger-IsScan.found;
  missing = memory_badger-IsScan.missing;
}

bare : (g : Bytes) → small_badger.get (key g) fresh_store.db ≡ ok none
unfolding small_badger lookup Map.empty
bare g = refl

-- The bitmap of two ids has more than eight bytes.
abbrev calls : List (Bytes × ℕ)
calls = (group, 5) ∷ (other, 6) ∷ (group, 7) ∷ []

abbrev new : Engine ops bitmap
new = new_engine ops bitmap

abbrev served : Engine ops bitmap × BadgerStore Db
served = serve ops bitmap small_badger calls new fresh_store

rebuild-last_acknowledged_example :
    ((rebuild ops bitmap small_badger served.1).0 ≡ none)
    × ((g : Bytes)
        → cardinality ops bitmap g (rebuild ops bitmap small_badger served.1).1.0
          ≡ cardinality ops bitmap g
              (last_acknowledged small_badger calls new fresh_store (λ j. new) g))
rebuild-last_acknowledged_example =
    rebuild-last_acknowledged small_badger bitmap_law small_badger-IsBadger calls fresh_store
      small_badger-IsScan bare

-- The second Save for `group` is refused: the engine counts two ids there, and the restart one.
refused :
    (served.1.save_errors ≡ 1)
    × (cardinality ops bitmap group served.0 ≡ ok 2)
    × (cardinality ops bitmap group (rebuild ops bitmap small_badger served.1).1.0 ≡ ok 1)
unfolding serve add_and_persist save small_badger new_engine sketch_of lookup insert Map.empty find
    bytes_eqb length key Bitmap.bytes Bitmap.add Bitmap.new Bitmap.cardinality Bitmap.parse
    list_roaring cardinality rebuild memory_badger trim_prefix take drop load_items load_all restore
    restore_item Map.without
refused = (refl, refl, refl)
