-- ===== src/Tests/Databases.antt =====
-- A database in memory, with what badger documents.
use time_series_cardinality.Base.{
  ◌≡◌, refl, sym, ap, ◌∙◌, inl, inr, Bool, true, false, Option, none, some, List, [], ◌∷◌, ◌++◌,
  Bytes, bytes_eq, ◌==◌, bytes_eqb_iff, arith, length, take, drop, take-append, if◌then◌else◌,
  Bool-cases,
}
use time_series_cardinality.Map
use time_series_cardinality.Map.{
  Map, Distinct, find, without, find-without, Distinct-without, lookup, insert, lookup-insert_self,
  lookup-insert_ne, lookup-empty,
}
use time_series_cardinality.Errors.{Result, ok}
use time_series_cardinality.Store.{Badger, BadgerStore}
use time_series_cardinality.Store.Laws.{IsBadger}
use time_series_cardinality.Store.Scan.{IsScan}

abbrev pub Db : Type 0
Db = Map Bytes Bytes

has_prefix : Bytes → Bytes → Bool
has_prefix p k = take (length p) k == p

-- The entries with a prefix; of a key that stands twice only the first.
items : Bytes → List (Bytes × Bytes) → List (Bytes × Result Bytes)
items p [] = []
items p ((k, b) ∷ l) =
    let rest = items p l in if has_prefix p k then (k, ok b) ∷ without k rest else rest

unfoldable pub memory_badger : Badger Db
unfolding items has_prefix
memory_badger = record {
  set = λ k b db. (none, insert k b db);
  get = λ k db. ok (lookup k db);
  scan = λ p db. items p db.entries;
}

pub memory_badger-IsBadger : IsBadger memory_badger
unfolding memory_badger
memory_badger-IsBadger = record {
  get-set = λ k b db h. ap ok (lookup-insert_self k b db);
  get-set_other = λ k j b db n. ap ok (lookup-insert_ne k j b db n);
  failed_set = λ k b db x h. cc h;
}

abbrev read : Option Bytes → Option (Result Bytes)
read none = none
read (some b) = some (ok b)

find-items :
    (p k : Bytes) (l : List (Bytes × Bytes))
    → find k (items p l) ≡ (if has_prefix p k then read (find k l) else none)
unfolding items find
find-items p k [] = ground arith
find-items p k ((j, b) ∷ l) = elim (Bool-cases (j == k)) [
  | inl same ↦
      let e : has_prefix p j ≡ has_prefix p k = ap (has_prefix p) ((bytes_eqb_iff j k).0 same) in
      elim (Bool-cases (has_prefix p k)) [
        | inl starts ↦ rw (e ∙ starts, starts) (rw same refl)
        | inr off ↦ rw (e ∙ off, off) (find-items p k l ∙ rw off refl)
      ]
  | inr other ↦ elim (Bool-cases (has_prefix p j)) [
    | inl starts ↦ rw (starts, other) (find-without j k (items p l) ∙ rw other (find-items p k l))
    | inr off ↦ rw (off, other) (find-items p k l)
  ]
]

items-Distinct : (p : Bytes) (l : List (Bytes × Bytes)) → Distinct (items p l)
unfolding items
items-Distinct p [] = tt
items-Distinct p ((k, b) ∷ l) = elim (Bool-cases (has_prefix p k)) [
  | inl starts ↦ rw starts (
    find-without k k (items p l) ∙ rw ((bytes_eqb_iff k k).1 refl) refl,
    Distinct-without k (items p l) (items-Distinct p l),
  )
  | inr off ↦ rw off (items-Distinct p l)
]

take-drop : (n : Bytes) (l : Bytes) → take (length n) l ++ drop (length n) l ≡ l
unfolding take drop length
take-drop [] l = refl
take-drop (x ∷ n) [] = refl
take-drop (x ∷ n) (y ∷ l) = ap (λ k. y ∷ k) (take-drop n l)

prefix_self : (p rest : Bytes) → has_prefix p (p ++ rest) ≡ true
unfolding has_prefix
prefix_self p rest = (bytes_eqb_iff _ _).1 (take-append p rest)

unprefixed :
    (p k : Bytes) (l : List (Bytes × Bytes)) → has_prefix p k ≡ false → find k (items p l) ≡ none
unprefixed p k l off = rw (find-items p k l, off) refl

stored_at :
    (k : Bytes) (db : Db) {a : Option Bytes}
    → ok (lookup k db) ≡ ok a
    → read (find k db.entries) ≡ read a
unfolding lookup
stored_at k db {a} h = let same : find k db.entries ≡ a = cc h in ap read same

pub memory_badger-IsScan : IsScan memory_badger
unfolding memory_badger
memory_badger-IsScan = record {
  distinct = λ p db. items-Distinct p db.entries;
  prefixed = λ p db k item h. elim (Bool-cases (has_prefix p k)) [
    | inl starts ↦ (
      drop (length p) k,
      sym (take-drop p k)
          ∙ ap (λ q. q ++ drop (length p) k)
              ((bytes_eqb_iff (take (length p) k) p).0 (unfold has_prefix in starts)),
    )
    | inr off ↦ cc (h, unprefixed p k db.entries off)
  ];
  found = λ p rest b db h.
      find-items p (p ++ rest) db.entries ∙ rw (prefix_self p rest) (stored_at (p ++ rest) db h);
  missing = λ p rest db h.
      find-items p (p ++ rest) db.entries ∙ rw (prefix_self p rest) (stored_at (p ++ rest) db h);
}

-- A store over an empty database.
abbrev pub fresh_store : BadgerStore Db
fresh_store = record { db = Map.empty; saves = 0; save_errors = 0 }
