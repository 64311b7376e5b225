-- ===== src/Store/Laws.antt =====
-- Save and Load: what was saved for a group is loaded, and the other groups are as they were.
use time_series_cardinality.Base.{
  ◌≡◌, ◌≢◌, refl, ◌∙◌, sym, ap, none, some, Bytes, length, take, drop, bytes_eqb, Option-cases, inl,
  inr, ◌+◌, bytes_eq, bytes_eqb_iff, ◌==◌, if◌then◌else◌, Bool-cases, subst,
}
use time_series_cardinality.Errors.{Error, ok}
use time_series_cardinality.Store.{Badger, BadgerStore, key, key_prefix, trim_prefix, save, load}

-- What badger documents of a Set that succeeded and of one that failed: the transaction is all or
-- nothing, and a key reads what was last set.
pub record IsBadger {Db : Type 0} (badger : Badger Db) : Type 0 where
  pub get-set :
      (k b : Bytes) (db : Db)
      → (badger.set k b db).0 ≡ none
      → badger.get k (badger.set k b db).1 ≡ ok (some b)
  pub get-set_other :
      (k j b : Bytes) (db : Db) → k ≢ j → badger.get j (badger.set k b db).1 ≡ badger.get j db
  pub failed_set :
      (k b : Bytes) (db : Db) (x : Error)
      → (badger.set k b db).0 ≡ some x
      → (badger.set k b db).1 ≡ db

pub key-injective : (g h : Bytes) → key g ≡ key h → g ≡ h
unfolding key drop
key-injective g h p = ap (drop 7) p

-- The group that LoadAll passes on for a key is the one that Save wrote the key for.
pub trim_prefix-key : (g : Bytes) → trim_prefix (key g) key_prefix ≡ g
unfolding trim_prefix key take drop length bytes_eqb
trim_prefix-key g = refl

module _ {Db : Type 0} (badger : Badger Db) where
  pub save-set :
      (g b : Bytes) (s : BadgerStore Db)
      → ((save badger g b s).0 ≡ (badger.set (key g) b s.db).0)
        × ((save badger g b s).1.db ≡ (badger.set (key g) b s.db).1)
  unfolding save
  save-set g b s = elim (Option-cases (badger.set (key g) b s.db).0) [
    | inl e ↦ rw (e, save) (refl, refl)
    | inr (x, e) ↦ rw (e, save) (refl, refl)
  ]

  errors-save :
      (g b : Bytes) (s : BadgerStore Db) (x : Error)
      → (save badger g b s).0 ≡ some x
      → (save badger g b s).1.save_errors ≡ s.save_errors + 1
  unfolding save
  errors-save g b s x p = elim (Option-cases (badger.set (key g) b s.db).0) [
    | inl e ↦ cc (p, (save-set g b s).0, e)
    | inr (y, e) ↦ rw (e, save) refl
  ]

  load-get :
      (g : Bytes) (s t : BadgerStore Db)
      → badger.get (key g) s.db ≡ badger.get (key g) t.db
      → load badger g s ≡ load badger g t
  unfolding load
  load-get g s t e = rw (e, load) refl

  load_known :
      (g b : Bytes) (s : BadgerStore Db)
      → badger.get (key g) s.db ≡ ok (some b)
      → load badger g s ≡ ok b
  unfolding load
  load_known g b s e = rw (e, load) refl

  module _ (law : IsBadger badger) where
    pub load_saved :
        (g b : Bytes) (s : BadgerStore Db)
        → (save badger g b s).0 ≡ none
        → (load badger g (save badger g b s).1 ≡ ok b)
          × ((j : Bytes) → g ≢ j → load badger j (save badger g b s).1 ≡ load badger j s)
    load_saved g b s p =
        let (e, d) = save-set g b s in
        (
          load_known g b _ (ap (badger.get (key g)) d ∙ law.get-set (key g) b s.db (sym e ∙ p)),
          λ j n. load-get j _ s (
              ap (badger.get (key j)) d
              ∙ law.get-set_other (key g) (key j) b s.db (λ q. n (key-injective g j q))),
        )

    -- After a Save that returned nil, Load of its group gives the bytes, and Load of any other group
    -- answers as before.
    pub load-save :
        (g j b : Bytes) (s : BadgerStore Db)
        → (save badger g b s).0 ≡ none
        → load badger j (save badger g b s).1 ≡ (if g == j then ok b else load badger j s)
    load-save g j b s p =
        let (there, others) = load_saved g b s p in
        elim (Bool-cases (g == j)) [
          | inl same ↦ rw same (
              subst (λ k. load badger k (save badger g b s).1 ≡ ok b) ((bytes_eqb_iff g j).0 same)
                there)
          | inr other ↦ rw other (others j (λ q. cc (other, (bytes_eqb_iff g j).1 q)))
        ]

    -- Save that returns an error leaves every group as it was, and counts the error.
    pub save_failed :
        (g b : Bytes) (s : BadgerStore Db) (x : Error)
        → (save badger g b s).0 ≡ some x
        → ((j : Bytes) → load badger j (save badger g b s).1 ≡ load badger j s)
          × ((save badger g b s).1.save_errors ≡ s.save_errors + 1)
    save_failed g b s x p =
        let (e, d) = save-set g b s in
        let same = law.failed_set (key g) b s.db x (sym e ∙ p) in
        (λ j. load-get j _ s (ap (badger.get (key j)) (d ∙ same)), errors-save g b s x p)
