-- ===== src/Startup/Durable.antt =====
-- A store that is in step with the engine, and the calls that keep it so.
use time_series_cardinality.Base.{
  ℕ, ◌≡◌, ◌≢◌, refl, sym, ◌∙◌, ap, inl, inr, Option, none, some, List, [], ◌∷◌, Bytes, bytes_eq,
  ◌==◌, Bool-cases, subst, bytes_eqb_iff,
}
use time_series_cardinality.Map.{lookup, lookup-insert_self, lookup-insert_ne}
use time_series_cardinality.Errors.{Error, ok}
use time_series_cardinality.Sketch.{SketchOps, Algorithm}
use time_series_cardinality.Engine.{Engine, new_engine, sketch_of, added, add_and_persist}
use time_series_cardinality.Engine.Streams.{adds, fresh_lookup}
use time_series_cardinality.Store.{Badger, BadgerStore, key, save}
use time_series_cardinality.Store.Laws.{IsBadger, save-set, key-injective}

abbrev pub on_disk : (o : SketchOps) → Option o.Sketch → Option Bytes
on_disk o none = none
on_disk o (some sk) = some (o.bytes sk)

module _ (o : SketchOps) (alg : Algorithm o) {Db : Type 0} (badger : Badger Db) where
  -- The store holds the bytes of each group of the engine, and of no other group.
  pub record IsDurable (e : Engine o alg) (st : BadgerStore Db) : Type 0 where
    pub stored : (g : Bytes) → badger.get (key g) st.db ≡ ok (on_disk o (lookup g e.groups))

  -- Save of a group's new sketch that returned nil, where every other group is as it was.
  pub saved-IsDurable :
      (g : Bytes) (sk : o.Sketch) (e e' : Engine o alg) (st : BadgerStore Db)
      → IsBadger badger
      → IsDurable e st
      → lookup g e'.groups ≡ some sk
      → ((j : Bytes) → g ≢ j → lookup j e'.groups ≡ lookup j e.groups)
      → (save badger g (o.bytes sk) st).0 ≡ none
      → IsDurable e' (save badger g (o.bytes sk) st).1
  saved-IsDurable g sk e e' st law h new others fine =
      let (r, d) = save-set badger g (o.bytes sk) st in
      record {
        stored = λ j. elim (Bool-cases (g == j)) [
          | inl same ↦
              subst
                (λ k.
                  badger.get (key k) (save badger g (o.bytes sk) st).1.db
                  ≡ ok (on_disk o (lookup k e'.groups)))
                ((bytes_eqb_iff g j).0 same)
                (ap (badger.get (key g)) d
                  ∙ law.get-set (key g) (o.bytes sk) st.db (sym r ∙ fine)
                  ∙ ap (λ s. ok (on_disk o s)) (sym new))
          | inr other ↦
              let apart : g ≢ j = λ q. cc (other, (bytes_eqb_iff g j).1 q) in
              ap (badger.get (key j)) d
              ∙ law.get-set_other (key g) (key j) (o.bytes sk) st.db
                  (λ q. apart (key-injective g j q))
              ∙ h.stored j
              ∙ ap (λ s. ok (on_disk o s)) (sym (others j apart))
        ];
      }

  pub empty-IsDurable :
      (st : BadgerStore Db)
      → ((g : Bytes) → badger.get (key g) st.db ≡ ok none)
      → IsDurable (new_engine o alg) st
  empty-IsDurable st bare = record {
    stored = λ g. bare g ∙ ap (λ s. ok (on_disk o s)) (sym (fresh_lookup o alg g));
  }

  -- AddAndPersist with the store's Save, whose error the caller sees.
  abbrev pub acknowledged :
      Bytes → ℕ → Engine o alg → BadgerStore Db → Option Error × (Engine o alg × BadgerStore Db)
  acknowledged g id e st = add_and_persist o alg g id (save badger g) e st

  -- An AddAndPersist whose Save returns nil keeps the store in step with the engine.
  pub add_and_persist-IsDurable :
      (g : Bytes) (id : ℕ) (e : Engine o alg) (st : BadgerStore Db)
      → IsBadger badger
      → IsDurable e st
      → (acknowledged g id e st).0 ≡ none
      → IsDurable (acknowledged g id e st).1.0 (acknowledged g id e st).1.1
  unfolding add_and_persist
  add_and_persist-IsDurable g id e st law h fine =
      let sk = o.add (sketch_of o alg g e) id in
      saved-IsDurable g sk e _ st law h (lookup-insert_self g sk e.groups)
        (λ j n. lookup-insert_ne g j sk e.groups n) fine

  -- Every call of a sequence returns nil, from the state that the calls before it left.
  abbrev pub AllAcknowledged : List (Bytes × ℕ) → Engine o alg → BadgerStore Db → Type 0
  AllAcknowledged [] e st = Unit
  AllAcknowledged ((g, id) ∷ calls) e st =
      ((acknowledged g id e st).0 ≡ none)
      × AllAcknowledged calls (acknowledged g id e st).1.0 (acknowledged g id e st).1.1

  -- The engine and the store after a sequence of calls.
  unfoldable pub serve :
      List (Bytes × ℕ) → Engine o alg → BadgerStore Db → Engine o alg × BadgerStore Db
  serve [] e st = (e, st)
  serve ((g, id) ∷ calls) e st =
      serve calls (acknowledged g id e st).1.0 (acknowledged g id e st).1.1

  pub serve-IsDurable :
      (calls : List (Bytes × ℕ)) (e : Engine o alg) (st : BadgerStore Db)
      → IsBadger badger
      → IsDurable e st
      → AllAcknowledged calls e st
      → IsDurable (serve calls e st).0 (serve calls e st).1
  unfolding serve
  serve-IsDurable [] e st law h fine = h
  serve-IsDurable ((g, id) ∷ calls) e st law h fine =
      serve-IsDurable calls _ _ law (add_and_persist-IsDurable g id e st law h fine.0) fine.1

  pub engine-serve :
      (calls : List (Bytes × ℕ)) (e : Engine o alg) (st : BadgerStore Db)
      → (serve calls e st).0 ≡ adds o alg e calls
  unfolding serve adds add_and_persist added
  engine-serve [] e st = refl
  engine-serve ((g, id) ∷ calls) e st = engine-serve calls _ _
