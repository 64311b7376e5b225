-- ===== src/Startup/Failures.antt =====
-- A restart after calls of Save that failed: what the store still holds of each group.
pub mod Calls
pub mod Committed
pub mod Interleaved
use time_series_cardinality.Base.{
  ℕ, ◌≡◌, refl, sym, ◌∙◌, ap, inl, inr, Option, none, some, Bytes, bytes_eq, ◌==◌, Bool-cases,
  Option-cases, if◌then◌else◌, subst, bytes_eqb_iff,
}
use time_series_cardinality.Map.{
  lookup, insert, lookup-insert, lookup-insert_self, lookup-insert_ne,
}
use time_series_cardinality.Errors.{Error, ok}
use time_series_cardinality.Sketch.{SketchOps, Algorithm, IsLawful}
use time_series_cardinality.Engine.{Engine, new_engine, cardinality}
use time_series_cardinality.Engine.Groups.{IsSound, new_engine-IsSound, Touches-insert}
use time_series_cardinality.Engine.Snapshots.{cardinality_known, cardinality_unknown}
use time_series_cardinality.Store.{Badger, BadgerStore, key, save}
use time_series_cardinality.Store.Laws.{IsBadger, save-set}
use time_series_cardinality.Store.Scan.{IsScan}
use time_series_cardinality.Startup.{rebuild}
use time_series_cardinality.Startup.Durable.{IsDurable, saved-IsDurable, empty-IsDurable}
use time_series_cardinality.Startup.Restart.{rebuild-IsDurable}

-- The answers of the two engines for a group are the same when they have the same sketch for it.
cardinality-lookup :
    (o : SketchOps) (alg : Algorithm o) (g : Bytes) (e e' : Engine o alg)
    → lookup g e.groups ≡ lookup g e'.groups
    → cardinality o alg g e ≡ cardinality o alg g e'
unfolding cardinality
cardinality-lookup o alg g e e' same = rw (same, cardinality) refl

module _ {o : SketchOps} {alg : Algorithm o} where
  -- The engine that a restart is to answer like, group by group, after a Save with this result that
  -- was made for `group` when the engine was `e`.
  unfoldable pub recorded :
      Bytes → Option Error → Engine o alg → (Bytes → Engine o alg) → Bytes → Engine o alg
  recorded group none e d g = if group == g then e else d g
  recorded group (some x) e d g = d g

module _ {o : SketchOps} {alg : Algorithm o} (law : IsLawful o alg) {Db : Type 0}
    (badger : Badger Db) where
  -- The store holds, for each group, the sketch that the group's own engine has, and is what a sound
  -- engine leaves.
  pub record Lags (d : Bytes → Engine o alg) (st : BadgerStore Db) : Type 0 where
    pub disk : Engine o alg
    pub sound : IsSound law disk
    pub durable : IsDurable o alg badger disk st
    pub held : (g : Bytes) → lookup g disk.groups ≡ lookup g (d g).groups

  pub empty-Lags :
      (st : BadgerStore Db)
      → ((g : Bytes) → badger.get (key g) st.db ≡ ok none)
      → Lags (λ g. new_engine o alg) st
  empty-Lags st bare = record {
    disk = new_engine o alg;
    sound = new_engine-IsSound law;
    durable = empty-IsDurable o alg badger st bare;
    held = λ g. refl;
  }

  saved-Lags :
      (group : Bytes) (sk : o.Sketch) (e : Engine o alg) (d : Bytes → Engine o alg)
      (st : BadgerStore Db)
      → IsBadger badger
      → law.Made sk
      → lookup group e.groups ≡ some sk
      → Lags d st
      → (save badger group (o.bytes sk) st).0 ≡ none
      → Lags (recorded group none e d) (save badger group (o.bytes sk) st).1
  unfolding recorded
  saved-Lags group sk e d st doc made known h fine =
      let disk : Engine o alg = record h.disk { groups = insert group sk h.disk.groups } in
      record {
        disk = disk;
        sound = (Touches-insert law group sk h.sound made).sound;
        durable =
            saved-IsDurable o alg badger group sk h.disk disk st doc h.durable
              (lookup-insert_self group sk h.disk.groups)
              (λ j n. lookup-insert_ne group j sk h.disk.groups n) fine;
        held = λ g. elim (Bool-cases (group == g)) [
          | inl same ↦
              rw same at (lookup-insert group g sk h.disk.groups)
              ∙ sym known
              ∙ rw (same, (bytes_eqb_iff group g).0 same) refl
          | inr other ↦ rw other (rw other at (lookup-insert group g sk h.disk.groups) ∙ h.held g)
        ];
      }

  -- A Save of a group's new sketch, whatever it returns.
  pub save-Lags :
      (group : Bytes) (sk : o.Sketch) (e : Engine o alg) (d : Bytes → Engine o alg)
      (st : BadgerStore Db)
      → IsBadger badger
      → law.Made sk
      → lookup group e.groups ≡ some sk
      → Lags d st
      → Lags
          (recorded group (save badger group (o.bytes sk) st).0 e d)
          (save badger group (o.bytes sk) st).1
  unfolding recorded
  save-Lags group sk e d st doc made known h =
      elim (Option-cases (save badger group (o.bytes sk) st).0) [
        | inl fine ↦
            subst (λ r. Lags (recorded group r e d) (save badger group (o.bytes sk) st).1)
              (sym fine) (saved-Lags group sk e d st doc made known h fine)
        | inr (x, failed) ↦
            let (r, q) = save-set badger group (o.bytes sk) st in
            let same = q ∙ doc.failed_set (key group) (o.bytes sk) st.db x (sym r ∙ failed) in
            subst (λ r. Lags (recorded group r e d) (save badger group (o.bytes sk) st).1)
              (sym failed)
              (record {
                disk = h.disk;
                sound = h.sound;
                durable = record {
                  stored = λ g. ap (badger.get (key g)) same ∙ h.durable.stored g;
                };
                held = h.held;
              })
      ]

  pub rebuild-Lags :
      (d : Bytes → Engine o alg) (st : BadgerStore Db)
      → IsScan badger
      → Lags d st
      → ((rebuild o alg badger st).0 ≡ none)
        × ((g : Bytes)
            → cardinality o alg g (rebuild o alg badger st).1.0 ≡ cardinality o alg g (d g))
  rebuild-Lags d st scan h =
      let (ran, same, _) = rebuild-IsDurable law badger h.disk st scan h.sound h.durable in
      (ran, λ g. same g ∙ cardinality-lookup o alg g h.disk (d g) (h.held g))
