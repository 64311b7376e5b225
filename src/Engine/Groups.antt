-- ===== src/Engine/Groups.antt =====
-- What each method of the engine does to the sketch of each group.
use time_series_cardinality.Base.{
  ℕ, ◌≡◌, ◌≢◌, refl, ◌∙◌, Option, none, some, Bytes, IsByte, All, bytes_eq, ◌==◌, subst, Bool-cases,
  Option-cases, inl, inr,
}
use time_series_cardinality.Map.{
  IsMap, lookup, insert, lookup-empty, insert-IsMap, empty-IsMap, lookup-insert_keeps,
  lookup-insert_ne, lookup-insert_self,
}
use time_series_cardinality.Errors.{Result-cases, Returns}
use time_series_cardinality.Sketch.{SketchOps, Algorithm, IsLawful}
use time_series_cardinality.Engine.{
  Engine, new_engine, sketch_of, added, restore, merged, merge, merge_bytes,
}

module _ {o : SketchOps} {alg : Algorithm o} (law : IsLawful o alg) where
  open o use {
    Sketch, algo_name, add as sketch_add, cardinality as sketch_cardinality, merge as sketch_merge,
    bytes, clone,
  }
  open law use {Made, Same, made_name, made_new, made_add, made_clone, made_merge, made_parse}

  -- Every group's sketch is one of the engine's algorithm, and no group stands twice.
  pub record IsSound (e : Engine o alg) : Type 0 where
    pub keys : IsMap e.groups
    pub made : (g : Bytes) (s : Sketch) → lookup g e.groups ≡ some s → Made s

  pub new_engine-IsSound : IsSound (new_engine o alg)
  unfolding new_engine
  new_engine-IsSound = record {
    keys = empty-IsMap;
    made = λ g s h. cc (h, lookup-empty {V = Sketch} g);
  }

  -- A step of the engine on one group: it stays sound, every other group is as it was, and the
  -- group itself does not vanish.
  pub record Touches (group : Bytes) (e e' : Engine o alg) : Type 0 where
    pub sound : IsSound e'
    pub others : (j : Bytes) → group ≢ j → lookup j e'.groups ≡ lookup j e.groups
    pub grows : lookup group e'.groups ≡ none → lookup group e.groups ≡ none

  pub Touches-refl : (group : Bytes) {e : Engine o alg} → IsSound e → Touches group e e
  Touches-refl group h = record { sound = h; others = λ j n. refl; grows = λ absent. absent }

  pub Touches-insert :
      (group : Bytes) (sk : Sketch) {e : Engine o alg}
      → IsSound e
      → Made sk
      → Touches group e (record e { groups = insert group sk e.groups })
  Touches-insert group sk {e} h m = record {
    sound = record {
      keys = insert-IsMap group sk h.keys;
      made = lookup-insert_keeps Made group sk e.groups h.made m;
    };
    others = λ j n. lookup-insert_ne group j sk e.groups n;
    grows = λ absent. cc (absent, lookup-insert_self group sk e.groups);
  }

  pub sketch_of-Made :
      (group : Bytes) {e : Engine o alg} → IsSound e → Made (sketch_of o alg group e)
  unfolding sketch_of
  sketch_of-Made group {e} h = elim (Option-cases (lookup group e.groups)) [
    | inl absent ↦ rw (absent, sketch_of) made_new
    | inr (sk, found) ↦ rw (found, sketch_of) (h.made group sk found)
  ]

  pub Touches-trans :
      (group : Bytes) {e t u : Engine o alg}
      → Touches group e t
      → Touches group t u
      → Touches group e u
  Touches-trans group h k = record {
    sound = k.sound;
    others = λ j n. k.others j n ∙ h.others j n;
    grows = λ absent. h.grows (k.grows absent);
  }

  pub added-Touches :
      (group : Bytes) (id : ℕ) {e : Engine o alg}
      → IsSound e
      → Touches group e (added o alg group id e)
  unfolding added
  added-Touches group id h = Touches-insert group _ h (made_add id (sketch_of-Made group h))

  pub restore-Touches :
      (group b : Bytes) {e : Engine o alg}
      → IsSound e
      → All IsByte b
      → Touches group e (restore o alg group b e).1
  unfolding restore
  restore-Touches group b {e} h bs = elim (Result-cases (alg.parse b)) [
    | inl (sk, parsed) ↦
        rw (parsed, restore) (Touches-insert group sk h (made_parse b sk bs parsed))
    | inr (x, failed) ↦ rw (failed, restore) (Touches-refl group h)
  ]

  pub merged-Touches :
      (group : Bytes) (remote : Sketch) {e : Engine o alg}
      → IsSound e
      → Made remote
      → Returns (Touches group e) (merged o alg group remote e)
  unfolding merged
  merged-Touches group remote {e} h m = elim (Option-cases (lookup group e.groups)) [
    | inl absent ↦
        rw (absent, merged, Returns) (Touches-insert group (clone remote) h (made_clone m).0)
    | inr (sk, found) ↦
        let (u, joined, made) = made_merge sk remote (h.made group sk found) m in
        rw (found, joined, merged, Returns) (Touches-insert group u h made)
  ]

  pub merge-Touches :
      (group : Bytes) (remote : Option Sketch) {e : Engine o alg}
      → IsSound e
      → ((r : Sketch) → remote ≡ some r → algo_name r ≡ alg.name → Made r)
      → Returns (Touches group e) (merge o alg group remote e)
  unfolding merge
  merge-Touches group none h made = Touches-refl group h
  merge-Touches group (some remote) h made = elim (Bool-cases (algo_name remote == alg.name)) [
    | inl same ↦
        rw same (merged-Touches group remote h (made remote refl ((bytes_eq.beq_iff _ _).0 same)))
    | inr other ↦ rw other (Touches-refl group h)
  ]

  pub merge_bytes-Touches :
      (group algo b : Bytes) {e : Engine o alg}
      → IsSound e
      → All IsByte b
      → Returns (Touches group e) (merge_bytes o alg group algo b e)
  unfolding merge_bytes
  merge_bytes-Touches group algo b {e} h bs = elim (Bool-cases (algo == alg.name)) [
    | inr other ↦ rw other (Touches-refl group h)
    | inl same ↦ elim (Result-cases (alg.parse b)) [
      | inl (sk, parsed) ↦
          rw (same, parsed)
            (merge-Touches group (some sk) h
              (λ r p q. subst Made {x = sk} (cc p) (made_parse b sk bs parsed)))
      | inr (x, failed) ↦ rw (same, failed) (Touches-refl group h)
    ]
  ]
