-- ===== src/Engine/Restoring.antt =====
-- Persist and Restore: what Persist hands out for a group, Restore reads back.
use time_series_cardinality.Base.{◌≡◌, refl, ◌∙◌, sym, ap, none, some, [], Bytes, bytes_eq}
use time_series_cardinality.Map.{lookup, lookup-insert_self}
use time_series_cardinality.Errors.{ok}
use time_series_cardinality.Sketch.{SketchOps, Algorithm, IsLawful}
use time_series_cardinality.Engine.{persist, Engine, cardinality, restore}
use time_series_cardinality.Engine.Groups.{IsSound}
use time_series_cardinality.Engine.Snapshots.{cardinality_known, restore_lem}

module _ {o : SketchOps} {alg : Algorithm o} (law : IsLawful o alg) where
  open o use {Sketch, bytes, cardinality as sketch_cardinality}
  open law use {Made, Same, same_cardinality, parse_bytes, made_parse, made_bytes}

  -- The bytes that Persist hands to a callback that keeps them.
  abbrev pub handed : Bytes → Engine o alg → Bytes
  handed g e = (persist o alg g (λ b w. (none, b)) e []).1

  persist_known :
      (g : Bytes) (e : Engine o alg) {sk : Sketch}
      → lookup g e.groups ≡ some sk
      → persist o alg {W = Bytes} g (λ b w. (none, b)) e [] ≡ (none, bytes sk)
  unfolding persist
  persist_known g e found = rw (found, persist) refl

  handed_known :
      (g : Bytes) (e : Engine o alg) {sk : Sketch}
      → lookup g e.groups ≡ some sk
      → handed g e ≡ bytes sk
  handed_known g e found = ap (λ r. r.1) (persist_known g e found)

  restore-bytes :
      (g : Bytes) (e e₀ : Engine o alg) (sk : Sketch)
      → IsSound law e
      → lookup g e.groups ≡ some sk
      → ((restore o alg g (bytes sk) e₀).0 ≡ none)
        × (cardinality o alg g (restore o alg g (bytes sk) e₀).1 ≡ cardinality o alg g e)
  restore-bytes g e e₀ sk h found =
      let (t, parsed, same) = parse_bytes sk (h.made g sk found) in
      let ran = restore_lem o alg g (bytes sk) e₀ parsed in
      (
        ap (λ r. r.0) ran,
        ap (λ r. cardinality o alg g r.1) ran
            ∙ cardinality_known o alg g _ (lookup-insert_self g t e₀.groups)
            ∙ ap ok (same_cardinality same)
            ∙ sym (cardinality_known o alg g e found),
      )

  -- Restoring what Persist handed out for a group of a sound engine succeeds and gives back the count:
  -- the engine that reads the bytes answers for the group what the engine that wrote them answers.
  pub restore-persist :
      (g : Bytes) (e e₀ : Engine o alg) (sk : Sketch)
      → IsSound law e
      → lookup g e.groups ≡ some sk
      → ((restore o alg g (handed g e) e₀).0 ≡ none)
        × (cardinality o alg g (restore o alg g (handed g e) e₀).1 ≡ cardinality o alg g e)
  restore-persist g e e₀ sk h found = rw (handed_known g e found) (restore-bytes g e e₀ sk h found)
