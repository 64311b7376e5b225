-- ===== src/Engine/Merging.antt =====
-- Merge and MergeBytes: the sketch of another engine stands for the ids that were added there.
use mathlib.Core.List.{foldl}
use time_series_cardinality.Base.{
  ℕ, ◌≡◌, refl, sym, ap, ◌∙◌, inl, inr, none, some, List, [], ◌∷◌, Bytes, bytes_eq, bytes_eqb_iff,
  Option-cases, subst,
}
use time_series_cardinality.Map.{lookup, lookup-insert_self, insert}
use time_series_cardinality.Errors.{ok, done}
use time_series_cardinality.Sketch.{SketchOps, Algorithm, IsLawful}
use time_series_cardinality.Engine.{
  Engine, new_engine, added, cardinality, merged, merge, merge_bytes,
}
use time_series_cardinality.Engine.Groups.{IsSound}
use time_series_cardinality.Engine.Snapshots.{cardinality_known}
use time_series_cardinality.Engine.Streams.{
  adds, stream, feed, feed-cons, feed-some, lookup-added, lookup-adds, fresh_lookup, foldl-Made,
}

module _ (o : SketchOps) (alg : Algorithm o) where
  open o use {Sketch, add as sketch_add, bytes}

  -- The ids added to one group, in order.
  abbrev pub replay : Bytes → List ℕ → Engine o alg → Engine o alg
  replay group ids e = foldl (λ (t : Engine o alg) (id : ℕ). added o alg group id t) e ids

  lookup-replay :
      (group : Bytes) (ids : List ℕ) (e : Engine o alg)
      → lookup group (replay group ids e).groups ≡ feed o alg (lookup group e.groups) ids
  lookup-replay group [] e = unfold feed in refl
  lookup-replay group (id ∷ ids) e =
      lookup-replay group ids (added o alg group id e)
      ∙ ap (λ s. feed o alg s ids)
          (lookup-added o alg group group id e ∙ rw ((bytes_eqb_iff group group).1 refl) refl)
      ∙ sym (feed-cons o alg (lookup group e.groups) id ids)

  feed-none :
      (ids : List ℕ) {sk : Sketch}
      → feed o alg none ids ≡ some sk
      → sk ≡ foldl sketch_add alg.new ids
  unfolding feed
  feed-none [] h = cc h
  feed-none (id ∷ ids) {sk} h = let all = feed-some o alg (sketch_add alg.new id) ids in cc (h, all)

  merge_bytes_lem :
      (group b : Bytes) (t : Sketch) (e : Engine o alg)
      → alg.parse b ≡ ok t
      → o.algo_name t ≡ alg.name
      → merge_bytes o alg group alg.name b e ≡ merged o alg group t e
  unfolding merge_bytes merge
  merge_bytes_lem group b t e parsed named =
      rw ((bytes_eqb_iff alg.name alg.name).1 refl, parsed)
        (rw ((bytes_eqb_iff (o.algo_name t) alg.name).1 named) refl)

module _ {o : SketchOps} {alg : Algorithm o} (law : IsLawful o alg) where
  open o use {Sketch, add as sketch_add, bytes}
  open law use {
    Made, Same, same_trans, same_cardinality, made_name, made_new, made_clone, made_bytes,
    made_parse, parse_bytes, merge_adds,
  }

  merged-replay :
      (group : Bytes) (ids : List ℕ) (t sk : Sketch) (e : Engine o alg)
      → IsSound law e
      → feed o alg none ids ≡ some sk
      → Made t
      → Same t sk
      → (e' : Engine o alg) × (merged o alg group t e ≡ done (none, e'))
        × (cardinality o alg group e' ≡ cardinality o alg group (replay o alg group ids e))
  unfolding merged
  merged-replay group ids t sk e h fed made same = elim (Option-cases (lookup group e.groups)) [
    | inl absent ↦
        let (m, copied) = made_clone made in
        (
          record { groups = insert group (o.clone t) e.groups },
          rw (absent, merged) refl,
          cardinality_known o alg group _ (lookup-insert_self group (o.clone t) e.groups)
              ∙ ap ok (same_cardinality (same_trans copied same))
              ∙ sym (
                  cardinality_known o alg group (replay o alg group ids e)
                    (lookup-replay o alg group ids e ∙ ap (λ s. feed o alg s ids) absent ∙ fed)),
        )
    | inr (s, found) ↦
        let (u, joined, alike) =
          merge_adds s t ids (h.made group s found)
            (subst (Same t) (feed-none o alg ids fed) same) in
        (
          record { groups = insert group u e.groups },
          rw (found, merged) (rw joined refl),
          cardinality_known o alg group _ (lookup-insert_self group u e.groups)
              ∙ ap ok (same_cardinality alike)
              ∙ sym (
                  cardinality_known o alg group (replay o alg group ids e) (
                    lookup-replay o alg group ids e
                    ∙ ap (λ s. feed o alg s ids) found
                    ∙ feed-some o alg s ids)),
        )
  ]

  -- MergeBytes of the bytes of a group's sketch on another engine, whatever calls of Add that engine
  -- has seen: on a sound engine it succeeds, and the group's count is then the one that adding the
  -- other engine's ids of the group here, one by one, would give.
  pub merge_bytes-replay :
      (group : Bytes) (calls : List (Bytes × ℕ)) (sk : Sketch) (e : Engine o alg)
      → IsSound law e
      → lookup group (adds o alg (new_engine o alg) calls).groups ≡ some sk
      → (e' : Engine o alg) × (merge_bytes o alg group alg.name (bytes sk) e ≡ done (none, e'))
        × (cardinality o alg group e'
            ≡ cardinality o alg group (replay o alg group (stream group calls) e))
  merge_bytes-replay group calls sk e h there =
      let ids = stream group calls in
      let fed : feed o alg none ids ≡ some sk =
        ap (λ s. feed o alg s ids) (sym (fresh_lookup o alg group))
        ∙ sym (lookup-adds o alg calls (new_engine o alg) group)
        ∙ there in
      let made : Made sk =
        subst Made (sym (feed-none o alg ids fed)) (foldl-Made law ids made_new) in
      let (t, parsed, same) = parse_bytes sk made in
      let made_t = made_parse (bytes sk) t (made_bytes made) parsed in
      let (e', ran, count) = merged-replay group ids t sk e h fed made_t same in
      (e', merge_bytes_lem o alg group (bytes sk) t e parsed (made_name made_t) ∙ ran, count)
