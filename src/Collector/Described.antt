-- ===== src/Collector/Described.antt =====
-- What a scrape collects against what the collectors described.
use time_series_cardinality.Base.{
  ℕ, ◌≡◌, refl, ◌⊎◌, inl, inr, Bool, List, [], ◌∷◌, Bytes, All, length,
}
use time_series_cardinality.Map.{Map}
use time_series_cardinality.External.{Floats}
use time_series_cardinality.Sketch.{SketchOps, Algorithm}
use time_series_cardinality.Collector.{
  Desc, describe, describe_raft, Metric, EngineCollector, desc_of, label_values, collect_groups,
  collect, collect_raft,
}

module _ (f : Floats) where
  -- The sample's description is one of the list, and the sample has one value for each of its labels.
  abbrev Announced : Desc → List Desc → Type 0
  Announced d [] = ⊥
  Announced d (e ∷ ds) = (d ≡ e) ⊎ Announced d ds

  pub record Describes (ds : List Desc) (m : Metric f) : Type 0 where
    pub announced : Announced (desc_of f m) ds
    pub labelled : length (label_values f m) ≡ length (desc_of f m).variable_labels

  collect_groups-Describes :
      (all : Map Bytes ℕ) (groups : List Bytes)
      → All (Describes describe) (collect_groups f all groups)
  unfolding collect_groups desc_of label_values describe length
  collect_groups-Describes all [] = tt
  collect_groups-Describes all (g ∷ groups) =
      (record { announced = inl refl; labelled = refl }, collect_groups-Describes all groups)

  -- Every sample of a scrape, of the engine as of the Raft node, has a description that its collector
  -- described before, and a value for each label of it, as MustNewConstMetric wants it.
  pub collect-Describes :
      (o : SketchOps) (alg : Algorithm o) (c : EngineCollector f o alg) (status : ℕ × (Bool × ℕ))
      → All (Describes describe) (collect f o alg c)
        × All (Describes describe_raft) (collect_raft f status)
  unfolding collect collect_raft desc_of label_values describe describe_raft length
  collect-Describes o alg c (term, (leader, applied)) = (
    (
      record { announced = inr (inl refl); labelled = refl },
      (record { announced = inr (inr (inl refl)); labelled = refl }, collect_groups-Describes _ _),
    ),
    (
      record { announced = inl refl; labelled = refl },
      (
        record { announced = inr (inl refl); labelled = refl },
        (record { announced = inr (inr (inl refl)); labelled = refl }, tt),
      ),
    ),
  )
