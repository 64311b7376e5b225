-- ===== src/Collector.antt =====
-- internal/server/collector.go: what a scrape reads off the engine and off the Raft node.
pub mod Ranking
pub mod Export
pub mod Described
use time_series_cardinality.Base.{
  ℕ, zero, suc, ◌+◌, ◌-◌, Bool, true, false, not, Option, none, some, List, [], ◌∷◌, ◌++◌, map,
  Bytes, lit, bytes_eq, if◌then◌else◌, length, take, ltb, nat_eqb,
}
use time_series_cardinality.Map
use time_series_cardinality.Map.{Map, lookup}
use time_series_cardinality.External.{Floats}
use time_series_cardinality.Sketch.{SketchOps, Algorithm}
use time_series_cardinality.Engine.{Engine, cardinality_all}

-- A Go int; `negsuc n` is -(n + 1).
pub data ℤ : Type 0 where
  pos : ℕ → ℤ
  negsuc : ℕ → ℤ

-- s < t on Go strings
unfoldable pub bytes_ltb : Bytes → Bytes → Bool
bytes_ltb [] [] = false
bytes_ltb [] (y ∷ ys) = true
bytes_ltb (x ∷ xs) [] = false
bytes_ltb (x ∷ xs) (y ∷ ys) =
    let rest = bytes_ltb xs ys in if ltb x y then true else if ltb y x then false else rest

-- all[group], which is 0 where there is none
unfoldable pub count_of : Map Bytes ℕ → Bytes → ℕ
count_of all group = elim (lookup group all) [ none ↦ 0 | some n ↦ n ]

-- The less of sort.Slice: the larger estimate first, then the smaller name.
unfoldable pub before : Map Bytes ℕ → Bytes → Bytes → Bool
unfolding count_of bytes_ltb
before all g h =
    if not (nat_eqb (count_of all g) (count_of all h))
    then ltb (count_of all h) (count_of all g)
    else bytes_ltb g h

-- sort.Slice: no two groups are equal under `before`, so every sort gives this list.
unfoldable pub insert_group : Map Bytes ℕ → Bytes → List Bytes → List Bytes
unfolding before
insert_group all g [] = g ∷ []
insert_group all g (h ∷ hs) = if before all h g then h ∷ insert_group all g hs else g ∷ h ∷ hs

unfoldable pub sort_groups : Map Bytes ℕ → List Bytes → List Bytes
unfolding insert_group
sort_groups all [] = []
sort_groups all (g ∷ gs) = insert_group all g (sort_groups all gs)

-- The groups that Collect exports, and how many it drops.
unfoldable pub select : ℤ → Map Bytes ℕ → List Bytes → List Bytes × ℕ
unfolding sort_groups length take
select (negsuc k) all groups = (groups, 0)
select (pos zero) all groups = (groups, 0)
select (pos (suc k)) all groups =
    if ltb (suc k) (length groups)
    then (take (suc k) (sort_groups all groups), length groups - suc k)
    else (groups, 0)

-- prometheus.Desc, as NewDesc makes it here: the name, the help, and the names of the labels.
pub record Desc : Type 0 where
  pub fq_name : Bytes
  pub help : Bytes
  pub variable_labels : List Bytes

abbrev pub group_cardinality_desc : Desc
group_cardinality_desc = record {
  fq_name = lit "cardinality_tracker_group_cardinality";
  help = lit "Estimated number of unique ids per group.";
  variable_labels = lit "group" ∷ [];
}

abbrev pub groups_dropped_desc : Desc
groups_dropped_desc = record {
  fq_name = lit "cardinality_tracker_groups_dropped";
  help = lit "Groups not exported because -metrics-max-groups was exceeded.";
  variable_labels = [];
}

abbrev pub engine_groups_desc : Desc
engine_groups_desc = record {
  fq_name = lit "cardinality_tracker_engine_groups";
  help = lit "Number of groups held by the engine.";
  variable_labels = [];
}

abbrev pub raft_term_desc : Desc
raft_term_desc = record {
  fq_name = lit "cardinality_tracker_raft_term";
  help = lit "Current Raft term.";
  variable_labels = [];
}

abbrev pub raft_is_leader_desc : Desc
raft_is_leader_desc = record {
  fq_name = lit "cardinality_tracker_raft_is_leader";
  help = lit "1 when this node is the Raft leader, 0 otherwise.";
  variable_labels = [];
}

abbrev pub raft_applied_index_desc : Desc
raft_applied_index_desc = record {
  fq_name = lit "cardinality_tracker_raft_applied_index";
  help = lit "Last Raft log index applied to the FSM.";
  variable_labels = [];
}

-- The Describe methods of the two collectors.
unfoldable pub describe : List Desc
describe = group_cardinality_desc ∷ groups_dropped_desc ∷ engine_groups_desc ∷ []

unfoldable pub describe_raft : List Desc
describe_raft = raft_term_desc ∷ raft_is_leader_desc ∷ raft_applied_index_desc ∷ []

module _ (f : Floats) where
  -- A sample: its description, its value, and its label.
  pub data Metric : Type 0 where
    groups_dropped engine_groups raft_term raft_is_leader raft_applied_index : f.Float → Metric
    group_cardinality : Bytes → f.Float → Metric

  -- The description that MustNewConstMetric is given with each, and the values of its labels.
  unfoldable pub desc_of : Metric → Desc
  desc_of (groups_dropped x) = groups_dropped_desc
  desc_of (engine_groups x) = engine_groups_desc
  desc_of (raft_term x) = raft_term_desc
  desc_of (raft_is_leader x) = raft_is_leader_desc
  desc_of (raft_applied_index x) = raft_applied_index_desc
  desc_of (group_cardinality group x) = group_cardinality_desc

  unfoldable pub label_values : Metric → List Bytes
  label_values (group_cardinality group x) = group ∷ []
  label_values other = []

  pub record EngineCollector (o : SketchOps) (alg : Algorithm o) : Type 0 where
    pub engine : Engine o alg
    pub max_groups : ℤ

  unfoldable pub collect_groups : Map Bytes ℕ → List Bytes → List Metric
  unfolding count_of
  collect_groups all groups = map (λ g. group_cardinality g (f.of_int (count_of all g))) groups

  unfoldable pub collect : (o : SketchOps) (alg : Algorithm o) → EngineCollector o alg → List Metric
  unfolding select collect_groups
  collect o alg c =
      let all = cardinality_all o alg c.engine in
      let (groups, dropped) =
        select c.max_groups all (map (λ (entry : Bytes × ℕ). entry.0) all.entries) in
      groups_dropped (f.of_int dropped)
      ∷ engine_groups (f.of_int (Map.size all))
      ∷ collect_groups all groups

  -- RaftCollector.Collect, from what Status returns.
  unfoldable pub collect_raft : ℕ × (Bool × ℕ) → List Metric
  collect_raft (term, (leader, applied)) =
      raft_term (f.of_int term)
      ∷ raft_is_leader (if leader then f.of_int 1 else f.of_int 0)
      ∷ raft_applied_index (f.of_int applied)
      ∷ []
