-- ===== src/Collector/Export.antt =====
-- What a scrape exports of the engine's groups.
use mathlib.Core.List.{Perm}
use mathlib.Core.List.Perm
use time_series_cardinality.Base.{
  ℕ, zero, suc, ◌≡◌, refl, sym, inl, inr, ap, ◌∙◌, Option, none, some, List, [], ◌∷◌, ◌++◌, Bytes,
  bytes_eq, arith, All, Option-cases, length, min,
}
use time_series_cardinality.Map
use time_series_cardinality.Map.{Map, Distinct, find, lookup, insert, lookup-insert, lookup-empty}
use time_series_cardinality.Errors.{Result, ok, err}
use time_series_cardinality.Sketch.{SketchOps, Algorithm}
use time_series_cardinality.Engine.{Engine, cardinality, counts, cardinality_all}
use time_series_cardinality.Engine.Snapshots.{cardinality_known, cardinality_unknown}
use time_series_cardinality.Collector.{ℤ, pos, negsuc}
use time_series_cardinality.Collector.Ranking.{Ranks}

-- The groups that Collect exports and the ones that it leaves out: together they are all groups,
-- the count of dropped ones is right, and every exported group ranks before every dropped one.
pub record Selects (all : Map Bytes ℕ) (groups exported : List Bytes) (dropped : ℕ) : Type 0 where
  pub rest : List Bytes
  pub whole : Perm (exported ++ rest) groups
  pub counted : dropped ≡ length rest
  pub ranked : All (λ g. All (Ranks all g) rest) exported

-- How many groups a cap lets through: all for a cap of 0 or less.
pub capped : ℤ → ℕ → ℕ
capped (negsuc k) n = n
capped (pos zero) n = n
capped (pos (suc k)) n = min (suc k) n

module _ (o : SketchOps) (alg : Algorithm o) where
  lookup-counts :
      (l : List (Bytes × o.Sketch)) (out : Map Bytes ℕ) (g : Bytes)
      → Distinct l
      → lookup g (counts o alg l out) ≡ elim (find g l) as (λ _. Option ℕ) [
        | none ↦ lookup g out
        | some sk ↦ some (o.cardinality sk)
      ]
  unfolding counts find
  lookup-counts [] out g d = refl
  lookup-counts ((j, sk) ∷ l) out g d =
      lookup-counts l (insert j (o.cardinality sk) out) g d.1
      ∙ ground (arith, lookup-insert j g (o.cardinality sk) out, bytes_eq.beq_iff j g, d.0)

  -- What Cardinality knows of a group.
  pub known : Result ℕ → Option ℕ
  known (ok n) = some n
  known (err x) = none

  -- On an engine where no group stands twice, CardinalityAll agrees with Cardinality: it has an entry
  -- for exactly the groups that Cardinality knows, with the same estimate.
  pub cardinality_all-cardinality :
      (e : Engine o alg) (g : Bytes)
      → Distinct e.groups.entries
      → lookup g (cardinality_all o alg e) ≡ known (cardinality o alg g e)
  unfolding cardinality_all lookup known
  cardinality_all-cardinality e g d =
      let all = lookup-counts e.groups.entries Map.empty g d in
      elim (Option-cases (lookup g e.groups)) [
        | inl absent ↦
            all
            ∙ rw absent (lookup-empty {V = ℕ} g)
            ∙ ap known (sym (cardinality_unknown o alg g e absent))
        | inr (sk, found) ↦ all ∙ rw found refl ∙ ap known (sym (cardinality_known o alg g e found))
      ]
