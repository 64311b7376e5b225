-- ===== src/Collector/Ranking.antt =====
-- The order in which Collect ranks groups: larger estimates first, equal ones by name.
use mathlib.Core.List.{Perm}
use mathlib.Core.List.Perm
use time_series_cardinality.Base.{
  ℕ, zero, suc, ◌≡◌, refl, inl, inr, ap, ◌∙◌, true, false, List, [], ◌∷◌, Bytes, arith, All,
  All-drop, length, Bool-cases, take, drop,
}
use time_series_cardinality.Map.{Map}
use time_series_cardinality.Collector.{bytes_ltb, before, insert_group, sort_groups}

bytes_ltb_trans :
    (a b c : Bytes) → bytes_ltb b a ≡ false → bytes_ltb c b ≡ false → bytes_ltb c a ≡ false
unfolding bytes_ltb
bytes_ltb_trans [] b [] h k = refl
bytes_ltb_trans [] b (z ∷ zs) h k = refl
bytes_ltb_trans (x ∷ xs) [] c h k = cc
bytes_ltb_trans (x ∷ xs) (y ∷ ys) [] h k = cc
bytes_ltb_trans (x ∷ xs) (y ∷ ys) (z ∷ zs) h k = ground (arith, bytes_ltb_trans xs ys zs)

bytes_ltb_asym : (a b : Bytes) → bytes_ltb a b ≡ true → bytes_ltb b a ≡ false
unfolding bytes_ltb
bytes_ltb_asym [] [] h = cc
bytes_ltb_asym [] (y ∷ ys) h = refl
bytes_ltb_asym (x ∷ xs) [] h = cc
bytes_ltb_asym (x ∷ xs) (y ∷ ys) h = ground (arith, bytes_ltb_asym xs ys)

module _ (all : Map Bytes ℕ) where
  -- g may stand before h in the ranking.
  abbrev pub Ranks : Bytes → Bytes → Type 0
  Ranks g h = before all h g ≡ false

  Ranks-trans : (g h k : Bytes) → Ranks g h → Ranks h k → Ranks g k
  unfolding before
  Ranks-trans g h k p q = ground (arith, bytes_ltb_trans g h k)

  Ranks-of_before : (g h : Bytes) → before all g h ≡ true → Ranks g h
  unfolding before
  Ranks-of_before g h p = ground (arith, bytes_ltb_asym g h)

  -- Every group ranks before those behind it.
  abbrev pub IsRanked : List Bytes → Type 0
  IsRanked [] = Unit
  IsRanked (g ∷ gs) = All (Ranks g) gs × IsRanked gs

  All-Ranks : (g h : Bytes) (l : List Bytes) → Ranks g h → All (Ranks h) l → All (Ranks g) l
  All-Ranks g h [] r a = tt
  All-Ranks g h (k ∷ l) r a = (Ranks-trans g h k r a.0, All-Ranks g h l r a.1)

  All-insert_group :
      (P : Bytes → Type 0) (g : Bytes) (l : List Bytes)
      → P g
      → All P l
      → All P (insert_group all g l)
  unfolding insert_group
  All-insert_group P g [] p a = (p, tt)
  All-insert_group P g (h ∷ hs) p a = elim (Bool-cases (before all h g)) [
    | inl first ↦ rw first (a.0, All-insert_group P g hs p a.1)
    | inr later ↦ rw later (p, (a.0, a.1))
  ]

  insert_group-IsRanked :
      (g : Bytes) (l : List Bytes) → IsRanked l → IsRanked (insert_group all g l)
  unfolding insert_group
  insert_group-IsRanked g [] r = (tt, tt)
  insert_group-IsRanked g (h ∷ hs) r = elim (Bool-cases (before all h g)) [
    | inl first ↦ rw first (
      All-insert_group (Ranks h) g hs (Ranks-of_before h g first) r.0,
      insert_group-IsRanked g hs r.1,
    )
    | inr later ↦ rw later ((later, All-Ranks g h hs later r.0), (r.0, r.1))
  ]

  pub sort_groups-IsRanked : (l : List Bytes) → IsRanked (sort_groups all l)
  unfolding sort_groups
  sort_groups-IsRanked [] = tt
  sort_groups-IsRanked (g ∷ gs) =
      insert_group-IsRanked g (sort_groups all gs) (sort_groups-IsRanked gs)

  insert_group-perm : (g : Bytes) (l : List Bytes) → Perm (insert_group all g l) (g ∷ l)
  unfolding insert_group
  insert_group-perm g [] = Perm.refl (g ∷ [])
  insert_group-perm g (h ∷ hs) = elim (Bool-cases (before all h g)) [
    | inl first ↦ rw first (Perm.trans (Perm.cons h (insert_group-perm g hs)) (Perm.swap g h hs))
    | inr later ↦ rw later (Perm.refl (g ∷ h ∷ hs))
  ]

  pub sort_groups-perm : (l : List Bytes) → Perm (sort_groups all l) l
  unfolding sort_groups
  sort_groups-perm [] = Perm.refl []
  sort_groups-perm (g ∷ gs) =
      Perm.trans (insert_group-perm g (sort_groups all gs)) (Perm.cons g (sort_groups-perm gs))

  -- Where a ranked list is cut, every group before the cut ranks before every group behind it.
  pub take-IsRanked :
      (n : ℕ) (l : List Bytes) → IsRanked l → All (λ g. All (Ranks g) (drop n l)) (take n l)
  unfolding take drop
  take-IsRanked zero l r = tt
  take-IsRanked (suc n) [] r = tt
  take-IsRanked (suc n) (g ∷ gs) r = (All-drop (Ranks g) n gs r.0, take-IsRanked n gs r.1)

  length-insert_group :
      (g : Bytes) (l : List Bytes) → length (insert_group all g l) ≡ suc (length l)
  unfolding insert_group length
  length-insert_group g [] = refl
  length-insert_group g (h ∷ hs) = ground (arith, length-insert_group g hs)

  pub length-sort_groups : (l : List Bytes) → length (sort_groups all l) ≡ length l
  unfolding sort_groups length
  length-sort_groups [] = refl
  length-sort_groups (g ∷ gs) =
      length-insert_group g (sort_groups all gs) ∙ ap suc (length-sort_groups gs)
