-- ===== src/Map/Laws.antt =====
-- The operations of a map, their lookup laws, and that the operations keep the keys distinct.
use time_series_cardinality.Base.{
  ℕ, ◌≡◌, refl, ◌≢◌, inl, inr, Option, none, some, List, [], ◌∷◌, arith, Eq, ◌==◌, if◌then◌else◌,
  length, Bool-cases, subst,
}

pub record Map {ℓ κ} (K : Type ℓ) (V : Type κ) : Type (ℓ ⊔ κ) where
  pub entries : List (K × V)

module _ {ℓ κ} {K : Type ℓ} {V : Type κ} ⦃e : Eq K⦄ where
  unfoldable pub find : K → List (K × V) → Option V
  find k [] = none
  find k ((j, v) ∷ l) = if j == k then some v else find k l

  unfoldable pub put : K → V → List (K × V) → List (K × V)
  put k v [] = (k, v) ∷ []
  put k v ((j, w) ∷ l) = if j == k then (k, v) ∷ l else (j, w) ∷ put k v l

  unfoldable pub without : K → List (K × V) → List (K × V)
  without k [] = []
  without k ((j, v) ∷ l) = let rest = without k l in if j == k then rest else (j, v) ∷ rest

  -- Each key stands once.
  abbrev pub Distinct : List (K × V) → Type κ
  Distinct [] = Unit
  Distinct ((k, v) ∷ l) = (find k l ≡ none) × Distinct l

  pub find-put :
      (k j : K) (v : V) (l : List (K × V))
      → find j (put k v l) ≡ (if k == j then some v else find j l)
  unfolding find put
  find-put k j v [] = refl
  find-put k j v ((i, w) ∷ l) =
      ground (arith, e.beq_iff k j, e.beq_iff i k, e.beq_iff i j, find-put k j v l)

  pub find-without :
      (k j : K) (l : List (K × V)) → find j (without k l) ≡ (if k == j then none else find j l)
  unfolding find without
  find-without k j [] = ground arith
  find-without k j ((i, w) ∷ l) =
      ground (arith, e.beq_iff k j, e.beq_iff i k, e.beq_iff i j, find-without k j l)

  Distinct-put : (k : K) (v : V) (l : List (K × V)) → Distinct l → Distinct (put k v l)
  unfolding put
  Distinct-put k v [] h = (unfold find in refl, tt)
  Distinct-put k v ((j, w) ∷ l) h = elim (Bool-cases (j == k)) [
    | inl same ↦ rw same (cc ((e.beq_iff j k).0 same, h.0), h.1)
    | inr other ↦ rw other (
      ground (arith, find-put k j v l, e.beq_iff k j, e.beq_iff j k, h.0),
      Distinct-put k v l h.1,
    )
  ]

  pub Distinct-without : (k : K) (l : List (K × V)) → Distinct l → Distinct (without k l)
  unfolding without
  Distinct-without k [] h = tt
  Distinct-without k ((j, w) ∷ l) h = elim (Bool-cases (j == k)) [
    | inl same ↦ rw same (Distinct-without k l h.1)
    | inr other ↦ rw other (ground (arith, find-without k j l, h.0), Distinct-without k l h.1)
  ]

  -- make(map[K]V)
  unfoldable pub empty : Map K V
  empty = record { entries = [] }

  -- v, ok := m[k]
  unfoldable pub lookup : K → Map K V → Option V
  unfolding find
  lookup k m = find k m.entries

  -- m[k] = v
  unfoldable pub insert : K → V → Map K V → Map K V
  unfolding put
  insert k v m = record { entries = put k v m.entries }

  -- delete(m, k)
  unfoldable pub delete : K → Map K V → Map K V
  unfolding without
  delete k m = record { entries = without k m.entries }

  -- len(m)
  unfoldable pub size : Map K V → ℕ
  unfolding length
  size m = length m.entries

  pub record IsMap (m : Map K V) : Type (ℓ ⊔ κ) where
    pub distinct : Distinct m.entries

  pub lookup-find : (k : K) (m : Map K V) → lookup k m ≡ find k m.entries
  unfolding lookup
  lookup-find k m = refl

  pub lookup-empty : (k : K) → lookup k empty ≡ none
  unfolding lookup empty
  lookup-empty k = refl

  pub lookup-insert :
      (k j : K) (v : V) (m : Map K V)
      → lookup j (insert k v m) ≡ (if k == j then some v else lookup j m)
  unfolding lookup insert
  lookup-insert k j v m = find-put k j v m.entries

  pub lookup-delete :
      (k j : K) (m : Map K V) → lookup j (delete k m) ≡ (if k == j then none else lookup j m)
  unfolding lookup delete
  lookup-delete k j m = find-without k j m.entries

  pub empty-IsMap : IsMap empty
  unfolding empty
  empty-IsMap = record { distinct = tt }

  pub insert-IsMap : (k : K) (v : V) {m : Map K V} → IsMap m → IsMap (insert k v m)
  unfolding insert
  insert-IsMap k v {m} h = record { distinct = Distinct-put k v m.entries h.distinct }

  pub delete-IsMap : (k : K) {m : Map K V} → IsMap m → IsMap (delete k m)
  unfolding delete
  delete-IsMap k {m} h = record { distinct = Distinct-without k m.entries h.distinct }

  pub lookup-insert_self : (k : K) (v : V) (m : Map K V) → lookup k (insert k v m) ≡ some v
  lookup-insert_self k v m = ground (arith, lookup-insert k k v m, e.beq_iff k k)

  pub lookup-insert_ne :
      (k j : K) (v : V) (m : Map K V) → k ≢ j → lookup j (insert k v m) ≡ lookup j m
  lookup-insert_ne k j v m h = ground (arith, lookup-insert k j v m, e.beq_iff k j)

  pub lookup-insert_keeps {μ} :
      (P : V → Type μ) (k : K) (v : V) (m : Map K V)
      → ((j : K) (w : V) → lookup j m ≡ some w → P w)
      → P v
      → (j : K) (w : V) → lookup j (insert k v m) ≡ some w
      → P w
  lookup-insert_keeps P k v m all pv j w h = elim (Bool-cases (k == j)) [
    | inl same ↦ subst P {x = v} (cc (h, rw same at (lookup-insert k j v m))) pv
    | inr other ↦ all j w (cc (h, rw other at (lookup-insert k j v m)))
  ]
