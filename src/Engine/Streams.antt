-- ===== src/Engine/Streams.antt =====
-- The engine as an abstract object: each group is the stream of the ids that were added to it.
use mathlib.Core.List.{foldl, Perm, Permᴰ}
use mathlib.Core.List.Permᴰ
use mathlib.Core.Logic.{∥∥₁_elim}
use time_series_cardinality.Base.{
  ℕ, ◌≡◌, refl, ◌∙◌, sym, ap, Option, none, some, List, [], ◌∷◌, Bytes, bytes_eq, ◌==◌,
  if◌then◌else◌, arith, Bool-cases, inl, inr,
}
use time_series_cardinality.Map.{lookup, lookup-insert, lookup-empty}
use time_series_cardinality.Errors.{unknown_group, Result, ok, err}
use time_series_cardinality.Sketch.{SketchOps, Algorithm, IsLawful}
use time_series_cardinality.Engine.{Engine, new_engine, sketch_of, added, cardinality}

-- The ids that a sequence of adds sends to one group, in order.
pub stream : Bytes → List (Bytes × ℕ) → List ℕ
stream g [] = []
stream g ((j, id) ∷ rest) = if j == g then id ∷ stream g rest else stream g rest

stream-perm_cons :
    (g : Bytes) (c : Bytes × ℕ) (xs ys : List (Bytes × ℕ))
    → Permᴰ (stream g xs) (stream g ys)
    → Permᴰ (stream g (c ∷ xs)) (stream g (c ∷ ys))
unfolding stream
stream-perm_cons g c xs ys p = elim (Bool-cases (c.0 == g)) [
  | inl same ↦ rw same (Permᴰ.cons refl p)
  | inr other ↦ rw other p
]

stream-perm_swap :
    (g : Bytes) (c d : Bytes × ℕ) (l : List (Bytes × ℕ))
    → Permᴰ (stream g (c ∷ d ∷ l)) (stream g (d ∷ c ∷ l))
unfolding stream
stream-perm_swap g c d l = elim (Bool-cases (c.0 == g)) [
  | inl same ↦ elim (Bool-cases (d.0 == g)) [
    | inl same' ↦ rw (same, same') (Permᴰ.swap refl refl)
    | inr other' ↦ rw (same, other') (Permᴰ.refl _)
  ]
  | inr other ↦ elim (Bool-cases (d.0 == g)) [
    | inl same' ↦ rw (other, same') (Permᴰ.refl _)
    | inr other' ↦ rw (other, other') (Permᴰ.refl _)
  ]
]

stream-perm :
    (g : Bytes) {xs ys : List (Bytes × ℕ)} → Permᴰ xs ys → Permᴰ (stream g xs) (stream g ys)
unfolding stream
stream-perm g Permᴰ.nil = Permᴰ.nil
stream-perm g (Permᴰ.cons {a} {b} {l₁} {l₂} e p) =
    rw e (stream-perm_cons g b l₁ l₂ (stream-perm g p))
stream-perm g (Permᴰ.swap {a} {b} {a'} {b'} {l} e f) = rw (e, f) (stream-perm_swap g b' a' l)
stream-perm g (Permᴰ.trans {l₁} {l₂} {l₃} p q) = Permᴰ.trans (stream-perm g p) (stream-perm g q)

Result-set : IsSet (Result ℕ)
Result-set = hlevel

module _ (o : SketchOps) (alg : Algorithm o) where
  open o use {Sketch, add as sketch_add, cardinality as sketch_cardinality}

  -- A sequence of calls of Add, in the order in which they take the lock.
  unfoldable pub adds : Engine o alg → List (Bytes × ℕ) → Engine o alg
  adds = foldl λ e (call : Bytes × ℕ). added o alg call.0 call.1 e

  -- A group is absent until its first id.
  unfoldable pub feed : Option Sketch → List ℕ → Option Sketch
  feed s [] = s
  feed none (id ∷ ids) = feed (some (sketch_add alg.new id)) ids
  feed (some s) (id ∷ ids) = feed (some (sketch_add s id)) ids

  -- What Cardinality answers for a group that has received a stream of ids.
  pub answer : Bytes → List ℕ → Result ℕ
  answer g [] = err (unknown_group g)
  answer g (id ∷ ids) = ok (sketch_cardinality (foldl sketch_add alg.new (id ∷ ids)))

  pub lookup-added :
      (g j : Bytes) (id : ℕ) (e : Engine o alg)
      → lookup j (added o alg g id e).groups
        ≡ (if g == j then feed (lookup j e.groups) (id ∷ []) else lookup j e.groups)
  unfolding added feed sketch_of
  lookup-added g j id e = ground (
    arith,
    lookup-insert g j (sketch_add (sketch_of o alg g e) id) e.groups,
    bytes_eq.beq_iff g j,
  )

  pub feed-cons :
      (s : Option Sketch) (id : ℕ) (ids : List ℕ) → feed s (id ∷ ids) ≡ feed (feed s (id ∷ [])) ids
  unfolding feed
  feed-cons none id ids = refl
  feed-cons (some s) id ids = refl

  pub feed-some : (s : Sketch) (ids : List ℕ) → feed (some s) ids ≡ some (foldl sketch_add s ids)
  unfolding feed
  feed-some s [] = refl
  feed-some s (id ∷ ids) = feed-some (sketch_add s id) ids

  read : Bytes → Option Sketch → Result ℕ
  read g none = err (unknown_group g)
  read g (some sk) = ok (sketch_cardinality sk)

  read-feed : (g : Bytes) (ids : List ℕ) → read g (feed none ids) ≡ answer g ids
  unfolding read answer feed
  read-feed g [] = refl
  read-feed g (id ∷ ids) = ap (read g) (feed-some (sketch_add alg.new id) ids)

  cardinality-read :
      (g : Bytes) (e : Engine o alg) → cardinality o alg g e ≡ read g (lookup g e.groups)
  unfolding cardinality read
  cardinality-read g e = ground arith

  pub fresh_lookup : (g : Bytes) → lookup g (new_engine o alg).groups ≡ none
  unfolding new_engine
  fresh_lookup g = lookup-empty g

  pub lookup-adds :
      (calls : List (Bytes × ℕ)) (e : Engine o alg) (g : Bytes)
      → lookup g (adds e calls).groups ≡ feed (lookup g e.groups) (stream g calls)
  unfolding adds stream
  lookup-adds [] e g = unfold feed in refl
  lookup-adds ((j, id) ∷ calls) e g =
      lookup-adds calls (added o alg j id e) g
      ∙ ground (arith, lookup-added j g id e, feed-cons (lookup g e.groups) id (stream g calls))

  -- What the engine answers is a function of the group's stream alone: an id that was added
  -- anywhere reaches its own group, in order, and no other.
  pub cardinality-adds :
      (calls : List (Bytes × ℕ)) (g : Bytes)
      → cardinality o alg g (adds (new_engine o alg) calls) ≡ answer g (stream g calls)
  cardinality-adds calls g =
      cardinality-read g (adds (new_engine o alg) calls)
      ∙ ap (read g) (
          lookup-adds calls (new_engine o alg) g
          ∙ ap (λ s. feed s (stream g calls)) (fresh_lookup g))
      ∙ read-feed g (stream g calls)

module _ {o : SketchOps} {alg : Algorithm o} (law : IsLawful o alg) where
  open o use {Sketch, add as sketch_add, cardinality as sketch_cardinality}
  open law use {
    Made, Same, same_refl, same_trans, same_add, same_cardinality, made_add, made_new, add_swap,
  }

  foldl-Same :
      (ids : List ℕ) {s t : Sketch}
      → Same s t
      → Same (foldl sketch_add s ids) (foldl sketch_add t ids)
  foldl-Same [] h = h
  foldl-Same (id ∷ ids) {s} {t} h = foldl-Same ids (same_add id h)

  pub foldl-Made : (ids : List ℕ) {s : Sketch} → Made s → Made (foldl sketch_add s ids)
  foldl-Made [] h = h
  foldl-Made (id ∷ ids) {s} h = foldl-Made ids (made_add id h)

  foldl-perm :
      {xs ys : List ℕ}
      → Permᴰ xs ys
      → (s : Sketch) → Made s
      → Same (foldl sketch_add s xs) (foldl sketch_add s ys)
  foldl-perm Permᴰ.nil s h = same_refl s
  foldl-perm (Permᴰ.cons {a} {b} {l₁} {l₂} e p) s h =
      rw e (foldl-perm p (sketch_add s b) (made_add b h))
  foldl-perm (Permᴰ.swap {a} {b} {a'} {b'} {l} e f) s h =
      rw (e, f) (foldl-Same l (add_swap s b' a' h))
  foldl-perm (Permᴰ.trans {l₁} {l₂} {l₃} p q) s h = same_trans (foldl-perm p s h) (foldl-perm q s h)

  answer-perm : (g : Bytes) {xs ys : List ℕ} → Permᴰ xs ys → answer o alg g xs ≡ answer o alg g ys
  unfolding answer
  answer-perm g Permᴰ.nil = refl
  answer-perm g (Permᴰ.cons {a} {b} {l₁} {l₂} e p) =
      ap ok (same_cardinality (foldl-perm (Permᴰ.cons e p) alg.new made_new))
  answer-perm g (Permᴰ.swap {a} {b} {a'} {b'} {l} e f) =
      ap ok (same_cardinality (foldl-perm (Permᴰ.swap {l = l} e f) alg.new made_new))
  answer-perm g (Permᴰ.trans {l₁} {l₂} {l₃} p q) = answer-perm g p ∙ answer-perm g q

  -- Calls of Add that arrive in another order leave every group with the same count.
  pub cardinality-perm :
      (calls calls' : List (Bytes × ℕ)) (g : Bytes)
      → Perm calls calls'
      → cardinality o alg g (adds o alg (new_engine o alg) calls)
        ≡ cardinality o alg g (adds o alg (new_engine o alg) calls')
  cardinality-perm calls calls' g h = ∥∥₁_elim h (Result-set _ _) λ p.
      cardinality-adds o alg calls g
      ∙ answer-perm g (stream-perm g p)
      ∙ sym (cardinality-adds o alg calls' g)
