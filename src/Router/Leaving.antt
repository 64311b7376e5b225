-- ===== src/Router/Leaving.antt =====
-- RemoveNode: groups of the other nodes stay where they are, if no point stands twice on the ring;
-- a point that stands twice is left on the ring without a node.
use native.Mathlib.Decide.{dec_lt}
use time_series_cardinality.Base.{
  ℕ, ◌≡◌, ◌≢◌, refl, ◌⊎◌, inl, inr, ◌∙◌, sym, ap, List, [], ◌∷◌, arith, length, All, Bool-cases,
  subst, Bytes, nat_eq, bytes_eq, ◌==◌, nat_eqb_iff, bytes_eqb_iff,
}
use time_series_cardinality.Map.{Map, lookup, delete, lookup-delete}
use time_series_cardinality.External.{Murmur}
use time_series_cardinality.Router.{Ring, node_at, remove_loop, remove_node, resolve}
use time_series_cardinality.Router.Nearest.{
  Member, All-Member, IsSorted, IsUint32, IsNearest-unique, IsRing, resolve_lem, resolve_empty,
}
use time_series_cardinality.Router.Joining.{All-of-Member, nonempty, node_at-lookup}

-- Each point stands once.
abbrev pub Unrepeated : List ℕ → Type 0
Unrepeated [] = Unit
Unrepeated (x ∷ xs) = (Member x xs → ⊥) × Unrepeated xs

pub node_at-delete : (h p : ℕ) (m : Map ℕ Bytes) → h ≢ p → lookup p (delete h m) ≡ lookup p m
node_at-delete h p m n = ground (arith, lookup-delete h p m, nat_eqb_iff h p)

module _ (addr : Bytes) where
  unfoldable pub keep : List ℕ → Map ℕ Bytes → List ℕ
  keep l m = (remove_loop addr l m).0

  unfoldable pub rest : List ℕ → Map ℕ Bytes → Map ℕ Bytes
  rest l m = (remove_loop addr l m).1

  Owned : ℕ → Map ℕ Bytes → Type 0
  Owned p m = node_at p m ≡ addr

  pub keep-other :
      (h : ℕ) (hs : List ℕ) (m : Map ℕ Bytes)
      → node_at h m ≢ addr
      → (keep (h ∷ hs) m ≡ h ∷ keep hs m) × (rest (h ∷ hs) m ≡ rest hs m)
  unfolding keep rest remove_loop
  keep-other h hs m n = (
    ground (arith, bytes_eqb_iff (node_at h m) addr),
    ground (arith, bytes_eqb_iff (node_at h m) addr),
  )

  pub keep_owned :
      (h : ℕ) (hs : List ℕ) (m : Map ℕ Bytes)
      → node_at h m ≡ addr
      → (keep (h ∷ hs) m ≡ keep hs (delete h m)) × (rest (h ∷ hs) m ≡ rest hs (delete h m))
  unfolding keep rest remove_loop
  keep_owned h hs m e = (
    ground (arith, bytes_eqb_iff (node_at h m) addr),
    ground (arith, bytes_eqb_iff (node_at h m) addr),
  )

  pub owned? : (h : ℕ) (m : Map ℕ Bytes) → (node_at h m ≡ addr) ⊎ (node_at h m ≢ addr)
  owned? h m = elim (Bool-cases (node_at h m == addr)) [
    | inl e ↦ inl ((bytes_eqb_iff _ _).0 e)
    | inr n ↦ inr (λ e. cc (n, (bytes_eqb_iff _ _).1 e))
  ]

  -- Every point that stays was on the ring and belongs to another node; on a ring that repeats no
  -- point each such point stays.
  keep-Member :
      (l : List ℕ) (m : Map ℕ Bytes) (p : ℕ)
      → Unrepeated l
      → (Member p (keep l m) → Member p l × (node_at p m ≢ addr))
        × (Member p l → node_at p m ≢ addr → Member p (keep l m))
  keep-Member [] m p u = unfold keep remove_loop in (λ k. absurd k, λ k n. k)
  keep-Member (h ∷ hs) m p u = elim (owned? h m) [
    | inr other ↦
        let ih = keep-Member hs m p u.1 in
        rw (keep-other h hs m other).0 (
          λ k. elim k [
            | inl e ↦ (inl e, λ q. other (ap (λ x. node_at x m) (sym e) ∙ q))
            | inr k' ↦ let (a, b) = ih.0 k' in (inr a, b)
          ],
          λ k n. elim k [ inl e ↦ inl e | inr k' ↦ inr (ih.1 k' n) ],
        )
    | inl owned ↦
        let ih = keep-Member hs (delete h m) p u.1 in
        let apart : Member p hs → h ≢ p = λ k e. u.0 (subst (λ x. Member x hs) (sym e) k) in
        let same : h ≢ p → node_at p (delete h m) ≡ node_at p m =
          λ n. node_at-lookup p _ _ (node_at-delete h p m n) in
        rw (keep_owned h hs m owned).0 (
          λ k. let (a, b) = ih.0 k in (inr a, λ q. b (same (apart a) ∙ q)),
          λ k n. elim k [
            | inl e ↦ absurd (n (ap (λ x. node_at x m) e ∙ owned))
            | inr k' ↦ ih.1 k' (λ q. n (sym (same (apart k')) ∙ q))
          ],
        )
  ]

  -- The node of a point of another node is as it was.
  pub rest-lookup :
      (l : List ℕ) (m : Map ℕ Bytes) (p : ℕ) → node_at p m ≢ addr → lookup p (rest l m) ≡ lookup p m
  rest-lookup [] m p n = unfold rest remove_loop in refl
  rest-lookup (h ∷ hs) m p n = elim (owned? h m) [
    | inr other ↦ rw (keep-other h hs m other).1 (rest-lookup hs m p n)
    | inl owned ↦
        let apart : h ≢ p = λ e. n (ap (λ x. node_at x m) (sym e) ∙ owned) in
        let same = node_at-delete h p m apart in
        rw (keep_owned h hs m owned).1
          (rest-lookup hs (delete h m) p (λ q. n (sym (node_at-lookup p _ _ same) ∙ q)) ∙ same)
  ]

  All-keep : (P : ℕ → Type 0) (l : List ℕ) (m : Map ℕ Bytes) → All P l → All P (keep l m)
  All-keep P [] m a = unfold keep remove_loop in tt
  All-keep P (h ∷ hs) m a = elim (owned? h m) [
    | inr other ↦ rw (keep-other h hs m other).0 (a.0, All-keep P hs m a.1)
    | inl owned ↦ rw (keep_owned h hs m owned).0 (All-keep P hs (delete h m) a.1)
  ]

  keep-IsSorted : (l : List ℕ) (m : Map ℕ Bytes) → IsSorted l → IsSorted (keep l m)
  keep-IsSorted [] m s = unfold keep remove_loop in tt
  keep-IsSorted (h ∷ hs) m s = elim (owned? h m) [
    | inr other ↦ rw (keep-other h hs m other).0 (All-keep _ hs m s.0, keep-IsSorted hs m s.1)
    | inl owned ↦ rw (keep_owned h hs m owned).0 (keep-IsSorted hs (delete h m) s.1)
  ]

  module _ (r : Ring) (ring : IsRing r) (unrepeated : Unrepeated r.ring) where
    stays :
        (p : ℕ)
        → Member p (remove_node addr r).ring
        → Member p r.ring
          × (node_at p r.node_map ≢ addr)
          × (lookup p (remove_node addr r).node_map ≡ lookup p r.node_map)
    unfolding remove_node keep rest
    stays p k =
        let (mem, other) = (keep-Member r.ring r.node_map p unrepeated).0 k in
        (mem, other, rest-lookup r.ring r.node_map p other)

    pub remove_node-IsRing : IsRing (remove_node addr r)
    unfolding remove_node keep rest
    remove_node-IsRing = record {
      sorted = keep-IsSorted r.ring r.node_map ring.sorted;
      small = All-keep IsUint32 r.ring r.node_map ring.small;
      mapped = All-of-Member _ _ λ p k.
          let (mem, other, same) = stays p k in
          let (a, e) = All-Member _ r.ring ring.mapped mem in (a, same ∙ e);
    }

    -- On a well-formed ring where no point stands twice, a group that does not belong to the node
    -- that leaves stays with its own.
    pub resolve-remove_node :
        (m : Murmur) (group : Bytes)
        → resolve m group r ≢ addr
        → resolve m group (remove_node addr r) ≡ resolve m group r
    resolve-remove_node m group other = elim (dec_lt 0 (length r.ring)) [
      | no no_point ↦
          resolve_empty m group (remove_node addr r) (emptied (omega arith))
          ∙ sym (resolve_empty m group r (omega arith))
      | yes some_point ↦
          let h = m.sum32 group in
          let (q, near, e) = resolve_lem m group r ring some_point in
          let not_owned : node_at q r.node_map ≢ addr = λ d. other (e ∙ d) in
          let left = survives q near.member not_owned in
          let (p, near', e') = resolve_lem m group _ remove_node-IsRing (nonempty q _ left) in
          let same =
            IsNearest-unique h _ p q (m.sum32_fits group) remove_node-IsRing.small near' (record {
              member = left;
              least = All-of-Member _ _ λ k mem. All-Member _ r.ring near.least (stays k mem).0;
            }) in
          e'
          ∙ node_at-lookup p _ _ (stays p near'.member).2
          ∙ ap (λ t. node_at t r.node_map) same
          ∙ sym e
    ]
      where
        survives :
            (q : ℕ)
            → Member q r.ring
            → node_at q r.node_map ≢ addr
            → Member q (remove_node addr r).ring
        survives q mem n =
            unfold remove_node keep in (keep-Member r.ring r.node_map q unrepeated).1 mem n

        emptied : length r.ring ≡ 0 → length (remove_node addr r).ring ≡ 0
        emptied z = elim (dec_lt 0 (length (remove_node addr r).ring)) [
          | no none_left ↦ omega arith
          | yes some_left ↦
              let (p, near, e) = resolve_lem m group _ remove_node-IsRing some_left in
              absurd (omega (arith, nonempty p r.ring (stays p near.member).0))
        ]

    -- On a well-formed ring where no point stands twice, a named node owns no group after it left.
    pub resolve-ne-removed :
        (m : Murmur) (group : Bytes) → addr ≢ [] → resolve m group (remove_node addr r) ≢ addr
    resolve-ne-removed m group named q = elim (dec_lt 0 (length (remove_node addr r).ring)) [
      | no none_left ↦ named (sym q ∙ resolve_empty m group (remove_node addr r) (omega arith))
      | yes some_left ↦
          let (p, near, e) = resolve_lem m group _ remove_node-IsRing some_left in
          let (mem, other, same) = stays p near.member in
          other (sym (node_at-lookup p _ _ same) ∙ sym e ∙ q)
    ]
