-- ===== src/Router/Joining.antt =====
-- AddNode moves groups to the new node, and no group from one old node to another.
use time_series_cardinality.Base.{
  ℕ, zero, suc, ◌+◌, ◌<◌, ◌≡◌, refl, ◌⊎◌, inl, inr, ◌∙◌, sym, ap, List, [], ◌∷◌, ◌++◌, arith,
  length, All, All-append, Bool-cases, Bytes, Option, some, nat_eq, ◌==◌, append_assoc, append-nil,
  nat_eqb_iff,
}
use time_series_cardinality.Map.{Map, lookup, insert, lookup-insert}
use time_series_cardinality.External.{Murmur}
use time_series_cardinality.Router.{
  Ring, vnode_name, vnodes_per_node, sort, node_at, add_vnodes, add_node, resolve,
}
use time_series_cardinality.Router.Nearest.{
  Member, All-Member, sort-IsSorted, Member-sort, All-sort, IsUint32, IsNearest, IsNearest-unique,
  IsRing, resolve_lem,
}

Member-append : (p : ℕ) (xs ys : List ℕ) → Member p (xs ++ ys) → Member p xs ⊎ Member p ys
Member-append p [] ys m = inr m
Member-append p (x ∷ xs) ys (inl e) = inl (inl e)
Member-append p (x ∷ xs) ys (inr m) = elim (Member-append p xs ys m) [
  | inl k ↦ inl (inr k)
  | inr k ↦ inr k
]

Member-back : (p : ℕ) (xs ys : List ℕ) → Member p ys → Member p (xs ++ ys)
Member-back p [] ys k = k
Member-back p (x ∷ xs) ys k = inr (Member-back p xs ys k)

All-front : (P : ℕ → Type 0) (xs ys : List ℕ) → All P (xs ++ ys) → All P xs
All-front P [] ys h = tt
All-front P (x ∷ xs) ys h = (h.0, All-front P xs ys h.1)

pub nonempty : (p : ℕ) (l : List ℕ) → Member p l → 0 < length l
unfolding length
nonempty p [] m = absurd m
nonempty p (x ∷ xs) m = omega arith

pub All-of-Member : (P : ℕ → Type 0) (l : List ℕ) → ((p : ℕ) → Member p l → P p) → All P l
All-of-Member P [] f = tt
All-of-Member P (x ∷ xs) f = (f x (inl refl), All-of-Member P xs (λ p k. f p (inr k)))

All-unsort : (P : ℕ → Type 0) (l : List ℕ) → All P (sort l) → All P l
All-unsort P l h = All-of-Member P l (λ p k. All-Member P (sort l) h ((Member-sort p l).1 k))

pub node_at_known : (p : ℕ) (n : Map ℕ Bytes) {a : Bytes} → lookup p n ≡ some a → node_at p n ≡ a
unfolding node_at
node_at_known p n e = ground arith

pub node_at-lookup :
    (p : ℕ) (n n' : Map ℕ Bytes) → lookup p n ≡ lookup p n' → node_at p n ≡ node_at p n'
unfolding node_at
node_at-lookup p n n' e = ground arith

module _ (m : Murmur) (addr : Bytes) where
  -- The hash points of the virtual nodes from number i on.
  pub vnode_points : ℕ → ℕ → List ℕ
  vnode_points zero i = []
  vnode_points (suc left) i = m.sum32 (vnode_name addr i) ∷ vnode_points left (i + 1)

  vnode_points-small : (left i : ℕ) → All IsUint32 (vnode_points left i)
  unfolding vnode_points
  vnode_points-small zero i = tt
  vnode_points-small (suc left) i = (m.sum32_fits _, vnode_points-small left (i + 1))

  ring-add_vnodes :
      (left i : ℕ) (r : Ring) → (add_vnodes m left i addr r).ring ≡ r.ring ++ vnode_points left i
  unfolding add_vnodes vnode_points
  ring-add_vnodes zero i r = sym (append-nil r.ring)
  ring-add_vnodes (suc left) i r =
      ring-add_vnodes left (i + 1) _
      ∙ append_assoc r.ring (m.sum32 (vnode_name addr i) ∷ []) (vnode_points left (i + 1))

  -- A point is one of the new node's and maps to it, or it maps to what it did.
  abbrev pub Mapped : List ℕ → ℕ → Option Bytes → Option Bytes → Type 0
  Mapped points p old now =
      (Member p points × (now ≡ some addr)) ⊎ ((Member p points → ⊥) × (now ≡ old))

  Mapped-cons :
      (h p : ℕ) (points : List ℕ) (r : Ring) (now : Option Bytes)
      → Mapped points p (lookup p (insert h addr r.node_map)) now
      → Mapped (h ∷ points) p (lookup p r.node_map) now
  Mapped-cons h p points r now (inl (mem, e)) = inl (inr mem, e)
  Mapped-cons h p points r now (inr (not, e)) = elim (Bool-cases (h == p)) [
    | inl same ↦
        inl
          (inl (sym ((nat_eqb_iff h p).0 same)), e ∙ rw same at (lookup-insert h p addr r.node_map))
    | inr other ↦ inr (
      λ mem. elim mem [ inl q ↦ cc (other, (nat_eqb_iff h p).1 (sym q)) | inr k ↦ not k ],
      e ∙ rw other at (lookup-insert h p addr r.node_map),
    )
  ]

  map-add_vnodes :
      (left i : ℕ) (r : Ring) (p : ℕ)
      → Mapped
          (vnode_points left i)
          p
          (lookup p r.node_map)
          (lookup p (add_vnodes m left i addr r).node_map)
  unfolding add_vnodes vnode_points
  map-add_vnodes zero i r p = inr (λ k. k, refl)
  map-add_vnodes (suc left) i r p =
      let h = m.sum32 (vnode_name addr i) in
      Mapped-cons h p (vnode_points left (i + 1)) r _ (
        map-add_vnodes left (i + 1)
          (record { ring = r.ring ++ h ∷ []; node_map = insert h addr r.node_map }) p)

  pub points : List ℕ
  points = vnode_points vnodes_per_node 0

  -- The point of virtual node 0.
  first : ℕ
  first = m.sum32 (vnode_name addr 0)

  first-Member : Member first points
  unfolding points vnode_points first
  first-Member = inl refl

  module _ (r : Ring) (ring : IsRing r) where
    ring-add_node : (add_node m addr r).ring ≡ sort (r.ring ++ points)
    unfolding add_node points
    ring-add_node = ap sort (ring-add_vnodes vnodes_per_node 0 r)

    pub map-add_node :
        (p : ℕ) → Mapped points p (lookup p r.node_map) (lookup p (add_node m addr r).node_map)
    unfolding add_node points
    map-add_node p = map-add_vnodes vnodes_per_node 0 r p

    is_mapped :
        (p : ℕ)
        → Member p (r.ring ++ points)
        → (a : Bytes) × (lookup p (add_node m addr r).node_map ≡ some a)
    is_mapped p mem = elim (map-add_node p) [
      | inl (new, e) ↦ (addr, e)
      | inr (old, e) ↦ elim (Member-append p r.ring points mem) [
        | inl k ↦ let (a, found) = All-Member _ r.ring ring.mapped k in (a, e ∙ found)
        | inr k ↦ absurd (old k)
      ]
    ]

    -- AddNode keeps a ring well formed: its points stay sorted uint32s, and each has a node.
    pub add_node-IsRing : IsRing (add_node m addr r)
    add_node-IsRing = record {
      sorted = rw ring-add_node (sort-IsSorted (r.ring ++ points));
      small = rw ring-add_node (
          All-sort IsUint32 (r.ring ++ points) (
            All-append IsUint32 r.ring points ring.small
              (unfold points in vnode_points-small vnodes_per_node 0)));
      mapped =
          rw ring-add_node
            (All-sort _ (r.ring ++ points) (All-of-Member _ (r.ring ++ points) is_mapped));
    }

    kept :
        (h p : ℕ)
        → IsUint32 h
        → IsNearest h (add_node m addr r).ring p
        → (Member p points → ⊥)
        → IsNearest h r.ring p
    kept h p hh near not = record {
      member =
          elim (Member-append p r.ring points
            ((Member-sort p _).0 (rw ring-add_node at near.member))) [
              | inl k ↦ k
              | inr k ↦ absurd (not k)
            ];
      least =
          All-front _ r.ring points
            (All-unsort _ (r.ring ++ points) (rw ring-add_node at near.least));
    }

    pub add_node_nonempty : 0 < length (add_node m addr r).ring
    add_node_nonempty =
        nonempty first _ (
          rw ring-add_node ((Member-sort first _).1 (Member-back first r.ring points first-Member)))

    -- After AddNode on a well-formed ring every group belongs to the new node, or to the node that
    -- it belonged to.
    pub resolve-add_node :
        (group : Bytes)
        → (resolve m group (add_node m addr r) ≡ addr)
          ⊎ (resolve m group (add_node m addr r) ≡ resolve m group r)
    resolve-add_node group =
        let h = m.sum32 group in
        let (p, near, e) =
          resolve_lem m group (add_node m addr r) add_node-IsRing add_node_nonempty in
        elim (map-add_node p) [
          | inl (new, now) ↦ inl (e ∙ node_at_known p _ now)
          | inr (old, now) ↦
              let k = kept h p (m.sum32_fits group) near old in
              let (q, near', e') = resolve_lem m group r ring (nonempty p r.ring k.member) in
              let same = IsNearest-unique h r.ring p q (m.sum32_fits group) ring.small k near' in
              inr (e ∙ node_at-lookup p _ _ now ∙ ap (λ t. node_at t r.node_map) same ∙ sym e')
        ]
