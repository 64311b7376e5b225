-- ===== src/Router/Nearest.antt =====
-- Resolve looks at the first point clockwise from the group's hash: the point of the ring at the
-- least distance in the direction of growing hashes, around the end of the uint32 range.
mod Points
pub use Points.{Member, All-Member, All-weaken, IsSorted, sort-IsSorted, Member-sort, All-sort}
use native.Mathlib.Decide.{dec_lt}
use time_series_cardinality.Base.{
  ℕ, zero, suc, ◌+◌, ◌-◌, ◌%◌, ◌^◌, ◌≤◌, ◌<◌, ◌≡◌, ◌≢◌, refl, ◌⊎◌, inl, inr, Bool, true, false,
  List, [], ◌∷◌, arith, length, get_or, leb, nat_eqb, All, Bool-cases, leb→le, le→leb, Bytes, some,
  nat_eq,
}
use time_series_cardinality.External.{Murmur}
use time_series_cardinality.Map.{lookup}
use time_series_cardinality.Router.{Ring, new, search, node_at, resolve_index, resolve}
use time_series_cardinality.Router.Search.{search_lem}
use Points.{All-index, All-at, sorted_at, get_or-Member}

abbrev pub IsUint32 : ℕ → Type 0
IsUint32 h = h < 2 ^ 32

-- How far q lies clockwise from h.
abbrev pub dist : ℕ → ℕ → ℕ
dist h q = (q + 2 ^ 32 - h) % 2 ^ 32

pub record IsNearest (h : ℕ) (points : List ℕ) (p : ℕ) : Type 0 where
  pub member : Member p points
  pub least : All (λ q. dist h p ≤ dist h q) points

-- The nearest point is unique.
pub IsNearest-unique :
    (h : ℕ) (points : List ℕ) (p q : ℕ)
    → IsUint32 h
    → All IsUint32 points
    → IsNearest h points p
    → IsNearest h points q
    → p ≡ q
IsNearest-unique h points p q hh all a b = omega (
  arith,
  All-Member _ points a.least b.member,
  All-Member _ points b.least a.member,
  All-Member IsUint32 points all a.member,
  All-Member IsUint32 points all b.member,
)

module _ (h : ℕ) (ring : List ℕ) (hh : IsUint32 h) (sorted : IsSorted ring)
    (small : All IsUint32 ring) where
  at : ℕ → ℕ
  at i = get_or ring i 0

  reached : ℕ → Bool
  reached i = leb h (get_or ring i 0)

  reached_mono : (a b : ℕ) → a ≤ b → b < length ring → reached a ≡ true → reached b ≡ true
  unfolding reached
  reached_mono a b le lt e =
      le→leb h (get_or ring b 0)
        (omega (arith, leb→le h (get_or ring a 0) e, sorted_at ring a b sorted le lt))

  found : ℕ
  found = search (length ring) 0 (length ring) reached

  -- No point is at or past the hash: the first one of the ring is the nearest.
  wraps : found ≡ length ring → 0 < length ring → IsNearest h ring (at 0)
  unfolding at found reached
  wraps e some_point =
      let n = length ring in
      let (lo, hi, below, above) =
        search_lem n 0 n n reached reached_mono (omega arith) (omega arith) (omega arith) in
      record {
        member = get_or-Member ring 0 some_point;
        least = All-index _ ring λ k lt. omega (
          arith,
          sorted_at ring 0 k sorted (omega arith) lt,
          All-at IsUint32 ring k small lt,
          All-at IsUint32 ring 0 small some_point,
          past k (below k (omega arith) (omega arith)),
          past 0 (below 0 (omega arith) (omega arith)),
        );
      }
    where
      past : (k : ℕ) → reached k ≡ false → get_or ring k 0 < h
      past k e = ground arith

  -- Otherwise it is the first point at or past the hash.
  stops : found < length ring → IsNearest h ring (at found)
  unfolding at found reached
  stops lt =
      let n = length ring in
      let (lo, hi, below, above) =
        search_lem n 0 n n reached reached_mono (omega arith) (omega arith) (omega arith) in
      let here = leb→le h (get_or ring found 0) (above found (omega arith) lt) in
      record {
        member = get_or-Member ring found lt;
        least = All-index _ ring λ k inside. elim (dec_lt k found) [
          | yes before ↦ omega (
            arith,
            All-at IsUint32 ring k small inside,
            All-at IsUint32 ring found small lt,
            past k (below k (omega arith) before),
            here,
          )
          | no after ↦ omega (
            arith,
            sorted_at ring found k sorted (omega arith) inside,
            All-at IsUint32 ring k small inside,
            All-at IsUint32 ring found small lt,
            here,
          )
        ];
      }
    where
      past : (k : ℕ) → reached k ≡ false → get_or ring k 0 < h
      past k e = ground arith

  found_le : found ≤ length ring
  unfolding found
  found_le =
      let n = length ring in
      let (lo, hi, below, above) =
        search_lem n 0 n n reached reached_mono (omega arith) (omega arith) (omega arith) in
      hi

  resolve_index-IsNearest :
      0 < length ring → IsNearest h ring (get_or ring (resolve_index h ring) 0)
  unfolding resolve_index at found reached
  resolve_index-IsNearest some_point = elim (Bool-cases (nat_eqb found (length ring))) [
    | inl past ↦ rw (past, resolve_index) (wraps (ground arith) some_point)
    | inr inside ↦ rw (inside, resolve_index) (stops (let le = found_le in ground arith))
  ]

-- What AddNode keeps of a ring: the points are uint32s in order, and each has a node.
pub record IsRing (r : Ring) : Type 0 where
  pub sorted : IsSorted r.ring
  pub small : All IsUint32 r.ring
  pub mapped : All (λ p. (addr : Bytes) × (lookup p r.node_map ≡ some addr)) r.ring

pub new-IsRing : IsRing new
unfolding new
new-IsRing = record { sorted = tt; small = tt; mapped = tt }

-- On a well-formed ring with points, a group belongs to the node of the point nearest clockwise from its hash.
pub resolve_lem :
    (m : Murmur) (group : Bytes) (r : Ring)
    → IsRing r
    → 0 < length r.ring
    → (p : ℕ) × IsNearest (m.sum32 group) r.ring p × (resolve m group r ≡ node_at p r.node_map)
unfolding resolve
resolve_lem m group r h some_point =
    let some_points : nat_eqb (length r.ring) 0 ≡ false = ground arith in
    (
      get_or r.ring (resolve_index (m.sum32 group) r.ring) 0,
      resolve_index-IsNearest (m.sum32 group) r.ring (m.sum32_fits group) h.sorted h.small
          some_point,
      rw (some_points, resolve),
    )

-- On an empty ring every group belongs to "".
pub resolve_empty :
    (m : Murmur) (group : Bytes) (r : Ring) → length r.ring ≡ 0 → resolve m group r ≡ []
unfolding resolve
resolve_empty m group r e = ground arith
