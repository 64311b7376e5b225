-- ===== src/Router.antt =====
-- internal/router/router.go: the consistent hash ring. Every method holds the ring's lock from its
-- first line to its last, so a method is one step on the ring.
pub mod Search
pub mod Nearest
pub mod Joining
pub mod Leaving
pub mod Dangling
use time_series_cardinality.Base.{
  ℕ, zero, suc, ◌+◌, ◌/◌, ◌%◌, Option, none, some, List, [], ◌∷◌, ◌++◌, Bytes, nat_eq, bytes_eq,
  ◌==◌, lit, Bool, true, false, not, ltb, leb, nat_eqb, if◌then◌else◌, length, get_or,
}
use time_series_cardinality.Map
use time_series_cardinality.Map.{Map, lookup, insert, delete}
use time_series_cardinality.External.{Murmur}

abbrev pub vnodes_per_node : ℕ
vnodes_per_node = 150

pub record Ring : Type 0 where
  pub ring : List ℕ
  pub node_map : Map ℕ Bytes

unfoldable pub new : Ring
new = record { ring = []; node_map = Map.empty }

-- The decimal digits that %d prints, with a number of rounds.
decimal_digits : ℕ → ℕ → Bytes
decimal_digits zero n = []
decimal_digits (suc k) n =
    let front = decimal_digits k (n / 10) in
    if ltb n 10 then (48 + n) ∷ [] else front ++ (48 + n % 10) ∷ []

-- fmt.Sprintf("%s#%d", addr, i); vnode numbers have three digits at most
unfoldable pub vnode_name : Bytes → ℕ → Bytes
unfolding decimal_digits
vnode_name addr i = addr ++ (b'#' ∷ decimal_digits 3 i)

-- sort.Slice by <; equal points are the same number, so every sort gives this list.
unfoldable pub insert_point : ℕ → List ℕ → List ℕ
insert_point x [] = x ∷ []
insert_point x (y ∷ ys) = if leb x y then x ∷ y ∷ ys else y ∷ insert_point x ys

unfoldable pub sort : List ℕ → List ℕ
unfolding insert_point
sort [] = []
sort (x ∷ xs) = insert_point x (sort xs)

-- sort.Search(n, f): the interval [i, j) is halved until it is empty. The fuel is the rounds left.
unfoldable pub search : ℕ → ℕ → ℕ → (ℕ → Bool) → ℕ
search zero i j f = i
search (suc fuel) i j f =
    let mid = (i + j) / 2 in
    elim (ltb i j) [
      | false ↦ i
      | true ↦ elim (f mid) [ true ↦ search fuel i mid f | false ↦ search fuel (mid + 1) j f ]
    ]

-- r.nodeMap[h], which is "" where there is none
unfoldable pub node_at : ℕ → Map ℕ Bytes → Bytes
node_at h m = elim (lookup h m) [ none ↦ [] | some addr ↦ addr ]

-- The loop of RemoveNode over the points of the ring.
unfoldable pub remove_loop : Bytes → List ℕ → Map ℕ Bytes → List ℕ × Map ℕ Bytes
unfolding node_at
remove_loop addr [] m = ([], m)
remove_loop addr (h ∷ hs) m =
    if not (node_at h m == addr)
    then (let (keep, m') = remove_loop addr hs m in (h ∷ keep, m'))
    else remove_loop addr hs (delete h m)

unfoldable pub remove_node : Bytes → Ring → Ring
unfolding remove_loop
remove_node addr r =
    let (keep, m) = remove_loop addr r.ring r.node_map in record { ring = keep; node_map = m }

-- The index that Resolve looks at.
unfoldable pub resolve_index : ℕ → List ℕ → ℕ
unfolding search
resolve_index h ring =
    let n = length ring in
    let idx = search n 0 n (λ i. leb h (get_or ring i 0)) in if nat_eqb idx n then 0 else idx

module _ (m : Murmur) where
  -- The loop of AddNode: `left` virtual nodes from number i on.
  unfoldable pub add_vnodes : ℕ → ℕ → Bytes → Ring → Ring
  unfolding vnode_name
  add_vnodes zero i addr r = r
  add_vnodes (suc left) i addr r =
      let h = m.sum32 (vnode_name addr i) in
      add_vnodes left (i + 1) addr
        (record { ring = r.ring ++ h ∷ []; node_map = insert h addr r.node_map })

  unfoldable pub add_node : Bytes → Ring → Ring
  unfolding add_vnodes sort
  add_node addr r =
      let r' = add_vnodes vnodes_per_node 0 addr r in record r' { ring = sort r'.ring }

  unfoldable pub resolve : Bytes → Ring → Bytes
  unfolding resolve_index node_at
  resolve group r =
      if nat_eqb (length r.ring) 0
      then []
      else node_at (get_or r.ring (resolve_index (m.sum32 group) r.ring) 0) r.node_map
