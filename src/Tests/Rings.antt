-- ===== src/Tests/Rings.antt =====
-- The theorems on internal/router/router.go, at a ring of two nodes.
use time_series_cardinality.Base.{
  ℕ, ◌≤◌, ◌<◌, ◌≡◌, ◌≢◌, refl, ap, ◌⊎◌, inl, inr, some, [], ◌∷◌, Bytes, lit, bytes_eq, nat_eq,
  arith, length, get_or,
}
use time_series_cardinality.Map
use time_series_cardinality.Map.{lookup, insert}
use time_series_cardinality.Router.{Ring, add_node, remove_node, resolve, node_at}
use time_series_cardinality.Router.Nearest.{IsRing, IsNearest, Member, resolve_lem}
use time_series_cardinality.Router.Joining.{resolve-add_node}
use time_series_cardinality.Router.Leaving.{Unrepeated, resolve-remove_node, resolve-ne-removed}
use time_series_cardinality.Router.Dangling.{count, remove_node_dangles}
use time_series_cardinality.Tests.Packages.{weights, group}

abbrev pub near : Bytes
near = lit "node1:9090"

abbrev far : Bytes
far = lit "node2:9090"

-- One node with the points 1 and 3, and one with the point 2.
abbrev two_nodes : Ring
two_nodes = record {
  ring = 1 ∷ 2 ∷ 3 ∷ [];
  node_map = insert 1 near (insert 2 far (insert 3 near Map.empty));
}

two_nodes-IsRing : IsRing two_nodes
unfolding lookup insert Map.empty
two_nodes-IsRing = record {
  sorted = ((omega arith, (omega arith, tt)), ((omega arith, tt), (tt, tt)));
  small = (omega arith, (omega arith, (omega arith, tt)));
  mapped = ((near, refl), ((far, refl), ((near, refl), tt)));
}

some_points : 0 < length two_nodes.ring
some_points = unfold length in omega arith

apart : Unrepeated two_nodes.ring
apart = (
  λ m. elim m [
    | inl e ↦ absurd (omega arith)
    | inr m' ↦ elim m' [ inl e ↦ absurd (omega arith) | inr k ↦ k ]
  ],
  (λ m. elim m [ inl e ↦ absurd (omega arith) | inr k ↦ k ], (λ k. k, tt)),
)

resolve_lem_example :
    (p : ℕ) × IsNearest (weights.sum32 group) two_nodes.ring p
    × (resolve weights group two_nodes ≡ node_at p two_nodes.node_map)
resolve_lem_example = resolve_lem weights group two_nodes two_nodes-IsRing some_points

resolve-add_node_example :
    (resolve weights group (add_node weights (lit "node3:9090") two_nodes) ≡ lit "node3:9090")
    ⊎ (resolve weights group (add_node weights (lit "node3:9090") two_nodes)
        ≡ resolve weights group two_nodes)
resolve-add_node_example =
    resolve-add_node weights (lit "node3:9090") two_nodes two_nodes-IsRing group

belongs_near : resolve weights group two_nodes ≡ near
unfolding resolve weights length lookup insert Map.empty get_or
belongs_near = refl

names_apart : near ≢ far
names_apart e = absurd (omega (arith, ap last e))
  where
    last : Bytes → ℕ
    last [] = 0
    last (a ∷ b ∷ c ∷ d ∷ n ∷ l) = n
    last (a ∷ l) = a

stays_near : resolve weights group two_nodes ≢ far
stays_near e = names_apart (cc (belongs_near, e))

resolve-remove_node_example :
    resolve weights group (remove_node far two_nodes) ≡ resolve weights group two_nodes
resolve-remove_node_example =
    resolve-remove_node far two_nodes two_nodes-IsRing apart weights group stays_near

near_named : near ≢ []
unfolding length
near_named e = absurd (omega (arith, ap (length {A = ℕ}) e))

resolve-ne-removed_example : resolve weights group (remove_node near two_nodes) ≢ near
resolve-ne-removed_example =
    resolve-ne-removed near two_nodes two_nodes-IsRing apart weights group near_named

-- A node that was added twice, with one point.
abbrev doubled : Ring
doubled = record { ring = 1 ∷ 1 ∷ []; node_map = insert 1 near Map.empty }

maps : lookup 1 doubled.node_map ≡ some near
unfolding lookup insert Map.empty
maps = refl

twice : 2 ≤ count 1 doubled.ring
unfolding count
twice = omega arith

remove_node_dangles_example :
    Member 1 (remove_node near doubled).ring × (node_at 1 (remove_node near doubled).node_map ≡ [])
remove_node_dangles_example = remove_node_dangles near near_named doubled 1 maps twice
