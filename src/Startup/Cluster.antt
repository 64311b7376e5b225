-- ===== src/Startup/Cluster.antt =====
-- The ring and the address that a node takes from its flags.
use mathlib.Core.List.{foldl}
use time_series_cardinality.Base.{
  ℕ, zero, suc, ◌-◌, ◌^◌, ◌≤◌, ◌<◌, ◌≡◌, ◌≢◌, refl, sym, ◌∙◌, inl, inr, ◌⊎◌, none, some, List, [],
  ◌∷◌, Bytes, bytes_eq, ◌==◌, arith, length, Bool-cases, bytes_eqb_iff, subst, false, nat_eq,
  nat_eqb,
}
use time_series_cardinality.Map.{lookup, lookup-empty}
use time_series_cardinality.External.{Murmur}
use time_series_cardinality.Errors.{done, panic}
use time_series_cardinality.Router
use time_series_cardinality.Router.{Ring, add_node, resolve, node_at}
use time_series_cardinality.Router.Nearest.{IsRing, new-IsRing, All-Member, resolve_lem}
use time_series_cardinality.Router.Joining.{
  add_node-IsRing, map-add_node, node_at_known, add_node_nonempty,
}
use time_series_cardinality.Startup.{split_commas, index_peer, self_address, configure}

-- The address is one of the list.
abbrev pub Listed : Bytes → List Bytes → Type 0
Listed a [] = ⊥
Listed a (b ∷ bs) = (a ≡ b) ⊎ Listed a bs

-- The ring that `run` builds from the addresses, from a ring that is there.
abbrev pub joined : Murmur → List Bytes → Ring → Ring
joined m addrs r = foldl (λ (t : Ring) (addr : Bytes). add_node m addr t) r addrs

module _ (m : Murmur) (P : Bytes → Type 0) where
  -- Every node that a point maps to satisfies P.
  pub record Owners (r : Ring) : Type 0 where
    pub well : IsRing r
    pub owned : (p : ℕ) (a : Bytes) → lookup p r.node_map ≡ some a → P a

  add_node-Owners : (addr : Bytes) (r : Ring) → P addr → Owners r → Owners (add_node m addr r)
  add_node-Owners addr r here h = record {
    well = add_node-IsRing m addr r h.well;
    owned = λ p a found. elim (map-add_node m addr r h.well p) [
      | inl (new, now) ↦ subst P {x = addr} (cc (now, found)) here
      | inr (old, now) ↦ h.owned p a (sym now ∙ found)
    ];
  }

  joined-Owners :
      (addrs : List Bytes) (r : Ring)
      → ((a : Bytes) → Listed a addrs → P a)
      → Owners r
      → Owners (joined m addrs r)
  joined-Owners [] r all h = h
  joined-Owners (b ∷ bs) r all h =
      joined-Owners bs (add_node m b r) (λ a k. all a (inr k))
        (add_node-Owners b r (all b (inl refl)) h)

  resolve-Owners : (group : Bytes) (r : Ring) → Owners r → 0 < length r.ring → P (resolve m group r)
  resolve-Owners group r h some_point =
      let (p, near, e) = resolve_lem m group r h.well some_point in
      let (a, found) = All-Member _ r.ring h.well.mapped near.member in
      subst P (sym (e ∙ node_at_known p r.node_map found)) (h.owned p a found)

new_bare : (p : ℕ) → lookup p Router.new.node_map ≡ none
unfolding Router.new
new_bare p = lookup-empty {V = Bytes} p

new-Owners : (m : Murmur) (P : Bytes → Type 0) → Owners m P Router.new
new-Owners m P = record { well = new-IsRing; owned = λ p a found. cc (found, new_bare p) }

joined_nonempty :
    (m : Murmur) (addrs : List Bytes) (r : Ring)
    → IsRing r
    → (0 < length r.ring) ⊎ (0 < length addrs)
    → 0 < length (joined m addrs r).ring
unfolding length
joined_nonempty m [] r well (inl h) = h
joined_nonempty m [] r well (inr h) = absurd (omega arith)
joined_nonempty m (b ∷ bs) r well h =
    joined_nonempty m bs (add_node m b r) (add_node-IsRing m b r well)
      (inl (add_node_nonempty m b r well))

-- A ring of listed addresses, one at least, gives every group to one of them.
pub resolve-joined :
    (m : Murmur) (addrs : List Bytes) (group : Bytes)
    → 0 < length addrs
    → Listed (resolve m group (joined m addrs Router.new)) addrs
resolve-joined m addrs group some_addr =
    resolve-Owners m (λ a. Listed a addrs) group (joined m addrs Router.new)
      (joined-Owners m (λ a. Listed a addrs) addrs Router.new (λ a k. k) (new-Owners m _))
      (joined_nonempty m addrs Router.new new-IsRing (inr some_addr))

pub index_peer_in :
    (addrs : List Bytes) (i : ℕ)
    → i < length addrs
    → (a : Bytes) × (index_peer addrs i ≡ done a) × Listed a addrs
unfolding index_peer length
index_peer_in [] i h = absurd (omega arith)
index_peer_in (a ∷ addrs) zero h = (a, refl, inl refl)
index_peer_in (a ∷ addrs) (suc i) h =
    let (b, e, k) = index_peer_in addrs i (omega arith) in (b, e, inr k)

index_peer_past : (addrs : List Bytes) (i : ℕ) → length addrs ≤ i → index_peer addrs i ≡ panic
unfolding index_peer length
index_peer_past [] i h = refl
index_peer_past (a ∷ addrs) zero h = absurd (omega arith)
index_peer_past (a ∷ addrs) (suc i) h = index_peer_past addrs i (omega arith)

pub split_commas_nonempty : (s : Bytes) → 0 < length (split_commas s)
unfolding split_commas length
split_commas_nonempty [] = omega arith
split_commas_nonempty (b ∷ bs) = elim (Bool-cases (nat_eqb b b',')) [
  | inl comma ↦ rw comma (omega arith)
  | inr other ↦ rw other (nonempty_head b (split_commas bs))
]
  where
    nonempty_head :
        (b : ℕ) (l : List Bytes)
        → 0 < length (elim l as (λ _. List Bytes) [ [] ↦ (b ∷ []) ∷ [] | s ∷ ss ↦ (b ∷ s) ∷ ss ])
    nonempty_head b [] = omega arith
    nonempty_head b (s ∷ ss) = omega arith

pub self_address_lem :
    (node_id : ℕ) (addrs : List Bytes)
    → (node_id ≡ 0 → self_address node_id addrs ≡ done [])
      × (1 ≤ node_id
          → node_id ≤ length addrs
          → self_address node_id addrs ≡ index_peer addrs (node_id - 1))
      × (length addrs < node_id → node_id < 2 ^ 63 → self_address node_id addrs ≡ done [])
      × (2 ^ 63 ≤ node_id → self_address node_id addrs ≡ index_peer addrs (node_id - 1))
unfolding self_address
self_address_lem node_id addrs =
    (λ z. ground arith, λ lo hi. ground arith, λ lo hi. ground arith, λ h. ground arith)

module _ (m : Murmur) (node_id : ℕ) (peers : Bytes) (given : peers ≢ []) where
  unfoldable pub ring_of_peers : Ring
  ring_of_peers = joined m (split_commas peers) Router.new

  pub configure_done :
      (self : Bytes)
      → self_address node_id (split_commas peers) ≡ done self
      → configure m node_id peers ≡ done (some ring_of_peers, self)
  unfolding configure ring_of_peers
  configure_done self e =
      let some_peer : (peers == []) ≡ false = ground (arith, bytes_eqb_iff peers []) in
      rw some_peer (rw (e, configure) refl)

  configure_panics :
      self_address node_id (split_commas peers) ≡ panic → configure m node_id peers ≡ panic
  unfolding configure
  configure_panics e =
      let some_peer : (peers == []) ≡ false = ground (arith, bytes_eqb_iff peers []) in
      rw some_peer (rw (e, configure) refl)

  -- With -peers given, a node id from 1 to the number of addresses gives the node a ring that maps
  -- every group to one of the addresses, and an address of its own among them.
  pub configure_member :
      1 ≤ node_id
      → node_id ≤ length (split_commas peers)
      → (ring : Ring) × (self : Bytes) × (configure m node_id peers ≡ done (some ring, self))
        × Listed self (split_commas peers)
        × ((group : Bytes) → Listed (resolve m group ring) (split_commas peers))
  unfolding ring_of_peers
  configure_member lo hi =
      let addrs = split_commas peers in
      let (a, e, k) = index_peer_in addrs (node_id - 1) (omega arith) in
      (
        ring_of_peers,
        a,
        configure_done a ((self_address_lem node_id addrs).1 lo hi ∙ e),
        k,
        λ group. resolve-joined m addrs group (split_commas_nonempty peers),
      )

  -- With -peers given, a node with id 0, or with an id past the addresses and below 2 ^ 63, has a
  -- ring that maps every group to one of the addresses, and no address of its own.
  pub configure_outside :
      (node_id ≡ 0) ⊎ ((length (split_commas peers) < node_id) × (node_id < 2 ^ 63))
      → (ring : Ring) × (configure m node_id peers ≡ done (some ring, []))
        × ((group : Bytes) → Listed (resolve m group ring) (split_commas peers))
  unfolding ring_of_peers
  configure_outside out =
      let addrs = split_commas peers in
      let (zeroth, inside, past, high) = self_address_lem node_id addrs in
      (
        ring_of_peers,
        configure_done [] (elim out [ inl z ↦ zeroth z | inr h ↦ past h.0 h.1 ]),
        λ group. resolve-joined m addrs group (split_commas_nonempty peers),
      )

  -- With -peers given, and fewer addresses than 2 ^ 63: a node id from 2 ^ 63 on, which is negative
  -- as an int, passes the check against the number of addresses, and the index then panics.
  pub configure_high :
      2 ^ 63 ≤ node_id → length (split_commas peers) < 2 ^ 63 → configure m node_id peers ≡ panic
  configure_high h few =
      let addrs = split_commas peers in
      configure_panics
        ((self_address_lem node_id addrs).3 h ∙ index_peer_past addrs (node_id - 1) (omega arith))
