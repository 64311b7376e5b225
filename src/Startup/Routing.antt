-- ===== src/Startup/Routing.antt =====
-- The members of a cluster that were started with the same -peers agree on who answers a group.
use time_series_cardinality.Base.{
  ℕ, suc, ◌-◌, ◌≤◌, ◌<◌, ◌≡◌, ◌≢◌, sym, ◌∙◌, ap, inl, inr, Option, none, some, List, [], ◌∷◌, Bytes,
  bytes_eq, ◌==◌, arith, length, bytes_eqb_iff, if◌then◌else◌, subst,
}
use time_series_cardinality.External.{Murmur}
use time_series_cardinality.Errors.{done}
use time_series_cardinality.Router
use time_series_cardinality.Router.{Ring, resolve}
use time_series_cardinality.Server.{RaftNode, Config, peer_of}
use time_series_cardinality.Startup.{split_commas, index_peer, configure}
use time_series_cardinality.Startup.Cluster.{
  Listed, joined, index_peer_in, self_address_lem, split_commas_nonempty, resolve-joined,
  ring_of_peers, configure_done,
}

-- An address of the list stands at some index.
index-Listed :
    (a : Bytes) (addrs : List Bytes)
    → Listed a addrs
    → (i : ℕ) × (i < length addrs) × (index_peer addrs i ≡ done a)
unfolding index_peer length
index-Listed a [] h = absurd h
index-Listed a (b ∷ addrs) (inl e) = (0, omega arith, ap done (sym e))
index-Listed a (b ∷ addrs) (inr k) =
    let (i, lt, e) = index-Listed a addrs k in (suc i, omega arith, e)

-- The part of a server's configuration that its routing reads.
abbrev pub member : {W : Type 0} → Option (RaftNode W) → Ring → Bytes → Config W
member raft ring self = record { node = raft; router = some ring; self_addr = self }

peer_of-member :
    {W : Type 0} (m : Murmur) (raft : Option (RaftNode W)) (ring : Ring) (self group : Bytes)
    → self ≢ []
    → resolve m group ring ≢ []
    → peer_of m (member raft ring self) group
      ≡ (if resolve m group ring == self then none else some (resolve m group ring))
unfolding peer_of
peer_of-member m raft ring self group named owned =
    ground (arith, bytes_eqb_iff self [], bytes_eqb_iff (resolve m group ring) [])

module _ (m : Murmur) (peers : Bytes) (given : peers ≢ [])
    (named : Listed [] (split_commas peers) → ⊥) where
  -- The ring that every member has.
  abbrev pub shared : Ring
  shared = joined m (split_commas peers) Router.new

  Listed-named : (a : Bytes) → Listed a (split_commas peers) → a ≢ []
  Listed-named a k e = named (subst (λ b. Listed b (split_commas peers)) e k)

  configured :
      (i : ℕ) (a : Bytes)
      → 1 ≤ i
      → i ≤ length (split_commas peers)
      → index_peer (split_commas peers) (i - 1) ≡ done a
      → configure m i peers ≡ done (some shared, a)
  configured i a lo hi e =
      unfold ring_of_peers in
      configure_done m i peers given a ((self_address_lem i (split_commas peers)).1 lo hi ∙ e)

  -- The member with number i, on the shared ring: it answers the group itself if it is the owner, and
  -- forwards it to the owner otherwise.
  pub record Routes {W : Type 0} (raft : Option (RaftNode W)) (group owner : Bytes) (i : ℕ)
      : Type 0 where
    pub self : Bytes
    pub set_up : configure m i peers ≡ done (some shared, self)
    pub peer :
        peer_of m (member raft shared self) group ≡ (if owner == self then none else some owner)

  -- In a cluster whose nodes were started with the same -peers, none of the addresses empty, and with
  -- node ids from 1 to the number of addresses: all have the same ring, and the owner of a group by
  -- that ring is the address of some member. Each member answers the group itself if it has that
  -- address, and forwards it to that address otherwise.
  pub configure-Routes :
      {W : Type 0} (raft : Option (RaftNode W)) (group : Bytes) (i : ℕ)
      → 1 ≤ i
      → i ≤ length (split_commas peers)
      → Routes raft group (resolve m group shared) i
        × (j : ℕ) × (1 ≤ j)
        × (j ≤ length (split_commas peers))
        × (configure m j peers ≡ done (some shared, resolve m group shared))
  configure-Routes raft group i lo hi =
      let addrs = split_commas peers in
      let owner = resolve m group shared in
      let listed = resolve-joined m addrs group (split_commas_nonempty peers) in
      let (k, lt, e) = index-Listed owner addrs listed in
      let back : k ≡ suc k - 1 = omega arith in
      let (a, f, l) = index_peer_in addrs (i - 1) (omega arith) in
      (
        record {
          self = a;
          set_up = configured i a lo hi f;
          peer =
              peer_of-member m raft shared a group (Listed-named a l) (Listed-named owner listed);
        },
        suc k,
        omega arith,
        omega arith,
        configured (suc k) owner (omega arith) (omega arith)
            (subst (λ t. index_peer addrs t ≡ done owner) back e),
      )
