-- ===== src/Router/Dangling.antt =====
-- What RemoveNode does to a point that stands twice on the ring: it deletes the point's node at the
-- first copy and keeps the second one, which then belongs to no node.
use time_series_cardinality.Base.{
  ℕ, suc, ◌+◌, ◌≤◌, ◌≡◌, ◌≢◌, ◌⊎◌, inl, inr, ◌∙◌, sym, ap, List, [], ◌∷◌, arith, Bool-cases, Bytes,
  none, some, nat_eq, if◌then◌else◌, nat_eqb_iff, nat_eqb,
}
use time_series_cardinality.Map.{Map, lookup, delete, lookup-delete}
use time_series_cardinality.Router.{Ring, node_at, remove_node}
use time_series_cardinality.Router.Nearest.{Member}
use time_series_cardinality.Router.Joining.{node_at_known}
use time_series_cardinality.Router.Leaving.{
  keep, rest, keep-other, keep_owned, owned?, node_at-delete, rest-lookup,
}

-- How often a point stands on the ring.
unfoldable pub count : ℕ → List ℕ → ℕ
count p [] = 0
count p (x ∷ xs) = (if nat_eqb x p then 1 else 0) + count p xs

node_at-none : (p : ℕ) (n : Map ℕ Bytes) → lookup p n ≡ none → node_at p n ≡ []
unfolding node_at
node_at-none p n e = ground arith

count-same : (p : ℕ) (xs : List ℕ) → count p (p ∷ xs) ≡ suc (count p xs)
unfolding count
count-same p xs = ground arith

count_ne : (p x : ℕ) (xs : List ℕ) → x ≢ p → count p (x ∷ xs) ≡ count p xs
unfolding count
count_ne p x xs n = ground arith

nat_dec : (h p : ℕ) → (h ≡ p) ⊎ (h ≢ p)
nat_dec h p = elim (Bool-cases (nat_eqb h p)) [
  | inl e ↦ inl ((nat_eqb_iff h p).0 e)
  | inr n ↦ inr (λ e. cc (n, (nat_eqb_iff h p).1 e))
]

module _ (addr : Bytes) (named : addr ≢ []) where
  -- The loop leaves p on the ring, and p has no node.
  abbrev Dangles : ℕ → List ℕ → Map ℕ Bytes → Type 0
  Dangles p l m = Member p (keep addr l m) × (lookup p (rest addr l m) ≡ none)

  unowned : (m : Map ℕ Bytes) (p : ℕ) → lookup p m ≡ none → node_at p m ≢ addr
  unowned m p absent q = named (sym q ∙ node_at-none p m absent)

  stays_lone :
      (l : List ℕ) (m : Map ℕ Bytes) (p : ℕ)
      → lookup p m ≡ none
      → 1 ≤ count p l
      → Member p (keep addr l m)
  stays_lone [] m p absent once = unfold count in absurd (omega arith)
  stays_lone (h ∷ hs) m p absent once = elim (owned? addr h m) [
    | inr other ↦ rw (keep-other addr h hs m other).0 (elim (nat_dec h p) [
      | inl same ↦ inl (sym same)
      | inr apart ↦ inr (stays_lone hs m p absent (rw (count_ne p h hs apart) at once))
    ])
    | inl owned ↦
        let apart : h ≢ p = λ e. unowned m p absent (ap (λ x. node_at x m) (sym e) ∙ owned) in
        rw (keep_owned addr h hs m owned).0 (
          stays_lone hs (delete h m) p (node_at-delete h p m apart ∙ absent)
            (rw (count_ne p h hs apart) at once))
  ]

  second_copy :
      (l : List ℕ) (m : Map ℕ Bytes) (p : ℕ)
      → lookup p m ≡ some addr
      → 2 ≤ count p l
      → Dangles p l m
  second_copy [] m p known two = unfold count in absurd (omega arith)
  second_copy (h ∷ hs) m p known two = elim (nat_dec h p) [
    | inl same ↦
        let owned = ap (λ x. node_at x m) same ∙ node_at_known p m known in
        let absent : lookup p (delete h m) ≡ none =
          ground (arith, lookup-delete h p m, nat_eqb_iff h p) in
        let once : 1 ≤ count p hs =
          omega (arith, ap (λ x. count p (x ∷ hs)) same, count-same p hs) in
        let (k, r) = keep_owned addr h hs m owned in
        (
          rw k (stays_lone hs (delete h m) p absent once),
          rw r (rest-lookup addr hs (delete h m) p (unowned (delete h m) p absent) ∙ absent),
        )
    | inr apart ↦
        let two' : 2 ≤ count p hs = rw (count_ne p h hs apart) at two in
        elim (owned? addr h m) [
          | inr other ↦
              let (k, r) = keep-other addr h hs m other in
              let (mem, lost) = second_copy hs m p known two' in (rw k (inr mem), rw r lost)
          | inl owned ↦
              let (k, r) = keep_owned addr h hs m owned in
              let (mem, lost) =
                second_copy hs (delete h m) p (node_at-delete h p m apart ∙ known) two' in
              (rw k mem, rw r lost)
        ]
  ]

  -- Removing a named node leaves each of its points that stands twice on the ring, with no node.
  pub remove_node_dangles :
      (r : Ring) (p : ℕ)
      → lookup p r.node_map ≡ some addr
      → 2 ≤ count p r.ring
      → Member p (remove_node addr r).ring × (node_at p (remove_node addr r).node_map ≡ [])
  unfolding remove_node keep rest
  remove_node_dangles r p known two =
      let (mem, lost) = second_copy r.ring r.node_map p known two in (mem, node_at-none p _ lost)
