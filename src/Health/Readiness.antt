-- ===== src/Health/Readiness.antt =====
-- /readyz and the gauge raft_is_leader report the same signal.
use time_series_cardinality.Base.{
  ℕ, ◌≡◌, ◌≢◌, refl, ◌⊎◌, inl, inr, Bool, true, false, arith, List, [], ◌∷◌, nat_eqb, nat_eqb_iff,
  ◌∙◌, ap, not, ◌&&◌, Bool-cases,
}
use time_series_cardinality.External.{Floats}
use time_series_cardinality.Sketch.{SketchOps, Algorithm}
use time_series_cardinality.Node.{Node, RaftStatus, status}
use time_series_cardinality.Collector.{
  Metric, raft_term, raft_is_leader, raft_applied_index, collect_raft,
}
use time_series_cardinality.Health.{readyz, is_ready}

module _ (o : SketchOps) (alg : Algorithm o) (Db Storage : Type 0) (f : Floats) where
  is_ready_lem :
      (st : RaftStatus) (n : Node o alg Db Storage) (leads : Bool)
      → (not (nat_eqb st.lead 0) && nat_eqb st.lead n.id) ≡ leads
      → (is_ready o alg Db Storage st n ≡ leads)
        × (status o alg Db Storage st n ≡ (st.term, (leads, n.applied_idx)))
  unfolding is_ready status
  is_ready_lem st n leads e = (e, ap (λ b. (st.term, (b, n.applied_idx))) e)

  -- A scrape of the Raft node as samples.
  abbrev pub scrape : RaftStatus → Node o alg Db Storage → List (Metric f)
  scrape st n = collect_raft f (status o alg Db Storage st n)

  gauges :
      (st : RaftStatus) (n : Node o alg Db Storage) (leads : Bool) (value : ℕ)
      → status o alg Db Storage st n ≡ (st.term, (leads, n.applied_idx))
      → collect_raft f (st.term, (leads, n.applied_idx))
        ≡ raft_term (f.of_int st.term)
          ∷ raft_is_leader (f.of_int value)
          ∷ raft_applied_index (f.of_int n.applied_idx)
          ∷ []
      → scrape st n
        ≡ raft_term (f.of_int st.term)
          ∷ raft_is_leader (f.of_int value)
          ∷ raft_applied_index (f.of_int n.applied_idx)
          ∷ []
  gauges st n leads value e g = ap (collect_raft f) e ∙ g

  -- Either Raft's leader is this node and not 0, the "no leader" of etcd: then /readyz answers 200
  -- and the gauge raft_is_leader is 1. Or it is not so, and /readyz answers 503 and the gauge is 0.
  pub readyz-leader :
      (st : RaftStatus) (n : Node o alg Db Storage)
      → ((st.lead ≢ 0)
          × (st.lead ≡ n.id)
          × ((readyz (is_ready o alg Db Storage st n)).code ≡ 200)
          × (scrape st n
              ≡ raft_term (f.of_int st.term)
                ∷ raft_is_leader (f.of_int 1)
                ∷ raft_applied_index (f.of_int n.applied_idx)
                ∷ []))
        ⊎ (((st.lead ≡ 0) ⊎ (st.lead ≢ n.id))
            × ((readyz (is_ready o alg Db Storage st n)).code ≡ 503)
            × (scrape st n
                ≡ raft_term (f.of_int st.term)
                  ∷ raft_is_leader (f.of_int 0)
                  ∷ raft_applied_index (f.of_int n.applied_idx)
                  ∷ []))
  unfolding readyz collect_raft
  readyz-leader st n = elim (Bool-cases (not (nat_eqb st.lead 0) && nat_eqb st.lead n.id)) [
    | inl leads ↦
        let (r, s) = is_ready_lem st n true leads in
        inl (
          ground (arith, nat_eqb_iff st.lead 0),
          ground (arith, nat_eqb_iff st.lead n.id),
          ap (λ b. (readyz b).code) r,
          gauges st n true 1 s refl,
        )
    | inr other ↦
        let (r, s) = is_ready_lem st n false other in
        inr
          (not_leading st.lead n.id other, ap (λ b. (readyz b).code) r, gauges st n false 0 s refl)
  ]
    where
      not_leading :
          (lead id : ℕ)
          → (not (nat_eqb lead 0) && nat_eqb lead id) ≡ false
          → (lead ≡ 0) ⊎ (lead ≢ id)
      not_leading lead id h = elim (Bool-cases (nat_eqb lead 0)) [
        | inl none_leads ↦ inl ((nat_eqb_iff lead 0).0 none_leads)
        | inr some_leads ↦ inr (λ e. ground (arith, nat_eqb_iff lead id))
      ]
