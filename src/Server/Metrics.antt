-- ===== src/Server/Metrics.antt =====
-- What a step of the server writes to the metrics, and the steps that leave the engine and the
-- store alone: looking up a connection, forwarding a call, and noting an event.
use time_series_cardinality.Base.{
  ℕ, ◌+◌, ◌≡◌, refl, ap, ◌∙◌, inl, inr, List, [], ◌∷◌, ◌++◌, Bytes, arith, Option-cases, bytes_eq,
}
use time_series_cardinality.Map.{lookup}
use time_series_cardinality.Errors.{Result, ok, err, Result-cases}
use time_series_cardinality.Sketch.{SketchOps, Algorithm}
use time_series_cardinality.Server.{
  Server, Network, Event, request, forwarded, forwarded_error, raft_proposal, batch_size, note,
  get_peer_client, forward, forward_request, finish, Handled, success_status, error_status,
}

-- How many requests the metrics have counted.
pub requests : List Event → ℕ
requests [] = 0
requests (request m r ∷ es) = 1 + requests es
requests (forwarded a b ∷ es) = requests es
requests (forwarded_error a b ∷ es) = requests es
requests (raft_proposal r ∷ es) = requests es
requests (batch_size n ∷ es) = requests es

pub requests-append : (a b : List Event) → requests (a ++ b) ≡ requests a + requests b
unfolding requests
requests-append [] b = omega arith
requests-append (request m r ∷ es) b = omega (arith, requests-append es b)
requests-append (forwarded x y ∷ es) b = requests-append es b
requests-append (forwarded_error x y ∷ es) b = requests-append es b
requests-append (raft_proposal r ∷ es) b = requests-append es b
requests-append (batch_size n ∷ es) b = requests-append es b

-- An event that is not a request.
abbrev pub IsQuiet : Event → Type 0
IsQuiet (request m r) = ⊥
IsQuiet (forwarded a b) = Unit
IsQuiet (forwarded_error a b) = Unit
IsQuiet (raft_proposal r) = Unit
IsQuiet (batch_size n) = Unit

requests_quiet : (e : Event) → IsQuiet e → requests (e ∷ []) ≡ 0
unfolding requests
requests_quiet (request m r) q = absurd q
requests_quiet (forwarded a b) q = refl
requests_quiet (forwarded_error a b) q = refl
requests_quiet (raft_proposal r) q = refl
requests_quiet (batch_size n) q = refl

-- The status label that a result is to have.
abbrev pub status_of {ℓ} : {A : Type ℓ} → Result A → Bytes
status_of (ok a) = success_status
status_of (err e) = error_status

module _ {o : SketchOps} {alg : Algorithm o} {Db : Type 0} {W : Type 0} {net : Network W} where
  -- From s to t no request was counted.
  pub record Uncounted (s t : Server o alg Db net) : Type 0 where
    pub same : requests t.events ≡ requests s.events

  -- And the engine and the store are those of s.
  pub record Passed (s t : Server o alg Db net) : Type 0 where
    pub engine : t.engine ≡ s.engine
    pub store : t.store ≡ s.store
    pub uncounted : Uncounted s t

  pub Uncounted-refl : (s : Server o alg Db net) → Uncounted s s
  Uncounted-refl s = record { same = refl }

  pub Uncounted-trans :
      {s t u : Server o alg Db net} → Uncounted s t → Uncounted t u → Uncounted s u
  Uncounted-trans h k = record { same = k.same ∙ h.same }

  pub Passed-refl : (s : Server o alg Db net) → Passed s s
  Passed-refl s = record { engine = refl; store = refl; uncounted = Uncounted-refl s }

  pub Passed-trans : {s t u : Server o alg Db net} → Passed s t → Passed t u → Passed s u
  Passed-trans h k = record {
    engine = k.engine ∙ h.engine;
    store = k.store ∙ h.store;
    uncounted = Uncounted-trans h.uncounted k.uncounted;
  }

  pub requests-note :
      (e : Event) (s : Server o alg Db net)
      → requests (note o alg Db net e s).events ≡ requests s.events + requests (e ∷ [])
  unfolding note
  requests-note e s = requests-append s.events (e ∷ [])

  pub note-Passed :
      (e : Event) (s : Server o alg Db net) → IsQuiet e → Passed s (note o alg Db net e s)
  note-Passed e s q = record {
    engine = unfold note in refl;
    store = unfold note in refl;
    uncounted = record { same = omega (arith, requests-note e s, requests_quiet e q) };
  }

  pub get_peer_client-Passed :
      (addr : Bytes) (s : Server o alg Db net) → Passed s (get_peer_client o alg Db net addr s).1
  unfolding get_peer_client
  get_peer_client-Passed addr s = elim (Option-cases (lookup addr s.conns)) [
    | inr (c, known) ↦ rw (known, get_peer_client) (Passed-refl s)
    | inl unknown ↦ elim (Result-cases (net.dial addr (net.insecure ∷ s.dial_opts) s.world).0) [
      | inl (c, dialled) ↦
          rw (unknown, dialled, get_peer_client)
            (record { engine = refl; store = refl; uncounted = record { same = refl } })
      | inr (x, failed) ↦
          rw (unknown, failed, get_peer_client)
            (record { engine = refl; store = refl; uncounted = record { same = refl } })
    ]
  ]

  -- The last event of t is the request, with its outcome, and it is the only request since s.
  pub record Counted (method status : Bytes) (s t : Server o alg Db net) : Type 0 where
    pub earlier : List Event
    pub last : t.events ≡ earlier ++ request method status ∷ []
    pub once : requests t.events ≡ requests s.events + 1

  -- The request that `finish` notes is the only one, with the status that the handler has set.
  pub finish-Counted :
      {A : Type 0} (method : Bytes) (p : Handled A × Server o alg Db net) (s : Server o alg Db net)
      → Uncounted s p.1
      → p.0.1 ≡ status_of p.0.0
      → Counted method
          (status_of (finish o alg Db net method p).0)
          s
          (finish o alg Db net method p).1
  unfolding finish note requests
  finish-Counted method ((r, status), t) s h set = record {
    earlier = t.events;
    last = ap (λ l. t.events ++ request method l ∷ []) set;
    once = omega (arith, requests-append t.events (request method status ∷ []), h.same);
  }

  -- BatchAdd and Query forward as addID does, and set statusStr as the result wants it.
  pub forward_request-forward :
      {A : Type 0} (owner method : Bytes) (call : net.ClientConn → W → Result A × W)
      (s : Server o alg Db net)
      → let p = forward_request o alg Db net owner method call s in
        let q = forward o alg Db net owner method call s in
        (p.0.0 ≡ q.0) × (p.1 ≡ q.1) × (p.0.1 ≡ status_of p.0.0)
  unfolding forward_request forward
  forward_request-forward owner method call s =
      let r = get_peer_client o alg Db net owner (note o alg Db net (forwarded owner method) s) in
      elim (Result-cases r.0) [
        | inr (x, failed) ↦ rw (failed, forward_request, forward) (refl, refl, refl)
        | inl (c, got) ↦ elim (Result-cases (call c r.1.world).0) [
          | inl (a, fine) ↦ rw (got, fine, forward_request, forward) (refl, refl, refl)
          | inr (x, bad) ↦ rw (got, bad, forward_request, forward) (refl, refl, refl)
        ]
      ]

  module _ (owner method : Bytes) where
    pub forward-Passed :
        {A : Type 0} (call : net.ClientConn → W → Result A × W) (s : Server o alg Db net)
        → Passed s (forward o alg Db net owner method call s).1
    unfolding forward
    forward-Passed call s =
        let s₁ = note o alg Db net (forwarded owner method) s in
        let before =
          Passed-trans (note-Passed (forwarded owner method) s tt)
            (get_peer_client-Passed owner s₁) in
        let t = (get_peer_client o alg Db net owner s₁).1 in
        elim (Result-cases (get_peer_client o alg Db net owner s₁).0) [
          | inr (x, failed) ↦
              rw (failed, forward)
                (Passed-trans before (note-Passed (forwarded_error owner method) t tt))
          | inl (c, got) ↦
              let w = (call c t.world).1 in
              let u : Server o alg Db net = record t { world = w } in
              let called =
                Passed-trans before
                  (record { engine = refl; store = refl; uncounted = record { same = refl } }) in
              elim (Result-cases (call c t.world).0) [
                | inl (a, fine) ↦ rw (got, fine, forward) called
                | inr (x, bad) ↦
                    rw (got, bad, forward)
                      (Passed-trans called (note-Passed (forwarded_error owner method) u tt))
              ]
        ]
