-- ===== src/Node/Batching.antt =====
-- The event loop: how Raft batches the committed entries, and when snapshots are taken, does not
-- matter to what is counted and stored.
use time_series_cardinality.Base.{
  ℕ, ◌≡◌, refl, sym, ap, ◌∙◌, inl, inr, ◌⊎◌, not, ◌||◌, Option, none, some, List, [], ◌∷◌, ◌++◌,
  length, nat_eqb, Bool-cases, Option-cases, subst,
}
use time_series_cardinality.Errors.{Error, Result-cases, Run, done, panic}
use time_series_cardinality.Sketch.{SketchOps, Algorithm, IsLawful}
use time_series_cardinality.Engine.{Engine, Gob, persist}
use time_series_cardinality.Engine.Groups.{IsSound}
use time_series_cardinality.Handler.{Command, default_registry, dispatch}
use time_series_cardinality.Handler.Safety.{engine_adder}
use time_series_cardinality.Store.{Badger, BadgerStore, save}
use time_series_cardinality.Node.{
  Node, Proto, Entry, MemoryStorage, persist_entry, apply_entry, apply_entries, maybe_snapshot,
  ready, run,
}
use time_series_cardinality.Node.Laws.{IsProto, apply_entries-IsSound, maybe_snapshot_lem}

Run-cases :
    {A : Type 0} (r : Run (Option Error × A))
    → (r ≡ panic) ⊎ ((x : Option Error) × (a : A) × (r ≡ done (x, a)))
Run-cases panic = inl refl
Run-cases (done (x, a)) = inr (x, a, refl)

-- The committed entries of some Readys, in order.
unfoldable pub committed : List (List Entry × List Entry) → List Entry
committed [] = []
committed ((entries, es) ∷ rest) = es ++ committed rest

module _ {o : SketchOps} {alg : Algorithm o} {Db Storage : Type 0} where
  -- The same engine, store and applied index.
  pub record Agrees (n m : Node o alg Db Storage) : Type 0 where
    pub engine : n.engine ≡ m.engine
    pub store : n.store ≡ m.store
    pub applied_idx : n.applied_idx ≡ m.applied_idx

  abbrev BothAgree : Run (Node o alg Db Storage) → Run (Node o alg Db Storage) → Type 0
  BothAgree (done n) (done m) = Agrees n m
  BothAgree panic panic = Unit
  BothAgree (done n) panic = ⊥
  BothAgree panic (done m) = ⊥

  -- What is run next.
  abbrev next :
      Run (Node o alg Db Storage)
      → (Node o alg Db Storage → Run (Node o alg Db Storage))
      → Run (Node o alg Db Storage)
  next r k = elim r [ panic ↦ panic | done n ↦ k n ]

  next-BothAgree :
      (r r' : Run (Node o alg Db Storage))
      (k k' : Node o alg Db Storage → Run (Node o alg Db Storage))
      → BothAgree r r'
      → ((n m : Node o alg Db Storage) → Agrees n m → BothAgree (k n) (k' m))
      → BothAgree (next r k) (next r' k')
  next-BothAgree (done n) (done m) k k' a step = step n m a
  next-BothAgree panic panic k k' a step = a
  next-BothAgree (done n) panic k k' a step = absurd a
  next-BothAgree panic (done m) k k' a step = absurd a

  next-next :
      (r : Run (Node o alg Db Storage)) (k k' : Node o alg Db Storage → Run (Node o alg Db Storage))
      → next (next r k) k' ≡ next r (λ n. next (k n) k')
  next-next (done n) k k' = refl
  next-next panic k k' = refl

  next_ext :
      (r : Run (Node o alg Db Storage)) {k k' : Node o alg Db Storage → Run (Node o alg Db Storage)}
      → ((n : Node o alg Db Storage) → k n ≡ k' n)
      → next r k ≡ next r k'
  next_ext (done n) same = same n
  next_ext panic same = refl

  Agrees-refl : (n : Node o alg Db Storage) → Agrees n n
  Agrees-refl n = record { engine = refl; store = refl; applied_idx = refl }

  module _ (badger : Badger Db) (proto : Proto) where
    persist_entry-Agrees :
        (index : ℕ) (cmd : Command) (engine : Engine o alg) (n m : Node o alg Db Storage)
        → n.store ≡ m.store
        → Agrees
            (persist_entry o alg Db Storage badger proto index cmd (record n { engine = engine }))
            (persist_entry o alg Db Storage badger proto index cmd (record m { engine = engine }))
    unfolding persist_entry
    persist_entry-Agrees index cmd engine n m same = record {
      engine = refl;
      store =
          ap
            (λ (st : BadgerStore Db). (persist o alg cmd.group (save badger cmd.group) engine st).1)
            same;
      applied_idx = refl;
    }

    apply_entry-Agrees :
        (e : Entry) (n m : Node o alg Db Storage)
        → Agrees n m
        → BothAgree
            (apply_entry o alg Db Storage badger proto e n)
            (apply_entry o alg Db Storage badger proto e m)
    unfolding apply_entry
    apply_entry-Agrees e n m a = elim (Bool-cases (not e.normal || nat_eqb (length e.bytes) 0)) [
      | inl skipped ↦ rw skipped a
      | inr full ↦ elim (Result-cases (proto.unmarshal e.bytes)) [
        | inr (x, bad) ↦ rw (full, bad, apply_entry) a
        | inl (cmd, decoded) ↦
            let handle = λ (t : Engine o alg).
              dispatch default_registry (some cmd) (some (engine_adder o alg)) t in
            let same : handle m.engine ≡ handle n.engine = ap handle (sym a.engine) in
            elim (Run-cases (handle n.engine)) [
              | inl p ↦ rw (full, decoded, apply_entry) (rw (same, p) tt)
              | inr (x, engine, p) ↦ elim (Option-cases x) [
                | inl fine ↦
                    let q : handle n.engine ≡ done (none, engine) =
                      p ∙ ap (λ y. done (y, engine)) fine in
                    rw (full, decoded, apply_entry)
                      (rw (same, q) (persist_entry-Agrees e.index cmd engine n m a.store))
                | inr (y, failed) ↦
                    let q : handle n.engine ≡ done (some y, engine) =
                      p ∙ ap (λ z. done (z, engine)) failed in
                    rw (full, decoded, apply_entry)
                      (rw (same, q)
                        (record { engine = refl; store = a.store; applied_idx = a.applied_idx }))
              ]
            ]
      ]
    ]

    apply_entries-Agrees :
        (es : List Entry) (n m : Node o alg Db Storage)
        → Agrees n m
        → BothAgree
            (apply_entries o alg Db Storage badger proto es n)
            (apply_entries o alg Db Storage badger proto es m)
    unfolding apply_entries
    apply_entries-Agrees [] n m a = a
    apply_entries-Agrees (e ∷ es) n m a =
        next-BothAgree (apply_entry o alg Db Storage badger proto e n)
          (apply_entry o alg Db Storage badger proto e m)
          (apply_entries o alg Db Storage badger proto es)
          (apply_entries o alg Db Storage badger proto es) (apply_entry-Agrees e n m a)
          (apply_entries-Agrees es)

    apply_entries-append :
        (es more : List Entry) (n : Node o alg Db Storage)
        → apply_entries o alg Db Storage badger proto (es ++ more) n
          ≡ next
              (apply_entries o alg Db Storage badger proto es n)
              (apply_entries o alg Db Storage badger proto more)
    unfolding apply_entries
    apply_entries-append [] more n = refl
    apply_entries-append (e ∷ es) more n =
        next_ext (apply_entry o alg Db Storage badger proto e n)
          (λ t. apply_entries-append es more t)
        ∙ sym (
            next-next (apply_entry o alg Db Storage badger proto e n)
              (apply_entries o alg Db Storage badger proto es)
              (apply_entries o alg Db Storage badger proto more))

    module _ (memory : MemoryStorage Storage) (gob : Gob) where
      snapshot-Agrees :
          (n m : Node o alg Db Storage)
          → Agrees n m
          → Agrees (maybe_snapshot o alg Db Storage memory gob n) m
      snapshot-Agrees n m a =
          let (engine, st, applied, _) = maybe_snapshot_lem memory gob n in
          record {
            engine = engine ∙ a.engine;
            store = st ∙ a.store;
            applied_idx = applied ∙ a.applied_idx;
          }

      run-Agrees :
          (rds : List (List Entry × List Entry)) (n m : Node o alg Db Storage)
          → Agrees n m
          → BothAgree
              (run o alg Db Storage badger proto memory gob rds n)
              (apply_entries o alg Db Storage badger proto (committed rds) m)
      unfolding run ready committed
      run-Agrees [] n m a = unfold apply_entries in a
      run-Agrees ((entries, es) ∷ rest) n m a =
          let kept : Node o alg Db Storage = record n {
            storage = (memory.append entries n.storage).1;
          } in
          let started =
            apply_entries-Agrees es kept m
              (record { engine = a.engine; store = a.store; applied_idx = a.applied_idx }) in
          let ran = apply_entries o alg Db Storage badger proto es kept in
          let end = run o alg Db Storage badger proto memory gob rest in
          let shot = λ (t : Node o alg Db Storage). maybe_snapshot o alg Db Storage memory gob t in
          subst
            (λ x.
              BothAgree x (apply_entries o alg Db Storage badger proto (es ++ committed rest) m))
            (sym (next-next ran (λ t. done (shot t)) end))
            (subst (λ y. BothAgree (next ran (λ t. end (shot t))) y)
              (sym (apply_entries-append es (committed rest) m))
              (next-BothAgree ran (apply_entries o alg Db Storage badger proto es m)
                (λ t. end (shot t)) (apply_entries o alg Db Storage badger proto (committed rest))
                started (λ t u b. run-Agrees rest (shot t) u (snapshot-Agrees t u b))))

      -- However Raft batches its entries, and whatever the storage does with them: on a node with a
      -- sound engine the event loop takes up the Readys without a panic, and leaves the engine, the
      -- store and the applied index that applying the committed entries one after another leaves.
      pub run-apply_entries :
          {law : IsLawful o alg} (rds : List (List Entry × List Entry)) (n : Node o alg Db Storage)
          → IsProto proto
          → IsSound law n.engine
          → (n' : Node o alg Db Storage) × (m : Node o alg Db Storage) × (run o alg Db Storage
                badger proto memory gob rds n
              ≡ done n')
            × (apply_entries o alg Db Storage badger proto (committed rds) n ≡ done m)
            × Agrees n' m
      run-apply_entries {law} rds n is_proto h =
          let (m, applied, sound) =
            apply_entries-IsSound badger proto law is_proto (committed rds) n h in
          agreed (run o alg Db Storage badger proto memory gob rds n) m applied
            (rw applied at (run-Agrees rds n n (Agrees-refl n)))
        where
          agreed :
              (r : Run (Node o alg Db Storage)) (m : Node o alg Db Storage)
              → apply_entries o alg Db Storage badger proto (committed rds) n ≡ done m
              → BothAgree r (done m)
              → (n' : Node o alg Db Storage) × (t : Node o alg Db Storage) × (r ≡ done n')
                × (apply_entries o alg Db Storage badger proto (committed rds) n ≡ done t)
                × Agrees n' t
          agreed (done n') m applied a = (n', m, refl, applied, a)
          agreed panic m applied a = absurd a
