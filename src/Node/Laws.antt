-- ===== src/Node/Laws.antt =====
-- Committed entries and snapshots.
use time_series_cardinality.Base.{
  ℕ, ◌≡◌, ◌≤◌, ◌<◌, refl, ◌∙◌, ap, ◌⊎◌, inl, inr, true, false, not, ◌||◌, Option, none, some, List,
  [], ◌∷◌, Bytes, bytes_eq, IsByte, All, arith, length, nat_eqb, nat_eqb_iff, ltb, ltb→lt,
  Bool-cases, Option-cases,
}
use time_series_cardinality.Map.{lookup, lookup-insert_self}
use time_series_cardinality.Errors.{Error, Result, ok, Result-cases, done, Returns-cases}
use time_series_cardinality.Sketch.{SketchOps, Algorithm, IsLawful}
use time_series_cardinality.Engine.{Engine, Save, Gob, added, sketch_of, add, persist, marshal}
use time_series_cardinality.Engine.Groups.{IsSound, Touches}
use time_series_cardinality.Handler.Dispatching.{dispatch-default}
use time_series_cardinality.Handler.{Command, type_add, default_registry, dispatch}
use time_series_cardinality.Handler.Payloads.{IsId, apply_add-encoded}
use time_series_cardinality.Handler.Safety.{engine_adder, dispatch-Touches}
use time_series_cardinality.Store.{Badger, save}
use time_series_cardinality.Node.{
  Node, Proto, Entry, MemoryStorage, snapshot_threshold, add_command, propose_add, persist_entry,
  apply_entry, apply_entries, maybe_snapshot,
}

-- What protobuf documents: Unmarshal reads back what Marshal wrote, the bytes of a command are never
-- none (its type is not empty), and a bytes field holds bytes.
pub record IsProto (proto : Proto) : Type 0 where
  pub unmarshal-marshal :
      (cmd : Command) (b : Bytes) → proto.marshal cmd ≡ ok b → proto.unmarshal b ≡ ok cmd
  pub marshal_some :
      (group : Bytes) (id : ℕ) (b : Bytes)
      → proto.marshal (add_command group id) ≡ ok b
      → 0 < length b
  pub payload_bytes :
      (b : Bytes) (cmd : Command) → proto.unmarshal b ≡ ok cmd → All IsByte cmd.payload

pub dispatch-add_command :
    {o : SketchOps} {alg : Algorithm o} (group : Bytes) (id : ℕ) (e : Engine o alg)
    → IsId id
    → dispatch default_registry (some (add_command group id)) (some (engine_adder o alg)) e
      ≡ done (none, added o alg group id e)
dispatch-add_command {o} {alg} group id e h =
    (dispatch-default (add_command group id) (engine_adder o alg) e).0 (unfold add_command in refl)
    ∙ unfold add_command in
      apply_add-encoded type_add group id (engine_adder o alg) e h ∙ unfold add in refl

propose-marshal :
    (proto : Proto) (group : Bytes) (id : ℕ) (taken : Option Error) (answer : Result (Option Error))
    (b : Bytes)
    → (propose_add proto group id taken answer).1 ≡ some b
    → proto.marshal (add_command group id) ≡ ok b
unfolding propose_add
propose-marshal proto group id taken answer b p =
    elim (Result-cases (proto.marshal (add_command group id))) [
      | inr (x, bad) ↦ cc (rw (bad, propose_add) at p)
      | inl (c, fine) ↦ elim (Option-cases taken) [
        | inr (x, cancelled) ↦ cc (rw (fine, cancelled, propose_add) at p)
        | inl took ↦ elim (Result-cases answer) [
          | inl (r, came) ↦ fine ∙ cc (rw (fine, took, came, propose_add) at p)
          | inr (x, late) ↦ fine ∙ cc (rw (fine, took, late, propose_add) at p)
        ]
      ]
    ]

pub persist_known :
    (o : SketchOps) (alg : Algorithm o) {W : Type 0} (keep : Save W) (g : Bytes) (sk : o.Sketch)
    (e : Engine o alg) (w : W)
    → lookup g e.groups ≡ some sk
    → persist o alg g keep e w ≡ keep (o.bytes sk) w
unfolding persist
persist_known o alg keep g sk e w found = rw (found, persist) refl

module _ {o : SketchOps} {alg : Algorithm o} {Db Storage : Type 0} (badger : Badger Db)
    (proto : Proto) where
  pub apply_entry-run :
      (index : ℕ) (b : Bytes) (cmd : Command) (engine : Engine o alg) (n : Node o alg Db Storage)
      → 0 < length b
      → proto.unmarshal b ≡ ok cmd
      → dispatch default_registry (some cmd) (some (engine_adder o alg)) n.engine
        ≡ done (none, engine)
      → apply_entry o alg Db Storage badger proto
          (record { normal = true; index = index; bytes = b })
          n
        ≡ done
            (persist_entry o alg Db Storage badger proto index cmd (record n { engine = engine }))
  unfolding apply_entry
  apply_entry-run index b cmd engine n some_bytes decoded ran =
      let full : nat_eqb (length b) 0 ≡ false = ground (arith, nat_eqb_iff (length b) 0) in
      rw (full, decoded, apply_entry) (rw ran refl)

  -- A committed ADD is one Add on the engine, and the store is what Save makes of the new sketch.
  module _ (is_proto : IsProto proto) where
    stored_entry :
        (index : ℕ) (cmd : Command) (n : Node o alg Db Storage) (sk : o.Sketch)
        → lookup cmd.group n.engine.groups ≡ some sk
        → (persist_entry o alg Db Storage badger proto index cmd n).store
          ≡ (save badger cmd.group (o.bytes sk) n.store).1
    unfolding persist_entry
    stored_entry index cmd n sk found =
        ap (λ r. r.1)
          (persist_known o alg (save badger cmd.group) cmd.group sk n.engine n.store found)

    -- What ProposeAdd proposes for an id of 64 bits, once Raft has committed it as an entry, adds the id to the
    -- group's sketch and moves the applied index to the entry; and the store is then what Save of
    -- the new sketch makes of it.
    pub apply_entry-propose_add :
        (group : Bytes) (id index : ℕ) (taken : Option Error) (answer : Result (Option Error))
        (b : Bytes) (n : Node o alg Db Storage)
        → IsId id
        → (propose_add proto group id taken answer).1 ≡ some b
        → (n' : Node o alg Db Storage) × (apply_entry o alg Db Storage badger proto
              (record { normal = true; index = index; bytes = b })
              n
            ≡ done n')
          × (n'.engine ≡ added o alg group id n.engine)
          × (n'.applied_idx ≡ index)
          × (n'.store
              ≡ (save badger group (o.bytes (o.add (sketch_of o alg group n.engine) id)) n.store).1)
    apply_entry-propose_add group id index taken answer b n h proposed =
        let marshalled = propose-marshal proto group id taken answer b proposed in
        let n₁ : Node o alg Db Storage = record n { engine = added o alg group id n.engine } in
        (
          persist_entry o alg Db Storage badger proto index (add_command group id) n₁,
          apply_entry-run index b (add_command group id) _ n
              (is_proto.marshal_some group id b marshalled)
              (is_proto.unmarshal-marshal (add_command group id) b marshalled)
              (dispatch-add_command group id n.engine h),
          unfold persist_entry in refl,
          unfold persist_entry in refl,
          unfold add_command in
              stored_entry index (add_command group id) n₁ _
                (unfold added in lookup-insert_self group _ n.engine.groups),
        )

  module _ (law : IsLawful o alg) (is_proto : IsProto proto) where
    pub apply_entry-IsSound :
        (e : Entry) (n : Node o alg Db Storage)
        → IsSound law n.engine
        → (n' : Node o alg Db Storage) × (apply_entry o alg Db Storage badger proto e n ≡ done n')
          × IsSound law n'.engine
    unfolding apply_entry
    apply_entry-IsSound e n h = elim (Bool-cases (not e.normal || nat_eqb (length e.bytes) 0)) [
      | inl skipped ↦ rw skipped (n, refl, h)
      | inr full ↦ elim (Result-cases (proto.unmarshal e.bytes)) [
        | inr (x, bad) ↦ rw (full, bad, apply_entry) (n, refl, h)
        | inl (cmd, decoded) ↦
            let touched = dispatch-Touches law cmd h (is_proto.payload_bytes e.bytes cmd decoded) in
            let (r, engine, ran, step) = Returns-cases (Touches law cmd.group n.engine) _ touched in
            elim (Option-cases r) [
              | inl fine ↦ (
                persist_entry o alg Db Storage badger proto e.index cmd
                    (record n { engine = engine }),
                rw (full, decoded, apply_entry) (rw (ran ∙ ap (λ x. done (x, engine)) fine) refl),
                unfold persist_entry in step.sound,
              )
              | inr (x, failed) ↦ (
                record n { engine = engine },
                rw (full, decoded, apply_entry) (rw (ran ∙ ap (λ x. done (x, engine)) failed) refl),
                step.sound,
              )
            ]
      ]
    ]

    -- Whatever entries are committed: applying them to a node with a sound engine ends without a
    -- panic, and the engine is sound again.
    pub apply_entries-IsSound :
        (es : List Entry) (n : Node o alg Db Storage)
        → IsSound law n.engine
        → (n' : Node o alg Db Storage) × (apply_entries o alg Db Storage badger proto es n
            ≡ done n')
          × IsSound law n'.engine
    unfolding apply_entries
    apply_entries-IsSound [] n h = (n, refl, h)
    apply_entries-IsSound (e ∷ es) n h =
        let (n', p, h') = apply_entry-IsSound e n h in
        let (n'', q, h'') = apply_entries-IsSound es n' h' in (n'', rw (p, apply_entries) q, h'')

module _ {o : SketchOps} {alg : Algorithm o} {Db Storage : Type 0} (memory : MemoryStorage Storage)
    (gob : Gob) where
  abbrev pub Snapshot : Node o alg Db Storage → Node o alg Db Storage → Type 0
  Snapshot n n' =
      (n'.engine ≡ n.engine)
      × (n'.store ≡ n.store)
      × (n'.applied_idx ≡ n.applied_idx)
      × ((n'.snap_count ≡ n.snap_count)
          ⊎ ((b : Bytes) × (snapshot_threshold ≤ n.snap_count)
              × (marshal o alg gob n.engine ≡ ok b)
              × ((memory.apply_snapshot n.applied_idx 1 b n.storage).0 ≡ none)
              × (n'.snap_count ≡ 0)))

  -- A check for a snapshot leaves the engine, the store and the applied index alone. It resets the
  -- count of entries only where that had reached the threshold, and the storage took a snapshot of
  -- the engine at the applied index; else the count is as it was.
  pub maybe_snapshot_lem :
      (n : Node o alg Db Storage) → Snapshot n (maybe_snapshot o alg Db Storage memory gob n)
  unfolding maybe_snapshot
  maybe_snapshot_lem n = elim (Bool-cases (ltb n.snap_count snapshot_threshold)) [
    | inl few ↦ rw few (refl, refl, refl, inl refl)
    | inr many ↦ elim (Result-cases (marshal o alg gob n.engine)) [
      | inr (x, bad) ↦ rw (many, bad, maybe_snapshot) (refl, refl, refl, inl refl)
      | inl (b, fine) ↦ elim (Option-cases (memory.apply_snapshot n.applied_idx 1 b n.storage).0) [
        | inr (x, failed) ↦ rw (many, fine, failed, maybe_snapshot) (refl, refl, refl, inl refl)
        | inl took ↦
            rw (many, fine, took, maybe_snapshot)
              (refl, refl, refl, inr (b, ltb-false _ _ many, refl, took, refl))
      ]
    ]
  ]
    where
      ltb-false : (a b : ℕ) → ltb a b ≡ false → b ≤ a
      ltb-false a b h = ground (arith, ltb→lt a b)
