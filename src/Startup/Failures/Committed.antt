-- ===== src/Startup/Failures/Committed.antt =====
-- A restart after committed entries, of which some were not handled or not written.
use time_series_cardinality.Base.{
  ℕ, ◌≡◌, refl, sym, ◌∙◌, ap, inl, inr, not, ◌||◌, Option, none, some, List, [], ◌∷◌, Bytes,
  bytes_eq, length, nat_eqb, Bool-cases, Option-cases, if◌then◌else◌, subst,
}
use time_series_cardinality.Map.{lookup}
use time_series_cardinality.Errors.{Error, ok, err, Result-cases, done, panic, Returns-cases}
use time_series_cardinality.Sketch.{SketchOps, Algorithm, IsLawful}
use time_series_cardinality.Engine.{Engine, new_engine, cardinality}
use time_series_cardinality.Engine.Groups.{IsSound, Touches}
use time_series_cardinality.Handler.{Command, default_registry, dispatch}
use time_series_cardinality.Handler.Safety.{engine_adder, dispatch-Touches}
use time_series_cardinality.Store.{Badger, key, save}
use time_series_cardinality.Store.Laws.{IsBadger}
use time_series_cardinality.Store.Scan.{IsScan}
use time_series_cardinality.Node.{Node, Proto, Entry, persist_entry, apply_entry, apply_entries}
use time_series_cardinality.Node.Laws.{IsProto, persist_known}
use time_series_cardinality.Startup.{rebuild}
use time_series_cardinality.Startup.Entries.{persist_unknown}
use time_series_cardinality.Startup.Failures.{recorded, Lags, empty-Lags, save-Lags, rebuild-Lags}

module _ {o : SketchOps} {alg : Algorithm o} {Db : Type 0} (Storage : Type 0) (badger : Badger Db)
    (proto : Proto) where
  -- The record of a command that Dispatch handled with `handled`, which left `engine`: the result of
  -- the Save of its group's sketch counts, if there is one.
  unfoldable pub record_handled :
      Bytes
      → Option Error
      → Engine o alg
      → Node o alg Db Storage
      → (Bytes → Engine o alg)
      → Bytes
      → Engine o alg
  unfolding recorded
  record_handled group (some x) engine n d = d
  record_handled group none engine n d = elim (lookup group engine.groups) [
    | none ↦ d
    | some sk ↦ recorded group (save badger group (o.bytes sk) n.store).0 engine d
  ]

  -- The record of one entry: only a normal one with a command can count.
  unfoldable pub record_entry :
      Entry → Node o alg Db Storage → (Bytes → Engine o alg) → Bytes → Engine o alg
  unfolding record_handled dispatch length
  record_entry e n d =
      if not e.normal || nat_eqb (length e.bytes) 0 then d else elim (proto.unmarshal e.bytes) [
        | err x ↦ d
        | ok cmd ↦
            elim (dispatch default_registry (some cmd) (some (engine_adder o alg)) n.engine) [
              | panic ↦ d
              | done (r, engine) ↦ record_handled cmd.group r engine n d
            ]
      ]

  -- For each group, the engine as the last entry left it whose command on the group was handled
  -- without an error and whose Save returned nil.
  unfoldable pub last_written :
      List Entry → Node o alg Db Storage → (Bytes → Engine o alg) → Bytes → Engine o alg
  unfolding record_entry apply_entry
  last_written [] n d = d
  last_written (e ∷ es) n d = elim (apply_entry o alg Db Storage badger proto e n) [
    | panic ↦ d
    | done n' ↦ last_written es n' (record_entry e n d)
  ]

  module _ (law : IsLawful o alg) (doc : IsBadger badger) (is_proto : IsProto proto) where
    persist_entry-Lags :
        (index : ℕ) (cmd : Command) (n : Node o alg Db Storage) (engine : Engine o alg)
        (d : Bytes → Engine o alg)
        → IsSound law engine
        → Lags law badger d n.store
        → Lags law badger
            (record_handled cmd.group none engine n d)
            (persist_entry o alg Db Storage badger proto index cmd
              (record n { engine = engine })).store
    unfolding persist_entry record_handled
    persist_entry-Lags index cmd n engine d sound h =
        elim (Option-cases (lookup cmd.group engine.groups)) [
          | inr (sk, known) ↦
              let now =
                persist_known o alg (save badger cmd.group) cmd.group sk engine n.store known in
              rw (known, record_handled)
                (subst
                  (λ st.
                    Lags law badger
                      (recorded cmd.group (save badger cmd.group (o.bytes sk) n.store).0 engine d)
                      st)
                  (sym (ap (λ r. r.1) now))
                  (save-Lags law badger cmd.group sk engine d n.store doc
                    (sound.made cmd.group sk known) known h))
          | inl absent ↦
              let now =
                persist_unknown o alg (save badger cmd.group) cmd.group engine n.store absent in
              rw (absent, record_handled) (subst (λ st. Lags law badger d st) (sym now) h)
        ]

    apply_entry-Lags :
        (e : Entry) (n : Node o alg Db Storage) (d : Bytes → Engine o alg)
        → IsSound law n.engine
        → Lags law badger d n.store
        → (n' : Node o alg Db Storage) × (apply_entry o alg Db Storage badger proto e n ≡ done n')
          × IsSound law n'.engine
          × Lags law badger (record_entry e n d) n'.store
    unfolding apply_entry record_entry
    apply_entry-Lags e n d sound h =
        elim (Bool-cases (not e.normal || nat_eqb (length e.bytes) 0)) [
          | inl skipped ↦ rw skipped (n, refl, sound, h)
          | inr full ↦ elim (Result-cases (proto.unmarshal e.bytes)) [
            | inr (x, bad) ↦ rw (full, bad, apply_entry, record_entry) (n, refl, sound, h)
            | inl (cmd, decoded) ↦
                let touched =
                  dispatch-Touches law cmd sound (is_proto.payload_bytes e.bytes cmd decoded) in
                let (r, engine, ran, step) =
                  Returns-cases (Touches law cmd.group n.engine) _ touched in
                let now : record_entry e n d ≡ record_handled cmd.group r engine n d =
                  rw (full, decoded, record_entry) (rw ran refl) in
                let n' =
                  persist_entry o alg Db Storage badger proto e.index cmd
                    (record n { engine = engine }) in
                elim (Option-cases r) [
                  | inl fine ↦ (
                    n',
                    rw (full, decoded, apply_entry)
                        (rw (ran ∙ ap (λ x. done (x, engine)) fine) refl),
                    unfold persist_entry in step.sound,
                    subst (λ d'. Lags law badger d' n'.store)
                        (sym (now ∙ ap (λ x. record_handled cmd.group x engine n d) fine))
                        (persist_entry-Lags e.index cmd n engine d step.sound h),
                  )
                  | inr (x, failed) ↦ (
                    record n { engine = engine },
                    rw (full, decoded, apply_entry)
                        (rw (ran ∙ ap (λ x. done (x, engine)) failed) refl),
                    step.sound,
                    subst (λ d'. Lags law badger d' n.store)
                        (sym (now ∙ ap (λ x. record_handled cmd.group x engine n d) failed))
                        (unfold record_handled in h),
                  )
                ]
          ]
        ]

    apply_entries-Lags :
        (es : List Entry) (n : Node o alg Db Storage) (d : Bytes → Engine o alg)
        → IsSound law n.engine
        → Lags law badger d n.store
        → (n' : Node o alg Db Storage) × (apply_entries o alg Db Storage badger proto es n
            ≡ done n')
          × Lags law badger (last_written es n d) n'.store
    unfolding apply_entries last_written
    apply_entries-Lags [] n d sound h = (n, refl, h)
    apply_entries-Lags (e ∷ es) n d sound h =
        let (n', p, sound', h') = apply_entry-Lags e n d sound h in
        let (n'', q, h'') = apply_entries-Lags es n' (record_entry e n d) sound' h' in
        (n'', rw (p, apply_entries) q, rw (p, last_written) h'')

    -- Whatever entries are committed, handled or not, and whatever the calls of Save return: from an
    -- empty store and a sound engine the entries apply without a panic, and a restart then reports
    -- no error, and answers for every group what the running engine answered right after the last
    -- entry on the group that was handled without an error and whose Save returned nil, which is an
    -- unknown group if there is none.
    pub rebuild-last_written :
        (es : List Entry) (n : Node o alg Db Storage)
        → IsScan badger
        → IsSound law n.engine
        → ((g : Bytes) → badger.get (key g) n.store.db ≡ ok none)
        → (n' : Node o alg Db Storage) × (apply_entries o alg Db Storage badger proto es n
            ≡ done n')
          × ((rebuild o alg badger n'.store).0 ≡ none)
          × ((g : Bytes)
              → cardinality o alg g (rebuild o alg badger n'.store).1.0
                ≡ cardinality o alg g (last_written es n (λ j. new_engine o alg) g))
    rebuild-last_written es n scan sound bare =
        let (n', ran, h) =
          apply_entries-Lags es n (λ j. new_engine o alg) sound
            (empty-Lags law badger n.store bare) in
        let (fine, same) = rebuild-Lags law badger _ n'.store scan h in (n', ran, fine, same)
