-- ===== src/Startup/Entries.antt =====
-- Committed entries and a restart: when the store keeps up with the engine, and when it does not.
use time_series_cardinality.Base.{
  ℕ, ◌≡◌, refl, sym, ◌∙◌, ap, inl, inr, not, ◌||◌, Option, none, some, List, [], ◌∷◌, Bytes,
  bytes_eq, ◌==◌, length, nat_eqb, bytes_eqb_iff, Bool-cases, Option-cases, subst,
}
use time_series_cardinality.Map.{lookup}
use time_series_cardinality.Errors.{Error, ok, Result-cases, done, Returns-cases}
use time_series_cardinality.Sketch.{SketchOps, Algorithm, IsLawful}
use time_series_cardinality.Engine.{Engine, persist, cardinality}
use time_series_cardinality.Engine.Groups.{IsSound, Touches}
use time_series_cardinality.Handler.{Command, default_registry, dispatch}
use time_series_cardinality.Handler.Safety.{engine_adder, dispatch-Touches}
use time_series_cardinality.Store.{Badger, save}
use time_series_cardinality.Store.Laws.{IsBadger}
use time_series_cardinality.Store.Scan.{IsScan}
use time_series_cardinality.Node.{Node, Proto, Entry, persist_entry, apply_entry, apply_entries}
use time_series_cardinality.Node.Laws.{IsProto, persist_known}
use time_series_cardinality.Startup.{rebuild}
use time_series_cardinality.Startup.Durable.{on_disk, IsDurable, saved-IsDurable}
use time_series_cardinality.Startup.Restart.{rebuild-IsDurable}

pub persist_unknown :
    (o : SketchOps) (alg : Algorithm o) {W : Type 0} (keep : Bytes → W → Option Error × W)
    (g : Bytes) (e : Engine o alg) (w : W)
    → lookup g e.groups ≡ none
    → (persist o alg g keep e w).1 ≡ w
unfolding persist
persist_unknown o alg keep g e w absent = rw (absent, persist) refl

module _ {o : SketchOps} {alg : Algorithm o} (law : IsLawful o alg) {Db : Type 0} (Storage : Type 0)
    (badger : Badger Db) (proto : Proto) where
  -- The entry's command, if it has one, is handled without an error, and Save of the group's new
  -- sketch returns nil.
  pub record Written (e : Entry) (n : Node o alg Db Storage) : Type 0 where
    pub handled :
        (cmd : Command) (r : Option Error) (engine : Engine o alg)
        → proto.unmarshal e.bytes ≡ ok cmd
        → dispatch default_registry (some cmd) (some (engine_adder o alg)) n.engine
          ≡ done (r, engine)
        → (r ≡ none)
          × ((sk : o.Sketch)
              → lookup cmd.group engine.groups ≡ some sk
              → (save badger cmd.group (o.bytes sk) n.store).0 ≡ none)

  abbrev Kept : Node o alg Db Storage → Type 0
  Kept n = IsSound law n.engine × IsDurable o alg badger n.engine n.store

  persist_entry-IsDurable :
      (index : ℕ) (cmd : Command) (n : Node o alg Db Storage) (engine : Engine o alg)
      → IsBadger badger
      → IsDurable o alg badger n.engine n.store
      → Touches law cmd.group n.engine engine
      → ((sk : o.Sketch)
          → lookup cmd.group engine.groups ≡ some sk
          → (save badger cmd.group (o.bytes sk) n.store).0 ≡ none)
      → IsDurable o alg badger engine
          (persist_entry o alg Db Storage badger proto index cmd
            (record n { engine = engine })).store
  unfolding persist_entry
  persist_entry-IsDurable index cmd n engine doc h step fine =
      elim (Option-cases (lookup cmd.group engine.groups)) [
        | inr (sk, known) ↦
            subst (λ st. IsDurable o alg badger engine st)
              (sym (
                ap (λ r. r.1)
                  (persist_known o alg (save badger cmd.group) cmd.group sk engine n.store known)))
              (saved-IsDurable o alg badger cmd.group sk n.engine engine n.store doc h known
                step.others (fine sk known))
        | inl absent ↦
            subst (λ st. IsDurable o alg badger engine st)
              (sym (persist_unknown o alg (save badger cmd.group) cmd.group engine n.store absent))
              (record {
                stored = λ g. h.stored g ∙ ap (λ s. ok (disk s)) (sym (unchanged absent g));
              })
      ]
    where
      disk : Option o.Sketch → Option Bytes
      disk = on_disk o

      unchanged :
          lookup cmd.group engine.groups ≡ none
          → (g : Bytes) → lookup g engine.groups ≡ lookup g n.engine.groups
      unchanged absent g = elim (Bool-cases (cmd.group == g)) [
        | inl same ↦
            subst (λ k. lookup k engine.groups ≡ lookup k n.engine.groups)
              ((bytes_eqb_iff cmd.group g).0 same) (absent ∙ sym (step.grows absent))
        | inr other ↦ step.others g (λ q. cc (other, (bytes_eqb_iff cmd.group g).1 q))
      ]

  module _ (is_badger : IsBadger badger) (is_proto : IsProto proto) where
    apply_entry-Kept :
        (e : Entry) (n : Node o alg Db Storage)
        → Written e n
        → Kept n
        → (n' : Node o alg Db Storage) × (apply_entry o alg Db Storage badger proto e n ≡ done n')
          × Kept n'
    unfolding apply_entry
    apply_entry-Kept e n w (sound, h) =
        elim (Bool-cases (not e.normal || nat_eqb (length e.bytes) 0)) [
          | inl skipped ↦ rw skipped (n, refl, (sound, h))
          | inr full ↦ elim (Result-cases (proto.unmarshal e.bytes)) [
            | inr (x, bad) ↦ rw (full, bad, apply_entry) (n, refl, (sound, h))
            | inl (cmd, decoded) ↦
                let touched =
                  dispatch-Touches law cmd sound (is_proto.payload_bytes e.bytes cmd decoded) in
                let (r, engine, ran, step) =
                  Returns-cases (Touches law cmd.group n.engine) _ touched in
                let (fine, saved) = w.handled cmd r engine decoded ran in
                let n' =
                  persist_entry o alg Db Storage badger proto e.index cmd
                    (record n { engine = engine }) in
                (
                  n',
                  rw (full, decoded, apply_entry) (rw (ran ∙ ap (λ x. done (x, engine)) fine) refl),
                  (
                    unfold persist_entry in step.sound,
                    unfold persist_entry in
                        persist_entry-IsDurable e.index cmd n engine is_badger h step saved,
                  ),
                )
          ]
        ]

    -- Every entry of the list is Written, at the node that the entries before it leave.
    abbrev pub AllWritten : List Entry → Node o alg Db Storage → Type 0
    AllWritten [] n = Unit
    AllWritten (e ∷ es) n =
        Written e n
        × ((n' : Node o alg Db Storage)
            → apply_entry o alg Db Storage badger proto e n ≡ done n'
            → AllWritten es n')

    apply_entries-Kept :
        (es : List Entry) (n : Node o alg Db Storage)
        → AllWritten es n
        → Kept n
        → (n' : Node o alg Db Storage) × (apply_entries o alg Db Storage badger proto es n
            ≡ done n')
          × Kept n'
    unfolding apply_entries
    apply_entries-Kept [] n w h = (n, refl, h)
    apply_entries-Kept (e ∷ es) n w h =
        let (n', p, h') = apply_entry-Kept e n w.0 h in
        let (n'', q, h'') = apply_entries-Kept es n' (w.1 n' p) h' in
        (n'', rw (p, apply_entries) q, h'')

    -- Whatever entries are committed, if each command among them is handled without an error and
    -- each Save returns nil: from a sound engine that the store holds, they apply without a panic,
    -- and a restart then answers for every group what the running engine answers.
    pub rebuild-apply_entries :
        (es : List Entry) (n : Node o alg Db Storage)
        → IsScan badger
        → AllWritten es n
        → IsSound law n.engine
        → IsDurable o alg badger n.engine n.store
        → (n' : Node o alg Db Storage) × (apply_entries o alg Db Storage badger proto es n
            ≡ done n')
          × ((rebuild o alg badger n'.store).0 ≡ none)
          × ((g : Bytes)
              → cardinality o alg g (rebuild o alg badger n'.store).1.0
                ≡ cardinality o alg g n'.engine)
    rebuild-apply_entries es n scan w sound h =
        let (n', ran, (sound', h')) = apply_entries-Kept es n w (sound, h) in
        let (fine, same, _) = rebuild-IsDurable law badger n'.engine n'.store scan sound' h' in
        (n', ran, fine, same)
