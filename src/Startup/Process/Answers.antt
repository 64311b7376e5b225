-- ===== src/Startup/Process/Answers.antt =====
-- cmd/server/main.go: what holds of all that run does, and of the answers of the service.
use time_series_cardinality.Base.{
  ◌≡◌, refl, sym, ◌∙◌, ap, false, List, [], ◌∷◌, Bytes, All, subst, ℕ, none,
}
use time_series_cardinality.External.{Murmur, Floats, Roaring}
use time_series_cardinality.Errors.{ok}
use time_series_cardinality.Backends.{sketch_ops, hll_algorithm}
use time_series_cardinality.Backends.HllLaws.{hll_lawful}
use time_series_cardinality.Engine.{Engine, Gob, new_engine, cardinality}
use time_series_cardinality.Engine.Groups.{IsSound}
use time_series_cardinality.Store
use time_series_cardinality.Store.{Badger, BadgerStore, key}
use time_series_cardinality.Store.Laws.{IsBadger}
use time_series_cardinality.Store.Scan.{IsScan}
use time_series_cardinality.Startup.{rebuild, restore_item}
use time_series_cardinality.Server.{Network, RaftNode}
use time_series_cardinality.Startup.Process.Reading.{AnswersLike, service-AnswersLike}
use time_series_cardinality.Node.{Proto, MemoryStorage}
use time_series_cardinality.Node.Laws.{IsProto}
use time_series_cardinality.Node.Batching.{committed}
use time_series_cardinality.Node.Loop.{Loop, new_loop, Steps}
use time_series_cardinality.Node.Loop.Conserved.{received}
use time_series_cardinality.Startup.Failures.Committed.{last_written}
use time_series_cardinality.Startup.Failures.Interleaved.{rebuild-Steps}
use time_series_cardinality.Startup.Durable.{IsDurable}
use time_series_cardinality.Startup.Restart.{rebuild-IsDurable}
use time_series_cardinality.Startup.Process.{Flags, Host, Service, Effect, serving_grpc, run}
use time_series_cardinality.Startup.Process.Keeping.{Kept}
use time_series_cardinality.Startup.Process.Serving.{Restores, Proper, run_with-Keeps}

All-imp : {A : Type 0} {P Q : A → Type 0} → ((x : A) → P x → Q x) → (l : List A) → All P l → All Q l
All-imp h [] k = tt
All-imp h (x ∷ l) k = (h x k.0, All-imp h l k.1)

-- The service counts by hll.
abbrev pub Reads :
    (m : Murmur) (f : Floats) (r : Roaring) (Db Storage : Type 0)
    → Badger Db
    → {W : Type 0} (net : Network W) → RaftNode W
    → W
    → (Bytes → Engine (sketch_ops m f r) (hll_algorithm m f r))
    → Effect (sketch_ops m f r) (hll_algorithm m f r) Db Storage
    → Type 0
Reads m f r Db Storage badger net raft w =
    AnswersLike (sketch_ops m f r) (hll_algorithm m f r) Db Storage net raft w badger m

module _ (m : Murmur) (f : Floats) (r : Roaring) (Db Storage : Type 0) (badger : Badger Db)
    (host : Host Db Storage) (flags : Flags) where
  -- Whatever run does on the way: it listens, and serves HTTP and metrics, only at the flags' ports
  -- and only after the store was opened and restored without an error; the gateway dials the port of
  -- the gRPC listener; and the service behind that port has the engine rebuilt from the store, the
  -- store itself, and the ring and the address that the flags give.
  pub run-Proper :
      All
        (Proper (sketch_ops m f r) (hll_algorithm m f r) Db Storage badger m host flags)
        (run m f r Db Storage badger host flags).1
  unfolding run
  run-Proper = unfold Kept in run_with-Keeps badger m host flags [] tt

  open_at_lem :
      (db : Db)
      → host.badger_open flags.data_dir false ≡ ok db
      → Store.open_at host.badger_open flags.data_dir
        ≡ ok (record { db = db; saves = 0; save_errors = 0 })
  unfolding Store.open_at
  open_at_lem db there = rw (there, Store.open_at) refl

  module _ (d : Bytes → Engine (sketch_ops m f r) (hll_algorithm m f r)) (st : BadgerStore Db)
      (there : host.badger_open flags.data_dir false ≡ ok st.db)
      (answers : (g : Bytes)
        → cardinality
            (sketch_ops m f r)
            (hll_algorithm m f r)
            g
            (rebuild (sketch_ops m f r) (hll_algorithm m f r) badger st).1.0
          ≡ cardinality (sketch_ops m f r) (hll_algorithm m f r) g (d g)) where
    rebuild-same :
        (db : BadgerStore Db)
        → Store.open_at host.badger_open flags.data_dir ≡ ok db
        → rebuild (sketch_ops m f r) (hll_algorithm m f r) badger db
          ≡ rebuild (sketch_ops m f r) (hll_algorithm m f r) badger st
    unfolding rebuild Store.load_all
    rebuild-same db opened =
        let here : db.db ≡ st.db =
          ap (λ s. s.db) (ok-injective (sym opened ∙ open_at_lem st.db there)) in
        ap
          (λ x.
            Store.load_items (restore_item (sketch_ops m f r) (hll_algorithm m f r))
              (badger.scan Store.key_prefix x)
              (new_engine (sketch_ops m f r) (hll_algorithm m f r), 0))
          here
      where
        ok-injective : {a b : BadgerStore Db} → ok a ≡ ok b → a ≡ b
        ok-injective p = cc p

    same_engine :
        (service : Service (sketch_ops m f r) (hll_algorithm m f r) Db Storage)
        → Restores (sketch_ops m f r) (hll_algorithm m f r) Db Storage badger m host flags service
        → (j : Bytes)
        → cardinality (sketch_ops m f r) (hll_algorithm m f r) j service.node.engine
          ≡ cardinality (sketch_ops m f r) (hll_algorithm m f r) j (d j)
    same_engine service p j =
        let now = sym (rebuild-same p.read.db p.read.opened_store) ∙ p.read.rebuilt in
        subst
          (λ x.
            cardinality (sketch_ops m f r) (hll_algorithm m f r) j x
            ≡ cardinality (sketch_ops m f r) (hll_algorithm m f r) j (d j))
          (ap (λ x. x.1.0) now ∙ sym p.same_engine) (answers j)

  module _ {W : Type 0} (net : Network W) (raft : RaftNode W) (w : W) where
    Restores-Reads :
        (d : Bytes → Engine (sketch_ops m f r) (hll_algorithm m f r)) (st : BadgerStore Db)
        → host.badger_open flags.data_dir false ≡ ok st.db
        → ((j : Bytes)
            → cardinality
                (sketch_ops m f r)
                (hll_algorithm m f r)
                j
                (rebuild (sketch_ops m f r) (hll_algorithm m f r) badger st).1.0
              ≡ cardinality (sketch_ops m f r) (hll_algorithm m f r) j (d j))
        → (x : Effect (sketch_ops m f r) (hll_algorithm m f r) Db Storage)
        → Proper (sketch_ops m f r) (hll_algorithm m f r) Db Storage badger m host flags x
        → Reads m f r Db Storage badger net raft w d x
    unfolding Proper AnswersLike
    Restores-Reads d st there answers (serving_grpc service) p =
        service-AnswersLike (sketch_ops m f r) (hll_algorithm m f r) Db Storage net raft w badger m
          d service (same_engine d st there answers service p)
    Restores-Reads d st there answers other p = tt

    -- What run serves answers as the engine that is rebuilt from its database.
    run-rebuild :
        (d : Bytes → Engine (sketch_ops m f r) (hll_algorithm m f r)) (st : BadgerStore Db)
        → host.badger_open flags.data_dir false ≡ ok st.db
        → ((j : Bytes)
            → cardinality
                (sketch_ops m f r)
                (hll_algorithm m f r)
                j
                (rebuild (sketch_ops m f r) (hll_algorithm m f r) badger st).1.0
              ≡ cardinality (sketch_ops m f r) (hll_algorithm m f r) j (d j))
        → All
            (Reads m f r Db Storage badger net raft w d)
            (run m f r Db Storage badger host flags).1
    run-rebuild d st there answers = All-imp (Restores-Reads d st there answers) _ run-Proper

    -- A process over a database that holds the groups of a sound engine, and no others: whenever
    -- run serves, the engine of the service that it serves has for every group the count, or the
    -- error, that the sound engine has. As its first request, the service's Query answers an empty
    -- name with an error; a group that the service's ring and address put at another node with
    -- what that node answers, or with an error if it cannot be dialled; and any other group with
    -- the count of the sound engine, 0 for one that the engine does not know.
    pub run-AnswersLike :
        (e : Engine (sketch_ops m f r) (hll_algorithm m f r)) (st : BadgerStore Db)
        → IsScan badger
        → host.badger_open flags.data_dir false ≡ ok st.db
        → IsSound (hll_lawful m f r) e
        → IsDurable (sketch_ops m f r) (hll_algorithm m f r) badger e st
        → All
            (Reads m f r Db Storage badger net raft w (λ j. e))
            (run m f r Db Storage badger host flags).1
    run-AnswersLike e st scan there sound h =
        run-rebuild (λ j. e) st there
          (rebuild-IsDurable (hll_lawful m f r) badger e st scan sound h).1

    -- From one process to the next: a node that counts by hll and began with an empty store can be
    -- ended after any step of its event loop, whatever the interleaving, the committed entries and
    -- the results of Save were. Whenever a later run on its database serves, the engine of the
    -- service that it serves has for every group the count that the node's engine had right after
    -- the last committed entry on the group that was handled without an error and whose Save
    -- returned nil, and does not know the group if there is none. As its first request, the
    -- service's Query answers an empty name with an error; a group that the service's ring and
    -- address put at another node with what that node answers, or with an error if it cannot be
    -- dialled; and any other group with that count, 0 if there is none.
    pub run-Steps :
        (proto : Proto) (memory : MemoryStorage Storage) (gob : Gob)
        → IsBadger badger
        → IsScan badger
        → IsProto proto
        → (id : ℕ) (st : BadgerStore Db) (storage : Storage)
        → ((j : Bytes) → badger.get (key j) st.db ≡ ok none)
        → let new = new_engine (sketch_ops m f r) (hll_algorithm m f r) in
          let started =
            new_loop (sketch_ops m f r) (hll_algorithm m f r) Db Storage id new st storage in
          (t : Loop (sketch_ops m f r) (hll_algorithm m f r) Db Storage)
          (steps : Steps
            (sketch_ops m f r)
            (hll_algorithm m f r)
            Db
            Storage
            badger
            proto
            memory
            gob
            started
            t)
          → host.badger_open flags.data_dir false ≡ ok t.raft.store.db
          → All
              (Reads m f r Db Storage badger net raft w (
                last_written Storage badger proto
                  (committed (received badger proto memory gob steps))
                  started.raft
                  (λ j. new)))
              (run m f r Db Storage badger host flags).1
    unfolding new_loop
    run-Steps proto memory gob doc scan is_proto id st storage bare t steps there =
        run-rebuild _ t.raft.store there
          (rebuild-Steps (hll_lawful m f r) badger proto memory gob doc scan is_proto id st storage
            bare t steps).1
