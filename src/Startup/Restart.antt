-- ===== src/Startup/Restart.antt =====
-- A restart: the engine that `run` rebuilds answers what the engine answered that wrote the store.
use time_series_cardinality.Base.{
  ℕ, ◌≡◌, refl, sym, ◌∙◌, ap, inl, inr, Option, none, some, List, [], ◌∷◌, Bytes, bytes_eq, arith,
  length, Option-cases, subst,
}
use time_series_cardinality.Map.{find, lookup}
use time_series_cardinality.Errors.{Result, ok}
use time_series_cardinality.Sketch.{SketchOps, Algorithm, IsLawful}
use time_series_cardinality.Engine.{Engine, new_engine, added, add_and_persist, cardinality}
use time_series_cardinality.Engine.Groups.{IsSound, new_engine-IsSound, added-Touches}
use time_series_cardinality.Engine.Snapshots.{cardinality_known, cardinality_unknown}
use time_series_cardinality.Engine.Streams.{stream, answer, cardinality-adds, fresh_lookup}
use time_series_cardinality.Store.{Badger, BadgerStore, key, key_prefix, load_all}
use time_series_cardinality.Store.Laws.{IsBadger}
use time_series_cardinality.Store.Scan.{IsScan}
use time_series_cardinality.Startup.{rebuild}
use time_series_cardinality.Startup.Recovery.{After, AllReadable, load_items-Readable}
use time_series_cardinality.Startup.Durable.{
  on_disk, IsDurable, empty-IsDurable, AllAcknowledged, serve, serve-IsDurable, engine-serve,
}

module _ {o : SketchOps} {alg : Algorithm o} (law : IsLawful o alg) {Db : Type 0}
    (badger : Badger Db) where
  open law use {Same, same_cardinality, parse_bytes}

  -- The engine's sketch that a restored one stands for.
  abbrev Restores : Engine o alg → Bytes → o.Sketch → Type 0
  Restores e g t = (sk : o.Sketch) × (lookup g e.groups ≡ some sk) × Same t sk

  readable :
      (e : Engine o alg) (st : BadgerStore Db)
      → IsScan badger
      → IsSound law e
      → IsDurable o alg badger e st
      → AllReadable o alg (Restores e) (badger.scan key_prefix st.db)
  unfolding key
  readable e st scan sound h k item p =
      let (g, under) = scan.prefixed key_prefix st.db k item p in
      let there : find (key g) (badger.scan key_prefix st.db) ≡ some item =
        ap (λ j. find j (badger.scan key_prefix st.db)) (sym under) ∙ p in
      elim (Option-cases (lookup g e.groups)) [
        | inl absent ↦
            let none_there =
              scan.missing key_prefix g st.db (h.stored g ∙ ap (λ s. ok (on_disk o s)) absent) in
            cc none_there
        | inr (sk, known) ↦
            let (t, parsed, same) = parse_bytes sk (sound.made g sk known) in
            let read =
              scan.found key_prefix g (o.bytes sk) st.db
                (h.stored g ∙ ap (λ s. ok (on_disk o s)) known) in
            record {
              group = g;
              bytes = o.bytes sk;
              sketch = t;
              under = under;
              there = cc read;
              parsed = parsed;
              related = (sk, known, same);
            }
      ]

  reads_back :
      (e e' : Engine o alg) (g : Bytes) (item : Option (Result Bytes))
      → (item ≡ none → lookup g e.groups ≡ none)
      → After (Restores e g) item none (lookup g e'.groups)
      → cardinality o alg g e' ≡ cardinality o alg g e
  reads_back e e' g none gone absent =
      cardinality_unknown o alg g e' absent ∙ sym (cardinality_unknown o alg g e (gone refl))
  reads_back e e' g (some item) gone (t, found, (sk, known, same)) =
      cardinality_known o alg g e' found
      ∙ ap ok (same_cardinality same)
      ∙ sym (cardinality_known o alg g e known)

  gone :
      (e : Engine o alg) (st : BadgerStore Db) (g : Bytes)
      → IsScan badger
      → IsDurable o alg badger e st
      → find (key g) (badger.scan key_prefix st.db) ≡ none
      → lookup g e.groups ≡ none
  unfolding key
  gone e st g scan h unseen = elim (Option-cases (lookup g e.groups)) [
    | inl absent ↦ absent
    | inr (sk, known) ↦ cc (
      unseen,
      scan.found key_prefix g (o.bytes sk) st.db (h.stored g ∙ ap (λ s. ok (on_disk o s)) known),
    )
  ]

  -- A restart: from a store that holds the groups of a sound engine, and no others, the startup
  -- rebuilds, without an error, an engine that answers for every group what that engine answers.
  -- The count of restored groups is the number of keys read.
  pub rebuild-IsDurable :
      (e : Engine o alg) (st : BadgerStore Db)
      → IsScan badger
      → IsSound law e
      → IsDurable o alg badger e st
      → ((rebuild o alg badger st).0 ≡ none)
        × ((g : Bytes) → cardinality o alg g (rebuild o alg badger st).1.0 ≡ cardinality o alg g e)
        × ((rebuild o alg badger st).1.1 ≡ length (badger.scan key_prefix st.db))
  unfolding rebuild load_all
  rebuild-IsDurable e st scan sound h =
      let (e', ran, now) =
        load_items-Readable o alg (Restores e) (badger.scan key_prefix st.db) (new_engine o alg) 0
          (scan.distinct key_prefix st.db) (readable e st scan sound h) in
      (
        ap (λ r. r.0) ran,
        λ g.
            ap (λ r. cardinality o alg g r.1.0) ran
            ∙ reads_back e e' g (find (key g) (badger.scan key_prefix st.db)) (gone e st g scan h) (
                subst
                  (λ old.
                    After (Restores e g) (find (key g) (badger.scan key_prefix st.db)) old
                      (lookup g e'.groups))
                  (fresh_lookup o alg g) (now g)),
        ap (λ r. r.1.1) ran ∙ omega arith,
      )

  pub serve-IsSound :
      (calls : List (Bytes × ℕ)) (e : Engine o alg) (st : BadgerStore Db)
      → IsSound law e
      → IsSound law (serve o alg badger calls e st).0
  unfolding serve add_and_persist
  serve-IsSound [] e st h = h
  serve-IsSound ((g, id) ∷ calls) e st h =
      serve-IsSound calls _ _ (unfold added in (added-Touches law g id h).sound)

  -- From an empty store, after calls of AddAndPersist that all returned nil, a restart answers for
  -- every group the count of exactly the ids that were added to it.
  pub rebuild-adds :
      (calls : List (Bytes × ℕ)) (st : BadgerStore Db)
      → IsBadger badger
      → IsScan badger
      → ((g : Bytes) → badger.get (key g) st.db ≡ ok none)
      → AllAcknowledged o alg badger calls (new_engine o alg) st
      → let final = serve o alg badger calls (new_engine o alg) st in
        ((rebuild o alg badger final.1).0 ≡ none)
        × ((g : Bytes)
            → cardinality o alg g (rebuild o alg badger final.1).1.0
              ≡ answer o alg g (stream g calls))
  rebuild-adds calls st doc scan bare fine =
      let e = new_engine o alg in
      let final = serve o alg badger calls e st in
      let durable =
        serve-IsDurable o alg badger calls e st doc (empty-IsDurable o alg badger st bare) fine in
      let (ran, same, _) =
        rebuild-IsDurable final.0 final.1 scan (serve-IsSound calls e st (new_engine-IsSound law))
          durable in
      (
        ran,
        λ g.
            same g
            ∙ ap (cardinality o alg g) (engine-serve o alg badger calls e st)
            ∙ cardinality-adds o alg calls g,
      )
