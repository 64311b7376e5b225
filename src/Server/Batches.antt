-- ===== src/Server/Batches.antt =====
-- BatchAdd on a node without Raft: the ids go to the engine one by one, up to the first whose Save
-- fails.
use mathlib.Core.List.{foldl}
use time_series_cardinality.Base.{
  ℕ, ◌≡◌, ◌≢◌, refl, sym, ◌∙◌, ap, inl, inr, List, [], ◌∷◌, ◌++◌, Bytes, arith, Option-cases,
  bytes_eq, bytes_eqb_iff, ◌==◌, none, length, false,
}
use time_series_cardinality.External.{Murmur}
use time_series_cardinality.Errors.{Result, ok}
use time_series_cardinality.Sketch.{SketchOps, Algorithm}
use time_series_cardinality.Engine.{Engine, added}
use time_series_cardinality.Store.{Badger}
use time_series_cardinality.Server.{
  Server, Network, Config, note, batch_size, peer_of, add_id, add_ids, batch_add_body, batch_add,
  AddResponse, batch_add_method,
}
use time_series_cardinality.Server.Forwarding.{finish-same}
use time_series_cardinality.Server.Standalone.{add_id_standalone}

module _ (o : SketchOps) (alg : Algorithm o) (Db : Type 0) {W : Type 0} (net : Network W)
    (badger : Badger Db) (m : Murmur) (config : Config W) (group : Bytes) where
  -- The engine after ids were added to the group in order.
  pub filled : List ℕ → Engine o alg → Engine o alg
  filled ids e = foldl (λ (t : Engine o alg) (id : ℕ). added o alg group id t) e ids

  -- A prefix of the ids is in the engine; all of them, if r is no error.
  pub record Prefix (ids : List ℕ) (e e' : Engine o alg) (r : Result AddResponse) : Type 0 where
    pub taken : List ℕ
    pub left : List ℕ
    pub split : ids ≡ taken ++ left
    pub engine : e' ≡ filled taken e
    pub whole : (a : AddResponse) → r ≡ ok a → left ≡ []

  module _ (own : peer_of m config group ≡ none) (alone : config.node ≡ none) where
    add_ids-Prefix :
        (ids : List ℕ) (s : Server o alg Db net)
        → Prefix ids s.engine
            (add_ids o alg Db net badger m config group ids s).1.engine
            (add_ids o alg Db net badger m config group ids s).0.0
    unfolding add_ids filled
    add_ids-Prefix [] s = record {
      taken = [];
      left = [];
      split = refl;
      engine = refl;
      whole = λ a h. refl;
    }
    add_ids-Prefix (v ∷ ids) s =
        let stored =
          (add_id_standalone o alg Db net badger m config group own alone batch_add_method v s).2 in
        let t = (add_id o alg Db net badger m config batch_add_method group v s).1 in
        let ih = add_ids-Prefix ids t in
        elim (Option-cases (add_id o alg Db net badger m config batch_add_method group v s).0) [
          | inl fine ↦
              rw (fine, add_ids)
                (record {
                  taken = v ∷ ih.taken;
                  left = ih.left;
                  split = ap (λ l. v ∷ l) ih.split;
                  engine = ih.engine ∙ ap (filled ih.taken) stored.engine;
                  whole = ih.whole;
                })
          | inr (x, failed) ↦
              rw (failed, add_ids)
                (record {
                  taken = v ∷ [];
                  left = ids;
                  split = refl;
                  engine = stored.engine;
                  whole = λ a h. cc h;
                })
        ]

    -- BatchAdd for a named group on a node that answers itself, without Raft: whatever Save does,
    -- the engine then has a prefix of the ids, added in order, and all of them if the call returns
    -- no error.
    pub batch_add_prefix :
        (ids : List ℕ) (s : Server o alg Db net)
        → group ≢ []
        → Prefix ids s.engine
            (batch_add o alg Db net badger m config group ids s).1.engine
            (batch_add o alg Db net badger m config group ids s).0
    unfolding batch_add batch_add_body note
    batch_add_prefix ids s named =
        let known : (group == []) ≡ false = ground (arith, bytes_eqb_iff group []) in
        let s' = note o alg Db net (batch_size (length ids)) s in
        let p = add_ids-Prefix ids s' in
        let body = batch_add_body o alg Db net badger m config group ids s in
        let same : body ≡ add_ids o alg Db net badger m config group ids s' =
          rw (known, own) refl in
        let (r, e, _) = finish-same o alg Db net badger m config batch_add_method body in
        record {
          taken = p.taken;
          left = p.left;
          split = p.split;
          engine = e ∙ ap (λ q. q.1.engine) same ∙ p.engine;
          whole = λ a h. p.whole a (sym (r ∙ ap (λ q. q.0.0) same) ∙ h);
        }
