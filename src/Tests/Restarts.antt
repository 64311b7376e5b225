-- ===== src/Tests/Restarts.antt =====
-- The theorems on the startup of cmd/server/main.go, at concrete stores and flags.
use time_series_cardinality.Base.{
  Option, ◌≤◌, inl, inr, length, ℕ, ◌<◌, ◌^◌, ◌≡◌, ◌≢◌, ◌∙◌, refl, sym, ap, none, some, bytes_eq,
  [], ◌∷◌, Bytes, lit, arith,
}
use time_series_cardinality.Map
use time_series_cardinality.Map.{lookup}
use time_series_cardinality.Errors.{ok, done, panic}
use time_series_cardinality.Engine.{cardinality}
use time_series_cardinality.Engine.Groups.{new_engine-IsSound}
use time_series_cardinality.Engine.Streams.{fresh_lookup}
use time_series_cardinality.Handler.{default_registry, dispatch}
use time_series_cardinality.Handler.Safety.{engine_adder}
use time_series_cardinality.Store.{BadgerStore, save, key}
use time_series_cardinality.Node.{Node, propose_add, add_command, apply_entries}
use time_series_cardinality.Node.Laws.{dispatch-add_command}
use time_series_cardinality.Router.{Ring, resolve}
use time_series_cardinality.Startup.{rebuild, split_commas, configure}
use time_series_cardinality.Startup.Durable.{IsDurable, on_disk}
use time_series_cardinality.Startup.Entries.{Written, rebuild-apply_entries}
use time_series_cardinality.Startup.Cluster.{Listed, configure_high}
use time_series_cardinality.Server.{RaftNode}
use time_series_cardinality.Startup.Routing.{Routes, shared, configure-Routes}
use time_series_cardinality.Tests.Packages.{ops, bitmap, bitmap_law, Storage, weights, group}
use time_series_cardinality.Tests.Databases.{
  Db, memory_badger, memory_badger-IsBadger, memory_badger-IsScan, fresh_store,
}
use time_series_cardinality.Tests.Encodings.{pair_proto, pair_proto-IsProto}
use time_series_cardinality.Tests.Nodes.{idle, proposal, proposed}

bare : (g : Bytes) → memory_badger.get (key g) fresh_store.db ≡ ok none
unfolding memory_badger lookup Map.empty
bare g = refl

saves : (g b : Bytes) (st : BadgerStore Db) → (save memory_badger g b st).0 ≡ none
unfolding save memory_badger
saves g b st = refl

idle-IsDurable : IsDurable ops bitmap memory_badger idle.engine idle.store
idle-IsDurable = record {
  stored = λ g. bare g ∙ ap (λ s. ok (on_disk ops s)) (sym (fresh_lookup ops bitmap g));
}

proposal_reads : pair_proto.unmarshal proposal ≡ ok (add_command group 5)
unfolding propose_add add_command pair_proto
proposal_reads = pair_proto-IsProto.unmarshal-marshal (add_command group 5) proposal refl

proposed-Written : Written {alg = bitmap} bitmap_law Storage memory_badger pair_proto proposed idle
proposed-Written = record {
  handled = λ cmd r engine p q.
      let same : cmd ≡ add_command group 5 = cc (p, proposal_reads) in
      let ran = dispatch-add_command {alg = bitmap} group 5 idle.engine (omega arith) in
      let q' : dispatch default_registry (some (add_command group 5))
            (some (engine_adder ops bitmap)) idle.engine
          ≡ done (r, engine) =
        ap (λ c. dispatch default_registry (some c) (some (engine_adder ops bitmap)) idle.engine)
          (sym same)
        ∙ q in
      (cc (ran, q'), λ sk found. saves cmd.group (ops.bytes sk) idle.store);
}

rebuild-apply_entries_example :
    (n' : Node ops bitmap Db Storage) × (apply_entries ops bitmap Db Storage memory_badger
        pair_proto
        (proposed ∷ [])
        idle
      ≡ done n')
    × ((rebuild ops bitmap memory_badger n'.store).0 ≡ none)
    × ((g : Bytes)
        → cardinality ops bitmap g (rebuild ops bitmap memory_badger n'.store).1.0
          ≡ cardinality ops bitmap g n'.engine)
rebuild-apply_entries_example =
    rebuild-apply_entries bitmap_law Storage memory_badger pair_proto memory_badger-IsBadger
      pair_proto-IsProto (proposed ∷ []) idle memory_badger-IsScan (proposed-Written, λ n' p. tt)
      (new_engine-IsSound bitmap_law) idle-IsDurable

abbrev peers : Bytes
peers = lit "node1:9090,node2:9090"

peers_given : peers ≢ []
unfolding length
peers_given e = absurd (omega (arith, ap (length {A = ℕ}) e))

two_listed : 2 ≤ length (split_commas peers)
unfolding split_commas length
two_listed = omega arith

two_peers : length (split_commas peers) < 2 ^ 63
unfolding split_commas length
two_peers = omega arith

configure_high_example : configure weights (2 ^ 63) peers ≡ panic
configure_high_example = configure_high weights (2 ^ 63) peers peers_given (omega arith) two_peers

all_named : Listed [] (split_commas peers) → ⊥
unfolding split_commas length
all_named h = elim h [
  | inl e ↦ absurd (omega (arith, ap (length {A = ℕ}) e))
  | inr k ↦ elim k [ inl e ↦ absurd (omega (arith, ap (length {A = ℕ}) e)) | inr l ↦ l ]
]

abbrev ring : Ring
ring = shared weights peers peers_given all_named

no_raft : Option (RaftNode ℕ)
no_raft = none

configure-Routes_example :
    Routes weights peers peers_given all_named no_raft group (resolve weights group ring) 2
    × (j : ℕ) × (1 ≤ j)
    × (j ≤ length (split_commas peers))
    × (configure weights j peers ≡ done (some ring, resolve weights group ring))
configure-Routes_example =
    configure-Routes weights peers peers_given all_named no_raft group 2 (omega arith) two_listed
