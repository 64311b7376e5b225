-- ===== src/Tests/Cycles.antt =====
-- The theorem on a process after another, at a node that applies one proposal and a run that opens
-- the database it leaves.
use time_series_cardinality.Base.{
  ◌≡◌, ◌<◌, ◌+◌, ◌∙◌, refl, sym, none, List, [], ◌∷◌, ◌++◌, Bytes, bytes_eq, All, arith, length,
  true,
}
use time_series_cardinality.Map
use time_series_cardinality.Map.{lookup}
use time_series_cardinality.Errors.{Run, ok, done, panic}
use time_series_cardinality.Engine.{new_engine}
use time_series_cardinality.Engine.Groups.{new_engine-IsSound}
use time_series_cardinality.Store.{key}
use time_series_cardinality.Startup.Failures.Committed.{last_written}
use time_series_cardinality.Startup.Process.{Host, default_flags, run}
use time_series_cardinality.Startup.Process.Answers.{run-Steps}
use time_series_cardinality.Startup.Process.Reading.{AnswersLike}
use time_series_cardinality.Node
use time_series_cardinality.Node.{Node, Entry, ready}
use time_series_cardinality.Node.Batching.{committed, run-apply_entries}
use time_series_cardinality.Node.Loop.{
  Propose, Loop, new_loop, propose_cap, selects, send, take, answer, receive, Steps, stay, step,
}
use time_series_cardinality.Node.Loop.Conserved.{received}
use time_series_cardinality.Tests.Packages.{
  network, raft, weights, integers, ops, hll, hll_law, Storage, storage,
}
use time_series_cardinality.Tests.Bitmaps.{list_roaring}
use time_series_cardinality.Tests.Databases.{
  Db, memory_badger, memory_badger-IsBadger, memory_badger-IsScan, fresh_store,
}
use time_series_cardinality.Tests.Encodings.{pair_gob, pair_proto, pair_proto-IsProto}
use time_series_cardinality.Tests.Nodes.{proposal, proposed}

abbrev fresh : Loop ops hll Db Storage
fresh = new_loop ops hll Db Storage 1 (new_engine ops hll) fresh_store []

-- The Ready that commits the proposal.
abbrev commits : List Entry × List Entry
commits = (proposed ∷ [], proposed ∷ [])

rerun : {A : Type 0} (r : Run A) → (elim r as (λ _. Run A) [ panic ↦ panic | done a ↦ done a ]) ≡ r
rerun (done a) = refl
rerun panic = refl

applying :
    (n : Node ops hll Db Storage) × (ready ops hll Db Storage memory_badger pair_proto storage
        pair_gob commits fresh.raft
      ≡ done n)
unfolding Node.run new_loop Node.new_node
applying =
    let (n, m, ran, applied, same) =
      run-apply_entries memory_badger pair_proto storage pair_gob {law = hll_law} (commits ∷ [])
        fresh.raft pair_proto-IsProto (new_engine-IsSound hll_law) in
    (n, sym (rerun _) ∙ ran)

abbrev p : Propose
p = record { bytes = proposal; ticket = fresh.issued }

-- The states of the run, in order.
abbrev sent : Loop ops hll Db Storage
sent = record fresh { queue = fresh.queue ++ p ∷ []; issued = fresh.issued + 1 }

abbrev took : Loop ops hll Db Storage
took = record sent { queue = []; in_flight = sent.in_flight ++ p ∷ [] }

abbrev replied : Loop ops hll Db Storage
replied = record took { in_flight = []; answers = (p.ticket, none) ∷ took.answers }

abbrev committed_one : Loop ops hll Db Storage
committed_one = record replied { raft = applying.0 }

live : selects sent.phase ≡ true
unfolding selects new_loop
live = refl

room : length fresh.queue < propose_cap
unfolding new_loop length
room = omega arith

to_committed :
    Steps ops hll Db Storage memory_badger pair_proto storage pair_gob fresh committed_one
unfolding new_loop
to_committed = step (send fresh proposal room) (
    step (take sent p [] live refl) (
      step (answer took [] [] p none refl)
        (step (receive replied commits applying.0 live applying.1) (stay committed_one))))

bare : (g : Bytes) → memory_badger.get (key g) fresh_store.db ≡ ok none
unfolding memory_badger lookup Map.empty
bare g = refl

-- The host of the next process.
abbrev host : Host Db Storage
host = record {
  badger_open = λ dir sync. ok committed_one.raft.store.db;
  start_node = λ id. done [];
  must_register = done tt;
  listen = λ port. none;
  register_gateway = λ port. none;
  signal = true;
}

run-Steps_example :
    All
      (AnswersLike ops hll Db Storage network raft 0 memory_badger weights (
        last_written Storage memory_badger pair_proto
          (committed (received memory_badger pair_proto storage pair_gob to_committed))
          fresh.raft
          (λ j. new_engine ops hll)))
      (run weights integers list_roaring Db Storage memory_badger host default_flags).1
run-Steps_example =
    run-Steps weights integers list_roaring Db Storage memory_badger host default_flags network raft
      0 pair_proto storage pair_gob memory_badger-IsBadger memory_badger-IsScan pair_proto-IsProto 1
      fresh_store [] bare committed_one to_committed refl
