-- ===== src/Tests/Loops.antt =====
-- The theorems on the event loop of internal/raft/node.go, at a run of it: a proposal is sent, taken,
-- answered and committed, the node is stopped, and a proposal is sent to it after that.
use time_series_cardinality.Base.{
  ◌≡◌, ◌<◌, refl, sym, subst, none, List, [], ◌∷◌, ◌++◌, Bytes, bytes_eq, bytes_eqb, ◌+◌, arith,
  length, true,
}
use time_series_cardinality.Map
use time_series_cardinality.Map.{lookup, insert}
use time_series_cardinality.Varint.{uvarint}
use time_series_cardinality.Handler.{default_registry, apply_add}
use time_series_cardinality.Engine
use time_series_cardinality.Store.{key}
use time_series_cardinality.Errors.{Run, ok, done, panic}
use time_series_cardinality.Engine.{new_engine, cardinality}
use time_series_cardinality.Engine.Groups.{new_engine-IsSound}
use time_series_cardinality.Node.{Node, Entry, new_node, ready, apply_entries, propose_add}
use time_series_cardinality.Node.Batching.{Agrees, committed}
use time_series_cardinality.Node.Loop.{
  Propose, Loop, new_loop, propose_cap, stopping, exited, selects, send, take, answer, receive,
  stop, leave, Steps, stay, step,
}
use time_series_cardinality.Node.Loop.Conserved.{
  queued, answered, IsLoop, received, Steps-new_loop-IsLoop, Steps-apply_entries,
}
use time_series_cardinality.Node.Loop.Counting
use time_series_cardinality.Node.Loop.Counting.{Carries, no_more, Steps-cardinality}
use time_series_cardinality.Engine.Streams
use time_series_cardinality.Node.Loop.Progress.{queued-answer, exited-answered}
use time_series_cardinality.Tests.Packages.{ops, bitmap, bitmap_law, Storage, storage, group}
use time_series_cardinality.Tests.Databases.{Db, memory_badger, fresh_store}
use time_series_cardinality.Tests.Encodings.{pair_gob, pair_proto, pair_proto-IsProto}
use time_series_cardinality.Tests.Nodes.{proposal, proposed, proposal_lem}

abbrev Machine : Type 0
Machine = Loop ops bitmap Db Storage

abbrev To : Machine → Machine → Type 0
To = Steps ops bitmap Db Storage memory_badger pair_proto storage pair_gob

abbrev fresh : Machine
fresh = new_loop ops bitmap Db Storage 1 (new_engine ops bitmap) fresh_store []

bare : (g : Bytes) → memory_badger.get (key g) fresh_store.db ≡ ok none
unfolding memory_badger lookup Map.empty
bare g = refl

-- The Ready that commits the proposal.
abbrev commits : List Entry × List Entry
commits = (proposed ∷ [], proposed ∷ [])

abbrev reached : Run (Node ops bitmap Db Storage) → Node ops bitmap Db Storage
reached (done n) = n
reached panic = fresh.raft

abbrev applied : Node ops bitmap Db Storage
applied =
    reached
      (ready ops bitmap Db Storage memory_badger pair_proto storage pair_gob commits fresh.raft)

commits_fine :
    ready ops bitmap Db Storage memory_badger pair_proto storage pair_gob commits fresh.raft
    ≡ done applied
unfolding ready new_loop propose_add pair_proto lookup default_registry insert Map.empty bytes_eqb
    apply_add uvarint Engine.add
commits_fine = refl

abbrev p : Propose
p = record { bytes = proposal; ticket = fresh.issued }

-- The states of the run, in order.
abbrev sent : Machine
sent = record fresh { queue = fresh.queue ++ p ∷ []; issued = fresh.issued + 1 }

abbrev took : Machine
took = record sent { queue = []; in_flight = sent.in_flight ++ p ∷ [] }

abbrev replied : Machine
replied = record took { in_flight = []; answers = (p.ticket, none) ∷ took.answers }

abbrev committed_one : Machine
committed_one = record replied { raft = applied }

abbrev stopped : Machine
stopped = record committed_one { phase = stopping }

abbrev left : Machine
left = record stopped { phase = exited }

abbrev late : Machine
late = record left {
  queue = left.queue ++ record { bytes = proposal; ticket = left.issued } ∷ [];
  issued = left.issued + 1;
}

live : selects sent.phase ≡ true
unfolding selects new_loop
live = refl

room : length fresh.queue < propose_cap
unfolding new_loop length
room = omega arith

room_left : length left.queue < propose_cap
unfolding length
room_left = omega arith

to_late : To fresh late
unfolding new_loop
to_late = step (send fresh proposal room) (
    step (take sent p [] live refl) (
      step (answer took [] [] p none refl) (
        step (receive replied commits applied live commits_fine) (
          step (stop committed_one refl)
            (step (leave stopped refl) (step (send left proposal room_left) (stay late)))))))

Steps-new_loop-IsLoop_example : IsLoop late
Steps-new_loop-IsLoop_example =
    Steps-new_loop-IsLoop memory_badger pair_proto storage pair_gob 1 (new_engine ops bitmap)
      fresh_store [] late to_late

Steps-apply_entries_example :
    (m : Node ops bitmap Db Storage) × (apply_entries ops bitmap Db Storage memory_badger pair_proto
        (committed (received memory_badger pair_proto storage pair_gob to_late))
        fresh.raft
      ≡ done m)
    × Agrees late.raft m
Steps-apply_entries_example =
    Steps-apply_entries memory_badger pair_proto storage pair_gob {law = bitmap_law} fresh late
      to_late pair_proto-IsProto (unfold new_loop new_node in new_engine-IsSound bitmap_law)

queued-answer_example : (t : Machine) × To sent t × (t.answers ≡ (p.ticket, none) ∷ sent.answers)
queued-answer_example =
    queued-answer memory_badger pair_proto storage pair_gob [] [] p sent none live
      (unfold new_loop in refl)

waits : 0 < queued 1 late.queue
unfolding queued new_loop
waits = omega arith

exited-answered_example : (queued 1 late.queue ≡ 1) × (answered 1 late.answers ≡ 0)
exited-answered_example =
    exited-answered memory_badger pair_proto storage pair_gob 1 1 (new_engine ops bitmap)
      fresh_store [] late late to_late refl waits (stay late)

one_call : Carries pair_proto ((group, 5) ∷ []) (proposed ∷ [])
one_call = Counting.proposal group 5 1 proposal [] [] (omega arith) proposal_lem no_more

received_one :
    committed (received memory_badger pair_proto storage pair_gob to_late) ≡ proposed ∷ []
unfolding to_late received committed new_loop
received_one = refl

Steps-cardinality_example :
    cardinality ops bitmap group late.raft.engine
    ≡ Streams.answer ops bitmap group (Streams.stream group ((group, 5) ∷ []))
Steps-cardinality_example =
    Steps-cardinality memory_badger pair_proto pair_proto-IsProto bitmap_law storage pair_gob 1
      fresh_store [] late to_late ((group, 5) ∷ [])
      (subst (Carries pair_proto ((group, 5) ∷ [])) (sym received_one) one_call) group
