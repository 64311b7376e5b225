-- ===== src/Tests/Nodes.antt =====
-- The theorem on a BATCH_ADD that ends early, of internal/raft/node.go, at a node that has applied
-- nothing yet.
use time_series_cardinality.Base.{
  ◌<◌, ◌≡◌, refl, true, none, some, bytes_eq, [], Bytes, arith, length,
}
use time_series_cardinality.Errors.{ok, err, done}
use time_series_cardinality.Engine.{new_engine}
use time_series_cardinality.Engine.Streams.{adds}
use time_series_cardinality.Varint.{append_uvarint}
use time_series_cardinality.Handler.Payloads.{encoded_ids}
use time_series_cardinality.Handler.Batches.{calls_of, truncated_command}
use time_series_cardinality.Node.{Node, Entry, propose_add, apply_entry}
use time_series_cardinality.Node.Truncated.{apply_entry_truncated}
use time_series_cardinality.Tests.Packages.{ops, bitmap, Storage, group}
use time_series_cardinality.Tests.Databases.{Db, memory_badger, fresh_store}
use time_series_cardinality.Tests.Encodings.{pair_proto, pair_proto-IsProto}
use time_series_cardinality.Tests.Commands.{ids, ids-IsId}

abbrev pub idle : Node ops bitmap Db Storage
idle = record {
  id = 1;
  engine = new_engine ops bitmap;
  store = fresh_store;
  storage = [];
  applied_idx = 0;
  snap_count = 0;
}

-- What ProposeAdd hands to Raft for the id 5.
abbrev pub proposal : Bytes
proposal = elim (propose_add pair_proto group 5 none (ok none)).1 [ none ↦ [] | some b ↦ b ]

pub proposal_lem : (propose_add pair_proto group 5 none (ok none)).1 ≡ some proposal
unfolding propose_add pair_proto
proposal_lem = refl

abbrev pub proposed : Entry
proposed = record { normal = true; index = 1; bytes = proposal }

-- The bytes of a BATCH_ADD that states 6 ids and carries 2.
abbrev cut : Bytes
cut = elim (pair_proto.marshal (truncated_command group ids 3)) [ ok b ↦ b | err x ↦ [] ]

cut_full : 0 < length cut
unfolding pair_proto length append_uvarint encoded_ids
cut_full = omega arith

cut_decodes : pair_proto.unmarshal cut ≡ ok (truncated_command group ids 3)
unfolding pair_proto length append_uvarint encoded_ids
cut_decodes = pair_proto-IsProto.unmarshal-marshal (truncated_command group ids 3) cut refl

apply_entry_truncated_example :
    apply_entry ops bitmap Db Storage memory_badger pair_proto
      (record { normal = true; index = 1; bytes = cut })
      idle
    ≡ done (record idle { engine = adds ops bitmap idle.engine (calls_of group ids) })
apply_entry_truncated_example =
    apply_entry_truncated memory_badger pair_proto group ids 3 1 cut idle ids-IsId
      (unfold length in omega arith) cut_full cut_decodes
