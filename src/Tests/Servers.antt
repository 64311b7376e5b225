-- ===== src/Tests/Servers.antt =====
-- The theorems on internal/server/grpc.go: a server on its own, and one of two on a ring.
use time_series_cardinality.Base.{
  ℕ, ◌≡◌, ◌≢◌, refl, none, some, bytes_eq, bytes_eqb, nat_eq, [], ◌∷◌, Bytes, lit, length, get_or,
}
use time_series_cardinality.Map
use time_series_cardinality.Map.{lookup, insert}
use time_series_cardinality.Errors.{ok}
use time_series_cardinality.Engine.{new_engine}
use time_series_cardinality.Router.{Ring, resolve}
use time_series_cardinality.Store.{save, load}
use time_series_cardinality.Server.{
  Server, Config, peer_of, add, batch_add, query, add_method, batch_add_method, query_method,
}
use time_series_cardinality.Server.Metrics.{Counted, status_of}
use time_series_cardinality.Server.Requests.{request-Counted}
use time_series_cardinality.Server.Forwarding.{Untouched, forwards_once, forwarded_elsewhere}
use time_series_cardinality.Server.Standalone.{
  next_sketch, saved, answered, Stored, add_standalone, query-add,
}
use time_series_cardinality.Server.Batches.{Prefix, batch_add_prefix}
use time_series_cardinality.Tests.Packages.{
  ops, bitmap, network, weights, standalone, group, group_named,
}
use time_series_cardinality.Tests.Databases.{Db, memory_badger, memory_badger-IsBadger, fresh_store}
use time_series_cardinality.Tests.Commands.{ids}

-- A server that has served nothing.
abbrev idle : Server ops bitmap Db network
idle = record {
  engine = new_engine ops bitmap;
  store = fresh_store;
  dial_opts = [];
  conns = Map.empty;
  world = 0;
  events = [];
}

alone : peer_of weights standalone group ≡ none
unfolding peer_of
alone = refl

fine_save : (saved ops bitmap Db network memory_badger weights standalone group 5 idle).0 ≡ none
unfolding save memory_badger
fine_save = refl

query-add_example :
    ((query ops bitmap Db network memory_badger weights standalone group
        (add ops bitmap Db network memory_badger weights standalone group 5 idle).1).0
      ≡ ok (record {
        group = group;
        cardinality =
            ops.cardinality
              (next_sketch ops bitmap Db network memory_badger weights standalone group 5 idle);
      }))
    × (load memory_badger group
          (add ops bitmap Db network memory_badger weights standalone group 5 idle).1.store
        ≡ ok (
            ops.bytes
              (next_sketch ops bitmap Db network memory_badger weights standalone group 5 idle)))
query-add_example =
    query-add ops bitmap Db network memory_badger weights standalone group alone refl group_named 5
      idle memory_badger-IsBadger fine_save

add_standalone_example :
    ((add ops bitmap Db network memory_badger weights standalone group 5 idle).0
      ≡ answered ops bitmap Db network memory_badger weights standalone group
          (saved ops bitmap Db network memory_badger weights standalone group 5 idle).0)
    × Stored ops bitmap Db network memory_badger weights standalone group 5 idle
        (add ops bitmap Db network memory_badger weights standalone group 5 idle).1
add_standalone_example =
    add_standalone ops bitmap Db network memory_badger weights standalone group alone refl
      group_named 5 idle

batch_add_prefix_example :
    Prefix ops bitmap Db network memory_badger weights standalone group ids idle.engine
      (batch_add ops bitmap Db network memory_badger weights standalone group ids idle).1.engine
      (batch_add ops bitmap Db network memory_badger weights standalone group ids idle).0
batch_add_prefix_example =
    batch_add_prefix ops bitmap Db network memory_badger weights standalone group alone refl ids
      idle group_named

abbrev pub peer : Bytes
peer = lit "node2:9090"

-- A ring with one point, of the peer.
abbrev ring : Ring
ring = record { ring = 7 ∷ []; node_map = insert 7 peer Map.empty }

-- The server, which forwards to the peer; and the peer.
abbrev pub clustered : Config ℕ
clustered = record { node = none; router = some ring; self_addr = lit "node1:9090" }

abbrev peer_config : Config ℕ
peer_config = record { node = none; router = some ring; self_addr = peer }

owned_by_peer : peer_of weights clustered group ≡ some peer
unfolding peer_of resolve length lookup insert Map.empty get_or weights bytes_eqb
owned_by_peer = refl

request-Counted_example :
    Counted add_method
      (status_of (add ops bitmap Db network memory_badger weights clustered group 5 idle).0)
      idle
      (add ops bitmap Db network memory_badger weights clustered group 5 idle).1
    × Counted batch_add_method
        (status_of
          (batch_add ops bitmap Db network memory_badger weights clustered group ids idle).0)
        idle
        (batch_add ops bitmap Db network memory_badger weights clustered group ids idle).1
    × Counted query_method
        (status_of (query ops bitmap Db network memory_badger weights clustered group idle).0)
        idle
        (query ops bitmap Db network memory_badger weights clustered group idle).1
request-Counted_example =
    request-Counted ops bitmap Db network memory_badger weights clustered group 5 ids idle

forwards_once_example : (peer ≢ clustered.self_addr) × (peer_of weights peer_config group ≡ none)
forwards_once_example =
    forwards_once weights clustered peer_config group peer owned_by_peer refl refl

forwarded_elsewhere_example :
    Untouched ops bitmap Db network memory_badger weights clustered idle
      (add ops bitmap Db network memory_badger weights clustered group 5 idle).1
    × Untouched ops bitmap Db network memory_badger weights clustered idle
        (batch_add ops bitmap Db network memory_badger weights clustered group ids idle).1
    × Untouched ops bitmap Db network memory_badger weights clustered idle
        (query ops bitmap Db network memory_badger weights clustered group idle).1
forwarded_elsewhere_example =
    forwarded_elsewhere ops bitmap Db network memory_badger weights clustered group peer group_named
      owned_by_peer 5 ids idle
