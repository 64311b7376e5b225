-- ===== src/Tests/Closings.antt =====
-- The theorem on the connections of internal/server/grpc.go, over a network that keeps a list of what
-- was closed.
use time_series_cardinality.Base.{◌≡◌, refl, inl, inr, true, none, List, [], ◌∷◌, Bytes, bytes_eq}
use time_series_cardinality.Map
use time_series_cardinality.Map.{lookup}
use time_series_cardinality.Errors.{ok}
use time_series_cardinality.Engine.{new_engine}
use time_series_cardinality.Server.{Network, Config, Server, close, get_peer_client}
use time_series_cardinality.Server.Closing.{
  Request, add_request, query_request, options_request, all_served, close-all_served,
}
use time_series_cardinality.Startup.Cluster.{Listed}
use time_series_cardinality.Tests.Packages.{ops, bitmap, weights, group}
use time_series_cardinality.Tests.Databases.{Db, memory_badger, fresh_store}
use time_series_cardinality.Tests.Servers.{clustered, peer}

abbrev logging : Network (List Bytes)
logging = record {
  ClientConn = Bytes;
  DialOption = Unit;
  insecure = tt;
  dial = λ addr opts w. (ok addr, w);
  close_conn = λ c w. c ∷ w;
  add = λ c group id w. (ok (record { ok = true }), w);
  batch_add = λ c group ids w. (ok (record { ok = true }), w);
  query = λ c group w. (ok (record { group = group; cardinality = 3 }), w);
}

abbrev config : Config (List Bytes)
config = record { node = none; router = clustered.router; self_addr = clustered.self_addr }

abbrev idle : Server ops bitmap Db logging
idle = record {
  engine = new_engine ops bitmap;
  store = fresh_store;
  dial_opts = [];
  conns = Map.empty;
  world = [];
  events = [];
}

abbrev requests : List (Request logging)
requests = options_request (tt ∷ []) ∷ add_request group 5 ∷ query_request group ∷ []

-- The server after the requests, with a connection to the peer before them.
abbrev used : Server ops bitmap Db logging
used =
    all_served logging memory_badger weights config requests
      (get_peer_client ops bitmap Db logging peer idle).1

dialled : (get_peer_client ops bitmap Db logging peer idle).0 ≡ ok peer
unfolding get_peer_client lookup Map.empty
dialled = refl

close-all_served_example :
    ((get_peer_client ops bitmap Db logging peer used).0 ≡ ok peer)
    × Listed peer (close ops bitmap Db logging used).world
close-all_served_example =
    close-all_served logging memory_badger weights config (λ w. Listed peer w) peer peer requests
      idle (λ w. inl refl) (λ d w k. inr k) dialled
