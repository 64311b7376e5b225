-- ===== src/Tests/Scrapes.antt =====
-- The theorems on internal/server/collector.go and internal/server/health.go, at a scrape of three
-- groups and at a node that leads.
use time_series_cardinality.Base.{ℕ, ◌≡◌, ◌≢◌, ◌⊎◌, bytes_eq, List, [], ◌∷◌, Bytes, lit}
use time_series_cardinality.Map
use time_series_cardinality.Map.{Map, Distinct, lookup, insert}
use time_series_cardinality.Node.{RaftStatus}
use time_series_cardinality.Collector.{raft_term, raft_is_leader, raft_applied_index}
use time_series_cardinality.Health.{readyz, is_ready}
use time_series_cardinality.Health.Readiness.{scrape, readyz-leader}
use time_series_cardinality.Tests.Packages.{ops, bitmap, Storage, integers, group, other}
use time_series_cardinality.Tests.Databases.{Db}
use time_series_cardinality.Tests.Nodes.{idle}

abbrev counts : Map Bytes ℕ
counts = insert group 3 (insert other 3 (insert (lit "disk") 9 Map.empty))

abbrev names : List Bytes
names = group ∷ other ∷ lit "disk" ∷ []

abbrev led : RaftStatus
led = record { term = 4; lead = 1 }

readyz-leader_example :
    ((led.lead ≢ 0)
      × (led.lead ≡ idle.id)
      × ((readyz (is_ready ops bitmap Db Storage led idle)).code ≡ 200)
      × (scrape ops bitmap Db Storage integers led idle
          ≡ raft_term 4 ∷ raft_is_leader 1 ∷ raft_applied_index 0 ∷ []))
    ⊎ (((led.lead ≡ 0) ⊎ (led.lead ≢ idle.id))
        × ((readyz (is_ready ops bitmap Db Storage led idle)).code ≡ 503)
        × (scrape ops bitmap Db Storage integers led idle
            ≡ raft_term 4 ∷ raft_is_leader 0 ∷ raft_applied_index 0 ∷ []))
readyz-leader_example = readyz-leader ops bitmap Db Storage integers led idle
