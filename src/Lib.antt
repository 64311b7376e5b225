-- ===== src/Lib.antt =====
-- A tracker of how many distinct ids each group of a time series has seen: a gRPC service that adds
-- ids to per-group sketches and answers their counts, on its own or behind Raft, with the sketches
-- kept in BadgerDB and the groups spread over the nodes by a consistent hash ring.
--
-- A request comes in at the server (Server). A ring (Router) says which node owns its group, and a
-- group of another node is forwarded there. The owner adds the id to its engine and saves the
-- group's sketch (Engine, Store), or proposes a command to Raft (Node), whose committed entries are
-- dispatched to the engine by their type (Handler) and then saved. The engine knows its sketches by
-- an interface (Sketch), which the two algorithms fill (Hll, Bitmap, Backends). At the start a node
-- rebuilds its engine from the store and takes its ring from its flags (Startup). Scrapes and health
-- checks read the engine and the Raft status (Collector, Health).
--
--   Hll         internal/cardinality/hll/hll.go: the registers as a list of 2 ^ 14 numbers
--   Bitmap      internal/cardinality/bitmap/algorithm.go
--   Sketch      internal/cardinality/sketch.go, and what the engine relies on (IsLawful)
--   Backends    both algorithms under that interface, and the proofs of what it relies on
--   Engine      internal/cardinality/engine.go: the groups as a map from names to sketches
--   Handler     internal/raft/handler/*.go: the registry and the ADD, BATCH_ADD and MERGE_SKETCH
--               handlers, over any Adder
--   Node        internal/raft/node.go: committed entries, snapshots, proposals, the status; Node/Loop:
--               the event loop, its goroutines and channels, as steps that interleave
--   Router      internal/router/router.go
--   Store       internal/store/badger.go, with the two metrics of Save
--   Server      internal/server/grpc.go, with the metrics as a list of events, and statusStr of a
--               handler as a value that it returns beside its result
--   Collector   internal/server/collector.go
--   Health      internal/server/health.go, internal/server/interceptor.go
--   Startup     cmd/server/main.go: restoring the engine, the ring and the own address;
--               Startup/Process: run and main as a whole; Startup/Muxes: the HTTP routes;
--               Startup/Failures: restarts when writes had failed
--   Base, Map, Errors, Words, Varint: lists, Go's maps, errors, machine words, encoding/binary
--   External    murmur3, float64 arithmetic and roaring64 as parameters
--   Tests       packages that satisfy what is assumed of them, and the theorems at concrete inputs
--
-- State. A method is one step on its object's state where it reads and writes that state in one
-- locked section, written as a function from the state to a result and the next state: `add` is
-- Engine.Add, `add_and_persist` is Engine.AddAndPersist, and so on, with snake_case for the source's
-- camelCase. Engine's Restore, Merge, MergeBytes, Marshal and Unmarshal check, parse or encode outside
-- the lock, where they do not touch the state. A Go error is an `Option Error` or a `Result`, and a panic is `panic` of `Run`. A map is
-- an association list without repeated keys; Go's iteration order is the list's. A callback such as
-- the one that AddAndPersist passes its bytes to is a function on a world of its own.
--
-- Interleavings. The event loop, the callers of ProposeAdd and the goroutines that the loop starts
-- share channels. Node/Loop has one step for each send and receive, and a sequence of steps is an
-- interleaving of them. proposeC is a queue of at most 128 proposals; a proposal's own resultC is its
-- ticket; stopC and doneC are a phase. The rest of a node is what `run` makes of the Readys received.
--
-- The process. run (Startup/Process) is a function from what each call of a package answers to the way
-- it ends and the list of what it did, the last first. `deferred` adds a deferred call on each way out,
-- a return or a panic. The wait for a signal that does not come is a way to end of its own, and the
-- calls of the shutdown are taken to return.
--
-- Numbers. uint64, uint32 and uint8 are natural numbers, with `% 2 ^ w` where the source can wrap. A
-- Go int that may be negative is `ℤ`; int(*nodeID) is the case of a node id from 2 ^ 63 on.
--
-- Loops. They are structural over what is left of a list, of a count or of a payload's ids. The
-- search of the ring halves its interval on fuel: as many rounds as there are points, and it is
-- proved to end on the nearest point with them. The varint writer has 10 rounds, which 64 bits need
-- at most, and printing a virtual node's number has 3, one for each digit of a number below 150.
--
-- Parameters. What is not in the repository is a record that the definitions take: Murmur, Floats,
-- Roaring, Gob, Badger, MemoryStorage, Proto, Network, Host and the interface RaftNode. What a theorem
-- needs of one is a hypothesis with the package's documented behaviour: IsRoaring, IsGob, IsBadger,
-- IsScan, IsProto. Tests has an instance of each that satisfies them.
--
-- Not modelled: etcd's Raft, whose Readys and whose answers to Propose are arbitrary; the clocks behind
-- the duration metrics; log lines, and the goroutines of cmd/server/main.go that only log how a
-- listener ended; the code that protoc generated and the declarations of the metrics. They call
-- packages and hold no logic of their own. The accuracy of the HyperLogLog estimate is a statistical
-- statement about the hash and is not stated.
pub mod Base
pub mod Map
pub mod Errors
pub mod External
pub mod Words
pub mod Hll
pub mod Bitmap
pub mod Backends
pub mod Sketch
pub mod Engine
pub mod Varint
pub mod Handler
pub mod Router
pub mod Store
pub mod Server
pub mod Node
pub mod Startup
pub mod Collector
pub mod Health
pub mod Tests
