-- ===== src/Tests/Packages.antt =====
-- Hashes, floats, the Raft storage and the network in place of the packages, and the two algorithms
-- over them.
use time_series_cardinality.Base.{
  ◌≢◌, ap, ℕ, ◌+◌, ◌*◌, ◌/◌, ◌%◌, ◌^◌, ◌<◌, arith, leb, none, List, [], ◌∷◌, Bytes, true, length,
  lit,
}
use time_series_cardinality.Errors.{ok}
use time_series_cardinality.External.{Murmur, Floats}
use time_series_cardinality.Sketch.{SketchOps, Algorithm, IsLawful}
use time_series_cardinality.Backends.{sketch_ops, hll_algorithm, bitmap_algorithm}
use time_series_cardinality.Backends.HllLaws.{hll_lawful}
use time_series_cardinality.Backends.BitmapLaws.{bitmap_lawful}
use time_series_cardinality.Tests.Bitmaps.{list_roaring, list_roaring-IsRoaring}
use time_series_cardinality.Node.{MemoryStorage}
use time_series_cardinality.Server.{Network, RaftNode, Config}

weigh : Bytes → ℕ
weigh [] = 7
weigh (b ∷ bs) = b + 257 * weigh bs

below : (n k : ℕ) → 0 < k → n % k < k
below n k h = grind arith

unfoldable pub weights : Murmur
unfolding weigh below
weights = record {
  sum32 = λ b. weigh b % 2 ^ 32;
  sum64 = λ b. weigh b % 2 ^ 64;
  sum32_fits = λ b. below (weigh b) (2 ^ 32) (omega arith);
  sum64_fits = λ b. below (weigh b) (2 ^ 64) (omega arith);
}

-- Numbers with no fraction.
abbrev pub integers : Floats
integers = record {
  Float = ℕ;
  literal = λ m d. m / 10 ^ d;
  of_int = λ n. n;
  add = λ a b. a + b;
  mul = λ a b. a * b;
  div = λ a b. a / b;
  neg = λ a. 0;
  pow = λ a b. a ^ b;
  log = λ a. a;
  leq = leb;
  round_uint64 = λ a. a % 2 ^ 64;
}

abbrev pub ops : SketchOps
ops = sketch_ops weights integers list_roaring

abbrev pub hll : Algorithm ops
hll = hll_algorithm weights integers list_roaring

abbrev pub bitmap : Algorithm ops
bitmap = bitmap_algorithm weights integers list_roaring

abbrev pub hll_law : IsLawful ops hll
hll_law = hll_lawful weights integers list_roaring

abbrev pub bitmap_law : IsLawful ops bitmap
bitmap_law = bitmap_lawful weights integers list_roaring list_roaring-IsRoaring

-- The snapshots and compactions that the storage has taken.
abbrev pub Storage : Type 0
Storage = List (ℕ × Bytes)

abbrev pub storage : MemoryStorage Storage
storage = record {
  append = λ entries s. (none, s);
  apply_snapshot = λ index term b s. (none, (index, b) ∷ s);
  compact = λ index s. (none, s);
}

-- The world of the tests counts the calls that leave the server.
abbrev pub network : Network ℕ
network = record {
  ClientConn = Bytes;
  DialOption = Unit;
  insecure = tt;
  dial = λ addr opts w. (ok addr, w + 1);
  close_conn = λ c w. w + 1;
  add = λ c group id w. (ok (record { ok = true }), w + 1);
  batch_add = λ c group ids w. (ok (record { ok = true }), w + 1);
  query = λ c group w. (ok (record { group = group; cardinality = length c }), w + 1);
}

abbrev pub group : Bytes
group = lit "cpu"

abbrev pub other : Bytes
other = lit "mem"

abbrev pub standalone : Config ℕ
standalone = record { node = none; router = none; self_addr = [] }

pub group_named : group ≢ []
unfolding length
group_named e = absurd (omega (arith, ap (length {A = ℕ}) e))

-- A Raft node that takes every proposal.
abbrev pub raft : RaftNode ℕ
raft = record { propose_add = λ group id w. (none, w + 1) }
