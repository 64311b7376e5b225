-- ===== src/Tests/Engines.antt =====
-- The theorems on internal/cardinality/engine.go, at an engine of two groups.
use time_series_cardinality.Base.{
  ℕ, ◌≡◌, refl, none, some, bytes_eq, bytes_eqb, List, [], ◌∷◌, Bytes,
}
use time_series_cardinality.Map
use time_series_cardinality.Map.{lookup}
use time_series_cardinality.Errors.{done, ok, err}
use time_series_cardinality.Engine.{
  Engine, merge_bytes, new_engine, added, sketch_of, cardinality, marshal, unmarshal,
}
use time_series_cardinality.Engine.Groups.{IsSound, new_engine-IsSound, added-Touches}
use time_series_cardinality.Engine.Streams.{adds, answer, stream, cardinality-adds}
use time_series_cardinality.Engine.Snapshots.{unmarshal-marshal}
use time_series_cardinality.Engine.Merging.{replay, merge_bytes-replay}
use time_series_cardinality.Tests.Packages.{ops, hll, bitmap, bitmap_law, group, other}
use time_series_cardinality.Tests.Encodings.{pair_gob, pair_gob-IsGob}

abbrev calls : List (Bytes × ℕ)
calls = (group, 5) ∷ (other, 6) ∷ (group, 7) ∷ []

cardinality-adds_example :
    cardinality ops hll group (adds ops hll (new_engine ops hll) calls)
    ≡ answer ops hll group (stream group calls)
cardinality-adds_example = cardinality-adds ops hll calls group

abbrev pub one_group : Engine ops bitmap
one_group = added ops bitmap group 5 (new_engine ops bitmap)

pub one_group-IsSound : IsSound bitmap_law one_group
one_group-IsSound = (added-Touches bitmap_law group 5 (new_engine-IsSound bitmap_law)).sound

abbrev two_groups : Engine ops bitmap
two_groups = added ops bitmap other 6 one_group

two_groups-IsSound : IsSound bitmap_law two_groups
two_groups-IsSound = (added-Touches bitmap_law other 6 one_group-IsSound).sound

-- What Marshal writes for the two groups.
abbrev snapshot : Bytes
snapshot = elim (marshal ops bitmap pair_gob two_groups) [ ok b ↦ b | err x ↦ [] ]

snapshot_lem : marshal ops bitmap pair_gob two_groups ≡ ok snapshot
snapshot_lem = unfold marshal pair_gob in refl

unmarshal-marshal_example :
    ((unmarshal ops bitmap pair_gob snapshot one_group).0 ≡ none)
    × ((g : Bytes)
        → cardinality ops bitmap g (unmarshal ops bitmap pair_gob snapshot one_group).1
          ≡ cardinality ops bitmap g two_groups)
unmarshal-marshal_example =
    unmarshal-marshal bitmap_law pair_gob two_groups one_group snapshot pair_gob-IsGob
      two_groups-IsSound snapshot_lem

-- The calls that another engine has seen, and the sketch that it then has for the group.
abbrev elsewhere : List (Bytes × ℕ)
elsewhere = (group, 8) ∷ (other, 6) ∷ (group, 5) ∷ []

abbrev remote : ops.Sketch
remote = ops.add (ops.add bitmap.new 8) 5

remote_lem : lookup group (adds ops bitmap (new_engine ops bitmap) elsewhere).groups ≡ some remote
unfolding adds added new_engine sketch_of lookup Map.insert Map.empty bytes_eqb
remote_lem = refl

merge_bytes-replay_example :
    (e' : Engine ops bitmap) × (merge_bytes ops bitmap group bitmap.name
        (ops.bytes remote)
        one_group
      ≡ done (none, e'))
    × (cardinality ops bitmap group e'
        ≡ cardinality ops bitmap group (replay ops bitmap group (stream group elsewhere) one_group))
merge_bytes-replay_example =
    merge_bytes-replay bitmap_law group elsewhere remote one_group one_group-IsSound remote_lem
