-- ===== src/Tests/Sketches.antt =====
-- The theorems on the sketches of internal/cardinality/hll and internal/cardinality/bitmap, at
-- concrete streams.
use mathlib.Core.List.{Mem, Nodup, Nodup-cons, Nodup-nil}
use time_series_cardinality.Base.{
  ℕ, ◌-◌, ◌*◌, ◌^◌, ◌≤◌, ◌<◌, ◌≡◌, refl, ◌⊎◌, ◌↔◌, ◌++◌, List, [], ◌∷◌, lit, arith, length, false,
  elem, elem_of_Mem, Mem_of_elem,
}
use time_series_cardinality.Errors.{ok}
use time_series_cardinality.Hll.{Sketch, new, add, merge, bytes, parse, index, rank, num_regs}
use time_series_cardinality.Hll.Rank.{index-rank_lem, low_bits}
use time_series_cardinality.Hll.Registers.{IsValid, new-IsValid}
use time_series_cardinality.Hll.Streams.{add-IsValid, add_all, add_all-same_set, merge-add_all}
use time_series_cardinality.Hll.Wire.{fresh, parse-bytes}
use time_series_cardinality.Bitmap
use time_series_cardinality.Bitmap.Exact
use time_series_cardinality.Tests.Packages.{weights}
use time_series_cardinality.Tests.Bitmaps.{list_roaring, list_roaring-IsRoaring}

abbrev one : Sketch
one = add weights new 1

one-IsValid : IsValid one
one-IsValid = add-IsValid weights 1 new-IsValid

-- A hash whose 50 low bits are 1.
rank_low : rank 1 ≡ 50
unfolding rank
rank_low = refl

rank_zero : rank 0 ≡ 51
unfolding rank
rank_zero = refl

index_high : index (2 ^ 64 - 1) ≡ num_regs - 1
unfolding index
index_high = refl

abbrev repeats : List ℕ
repeats = 1 ∷ 2 ∷ 1 ∷ []

abbrev once : List ℕ
once = 2 ∷ 1 ∷ []

repeats-sub : (x : ℕ) → Mem x repeats → Mem x once
repeats-sub x h =
    let e = elem_of_Mem x (1 ∷ 2 ∷ 1 ∷ []) h in
    Mem_of_elem x (2 ∷ 1 ∷ []) (unfold elem in ground arith)

once-sub : (x : ℕ) → Mem x once → Mem x repeats
once-sub x h =
    let e = elem_of_Mem x (2 ∷ 1 ∷ []) h in
    Mem_of_elem x (1 ∷ 2 ∷ 1 ∷ []) (unfold elem in ground arith)

add_all-same_set_example : (add_all weights new repeats).regs ≡ (add_all weights new once).regs
add_all-same_set_example = add_all-same_set weights repeats once repeats-sub once-sub

merge-add_all_example :
    (merge (add_all weights new repeats) (add_all weights new once)).regs
    ≡ (add_all weights new (repeats ++ once)).regs
merge-add_all_example = merge-add_all weights repeats once

index-rank_lem_example :
    (index 12345 < num_regs)
    × (1 ≤ rank 12345)
    × (rank 12345 ≤ 51)
    × (low_bits 12345 < 2 ^ (51 - rank 12345))
    × (((low_bits 12345 ≡ 0) × (rank 12345 ≡ 51)) ⊎ (2 ^ (51 - rank 12345) ≤ 2 * low_bits 12345))
index-rank_lem_example = index-rank_lem 12345 (omega arith)

parse-bytes_example : parse (bytes one ++ lit "more") ≡ ok (fresh one.regs)
parse-bytes_example = parse-bytes (lit "more") one-IsValid

absent : (x : ℕ) (l : List ℕ) → elem x l ≡ false → Mem x l → ⊥
absent x l out h = let there = elem_of_Mem x l h in cc

once-Nodup : Nodup once
once-Nodup = Nodup-cons.1 (
  absent 2 (1 ∷ []) (unfold elem in refl),
  Nodup-cons.1 (absent 1 [] (unfold elem in refl), Nodup-nil),
)

both : (x : ℕ) → Mem x repeats ↔ Mem x once
both x = (repeats-sub x, once-sub x)

abbrev three : List ℕ
three = 2 ∷ 1 ∷ 7 ∷ []

three-Nodup : Nodup three
three-Nodup = Nodup-cons.1 (
  absent 2 (1 ∷ 7 ∷ []) (unfold elem in refl),
  Nodup-cons.1 (
    absent 1 (7 ∷ []) (unfold elem in refl),
    Nodup-cons.1 (absent 7 [] (unfold elem in refl), Nodup-nil),
  ),
)

all_three : (x : ℕ) → Mem x (repeats ++ 7 ∷ 1 ∷ []) ↔ Mem x three
all_three x = (
  λ h.
      let e = elem_of_Mem x (1 ∷ 2 ∷ 1 ∷ 7 ∷ 1 ∷ []) h in
      Mem_of_elem x three (unfold elem in ground arith),
  λ h.
      let e = elem_of_Mem x (2 ∷ 1 ∷ 7 ∷ []) h in
      Mem_of_elem x (1 ∷ 2 ∷ 1 ∷ 7 ∷ 1 ∷ []) (unfold elem in ground arith),
)

cardinality_exact_example :
    (Bitmap.cardinality list_roaring
        (Bitmap.Exact.add_all list_roaring list_roaring-IsRoaring (Bitmap.new list_roaring) repeats)
      ≡ length once)
    × (Bitmap.cardinality list_roaring (
          Bitmap.merge list_roaring
            (Bitmap.Exact.add_all list_roaring list_roaring-IsRoaring
              (Bitmap.new list_roaring)
              repeats)
            (Bitmap.Exact.add_all list_roaring list_roaring-IsRoaring
              (Bitmap.new list_roaring)
              (7 ∷ 1 ∷ [])))
        ≡ length three)
cardinality_exact_example =
    Bitmap.Exact.cardinality_exact list_roaring list_roaring-IsRoaring repeats (7 ∷ 1 ∷ []) once
      three once-Nodup three-Nodup both all_three
