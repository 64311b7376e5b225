-- ===== src/Backends.antt =====
-- The two implementations of the interfaces in internal/cardinality/sketch.go together: a value of
-- type Sketch is one of either, a method goes to its own implementation, and Merge panics where the
-- type assertion on its argument fails.
pub mod HllLaws
pub mod BitmapLaws
use time_series_cardinality.Base.{ℕ, Bytes}
use time_series_cardinality.Errors.{Result, ok, err, Run, done, panic}
use time_series_cardinality.External.{Murmur, Floats, Roaring}
use time_series_cardinality.Hll
use time_series_cardinality.Bitmap
use time_series_cardinality.Sketch.{SketchOps, Algorithm}

module _ (m : Murmur) (f : Floats) (r : Roaring) where
  pub data AnySketch : Type 0 where
    hll : Hll.Sketch → AnySketch
    bitmap : Bitmap.Sketch r → AnySketch

  abbrev pub algo_name : AnySketch → Bytes
  algo_name (hll s) = Hll.algo_name
  algo_name (bitmap s) = Bitmap.algo_name

  abbrev pub add : AnySketch → ℕ → AnySketch
  add (hll s) id = hll (Hll.add m s id)
  add (bitmap s) id = bitmap (Bitmap.add r s id)

  abbrev pub cardinality : AnySketch → ℕ
  cardinality (hll s) = Hll.cardinality f s
  cardinality (bitmap s) = Bitmap.cardinality r s

  abbrev pub merge : AnySketch → AnySketch → Run AnySketch
  merge (hll s) (hll o) = done (hll (Hll.merge s o))
  merge (hll s) (bitmap o) = panic
  merge (bitmap s) (hll o) = panic
  merge (bitmap s) (bitmap o) = done (bitmap (Bitmap.merge r s o))

  abbrev pub bytes : AnySketch → Bytes
  bytes (hll s) = Hll.bytes s
  bytes (bitmap s) = Bitmap.bytes r s

  abbrev pub clone : AnySketch → AnySketch
  clone (hll s) = hll (Hll.clone s)
  clone (bitmap s) = bitmap (Bitmap.clone r s)

  abbrev pub sketch_ops : SketchOps
  sketch_ops = record {
    Sketch = AnySketch;
    algo_name = algo_name;
    add = add;
    cardinality = cardinality;
    merge = merge;
    bytes = bytes;
    clone = clone;
  }

  abbrev pub hll_parse : Bytes → Result AnySketch
  hll_parse b = elim (Hll.parse b) [ ok s ↦ ok (hll s) | err e ↦ err e ]

  abbrev pub bitmap_parse : Bytes → Result AnySketch
  bitmap_parse b = elim (Bitmap.parse r b) [ ok s ↦ ok (bitmap s) | err e ↦ err e ]

  abbrev pub hll_algorithm : Algorithm sketch_ops
  hll_algorithm = record { name = Hll.algo_name; new = hll Hll.new; parse = hll_parse }

  abbrev pub bitmap_algorithm : Algorithm sketch_ops
  bitmap_algorithm = record {
    name = Bitmap.algo_name;
    new = bitmap (Bitmap.new r);
    parse = bitmap_parse;
  }
