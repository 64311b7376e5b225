-- ===== src/Bitmap.antt =====
-- internal/cardinality/bitmap/algorithm.go: the exact sketch, a roaring64 bitmap.
pub mod Exact
use time_series_cardinality.Base.{ℕ, Bytes, lit}
use time_series_cardinality.Errors.{Result, ok, err}
use time_series_cardinality.External.{Roaring}

abbrev pub algo_name : Bytes
algo_name = lit "bitmap"

module _ (r : Roaring) where
  open r use {
    Bitmap, new as rb_new, add as rb_add, or as rb_or, clone as rb_clone, get_cardinality,
    marshal_binary, unmarshal_binary,
  }

  pub record Sketch : Type 0 where
    pub rb : Bitmap

  unfoldable pub new : Sketch
  new = record { rb = rb_new }

  -- UnmarshalBinary into a new bitmap.
  unfoldable pub parse : Bytes → Result Sketch
  parse b = elim (unmarshal_binary b) [ err e ↦ err e | ok rb ↦ ok (record { rb = rb }) ]

  unfoldable pub add : Sketch → ℕ → Sketch
  add s id = record { rb = rb_add s.rb id }

  unfoldable pub cardinality : Sketch → ℕ
  cardinality s = get_cardinality s.rb

  -- The error of MarshalBinary is dropped.
  unfoldable pub bytes : Sketch → Bytes
  bytes s = (marshal_binary s.rb).0

  unfoldable pub clone : Sketch → Sketch
  clone s = record { rb = rb_clone s.rb }

  unfoldable pub merge : Sketch → Sketch → Sketch
  merge s o = record { rb = rb_or s.rb o.rb }
