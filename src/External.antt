-- ===== src/External.antt =====
-- Third-party packages that the sketches call, as interfaces with the behaviour that they document.
use mathlib.Core.List.{Mem, Nodup}
use time_series_cardinality.Base.{
  ℕ, ◌^◌, ◌<◌, ◌≡◌, ◌↔◌, Bool, true, false, ◌||◌, Option, List, Bytes, IsByte, All, length, nat_eq,
  ◌==◌, if◌then◌else◌,
}
use time_series_cardinality.Errors.{Result, Error, ok}

-- github.com/spaolacci/murmur3: Sum32 returns a uint32 and Sum64 a uint64.
pub record Murmur : Type 0 where
  pub sum32 : Bytes → ℕ
  pub sum64 : Bytes → ℕ
  pub sum32_fits : (b : Bytes) → sum32 b < 2 ^ 32
  pub sum64_fits : (b : Bytes) → sum64 b < 2 ^ 64

-- float64 and the functions of package math that the estimate uses. `literal m d` is m / 10 ^ d.
pub record Floats : Type 1 where
  pub Float : Type 0
  pub literal : ℕ → ℕ → Float
  pub of_int : ℕ → Float
  pub add : Float → Float → Float
  pub mul : Float → Float → Float
  pub div : Float → Float → Float
  pub neg : Float → Float
  pub pow : Float → Float → Float
  pub log : Float → Float
  pub leq : Float → Float → Bool
  pub round_uint64 : Float → ℕ

-- github.com/RoaringBitmap/roaring/roaring64
pub record Roaring : Type 1 where
  pub Bitmap : Type 0
  pub new : Bitmap
  pub add : Bitmap → ℕ → Bitmap
  pub or : Bitmap → Bitmap → Bitmap
  pub clone : Bitmap → Bitmap
  pub contains : Bitmap → ℕ → Bool
  pub get_cardinality : Bitmap → ℕ
  pub marshal_binary : Bitmap → Bytes × Option Error
  pub unmarshal_binary : Bytes → Result Bitmap

-- What it documents: a bitmap is a set of uint64 values, GetCardinality counts its members, and
-- UnmarshalBinary reads back the set that MarshalBinary wrote.
pub record IsRoaring (r : Roaring) : Type 0 where
  pub contains-new : (x : ℕ) → r.contains r.new x ≡ false
  pub contains-add :
      (b : r.Bitmap) (y x : ℕ)
      → r.contains (r.add b y) x ≡ (if y == x then true else r.contains b x)
  pub contains-or :
      (b c : r.Bitmap) (x : ℕ) → r.contains (r.or b c) x ≡ (r.contains b x || r.contains c x)
  pub contains-clone : (b : r.Bitmap) (x : ℕ) → r.contains (r.clone b) x ≡ r.contains b x
  pub counts :
      (b : r.Bitmap) (l : List ℕ)
      → Nodup l
      → ((x : ℕ) → (r.contains b x ≡ true) ↔ Mem x l)
      → r.get_cardinality b ≡ length l
  pub counts_members :
      (b c : r.Bitmap)
      → ((x : ℕ) → r.contains b x ≡ r.contains c x)
      → r.get_cardinality b ≡ r.get_cardinality c
  pub marshal_bytes : (b : r.Bitmap) → All IsByte (r.marshal_binary b).0
  pub unmarshal-marshal :
      (b : r.Bitmap)
      → (c : r.Bitmap) × (r.unmarshal_binary (r.marshal_binary b).0 ≡ ok c)
        × ((x : ℕ) → r.contains c x ≡ r.contains b x)
