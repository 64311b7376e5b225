-- ===== src/Sketch.antt =====
-- internal/cardinality/sketch.go: the interfaces Sketch and Algorithm. A value of the interface
-- type Sketch may be of any implementation, so `SketchOps` holds the methods of all of them, and an
-- `Algorithm` is one factory. Merge panics on a sketch of another kind.
use mathlib.Core.List.{foldl}
use time_series_cardinality.Base.{ℕ, ◌≡◌, List, Bytes, IsByte, All}
use time_series_cardinality.Errors.{Result, ok, Run, done}

pub record SketchOps : Type 1 where
  pub Sketch : Type 0
  pub algo_name : Sketch → Bytes
  pub add : Sketch → ℕ → Sketch
  pub cardinality : Sketch → ℕ
  pub merge : Sketch → Sketch → Run Sketch
  pub bytes : Sketch → Bytes
  pub clone : Sketch → Sketch

pub record Algorithm (o : SketchOps) : Type 0 where
  pub name : Bytes
  pub new : o.Sketch
  pub parse : Bytes → Result o.Sketch

-- The contract between the engine and an implementation. `Made s` says that `s` is a sketch of this
-- algorithm, and `Same s t` that the two cannot be told apart by what is counted.
pub record IsLawful (o : SketchOps) (a : Algorithm o) : Type 1 where
  pub Made : o.Sketch → Type 0
  pub Same : o.Sketch → o.Sketch → Type 0
  pub same_refl : (s : o.Sketch) → Same s s
  pub same_sym : {s t : o.Sketch} → Same s t → Same t s
  pub same_trans : {s t u : o.Sketch} → Same s t → Same t u → Same s u
  pub same_cardinality : {s t : o.Sketch} → Same s t → o.cardinality s ≡ o.cardinality t
  pub same_add : {s t : o.Sketch} (id : ℕ) → Same s t → Same (o.add s id) (o.add t id)
  pub made_name : {s : o.Sketch} → Made s → o.algo_name s ≡ a.name
  pub made_new : Made a.new
  pub made_add : {s : o.Sketch} (id : ℕ) → Made s → Made (o.add s id)
  pub made_clone : {s : o.Sketch} → Made s → Made (o.clone s) × Same (o.clone s) s
  pub made_merge :
      (s t : o.Sketch) → Made s → Made t → (u : o.Sketch) × (o.merge s t ≡ done u) × Made u
  pub made_parse : (b : Bytes) (s : o.Sketch) → All IsByte b → a.parse b ≡ ok s → Made s
  pub made_bytes : {s : o.Sketch} → Made s → All IsByte (o.bytes s)
  pub parse_bytes :
      (s : o.Sketch) → Made s → (t : o.Sketch) × (a.parse (o.bytes s) ≡ ok t) × Same t s
  -- an id that is added again changes nothing that is counted, and ids may come in any order
  pub add_again : (s : o.Sketch) (id : ℕ) → Made s → Same (o.add (o.add s id) id) (o.add s id)
  pub add_swap :
      (s : o.Sketch) (i j : ℕ) → Made s → Same (o.add (o.add s i) j) (o.add (o.add s j) i)
  -- merging what a stream of ids leaves is adding the ids
  pub merge_adds :
      (s t : o.Sketch) (ids : List ℕ)
      → Made s
      → Same t (foldl o.add a.new ids)
      → (u : o.Sketch) × (o.merge s t ≡ done u) × Same u (foldl o.add s ids)
