-- ===== src/Hll/Streams.antt =====
-- The registers as a function of the stream of ids added.
use mathlib.Core.List.{foldl, Mem, mem-cons, not-mem-nil}
use mathlib.Core.Logic.Or
use native.Mathlib.Bridge.{le_prop}
use time_series_cardinality.Base.{
  ℕ, ◌≤◌, ◌≡◌, refl, ap, ◌∙◌, max, List, [], ◌∷◌, ◌++◌, arith, nat_eqb, if◌then◌else◌,
}
use time_series_cardinality.External.{Murmur}
use time_series_cardinality.Words.{little_endian}
use time_series_cardinality.Hll.{Sketch, new, index, rank, add, merge}
use time_series_cardinality.Hll.Rank.{index-rank_lem}
use time_series_cardinality.Hll.Registers.{
  IsValid, register, get_or-raise, length-raise, All-raise, new-IsValid, merge-IsValid,
  register-merge, register-new, regs_ext,
}

module _ (m : Murmur) where
  -- What one id asks of register i.
  pub level : ℕ → ℕ → ℕ
  level id i =
      let hash = m.sum64 (little_endian 8 id) in if nat_eqb (index hash) i then rank hash else 0

  pub add-IsValid : {s : Sketch} (id : ℕ) → IsValid s → IsValid (add m s id)
  unfolding add
  add-IsValid {s} id h =
      let hash = m.sum64 (little_endian 8 id) in
      record {
        size = length-raise s.regs (index hash) (rank hash) ∙ h.size;
        bytes =
            All-raise s.regs (index hash) (rank hash) h.bytes
              (omega (arith, index-rank_lem hash (m.sum64_fits _)));
      }

  pub register-add :
      {s : Sketch} (id i : ℕ)
      → IsValid s
      → register (add m s id) i ≡ max (register s i) (level id i)
  unfolding add register level
  register-add {s} id i h =
      let hash = m.sum64 (little_endian 8 id) in
      get_or-raise s.regs (index hash) (rank hash) i
        (omega (arith, index-rank_lem hash (m.sum64_fits _), h.size))

  -- An id that was added is in the sketch already, and ids may come in any order.
  pub add_again :
      {s : Sketch} (id : ℕ) → IsValid s → (add m (add m s id) id).regs ≡ (add m s id).regs
  add_again {s} id h =
      let h₁ = add-IsValid id h in
      regs_ext (add-IsValid id h₁) h₁ λ i. omega (arith, register-add id i h, register-add id i h₁)

  pub add_swap :
      {s : Sketch} (x y : ℕ) → IsValid s → (add m (add m s x) y).regs ≡ (add m (add m s y) x).regs
  add_swap {s} x y h =
      let hx = add-IsValid x h in
      let hy = add-IsValid y h in
      regs_ext (add-IsValid y hx) (add-IsValid x hy) λ i.
        omega
          (arith, register-add x i h, register-add y i h, register-add y i hx, register-add x i hy)

  unfoldable pub add_all : Sketch → List ℕ → Sketch
  add_all = foldl (add m)

  -- The highest level that a list of ids asks of register i.
  pub levels : List ℕ → ℕ → ℕ
  levels [] i = 0
  levels (id ∷ ids) i = max (level id i) (levels ids i)

  pub add_all-IsValid : (ids : List ℕ) {s : Sketch} → IsValid s → IsValid (add_all s ids)
  unfolding add_all
  add_all-IsValid [] h = h
  add_all-IsValid (id ∷ ids) {s} h = add_all-IsValid ids (add-IsValid id h)

  pub register-add_all :
      (ids : List ℕ) (i : ℕ) {s : Sketch}
      → IsValid s
      → register (add_all s ids) i ≡ max (register s i) (levels ids i)
  unfolding add_all levels
  register-add_all [] i h = omega arith
  register-add_all (id ∷ ids) i {s} h =
      omega (arith, register-add_all ids i (add-IsValid id h), register-add id i h)

  levels-append : (xs ys : List ℕ) (i : ℕ) → levels (xs ++ ys) i ≡ max (levels xs i) (levels ys i)
  unfolding levels
  levels-append [] ys i = omega arith
  levels-append (x ∷ xs) ys i = omega (arith, levels-append xs ys i)

  level-le-levels : (id i : ℕ) (ids : List ℕ) → Mem id ids → level id i ≤ levels ids i
  unfolding levels
  level-le-levels id i [] h = absurd (not-mem-nil h)
  level-le-levels id i (x ∷ ids) h =
      Or.elim le_prop (mem-cons.0 h) (λ e. omega (arith, ap (λ (y : ℕ). level y i) e))
        (λ t. omega (arith, level-le-levels id i ids t))

  levels_mono :
      (xs ys : List ℕ) (i : ℕ) → ((id : ℕ) → Mem id xs → Mem id ys) → levels xs i ≤ levels ys i
  unfolding levels
  levels_mono [] ys i sub = omega arith
  levels_mono (x ∷ xs) ys i sub = omega (
    arith,
    level-le-levels x i ys (sub x (mem-cons.1 (Or.inl refl))),
    levels_mono xs ys i (λ id t. sub id (mem-cons.1 (Or.inr t))),
  )

  -- Two streams of ids with the same members leave the same registers, whatever their order and
  -- however often an id comes: the sketch is a function of the set of ids.
  pub add_all-same_set :
      (xs ys : List ℕ)
      → ((id : ℕ) → Mem id xs → Mem id ys)
      → ((id : ℕ) → Mem id ys → Mem id xs)
      → (add_all new xs).regs ≡ (add_all new ys).regs
  add_all-same_set xs ys sub sup =
      regs_ext (add_all-IsValid xs new-IsValid) (add_all-IsValid ys new-IsValid) λ i. omega (
        arith,
        register-add_all xs i new-IsValid,
        register-add_all ys i new-IsValid,
        levels_mono xs ys i sub,
        levels_mono ys xs i sup,
      )

  pub merge-add_all_from :
      (s : Sketch) (ids : List ℕ)
      → IsValid s
      → (merge s (add_all new ids)).regs ≡ (add_all s ids).regs
  merge-add_all_from s ids h =
      let v = add_all-IsValid ids new-IsValid in
      regs_ext (merge-IsValid h v) (add_all-IsValid ids h) λ i. omega (
        arith,
        register-merge i h v,
        register-add_all ids i new-IsValid,
        register-add_all ids i h,
        register-new i,
      )

  -- Merging the sketches of two streams gives the registers of the sketch that has seen both.
  pub merge-add_all :
      (xs ys : List ℕ)
      → (merge (add_all new xs) (add_all new ys)).regs ≡ (add_all new (xs ++ ys)).regs
  merge-add_all xs ys =
      let vx = add_all-IsValid xs new-IsValid in
      let vy = add_all-IsValid ys new-IsValid in
      regs_ext (merge-IsValid vx vy) (add_all-IsValid (xs ++ ys) new-IsValid) λ i. omega (
        arith,
        register-merge i vx vy,
        register-add_all xs i new-IsValid,
        register-add_all ys i new-IsValid,
        register-add_all (xs ++ ys) i new-IsValid,
        levels-append xs ys i,
        register-new i,
      )
