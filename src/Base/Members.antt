-- ===== src/Base/Members.antt =====
-- Membership in a list of numbers as a test, and the library's `Mem`.
use mathlib.Core.List.{Mem, mem-cons, not-mem-nil}
use mathlib.Core.Logic.Or
use mathlib.Core.Bool.{Bool, true, false, ◌||◌, Bool-set}
use Prim.Native.Nat.{ℕ}
use mathlib.Core.Path.{◌≡◌, refl, sym}
use mathlib.Core.Logic.{inl, inr}
use mathlib.Core.List.{List, [], ◌∷◌, ◌++◌}
use native.Mathlib.Omega.{arith}
use time_series_cardinality.Base.Tests.{nat_eqb, nat_eqb_iff, if◌then◌else◌, Bool-cases}

unfoldable pub elem : ℕ → List ℕ → Bool
elem x [] = false
elem x (y ∷ ys) = if nat_eqb y x then true else elem x ys

pub elem_of_Mem : (x : ℕ) (l : List ℕ) → Mem x l → elem x l ≡ true
unfolding elem
elem_of_Mem x [] h = absurd (not-mem-nil h)
elem_of_Mem x (y ∷ ys) h =
    Or.elim (Bool-set _ _) (mem-cons.0 h) (λ e. ground (arith, nat_eqb_iff y x))
      (λ k. ground (arith, elem_of_Mem x ys k))

pub Mem_of_elem : (x : ℕ) (l : List ℕ) → elem x l ≡ true → Mem x l
unfolding elem
Mem_of_elem x [] h = cc
Mem_of_elem x (y ∷ ys) h = elim (Bool-cases (nat_eqb y x)) [
  | inl same ↦ mem-cons.1 (Or.inl (sym ((nat_eqb_iff y x).0 same)))
  | inr other ↦ mem-cons.1 (Or.inr (Mem_of_elem x ys (rw other at h)))
]

pub elem-append : (x : ℕ) (a b : List ℕ) → elem x (a ++ b) ≡ (elem x a || elem x b)
unfolding elem
elem-append x [] b = refl
elem-append x (y ∷ a) b = ground (arith, elem-append x a b)
