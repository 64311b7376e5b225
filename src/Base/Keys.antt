-- ===== src/Base/Keys.antt =====
-- Equality tests of keys as an interface, with the program's two kinds of key: Go strings, which
-- are sequences of bytes, and machine words.
use Prim.Native.Nat.{ℕ, ◌<◌}
use Prim.Native.Char.{code}
use Prim.Native.String.{String}
use mathlib.Core.Path.{◌≡◌}
use mathlib.Core.Logic.{◌↔◌}
use mathlib.Core.Bool.{Bool, true, false, ◌&&◌}
use mathlib.Core.List.{List, [], ◌∷◌}
use native.Mathlib.Omega.{arith}
use time_series_cardinality.Base.Tests.{nat_eqb, nat_eqb_iff}

pub record Eq {ℓ} (A : Type ℓ) : Type ℓ where
  pub beq : A → A → Bool
  pub beq_iff : (x y : A) → (beq x y ≡ true) ↔ (x ≡ y)

-- A Go string or []byte; an element is a byte, below 256.
abbrev pub Bytes : Type 0
Bytes = List ℕ

abbrev pub IsByte : ℕ → Type 0
IsByte b = b < 256

-- The bytes of an ASCII literal.
abbrev pub lit : String → Bytes
lit String.[] = []
lit (String.◌∷◌ c s) = code c ∷ lit s

infix 50 ◌==◌
abbrev pub ◌==◌ {ℓ} : {A : Type ℓ} ⦃e : Eq A⦄ → A → A → Bool
◌==◌ ⦃e⦄ = e.beq

unfoldable pub bytes_eqb : Bytes → Bytes → Bool
bytes_eqb [] [] = true
bytes_eqb [] (y ∷ ys) = false
bytes_eqb (x ∷ xs) [] = false
bytes_eqb (x ∷ xs) (y ∷ ys) = nat_eqb x y && bytes_eqb xs ys

pub bytes_eqb_iff : (a b : Bytes) → (bytes_eqb a b ≡ true) ↔ (a ≡ b)
unfolding bytes_eqb
bytes_eqb_iff [] [] = ground arith
bytes_eqb_iff [] (y ∷ ys) = ground arith
bytes_eqb_iff (x ∷ xs) [] = ground arith
bytes_eqb_iff (x ∷ xs) (y ∷ ys) = ground (arith, bytes_eqb_iff xs ys)

instance abbrev pub nat_eq : Eq ℕ
nat_eq = record { beq = nat_eqb; beq_iff = nat_eqb_iff }

instance abbrev pub bytes_eq : Eq Bytes
bytes_eq = record { beq = bytes_eqb; beq_iff = bytes_eqb_iff }
