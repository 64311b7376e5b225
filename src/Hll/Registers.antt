-- ===== src/Hll/Registers.antt =====
-- The registers of a sketch, and Merge as a join of them.
use time_series_cardinality.Base.{
  ℕ, zero, suc, ◌<◌, ◌≡◌, refl, ap, ◌∙◌, max, List, [], ◌∷◌, arith, nat_eqb, if◌then◌else◌, length,
  get_or, All, IsByte, length-replicate, length-set, get_or-replicate, get_or-set, All-replicate,
  All-set, list_ext,
}
use time_series_cardinality.Hll.{Sketch, num_regs, new, raise, merge_regs, merge}

-- What the type [numRegs]uint8 says of the registers.
pub record IsValid (s : Sketch) : Type 0 where
  pub size : length s.regs ≡ num_regs
  pub bytes : All IsByte s.regs

unfoldable pub register : Sketch → ℕ → ℕ
register s i = get_or s.regs i 0

pub get_or-raise :
    (rs : List ℕ) (idx rho i : ℕ)
    → idx < length rs
    → get_or (raise rs idx rho) i 0 ≡ max (get_or rs i 0) (if nat_eqb idx i then rho else 0)
unfolding raise
get_or-raise rs idx rho i h = ground (arith, get_or-set rs idx i rho 0 h)

pub length-raise : (rs : List ℕ) (idx rho : ℕ) → length (raise rs idx rho) ≡ length rs
unfolding raise
length-raise rs idx rho = ground (arith, length-set rs idx rho)

get_or-merge_regs :
    (rs os : List ℕ) (i : ℕ)
    → length rs ≡ length os
    → get_or (merge_regs rs os) i 0 ≡ max (get_or rs i 0) (get_or os i 0)
unfolding merge_regs get_or length
get_or-merge_regs [] [] i e = refl
get_or-merge_regs [] (o ∷ os) i e = absurd (omega arith)
get_or-merge_regs (r ∷ rs) [] i e = absurd (omega arith)
get_or-merge_regs (r ∷ rs) (o ∷ os) zero e = ground arith
get_or-merge_regs (r ∷ rs) (o ∷ os) (suc i) e = get_or-merge_regs rs os i (omega arith)

length-merge_regs : (rs os : List ℕ) → length (merge_regs rs os) ≡ length rs
unfolding merge_regs length
length-merge_regs [] os = refl
length-merge_regs (r ∷ rs) [] = refl
length-merge_regs (r ∷ rs) (o ∷ os) = ap suc (length-merge_regs rs os)

All-merge_regs : (rs os : List ℕ) → All IsByte rs → All IsByte os → All IsByte (merge_regs rs os)
unfolding merge_regs
All-merge_regs [] os hr ho = tt
All-merge_regs (r ∷ rs) [] hr ho = hr
All-merge_regs (r ∷ rs) (o ∷ os) hr ho = (ground arith, All-merge_regs rs os hr.1 ho.1)

pub All-raise :
    (rs : List ℕ) (idx rho : ℕ) → All IsByte rs → rho < 256 → All IsByte (raise rs idx rho)
unfolding raise
All-raise rs idx rho h hr = ground (arith, All-set IsByte rs idx rho h hr)

pub new-IsValid : IsValid new
unfolding new
new-IsValid = record {
  size = length-replicate num_regs 0;
  bytes = All-replicate IsByte num_regs 0 (omega arith);
}

pub merge-IsValid : {s o : Sketch} → IsValid s → IsValid o → IsValid (merge s o)
unfolding merge
merge-IsValid {s} {o} hs ho = record {
  size = length-merge_regs s.regs o.regs ∙ hs.size;
  bytes = All-merge_regs s.regs o.regs hs.bytes ho.bytes;
}

pub register-merge :
    {s o : Sketch} (i : ℕ)
    → IsValid s
    → IsValid o
    → register (merge s o) i ≡ max (register s i) (register o i)
unfolding register merge
register-merge {s} {o} i hs ho = get_or-merge_regs s.regs o.regs i (omega (arith, hs.size, ho.size))

pub register-new : (i : ℕ) → register new i ≡ 0
unfolding register new
register-new i = get_or-replicate num_regs i 0

-- Valid sketches that agree at every register have the same registers.
pub regs_ext :
    {s o : Sketch}
    → IsValid s
    → IsValid o
    → ((i : ℕ) → register s i ≡ register o i)
    → s.regs ≡ o.regs
unfolding register
regs_ext {s} {o} hs ho h = list_ext s.regs o.regs 0 (omega (arith, hs.size, ho.size)) h

-- On sketches with 2 ^ 14 registers of a byte each, Merge is a join: up to the scratch buffer it is
-- commutative, associative and idempotent.
pub merge_join :
    (s t u : Sketch)
    → IsValid s
    → IsValid t
    → IsValid u
    → ((merge s t).regs ≡ (merge t s).regs)
      × ((merge (merge s t) u).regs ≡ (merge s (merge t u)).regs)
      × ((merge s s).regs ≡ s.regs)
merge_join s t u hs ht hu =
    let st = merge-IsValid hs ht in
    let tu = merge-IsValid ht hu in
    (
      regs_ext st (merge-IsValid ht hs)
          λ i. omega (arith, register-merge i hs ht, register-merge i ht hs),
      regs_ext (merge-IsValid st hu) (merge-IsValid hs tu) λ i. omega (
        arith,
        register-merge i st hu,
        register-merge i hs tu,
        register-merge i hs ht,
        register-merge i ht hu,
      ),
      regs_ext (merge-IsValid hs hs) hs λ i. omega (arith, register-merge i hs hs),
    )
