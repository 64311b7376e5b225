-- ===== src/Hll/Rank.antt =====
-- What Add reads off a hash: a register's index, and the rank of the 50 bits below it.
use native.Mathlib.Nat.{pow-suc}
use time_series_cardinality.Base.{
  ℕ, zero, suc, ◌+◌, ◌-◌, ◌*◌, ◌%◌, ◌^◌, ◌≤◌, ◌<◌, ◌≡◌, refl, ◌⊎◌, inl, inr, ap, arith,
}
use time_series_cardinality.Words.{
  leading_zeros, leading_zeros_lem, leading_zeros_none, bit_or-ones,
}
use time_series_cardinality.Hll.{precision, num_regs, index, rank}

-- The bits of a hash that the index leaves.
abbrev pub low_bits : ℕ → ℕ
low_bits hash = hash % 2 ^ (64 - precision)

shifted : (hash : ℕ) → hash * 2 ^ precision % 2 ^ 64 ≡ low_bits hash * 2 ^ precision
shifted hash = omega arith

pow_shift : (k n : ℕ) → n ≡ k + 14 → 2 ^ n ≡ 2 ^ k * 2 ^ 14
pow_shift zero n e = let e' : n ≡ 14 = omega arith in rw e' refl
pow_shift (suc k) zero e = absurd (omega arith)
pow_shift (suc k) (suc n) e = omega (arith, pow_shift k n (omega arith), pow-suc 2 n, pow-suc 2 k)

-- Ones appended below a word leave its leading zeros alone.
leading_zeros-ones :
    (k n x : ℕ)
    → n ≡ k + 14
    → x < 2 ^ k
    → leading_zeros n (x * 2 ^ 14 + (2 ^ 14 - 1)) ≡ leading_zeros k x
unfolding leading_zeros
leading_zeros-ones zero n zero e h = let e' : n ≡ 14 = omega arith in rw e' refl
leading_zeros-ones zero n (suc x) e h = absurd (omega arith)
leading_zeros-ones (suc k) zero x e h = absurd (omega arith)
leading_zeros-ones (suc k) (suc n) x e h =
    let p = pow_shift k n (omega arith) in ground (arith, p, leading_zeros-ones k n x (omega arith))

-- The rank is one more than the leading zeros of the low 50 bits.
pub rank-low_bits : (hash : ℕ) → rank hash ≡ suc (leading_zeros 50 (low_bits hash))
unfolding rank
rank-low_bits hash =
    rw
      (
        shifted hash,
        bit_or-ones 14 (low_bits hash),
        leading_zeros-ones 50 64 (low_bits hash) refl (omega arith),
      )
      (omega (arith, leading_zeros_lem 50 (low_bits hash) (omega arith)))

gap : (z : ℕ) → 51 - suc z ≡ 50 - z
gap z = omega arith

-- For every 64-bit hash the index lies in the register array and the rank is 1 to 51, so neither
-- the array access nor the uint8 register can go out of range. The rank is the position of the
-- highest one among the 50 bits below the index, counted from 1 at the top, and 51 if all are zero.
pub index-rank_lem :
    (hash : ℕ)
    → hash < 2 ^ 64
    → (index hash < num_regs)
      × (1 ≤ rank hash)
      × (rank hash ≤ 51)
      × (low_bits hash < 2 ^ (51 - rank hash))
      × (((low_bits hash ≡ 0) × (rank hash ≡ 51)) ⊎ (2 ^ (51 - rank hash) ≤ 2 * low_bits hash))
unfolding index
index-rank_lem hash h =
    let (fits, below, above) = leading_zeros_lem 50 (low_bits hash) (omega arith) in
    rw (rank-low_bits hash, gap (leading_zeros 50 (low_bits hash)))
      (
        omega arith,
        omega arith,
        omega arith,
        below,
        elim above [
          | inl none_set ↦ inl (none_set, ap suc (rw none_set (leading_zeros_none 50)))
          | inr some_set ↦ inr some_set
        ],
      )
