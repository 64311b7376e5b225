-- ===== src/Words/Laws.antt =====
-- copy, the little-endian words, and the leading zeros of a word.
use time_series_cardinality.Base.{
  length-take, length-drop, All-append, All-take, All-drop, take-append, length-append, ℕ, zero,
  suc, ◌+◌, ◌-◌, ◌*◌, ◌/◌, ◌%◌, ◌^◌, ◌≤◌, ◌<◌, ◌≡◌, refl, List, [], ◌∷◌, ◌++◌, arith, ltb, All,
  if◌then◌else◌, length, take, drop, take_all, drop_all, Bytes, IsByte, append-nil, get_or, ◌⊎◌,
  Bool-cases, inl, inr, ltb→lt, true, ap,
}
use native.Mathlib.Nat.{pow-suc, sub-zero}

-- copy(dst, src): as many elements as both have.
unfoldable pub copy {ℓ} : {A : Type ℓ} → List A → List A → List A
unfolding length take drop
copy dst src = take (length dst) src ++ drop (length src) dst

pub copy_full {ℓ} : {A : Type ℓ} (dst src : List A) → length dst ≡ length src → copy dst src ≡ src
unfolding copy
copy_full dst src e =
    rw
      (take_all (length dst) src (omega arith), drop_all (length src) dst (omega arith), append-nil)

pub copy-append {ℓ} :
    {A : Type ℓ} (dst src more : List A) → length dst ≡ length src → copy dst (src ++ more) ≡ src
unfolding copy
copy-append dst src more e = rw (
  e,
  take-append src more,
  drop_all (length (src ++ more)) dst (omega (arith, length-append {ℓ} src more)),
  append-nil,
)

pub length-copy {ℓ} : {A : Type ℓ} (dst src : List A) → length (copy dst src) ≡ length dst
unfolding copy
length-copy dst src = omega (
  arith,
  length-append {ℓ} (take (length dst) src) (drop (length src) dst),
  length-take {ℓ} (length dst) src,
  length-drop {ℓ} (length src) dst,
)

pub All-copy {ℓ κ} :
    {A : Type ℓ} (P : A → Type κ) (dst src : List A) → All P dst → All P src → All P (copy dst src)
unfolding copy
All-copy P dst src hd hs =
    All-append P _ _ (All-take P (length dst) src hs) (All-drop P (length src) dst hd)

-- binary.LittleEndian.PutUint16 and PutUint64: the n low bytes, lowest first.
unfoldable pub little_endian : ℕ → ℕ → Bytes
little_endian zero v = []
little_endian (suc n) v = (v % 256) ∷ little_endian n (v / 256)

-- binary.LittleEndian.Uint16
unfoldable pub uint16 : Bytes → ℕ
unfolding get_or
uint16 b = get_or b 0 0 + 256 * get_or b 1 0

pub uint16-little_endian : (v : ℕ) → v < 2 ^ 16 → uint16 (little_endian 2 v) ≡ v
unfolding uint16 little_endian
uint16-little_endian v h = omega arith

pub length-little_endian : (n v : ℕ) → length (little_endian n v) ≡ n
unfolding little_endian length
length-little_endian zero v = refl
length-little_endian (suc n) v = omega (arith, length-little_endian n (v / 256))

pub little_endian-IsByte : (n v : ℕ) → All IsByte (little_endian n v)
unfolding little_endian
little_endian-IsByte zero v = tt
little_endian-IsByte (suc n) v = (omega arith, little_endian-IsByte n (v / 256))

-- The zeros above the highest one of a k-bit word; bits.LeadingZeros64 is `leading_zeros 64`.
unfoldable pub leading_zeros : ℕ → ℕ → ℕ
leading_zeros zero x = 0
leading_zeros (suc k) x = if ltb x (2 ^ k) then suc (leading_zeros k x) else 0

pow_positive : (k : ℕ) → 0 < 2 ^ k
pow_positive zero = omega arith
pow_positive (suc k) = omega (arith, pow_positive k, pow-suc 2 k)

lt→ltb : (a b : ℕ) → a < b → ltb a b ≡ true
lt→ltb a b h = ground arith

-- A word of zeros is all leading zeros.
pub leading_zeros_none : (k : ℕ) → leading_zeros k 0 ≡ k
unfolding leading_zeros
leading_zeros_none zero = refl
leading_zeros_none (suc k) =
    let positive : 0 < 2 ^ k = pow_positive k in
    rw (lt→ltb 0 (2 ^ k) positive) (ap suc (leading_zeros_none k))

sub_suc : (k z : ℕ) → suc k - suc z ≡ k - z
sub_suc k z = omega arith

-- The word lies below 2 to the bits left, and from half of that on if it is not zero.
pub leading_zeros_lem :
    (k x : ℕ)
    → x < 2 ^ k
    → (leading_zeros k x ≤ k)
      × (x < 2 ^ (k - leading_zeros k x))
      × ((x ≡ 0) ⊎ (2 ^ (k - leading_zeros k x) ≤ 2 * x))
unfolding leading_zeros
leading_zeros_lem zero x h = (omega arith, omega arith, inl (omega arith))
leading_zeros_lem (suc k) x h = elim (Bool-cases (ltb x (2 ^ k))) [
  | inl small ↦
      let (fits, below, above) = leading_zeros_lem k x (ltb→lt x (2 ^ k) small) in
      rw (small, sub_suc) (omega arith, below, above)
  | inr large ↦ rw (large, sub-zero) (omega arith, h, inr (ground (arith, pow-suc 2 k)))
]
