-- ===== src/Varint/RoundTrip.antt =====
-- Uvarint reads back what AppendUvarint wrote, and what it can answer for any bytes.
use native.Mathlib.Decide.{dec_le}
use native.Mathlib.Nat.{div-add-mod, pow-suc, one-le-pow}
use native.Mathlib.Numerals.{towards_suc}
use time_series_cardinality.Base.{
  ℕ, zero, suc, ◌+◌, ◌*◌, ◌/◌, ◌%◌, ◌^◌, ◌≤◌, ◌<◌, ◌≡◌, refl, ap, ap₂, ◌∙◌, [], ◌∷◌, ◌++◌, Bytes,
  IsByte, All, arith, length, length-cons,
}
use time_series_cardinality.Varint.{value, uvarint_loop, uvarint, uvarint_bytes, append_uvarint}

next_shift : (s : ℕ) → 2 ^ (s + 7) ≡ 128 * 2 ^ s
next_shift s = simp towards_suc (omega arith)

-- The low group of v and the rest of it, at shift s.
split_at : (v s : ℕ) → v * 2 ^ s ≡ v % 128 * 2 ^ s + v / 128 * 2 ^ (s + 7)
split_at v s = omega (
  arith,
  ap (λ (t : ℕ). v / 128 * t) (next_shift s),
  ap (λ (t : ℕ). t * 2 ^ s) (div-add-mod v 128),
)

last_byte :
    (v i x s : ℕ) (rest : Bytes)
    → v < 128
    → i ≤ 9
    → (i ≡ 9 → v < 2)
    → uvarint_loop (v ∷ rest) i x s ≡ value (x + v * 2 ^ s) (i + 1)
unfolding uvarint_loop
last_byte v i x s rest h hi h9 = ground (arith, h9)

inner_byte :
    (g i x s : ℕ) (rest : Bytes)
    → g < 128
    → i ≤ 9
    → uvarint_loop ((g + 128) ∷ rest) i x s ≡ uvarint_loop rest (i + 1) (x + g * 2 ^ s) (s + 7)
unfolding uvarint_loop
inner_byte g i x s rest h hi = ground (arith, mod_group g h)
  where
    mod_group : (g : ℕ) → g < 128 → (g + 128) % 128 ≡ g
    mod_group g h = omega arith

bytes_last : (k v : ℕ) → v < 128 → uvarint_bytes (suc k) v ≡ v ∷ []
unfolding uvarint_bytes
bytes_last k v h = ground arith

bytes_more :
    (k v : ℕ) → 128 ≤ v → uvarint_bytes (suc k) v ≡ (v % 128 + 128) ∷ uvarint_bytes k (v / 128)
unfolding uvarint_bytes
bytes_more k v h = ground arith

one_more : (i n : ℕ) → i + 1 + n ≡ i + suc n
one_more i n = omega arith

-- v still has to be written in k + 1 bytes, and i bytes stand before it.
loop-bytes :
    (k v i x s : ℕ) (rest : Bytes)
    → i + k ≡ 9
    → 64 * v < 128 ^ suc k
    → uvarint_loop (uvarint_bytes (suc k) v ++ rest) i x s
      ≡ value (x + v * 2 ^ s) (i + length (uvarint_bytes (suc k) v))
loop-bytes zero v i x s rest e h =
    rw (bytes_last zero v (omega arith))
      (unfold length in last_byte v i x s rest (omega arith) (omega arith) (λ _. omega arith))
loop-bytes (suc k) v i x s rest e h = elim (dec_le 128 v) [
  | no small ↦ rw (bytes_last (suc k) v (omega arith)) (
      unfold length in
      last_byte v i x s rest (omega arith) (omega arith) (λ p. absurd (omega arith)))
  | yes large ↦ rw (bytes_more (suc k) v large) (
      inner_byte (v % 128) i x s _ (omega arith) (omega arith)
      ∙ loop-bytes k (v / 128) (i + 1) (x + v % 128 * 2 ^ s) (s + 7) rest (omega arith)
          (omega (arith, pow-suc 128 (suc k)))
      ∙ ap₂ value (omega (arith, split_at v s)) (unfold length in one_more i _))
]

bytes_length :
    (k v : ℕ) → (1 ≤ length (uvarint_bytes (suc k) v)) × (length (uvarint_bytes (suc k) v) ≤ suc k)
unfolding uvarint_bytes length
bytes_length zero v = ground arith
bytes_length (suc k) v = ground (arith, bytes_length k (v / 128))

bytes-IsByte : (k v : ℕ) → All IsByte (uvarint_bytes k v)
unfolding uvarint_bytes
bytes-IsByte zero v = tt
bytes-IsByte (suc k) v = ground (arith, bytes-IsByte k (v / 128))

-- Uvarint reads back every uint64 that AppendUvarint wrote, whatever bytes follow, and consumes
-- exactly the bytes written.
pub uvarint-append_uvarint :
    (v : ℕ) (rest : Bytes)
    → v < 2 ^ 64
    → uvarint (append_uvarint v ++ rest) ≡ value v (length (append_uvarint v))
unfolding uvarint append_uvarint
uvarint-append_uvarint v rest h =
    loop-bytes 9 v 0 0 0 rest refl (omega arith) ∙ ap₂ value (omega arith) (omega arith)

pub length-append_uvarint :
    (v : ℕ) → (1 ≤ length (append_uvarint v)) × (length (append_uvarint v) ≤ 10)
unfolding append_uvarint
length-append_uvarint v = bytes_length 9 v

pub append_uvarint-IsByte : (v : ℕ) → All IsByte (append_uvarint v)
unfolding append_uvarint
append_uvarint-IsByte v = bytes-IsByte 10 v

-- What a parsed varint took: one byte at least, ten at most, and none past the end.
loop_takes :
    (b : Bytes) (i x s v n : ℕ)
    → i ≤ 10
    → uvarint_loop b i x s ≡ value v n
    → (i < n) × (n ≤ i + length b) × (n ≤ 10)
unfolding uvarint_loop length
loop_takes [] i x s v n hi h = cc
loop_takes (c ∷ bs) i x s v n hi h =
    ground (arith, loop_takes bs (i + 1) (x + c % 128 * 2 ^ s) (s + 7) v n)

pub uvarint_takes :
    (b : Bytes) (v n : ℕ) → uvarint b ≡ value v n → (1 ≤ n) × (n ≤ length b) × (n ≤ 10)
unfolding uvarint
uvarint_takes b v n h = omega (arith, loop_takes b 0 0 0 v n (omega arith) h)

bytes_full : (k v : ℕ) → 128 ^ k ≤ v → length (uvarint_bytes (suc k) v) ≡ suc k
bytes_full zero v h = unfold uvarint_bytes length in ground arith
bytes_full (suc k) v h =
    let p = pow-suc 128 k in
    let one = one-le-pow k 128 (omega arith) in
    let large : 128 ≤ v = omega (arith, p, one) in
    rw (bytes_more (suc k) v large)
      (length-cons _ _ ∙ ap suc (bytes_full k (v / 128) (omega (arith, p))))

-- An id from 2 ^ 63 on takes ten bytes.
pub length-append_uvarint_high : (v : ℕ) → 2 ^ 63 ≤ v → length (append_uvarint v) ≡ 10
unfolding append_uvarint
length-append_uvarint_high v h = bytes_full 9 v h
