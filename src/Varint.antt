-- ===== src/Varint.antt =====
-- encoding/binary's unsigned varints, as the raft commands carry them: seven bits a byte, lowest
-- first, with the top bit set on every byte but the last.
pub mod RoundTrip
use time_series_cardinality.Base.{
  ℕ, zero, suc, ◌≡◌, refl, ◌⊎◌, inl, inr, ◌+◌, ◌*◌, ◌/◌, ◌%◌, ◌^◌, List, [], ◌∷◌, Bytes, ltb,
  nat_eqb, ◌&&◌, if◌then◌else◌,
}

-- (x, n) of binary.Uvarint: `value x n` for n > 0, `short` for n = 0, `overflow k` for n = -k.
pub data Uvarint : Type 0 where
  value : ℕ → ℕ → Uvarint
  short : Uvarint
  overflow : ℕ → Uvarint

pub Uvarint-cases :
    (u : Uvarint)
    → ((v : ℕ) × (n : ℕ) × (u ≡ value v n)) ⊎ ((u ≡ short) ⊎ ((k : ℕ) × (u ≡ overflow k)))
Uvarint-cases (value v n) = inl (v, n, refl)
Uvarint-cases short = inr (inl refl)
Uvarint-cases (overflow k) = inr (inr (k, refl))

-- The loop over the bytes from index i on; x has been read and s is the shift. The groups of bits
-- are disjoint, so `|` is `+`. Only a shift of 63 could push bits out of the 64, and there either
-- the byte is 0 or 1, or the answer is an overflow.
uvarint_loop : Bytes → ℕ → ℕ → ℕ → Uvarint
uvarint_loop [] i x s = short
uvarint_loop (b ∷ bs) i x s =
    let more = uvarint_loop bs (i + 1) (x + b % 128 * 2 ^ s) (s + 7) in
    if nat_eqb i 10
    then overflow (i + 1)
    else if ltb b 128
    then (if nat_eqb i 9 && ltb 1 b then overflow (i + 1) else value (x + b * 2 ^ s) (i + 1))
    else more

-- binary.Uvarint(buf)
unfoldable pub uvarint : Bytes → Uvarint
unfolding uvarint_loop
uvarint buf = uvarint_loop buf 0 0 0

-- binary.AppendUvarint(nil, v), with a number of rounds; ten are enough for 64 bits.
uvarint_bytes : ℕ → ℕ → Bytes
uvarint_bytes zero v = []
uvarint_bytes (suc k) v =
    let rest = uvarint_bytes k (v / 128) in if ltb v 128 then v ∷ [] else (v % 128 + 128) ∷ rest

unfoldable pub append_uvarint : ℕ → Bytes
unfolding uvarint_bytes
append_uvarint v = uvarint_bytes 10 v
