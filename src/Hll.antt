-- ===== src/Hll.antt =====
-- internal/cardinality/hll/hll.go: the HyperLogLog sketch of precision 14. The estimate uses
-- float64 through `Floats`, the hash is murmur3's through `Murmur`.
pub mod Rank
pub mod Registers
pub mod Streams
pub mod Wire
use mathlib.Core.List.{foldl}
use time_series_cardinality.Base.{
  ℕ, zero, suc, ◌+◌, ◌-◌, ◌*◌, ◌/◌, ◌%◌, ◌^◌, Bool, true, false, List, [], ◌∷◌, ◌++◌, bit_or, ltb,
  ◌≡◌, ap, nat_eqb, if◌then◌else◌, ◌&&◌, not, length, take, drop, replicate, get_or, set, Bytes,
  lit,
}
use time_series_cardinality.Errors.{Result, ok, err, buffer_too_short, precision_mismatch}
use time_series_cardinality.External.{Murmur, Floats}
use time_series_cardinality.Words.{copy, little_endian, uint16, leading_zeros}

abbrev pub algo_name : Bytes
algo_name = lit "hll"

abbrev pub precision : ℕ
precision = 14

abbrev pub num_regs : ℕ
num_regs = 2 ^ precision

pub record Sketch : Type 0 where
  pub regs : List ℕ
  pub id_buf : Bytes

-- &sketch{}
unfoldable pub new : Sketch
new = record { regs = replicate num_regs 0; id_buf = replicate 8 0 }

-- hash >> (64 - precision)
unfoldable pub index : ℕ → ℕ
index hash = hash / 2 ^ (64 - precision)

-- uint8(bits.LeadingZeros64(hash<<precision | (1<<precision - 1))) + 1
unfoldable pub rank : ℕ → ℕ
unfolding leading_zeros
rank hash =
    let w = bit_or (hash * 2 ^ precision % 2 ^ 64) (2 ^ precision - 1) in
    (leading_zeros 64 w % 256 + 1) % 256

-- if rho > s.regs[idx] { s.regs[idx] = rho }
unfoldable pub raise : List ℕ → ℕ → ℕ → List ℕ
unfolding get_or set
raise regs idx rho = if ltb (get_or regs idx 0) rho then set regs idx rho else regs

unfoldable pub add : Murmur → Sketch → ℕ → Sketch
unfolding little_endian index rank raise
add m s id =
    let buf = little_endian 8 id in
    let hash = m.sum64 buf in
    record s { regs = raise s.regs (index hash) (rank hash); id_buf = buf }

pub add_regs :
    (m : Murmur) (s t : Sketch) (id : ℕ) → s.regs ≡ t.regs → (add m s id).regs ≡ (add m t id).regs
unfolding add
add_regs m s t id h =
    let hash = m.sum64 (little_endian 8 id) in ap (λ rs. raise rs (index hash) (rank hash)) h

-- The loop of Merge, over both register arrays at once.
unfoldable pub merge_regs : List ℕ → List ℕ → List ℕ
merge_regs [] os = []
merge_regs (r ∷ rs) [] = r ∷ rs
merge_regs (r ∷ rs) (o ∷ os) = (if ltb r o then o else r) ∷ merge_regs rs os

unfoldable pub merge : Sketch → Sketch → Sketch
unfolding merge_regs
merge s o = record s { regs = merge_regs s.regs o.regs }

unfoldable pub bytes : Sketch → Bytes
unfolding little_endian
bytes s = copy (replicate 2 0) (little_endian 2 precision) ++ copy (replicate num_regs 0) s.regs

unfoldable pub clone : Sketch → Sketch
clone s = record { regs = copy (replicate num_regs 0) s.regs; id_buf = replicate 8 0 }

unfoldable pub parse : Bytes → Result Sketch
unfolding uint16
parse b =
    if ltb (length b) (2 + num_regs)
    then err buffer_too_short
    else if not (nat_eqb (uint16 (take 2 b)) precision)
    then err (precision_mismatch (uint16 (take 2 b)))
    else ok (record { regs = copy (replicate num_regs 0) (drop 2 b); id_buf = replicate 8 0 })

module _ (f : Floats) where
  open f use {
    Float, literal, of_int, add as fadd, mul as fmul, div as fdiv, neg, pow, log, leq, round_uint64,
  }

  -- (0.7213 / (1.0 + 1.079/float64(numRegs))) * numRegs * numRegs
  alpha_mm : Float
  alpha_mm =
      fmul
        (fmul
          (fdiv (literal 7213 4) (fadd (literal 10 1) (fdiv (literal 1079 3) (of_int num_regs))))
          (of_int num_regs))
        (of_int num_regs)

  -- One round of the loop: the sum of 2^-v, and the registers that are 0.
  tally : Float × ℕ → ℕ → Float × ℕ
  tally (sum, zeros) v =
      (fadd sum (pow (of_int 2) (neg (of_int v))), if nat_eqb v 0 then zeros + 1 else zeros)

  -- The estimate, which reads the registers alone.
  pub estimate : List ℕ → ℕ
  unfolding alpha_mm tally
  estimate regs =
      let (sum, zeros) = foldl tally (of_int 0, 0) regs in
      let est = fdiv alpha_mm sum in
      round_uint64 (
        if leq est (fmul (literal 25 1) (of_int num_regs)) && ltb 0 zeros
        then fmul (of_int num_regs) (log (fdiv (of_int num_regs) (of_int zeros)))
        else est)

  pub cardinality : Sketch → ℕ
  unfolding estimate
  cardinality s = estimate s.regs

  pub cardinality_regs : (s t : Sketch) → s.regs ≡ t.regs → cardinality s ≡ cardinality t
  unfolding cardinality
  cardinality_regs s t h = ap estimate h
