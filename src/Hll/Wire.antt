-- ===== src/Hll/Wire.antt =====
-- The wire format of a sketch: [uint16 precision LE][numRegs registers].
use time_series_cardinality.Base.{
  ℕ, ◌+◌, ◌≤◌, ◌<◌, ◌≡◌, ◌≢◌, ◌⊎◌, inl, inr, sym, ap, ap₂, ◌∙◌, List, ◌++◌, arith, length, take,
  drop, replicate, All, Bytes, IsByte, length-append, length-replicate, take-append, drop-append,
  All-drop, All-replicate, subst, append_assoc,
}
use time_series_cardinality.Errors.{ok, err, buffer_too_short, precision_mismatch}
use time_series_cardinality.Words.{
  copy, copy_full, copy-append, length-copy, All-copy, little_endian, uint16, uint16-little_endian,
  length-little_endian, little_endian-IsByte,
}
use time_series_cardinality.Hll.{Sketch, precision, num_regs, bytes, clone, parse}
use time_series_cardinality.Hll.Registers.{IsValid}

-- A sketch as Parse and Clone leave it: the scratch buffer is fresh.
abbrev pub fresh : List ℕ → Sketch
fresh rs = record { regs = rs; id_buf = replicate 8 0 }

pub header : Bytes
header = little_endian 2 precision

pub header-IsByte : All IsByte header
unfolding header
header-IsByte = little_endian-IsByte 2 precision

length-header : length header ≡ 2
unfolding header
length-header = length-little_endian 2 precision

uint16-header : uint16 header ≡ precision
unfolding header
uint16-header = uint16-little_endian precision (omega arith)

full_copy : (rs : List ℕ) → length rs ≡ num_regs → copy (replicate num_regs 0) rs ≡ rs
full_copy rs e = copy_full _ rs (length-replicate num_regs 0 ∙ sym e)

pub bytes_lem : {s : Sketch} → IsValid s → bytes s ≡ header ++ s.regs
unfolding bytes header
bytes_lem {s} h =
    ap₂ ◌++◌ (copy_full (replicate 2 0) header (length-replicate 2 0 ∙ sym length-header))
      (full_copy s.regs h.size)

-- Parse answers for each buffer: too short, another precision, or the registers behind the header.
pub parse_lem :
    (b : Bytes)
    → (length b < 2 + num_regs → parse b ≡ err buffer_too_short)
      × (2 + num_regs ≤ length b
          → uint16 (take 2 b) ≢ precision
          → parse b ≡ err (precision_mismatch (uint16 (take 2 b))))
      × (2 + num_regs ≤ length b
          → uint16 (take 2 b) ≡ precision
          → parse b ≡ ok (fresh (copy (replicate num_regs 0) (drop 2 b))))
unfolding parse
parse_lem b = (λ h. ground arith, λ h p. ground arith, λ h p. ground arith)

parse_cases :
    (b : Bytes)
    → (parse b ≡ err buffer_too_short)
      ⊎ ((parse b ≡ err (precision_mismatch (uint16 (take 2 b))))
          ⊎ (parse b ≡ ok (fresh (copy (replicate num_regs 0) (drop 2 b)))))
unfolding parse
parse_cases b = ground arith

parse-header :
    (rs more : List ℕ) → length rs ≡ num_regs → parse (header ++ (rs ++ more)) ≡ ok (fresh rs)
parse-header rs more e =
    let front = take-append header (rs ++ more) in
    let back = drop-append header (rs ++ more) in
    let total = length-append {0} header (rs ++ more) in
    let inner = length-append {0} rs more in
    (parse_lem (header ++ (rs ++ more))).2 (omega (arith, total, inner, length-header, e)) (
      ap uint16 (ap (λ n. take n (header ++ (rs ++ more))) (sym length-header) ∙ front)
      ∙ uint16-header)
    ∙ ap (λ l. ok (fresh l))
        (ap (copy (replicate num_regs 0))
            (ap (λ n. drop n (header ++ (rs ++ more))) (sym length-header) ∙ back)
          ∙ copy-append (replicate num_regs 0) rs more (length-replicate num_regs 0 ∙ sym e))

-- Parse reads back what Bytes wrote of a sketch with 2 ^ 14 registers of a byte each, also with more
-- bytes behind it: the registers are those of the sketch, and the scratch buffer is fresh.
pub parse-bytes :
    {s : Sketch} (more : Bytes) → IsValid s → parse (bytes s ++ more) ≡ ok (fresh s.regs)
parse-bytes {s} more h = rw (bytes_lem h, append_assoc) (parse-header s.regs more h.size)

-- Whatever Parse accepts from a byte slice is a valid sketch.
pub parse-IsValid : (b : Bytes) {s : Sketch} → All IsByte b → parse b ≡ ok s → IsValid s
parse-IsValid b {s} h p = elim (parse_cases b) [
  | inl e ↦ cc (p, e)
  | inr (inl e) ↦ cc (p, e)
  | inr (inr e) ↦ subst IsValid {x = fresh (copy zeros (drop 2 b))} (cc (p, e)) (record {
    size = length-copy zeros (drop 2 b) ∙ length-replicate num_regs 0;
    bytes =
        All-copy IsByte zeros (drop 2 b) (All-replicate IsByte num_regs 0 (omega arith))
          (All-drop IsByte 2 b h);
  })
]
  where
    zeros : Bytes
    zeros = replicate num_regs 0

-- Clone has the registers of its sketch.
pub clone_lem : {s : Sketch} → IsValid s → clone s ≡ fresh s.regs
unfolding clone
clone_lem {s} h = ap fresh (full_copy s.regs h.size)
