-- ===== src/Backends/HllLaws.antt =====
-- The HyperLogLog implementation meets the contract of the engine.
use mathlib.Core.List.{foldl}
use time_series_cardinality.Base.{
  ℕ, List, ◌∷◌, ◌≡◌, refl, sym, ◌∙◌, ap, [], Bytes, IsByte, All, All-append, arith, append-nil,
  subst, inl, inr,
}
use time_series_cardinality.Errors.{ok, err, Result-cases, done, Error}
use time_series_cardinality.External.{Murmur, Floats, Roaring}
use time_series_cardinality.Hll
use time_series_cardinality.Bitmap
use time_series_cardinality.Hll.Registers.{IsValid, new-IsValid, merge-IsValid}
use time_series_cardinality.Hll.Streams.{add-IsValid, register-add, level}
use time_series_cardinality.Hll.Wire.{
  fresh, bytes_lem, parse-bytes, parse-IsValid, clone_lem, header, header-IsByte,
}
use time_series_cardinality.Sketch.{IsLawful}
use time_series_cardinality.Backends.{
  AnySketch, hll, bitmap, sketch_ops, hll_algorithm, add, cardinality, merge, bytes, clone,
  algo_name, hll_parse,
}

module _ (m : Murmur) (f : Floats) (r : Roaring) where
  abbrev S : Type 0
  S = AnySketch m f r

  -- A valid HyperLogLog sketch.
  abbrev pub Made : S → Type 0
  Made (hll s) = IsValid s
  Made (bitmap s) = ⊥

  -- The same registers, or the same bitmap.
  abbrev pub Same : S → S → Type 0
  Same (hll s) (hll t) = s.regs ≡ t.regs
  Same (hll s) (bitmap t) = ⊥
  Same (bitmap s) (hll t) = ⊥
  Same (bitmap s) (bitmap t) = s ≡ t

  Same-refl : (s : S) → Same s s
  Same-refl (hll s) = refl
  Same-refl (bitmap s) = refl

  Same-sym : (s t : S) → Same s t → Same t s
  Same-sym (hll s) (hll t) h = sym h
  Same-sym (hll s) (bitmap t) h = h
  Same-sym (bitmap s) (hll t) h = h
  Same-sym (bitmap s) (bitmap t) h = sym h

  Same-trans : (s t u : S) → Same s t → Same t u → Same s u
  Same-trans (hll s) (hll t) (hll u) h k = h ∙ k
  Same-trans (hll s) (hll t) (bitmap u) h k = k
  Same-trans (hll s) (bitmap t) u h k = absurd h
  Same-trans (bitmap s) (hll t) u h k = absurd h
  Same-trans (bitmap s) (bitmap t) (hll u) h k = k
  Same-trans (bitmap s) (bitmap t) (bitmap u) h k = h ∙ k

  Same-cardinality : (s t : S) → Same s t → cardinality m f r s ≡ cardinality m f r t
  Same-cardinality (hll s) (hll t) h = Hll.cardinality_regs f s t h
  Same-cardinality (hll s) (bitmap t) h = absurd h
  Same-cardinality (bitmap s) (hll t) h = absurd h
  Same-cardinality (bitmap s) (bitmap t) h = ap (λ b. cardinality m f r (bitmap b)) h

  Same-add : (s t : S) (id : ℕ) → Same s t → Same (add m f r s id) (add m f r t id)
  Same-add (hll s) (hll t) id h = Hll.add_regs m s t id h
  Same-add (hll s) (bitmap t) id h = h
  Same-add (bitmap s) (hll t) id h = h
  Same-add (bitmap s) (bitmap t) id h = ap (λ b. Bitmap.add r b id) h

  Made-name : (s : S) → Made s → algo_name m f r s ≡ Hll.algo_name
  Made-name (hll s) h = refl
  Made-name (bitmap s) h = absurd h

  Made-add : (s : S) (id : ℕ) → Made s → Made (add m f r s id)
  Made-add (hll s) id h = add-IsValid m id h
  Made-add (bitmap s) id h = h

  Made-clone : (s : S) → Made s → Made (clone m f r s) × Same (clone m f r s) s
  Made-clone (hll s) h = rw (clone_lem h) (record { size = h.size; bytes = h.bytes }, refl)
  Made-clone (bitmap s) h = absurd h

  Made-merge : (s t : S) → Made s → Made t → (u : S) × (merge m f r s t ≡ done u) × Made u
  Made-merge (hll s) (hll t) h k = (hll (Hll.merge s t), refl, merge-IsValid h k)
  Made-merge (hll s) (bitmap t) h k = absurd k
  Made-merge (bitmap s) t h k = absurd h

  hll_parse_ok : (b : Bytes) {t : Hll.Sketch} → Hll.parse b ≡ ok t → hll_parse m f r b ≡ ok (hll t)
  hll_parse_ok b p = ground arith

  hll_parse_err : (b : Bytes) {x : Error} → Hll.parse b ≡ err x → hll_parse m f r b ≡ err x
  hll_parse_err b p = ground arith

  Made-parse : (b : Bytes) (s : S) → All IsByte b → hll_parse m f r b ≡ ok s → Made s
  Made-parse b s h p = elim (Result-cases (Hll.parse b)) [
    | inl (t, parsed) ↦
        subst Made {x = hll t} (cc (p, hll_parse_ok b parsed)) (parse-IsValid b h parsed)
    | inr (x, failed) ↦ cc (p, hll_parse_err b failed)
  ]

  made_bytes : (s : S) → Made s → All IsByte (bytes m f r s)
  made_bytes (hll s) h = rw (bytes_lem h) (All-append IsByte header s.regs (header-IsByte) h.bytes)
  made_bytes (bitmap s) h = absurd h

  parse_bytes : (s : S) → Made s → (t : S) × (hll_parse m f r (bytes m f r s) ≡ ok t) × Same t s
  parse_bytes (hll s) h =
      (hll (fresh s.regs), hll_parse_ok (Hll.bytes s) (rw append-nil at (parse-bytes [] h)), refl)
  parse_bytes (bitmap s) h = absurd h

  add_again : (s : S) (id : ℕ) → Made s → Same (add m f r (add m f r s id) id) (add m f r s id)
  add_again (hll s) id h = Hll.Streams.add_again m id h
  add_again (bitmap s) id h = absurd h

  add_swap :
      (s : S) (i j : ℕ) → Made s → Same (add m f r (add m f r s i) j) (add m f r (add m f r s j) i)
  add_swap (hll s) i j h = Hll.Streams.add_swap m i j h
  add_swap (bitmap s) i j h = absurd h

  foldl-hll :
      (ids : List ℕ) (s : Hll.Sketch)
      → foldl (add m f r) (hll s) ids ≡ hll (Hll.Streams.add_all m s ids)
  unfolding Hll.Streams.add_all
  foldl-hll [] s = refl
  foldl-hll (id ∷ ids) s = foldl-hll ids (Hll.add m s id)

  same_regs : (s t u : Hll.Sketch) → t.regs ≡ u.regs → (Hll.merge s t).regs ≡ (Hll.merge s u).regs
  unfolding Hll.merge
  same_regs s t u e = ap (Hll.merge_regs s.regs) e

  merge_adds :
      (s t : S) (ids : List ℕ)
      → Made s
      → Same t (foldl (add m f r) (hll Hll.new) ids)
      → (u : S) × (merge m f r s t ≡ done u) × Same u (foldl (add m f r) s ids)
  merge_adds (bitmap s) t ids h k = absurd h
  merge_adds (hll s) (bitmap t) ids h k = absurd (rw (foldl-hll ids Hll.new) at k)
  merge_adds (hll s) (hll t) ids h k = (
    hll (Hll.merge s t),
    refl,
    rw (foldl-hll ids s) (
        same_regs s t _ (rw (foldl-hll ids Hll.new) at k)
        ∙ Hll.Streams.merge-add_all_from m s ids h),
  )

  pub hll_lawful : IsLawful (sketch_ops m f r) (hll_algorithm m f r)
  hll_lawful = record {
    Made = Made;
    Same = Same;
    same_refl = Same-refl;
    same_sym = λ {s} {t} h. Same-sym s t h;
    same_trans = λ {s} {t} {u} h k. Same-trans s t u h k;
    same_cardinality = λ {s} {t} h. Same-cardinality s t h;
    same_add = λ {s} {t} id h. Same-add s t id h;
    made_name = λ {s} h. Made-name s h;
    made_new = new-IsValid;
    made_add = λ {s} id h. Made-add s id h;
    made_clone = λ {s} h. Made-clone s h;
    made_merge = Made-merge;
    made_parse = Made-parse;
    made_bytes = λ {s} h. made_bytes s h;
    parse_bytes = parse_bytes;
    add_again = add_again;
    add_swap = add_swap;
    merge_adds = merge_adds;
  }
