-- ===== src/Backends/BitmapLaws.antt =====
-- The bitmap implementation meets the contract of the engine, and counts exactly.
use mathlib.Core.List.{foldl}
use time_series_cardinality.Bitmap.Exact
use time_series_cardinality.Base.{
  ℕ, List, [], ◌∷◌, ◌||◌, ◌≡◌, refl, sym, ◌∙◌, ap, Bytes, IsByte, All, arith, subst, inl, inr,
}
use time_series_cardinality.Errors.{ok, err, Result-cases, done, Error}
use time_series_cardinality.External.{Murmur, Floats, Roaring, IsRoaring}
use time_series_cardinality.Hll
use time_series_cardinality.Bitmap
use time_series_cardinality.Sketch.{IsLawful}
use time_series_cardinality.Backends.{
  AnySketch, hll, bitmap, sketch_ops, bitmap_algorithm, add, cardinality, merge, bytes, clone,
  algo_name, bitmap_parse,
}

module _ (m : Murmur) (f : Floats) (r : Roaring) (doc : IsRoaring r) where
  open doc use {contains-add, contains-clone, counts_members, marshal_bytes, unmarshal-marshal}

  abbrev S : Type 0
  S = AnySketch m f r

  abbrev pub Made : S → Type 0
  Made (hll s) = ⊥
  Made (bitmap s) = Unit

  -- The same members, or the same HyperLogLog sketch.
  abbrev pub Same : S → S → Type 0
  Same (hll s) (hll t) = s ≡ t
  Same (hll s) (bitmap t) = ⊥
  Same (bitmap s) (hll t) = ⊥
  Same (bitmap s) (bitmap t) = (x : ℕ) → r.contains s.rb x ≡ r.contains t.rb x

  Same-refl : (s : S) → Same s s
  Same-refl (hll s) = refl
  Same-refl (bitmap s) = λ x. refl

  Same-sym : (s t : S) → Same s t → Same t s
  Same-sym (hll s) (hll t) h = sym h
  Same-sym (hll s) (bitmap t) h = h
  Same-sym (bitmap s) (hll t) h = h
  Same-sym (bitmap s) (bitmap t) h = λ x. sym (h x)

  Same-trans : (s t u : S) → Same s t → Same t u → Same s u
  Same-trans (hll s) (hll t) (hll u) h k = h ∙ k
  Same-trans (hll s) (hll t) (bitmap u) h k = k
  Same-trans (hll s) (bitmap t) u h k = absurd h
  Same-trans (bitmap s) (hll t) u h k = absurd h
  Same-trans (bitmap s) (bitmap t) (hll u) h k = k
  Same-trans (bitmap s) (bitmap t) (bitmap u) h k = λ x. h x ∙ k x

  Same-cardinality : (s t : S) → Same s t → cardinality m f r s ≡ cardinality m f r t
  unfolding Bitmap.cardinality
  Same-cardinality (hll s) (hll t) h = ap (λ b. cardinality m f r (hll b)) h
  Same-cardinality (hll s) (bitmap t) h = absurd h
  Same-cardinality (bitmap s) (hll t) h = absurd h
  Same-cardinality (bitmap s) (bitmap t) h = counts_members s.rb t.rb h

  Same-add : (s t : S) (id : ℕ) → Same s t → Same (add m f r s id) (add m f r t id)
  unfolding Bitmap.add
  Same-add (hll s) (hll t) id h = ap (λ b. Hll.add m b id) h
  Same-add (hll s) (bitmap t) id h = h
  Same-add (bitmap s) (hll t) id h = h
  Same-add (bitmap s) (bitmap t) id h =
      λ x. ground (arith, contains-add s.rb id x, contains-add t.rb id x, h x)

  Made-name : (s : S) → Made s → algo_name m f r s ≡ Bitmap.algo_name
  Made-name (hll s) h = absurd h
  Made-name (bitmap s) h = refl

  Made-add : (s : S) (id : ℕ) → Made s → Made (add m f r s id)
  Made-add (hll s) id h = h
  Made-add (bitmap s) id h = h

  Made-clone : (s : S) → Made s → Made (clone m f r s) × Same (clone m f r s) s
  unfolding Bitmap.clone
  Made-clone (hll s) h = absurd h
  Made-clone (bitmap s) h = (tt, contains-clone s.rb)

  Made-merge : (s t : S) → Made s → Made t → (u : S) × (merge m f r s t ≡ done u) × Made u
  Made-merge (bitmap s) (bitmap t) h k = (bitmap (Bitmap.merge r s t), refl, tt)
  Made-merge (bitmap s) (hll t) h k = absurd k
  Made-merge (hll s) t h k = absurd h

  bitmap_parse_ok :
      (b : Bytes) {t : Bitmap.Sketch r}
      → Bitmap.parse r b ≡ ok t
      → bitmap_parse m f r b ≡ ok (bitmap t)
  bitmap_parse_ok b p = ground arith

  bitmap_parse_err :
      (b : Bytes) {x : Error} → Bitmap.parse r b ≡ err x → bitmap_parse m f r b ≡ err x
  bitmap_parse_err b p = ground arith

  Made-parse : (b : Bytes) (s : S) → All IsByte b → bitmap_parse m f r b ≡ ok s → Made s
  Made-parse b s h p = elim (Result-cases (Bitmap.parse r b)) [
    | inl (t, parsed) ↦ subst Made {x = bitmap t} (cc (p, bitmap_parse_ok b parsed)) tt
    | inr (x, failed) ↦ cc (p, bitmap_parse_err b failed)
  ]

  made_bytes : (s : S) → Made s → All IsByte (bytes m f r s)
  unfolding Bitmap.bytes
  made_bytes (hll s) h = absurd h
  made_bytes (bitmap s) h = marshal_bytes s.rb

  parse_bytes : (s : S) → Made s → (t : S) × (bitmap_parse m f r (bytes m f r s) ≡ ok t) × Same t s
  unfolding Bitmap.bytes
  parse_bytes (hll s) h = absurd h
  parse_bytes (bitmap s) h =
      let (c, parsed, same) = unmarshal-marshal s.rb in
      (bitmap (record { rb = c }), bitmap_parse_ok _ (unfold Bitmap.parse in ground arith), same)

  add_again : (s : S) (id : ℕ) → Made s → Same (add m f r (add m f r s id) id) (add m f r s id)
  unfolding Bitmap.add
  add_again (hll s) id h = absurd h
  add_again (bitmap s) id h =
      λ x. ground (arith, contains-add (r.add s.rb id) id x, contains-add s.rb id x)

  add_swap :
      (s : S) (i j : ℕ) → Made s → Same (add m f r (add m f r s i) j) (add m f r (add m f r s j) i)
  unfolding Bitmap.add
  add_swap (hll s) i j h = absurd h
  add_swap (bitmap s) i j h = λ x. ground (
    arith,
    contains-add (r.add s.rb i) j x,
    contains-add (r.add s.rb j) i x,
    contains-add s.rb i x,
    contains-add s.rb j x,
  )

  foldl-bitmap :
      (ids : List ℕ) (s : Bitmap.Sketch r)
      → foldl (add m f r) (bitmap s) ids ≡ bitmap (Bitmap.Exact.add_all r doc s ids)
  unfolding Bitmap.Exact.add_all
  foldl-bitmap [] s = refl
  foldl-bitmap (id ∷ ids) s = foldl-bitmap ids (Bitmap.add r s id)

  merge_adds :
      (s t : S) (ids : List ℕ)
      → Made s
      → Same t (foldl (add m f r) (bitmap (Bitmap.new r)) ids)
      → (u : S) × (merge m f r s t ≡ done u) × Same u (foldl (add m f r) s ids)
  merge_adds (hll s) t ids h k = absurd h
  merge_adds (bitmap s) (hll t) ids h k = absurd (rw (foldl-bitmap ids (Bitmap.new r)) at k)
  merge_adds (bitmap s) (bitmap t) ids h k =
      let same = rw (foldl-bitmap ids (Bitmap.new r)) at k in
      (
        bitmap (Bitmap.merge r s t),
        refl,
        rw (foldl-bitmap ids s) λ x.
            unfold Bitmap.merge in
            doc.contains-or s.rb t.rb x
            ∙ ap (λ b. r.contains s.rb x || b) (same x ∙ Bitmap.Exact.contains-new_all r doc ids x)
            ∙ sym (Bitmap.Exact.contains-add_all r doc ids s x),
      )

  pub bitmap_lawful : IsLawful (sketch_ops m f r) (bitmap_algorithm m f r)
  bitmap_lawful = record {
    Made = Made;
    Same = Same;
    same_refl = Same-refl;
    same_sym = λ {s} {t} h. Same-sym s t h;
    same_trans = λ {s} {t} {u} h k. Same-trans s t u h k;
    same_cardinality = λ {s} {t} h. Same-cardinality s t h;
    same_add = λ {s} {t} id h. Same-add s t id h;
    made_name = λ {s} h. Made-name s h;
    made_new = tt;
    made_add = λ {s} id h. Made-add s id h;
    made_clone = λ {s} h. Made-clone s h;
    made_merge = Made-merge;
    made_parse = Made-parse;
    made_bytes = λ {s} h. made_bytes s h;
    parse_bytes = parse_bytes;
    add_again = add_again;
    add_swap = add_swap;
    merge_adds = merge_adds;
  }
