-- ===== src/Bitmap/Exact.antt =====
-- The bitmap counts exactly: its estimate is the number of distinct ids.
use mathlib.Core.List.{foldl, Mem, Nodup}
use time_series_cardinality.Base.{
  ℕ, ◌≡◌, ◌↔◌, refl, sym, ◌∙◌, Bool, true, false, ◌||◌, List, [], ◌∷◌, ◌++◌, arith, length, nat_eq,
  elem, elem_of_Mem, Mem_of_elem, elem-append,
}
use time_series_cardinality.External.{Roaring, IsRoaring}
use time_series_cardinality.Bitmap.{Sketch, new, add, merge, cardinality}

or_false : (a : Bool) → (a || false) ≡ a
or_false true = refl
or_false false = refl

module _ (r : Roaring) (doc : IsRoaring r) where
  unfoldable pub add_all : Sketch r → List ℕ → Sketch r
  add_all = foldl (add r)

  pub contains-add_all :
      (ids : List ℕ) (s : Sketch r) (x : ℕ)
      → r.contains (add_all s ids).rb x ≡ (r.contains s.rb x || elem x ids)
  unfolding add_all add elem
  contains-add_all [] s x = sym (or_false (r.contains s.rb x))
  contains-add_all (id ∷ ids) s x =
      contains-add_all ids (add r s id) x ∙ ground (arith, doc.contains-add s.rb id x)

  pub contains-new_all : (ids : List ℕ) (x : ℕ) → r.contains (add_all (new r) ids).rb x ≡ elem x ids
  contains-new_all ids x =
      contains-add_all ids (new r) x ∙ unfold new in ground (arith, doc.contains-new x)

  contains-merge_all :
      (xs ys : List ℕ) (x : ℕ)
      → r.contains (merge r (add_all (new r) xs) (add_all (new r) ys)).rb x ≡ elem x (xs ++ ys)
  unfolding merge
  contains-merge_all xs ys x =
      doc.contains-or (add_all (new r) xs).rb (add_all (new r) ys).rb x
      ∙ ground (arith, contains-new_all xs x, contains-new_all ys x, elem-append x xs ys)

  counted :
      (s : Sketch r) (ids l : List ℕ)
      → ((x : ℕ) → r.contains s.rb x ≡ elem x ids)
      → Nodup l
      → ((x : ℕ) → Mem x ids ↔ Mem x l)
      → cardinality r s ≡ length l
  unfolding cardinality
  counted s ids l has distinct same = doc.counts s.rb l distinct λ x. (
    λ h. (same x).0 (Mem_of_elem x ids (sym (has x) ∙ h)),
    λ h. has x ∙ elem_of_Mem x ids ((same x).1 h),
  )

  -- The count after a stream of ids is the number of distinct ids in it, and the count of the merge
  -- of two streams' bitmaps is the number of distinct ids in either. Lists without repetitions that
  -- have the same members, l for the first stream and k for the two together, say how many that is.
  pub cardinality_exact :
      (xs ys l k : List ℕ)
      → Nodup l
      → Nodup k
      → ((x : ℕ) → Mem x xs ↔ Mem x l)
      → ((x : ℕ) → Mem x (xs ++ ys) ↔ Mem x k)
      → (cardinality r (add_all (new r) xs) ≡ length l)
        × (cardinality r (merge r (add_all (new r) xs) (add_all (new r) ys)) ≡ length k)
  cardinality_exact xs ys l k once once' same same' = (
    counted (add_all (new r) xs) xs l (contains-new_all xs) once same,
    counted _ (xs ++ ys) k (contains-merge_all xs ys) once' same',
  )
