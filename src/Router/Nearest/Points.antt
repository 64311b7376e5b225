-- ===== src/Router/Nearest/Points.antt =====
-- Members of a list of points, sorted lists, and the sort of AddNode.
use time_series_cardinality.Base.{
  ℕ, zero, suc, ◌≤◌, ◌<◌, ◌≡◌, refl, ◌⊎◌, inl, inr, List, [], ◌∷◌, arith, length, get_or, leb,
  leb→le, All, Bool-cases, subst, sym, ◌↔◌,
}
use time_series_cardinality.Router.{insert_point, sort}

abbrev pub Member : ℕ → List ℕ → Type 0
Member p [] = ⊥
Member p (x ∷ xs) = (p ≡ x) ⊎ Member p xs

abbrev pub IsSorted : List ℕ → Type 0
IsSorted [] = Unit
IsSorted (x ∷ xs) = All (λ y. x ≤ y) xs × IsSorted xs

pub All-Member : (P : ℕ → Type 0) {p : ℕ} (l : List ℕ) → All P l → Member p l → P p
All-Member P [] h m = absurd m
All-Member P (x ∷ xs) h (inl e) = subst P (sym e) h.0
All-Member P (x ∷ xs) h (inr m) = All-Member P xs h.1 m

pub All-index :
    (P : ℕ → Type 0) (l : List ℕ) → ((k : ℕ) → k < length l → P (get_or l k 0)) → All P l
unfolding length get_or
All-index P [] h = tt
All-index P (x ∷ xs) h = (h 0 (omega arith), All-index P xs (λ k lt. h (suc k) (omega arith)))

pub All-at : (P : ℕ → Type 0) (l : List ℕ) (k : ℕ) → All P l → k < length l → P (get_or l k 0)
unfolding length get_or
All-at P [] k h lt = elim lt [ ]
All-at P (x ∷ xs) zero h lt = h.0
All-at P (x ∷ xs) (suc k) h lt = All-at P xs k h.1 (omega arith)

pub get_or-Member : (l : List ℕ) (k : ℕ) → k < length l → Member (get_or l k 0) l
unfolding length get_or
get_or-Member [] k lt = elim lt [ ]
get_or-Member (x ∷ xs) zero lt = inl refl
get_or-Member (x ∷ xs) (suc k) lt = inr (get_or-Member xs k (omega arith))

pub sorted_at :
    (l : List ℕ) (a b : ℕ) → IsSorted l → a ≤ b → b < length l → get_or l a 0 ≤ get_or l b 0
unfolding length get_or
sorted_at [] a b s le lt = elim lt [ ]
sorted_at (x ∷ xs) zero zero s le lt = omega arith
sorted_at (x ∷ xs) zero (suc b) s le lt = All-at (λ y. x ≤ y) xs b s.0 (omega arith)
sorted_at (x ∷ xs) (suc a) zero s le lt = absurd (omega arith)
sorted_at (x ∷ xs) (suc a) (suc b) s le lt = sorted_at xs a b s.1 (omega arith) (omega arith)

pub All-weaken : (P Q : ℕ → Type 0) (l : List ℕ) → ((x : ℕ) → P x → Q x) → All P l → All Q l
All-weaken P Q [] f h = tt
All-weaken P Q (x ∷ xs) f h = (f x h.0, All-weaken P Q xs f h.1)

All-insert_point : (P : ℕ → Type 0) (x : ℕ) (l : List ℕ) → P x → All P l → All P (insert_point x l)
unfolding insert_point
All-insert_point P x [] hx h = (hx, tt)
All-insert_point P x (y ∷ ys) hx h = elim (Bool-cases (leb x y)) [
  | inl le ↦ rw (le, insert_point) (hx, h)
  | inr gt ↦ rw (gt, insert_point) (h.0, All-insert_point P x ys hx h.1)
]

pub All-sort : (P : ℕ → Type 0) (l : List ℕ) → All P l → All P (sort l)
unfolding sort
All-sort P [] h = tt
All-sort P (x ∷ xs) h = All-insert_point P x (sort xs) h.0 (All-sort P xs h.1)

insert_point-IsSorted : (x : ℕ) (l : List ℕ) → IsSorted l → IsSorted (insert_point x l)
unfolding insert_point
insert_point-IsSorted x [] s = (tt, tt)
insert_point-IsSorted x (y ∷ ys) s = elim (Bool-cases (leb x y)) [
  | inl le ↦
      rw (le, insert_point)
        (
          (
            leb→le x y le,
            All-weaken (λ z. y ≤ z) (λ z. x ≤ z) ys (λ z p. omega (arith, leb→le x y le)) s.0,
          ),
          s,
        )
  | inr gt ↦
      rw (gt, insert_point)
        (All-insert_point (λ z. y ≤ z) x ys (ground arith) s.0, insert_point-IsSorted x ys s.1)
]

pub sort-IsSorted : (l : List ℕ) → IsSorted (sort l)
unfolding sort
sort-IsSorted [] = tt
sort-IsSorted (x ∷ xs) = insert_point-IsSorted x (sort xs) (sort-IsSorted xs)

Member-insert_point : (p x : ℕ) (l : List ℕ) → Member p (insert_point x l) ↔ Member p (x ∷ l)
unfolding insert_point
Member-insert_point p x [] = (λ m. m, λ m. m)
Member-insert_point p x (y ∷ ys) = elim (Bool-cases (leb x y)) [
  | inl le ↦ rw (le, insert_point) (λ m. m, λ m. m)
  | inr gt ↦
      rw (gt, insert_point) (out (Member-insert_point p x ys), into (Member-insert_point p x ys))
]
  where
    out :
        (Member p (insert_point x ys) ↔ Member p (x ∷ ys))
        → Member p (y ∷ insert_point x ys)
        → Member p (x ∷ y ∷ ys)
    out ih (inl e) = inr (inl e)
    out ih (inr m) = elim (ih.0 m) [ inl e ↦ inl e | inr k ↦ inr (inr k) ]

    into :
        (Member p (insert_point x ys) ↔ Member p (x ∷ ys))
        → Member p (x ∷ y ∷ ys)
        → Member p (y ∷ insert_point x ys)
    into ih (inl e) = inr (ih.1 (inl e))
    into ih (inr (inl e)) = inl e
    into ih (inr (inr m)) = inr (ih.1 (inr m))

pub Member-sort : (p : ℕ) (l : List ℕ) → Member p (sort l) ↔ Member p l
unfolding sort
Member-sort p [] = (λ m. m, λ m. m)
Member-sort p (x ∷ xs) =
    let at = Member-insert_point p x (sort xs) in
    let ih = Member-sort p xs in
    (
      λ m. elim (at.0 m) [ inl e ↦ inl e | inr k ↦ inr (ih.0 k) ],
      λ m. at.1 (elim m [ inl e ↦ inl e | inr k ↦ inr (ih.1 k) ]),
    )
