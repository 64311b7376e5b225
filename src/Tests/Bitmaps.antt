-- ===== src/Tests/Bitmaps.antt =====
-- A roaring bitmap as a list of its members, with what the package documents.
use mathlib.Core.List.{Mem, Nodup, Nodup-cons}
use mathlib.Core.Option.{none}
use time_series_cardinality.Base.{
  elem, elem_of_Mem, Mem_of_elem, elem-append, ℕ, zero, suc, ◌+◌, ◌≤◌, ◌≡◌, ◌≢◌, ◌↔◌, refl, sym, ap,
  ◌∙◌, inl, inr, true, false, List, [], ◌∷◌, ◌++◌, Bytes, IsByte, All, arith, length, nat_eqb,
  nat_eqb_iff, nat_eq, ◌==◌, if◌then◌else◌, Bool-cases,
}
use time_series_cardinality.Errors.{ok}
use time_series_cardinality.External.{Roaring, IsRoaring}

-- Each member once.
distinct : List ℕ → List ℕ
distinct [] = []
distinct (x ∷ xs) = let rest = distinct xs in if elem x xs then rest else x ∷ rest

without : ℕ → List ℕ → List ℕ
without x [] = []
without x (y ∷ ys) = let rest = without x ys in if nat_eqb y x then ys else y ∷ rest

abbrev IsUnique : List ℕ → Type 0
IsUnique [] = Unit
IsUnique (x ∷ xs) = (elem x xs ≡ false) × IsUnique xs

elem-without : (x y : ℕ) (l : List ℕ) → x ≢ y → elem y l ≡ true → elem y (without x l) ≡ true
unfolding elem without
elem-without x y [] n h = cc
elem-without x y (z ∷ l) n h =
    ground (arith, nat_eqb_iff z x, nat_eqb_iff z y, elem-without x y l n)

length-without : (x : ℕ) (l : List ℕ) → elem x l ≡ true → suc (length (without x l)) ≡ length l
unfolding elem without length
length-without x [] h = cc
length-without x (z ∷ l) h = ground (arith, nat_eqb_iff z x, length-without x l)

unique_apart : (x y : ℕ) (xs : List ℕ) → elem x xs ≡ false → elem y xs ≡ true → x ≢ y
unique_apart x y xs h k e = cc (ap (λ z. elem z xs) e)

-- A list of distinct members is no longer than any list that has them.
length-sub :
    (xs ys : List ℕ)
    → IsUnique xs
    → ((y : ℕ) → elem y xs ≡ true → elem y ys ≡ true)
    → length xs ≤ length ys
unfolding length
length-sub [] ys u sub = omega arith
length-sub (x ∷ xs) ys u sub =
    let here : elem x ys ≡ true = sub x (unfold elem in ground (arith, nat_eqb_iff x x)) in
    let rest = length-sub xs (without x ys) u.1 λ y k.
      elem-without x y ys (unique_apart x y xs u.0 k)
        (sub y (unfold elem in ground (arith, nat_eqb_iff x y))) in
    omega (arith, rest, length-without x ys here)

elem-distinct : (x : ℕ) (l : List ℕ) → elem x (distinct l) ≡ elem x l
unfolding elem distinct
elem-distinct x [] = refl
elem-distinct x (z ∷ l) = ground (arith, nat_eqb_iff z x, elem-distinct x l)

distinct-IsUnique : (l : List ℕ) → IsUnique (distinct l)
unfolding distinct
distinct-IsUnique [] = tt
distinct-IsUnique (x ∷ xs) = elim (Bool-cases (elem x xs)) [
  | inl old ↦ rw old (distinct-IsUnique xs)
  | inr new ↦ rw new (elem-distinct x xs ∙ new, distinct-IsUnique xs)
]

Nodup-IsUnique : (l : List ℕ) → Nodup l → IsUnique l
Nodup-IsUnique [] h = tt
Nodup-IsUnique (x ∷ xs) h =
    let (apart, rest) = Nodup-cons.0 h in
    (
      elim (Bool-cases (elem x xs)) [
        | inl there ↦ absurd (apart (Mem_of_elem x xs there))
        | inr e ↦ e
      ],
      Nodup-IsUnique xs rest,
    )

counts_distinct :
    (b l : List ℕ)
    → Nodup l
    → ((x : ℕ) → (elem x b ≡ true) ↔ Mem x l)
    → length (distinct b) ≡ length l
counts_distinct b l h same = omega (
  arith,
  length-sub (distinct b) l (distinct-IsUnique b)
      (λ y k. elem_of_Mem y l ((same y).0 (sym (elem-distinct y b) ∙ k))),
  length-sub l (distinct b) (Nodup-IsUnique l h)
      (λ y k. elem-distinct y b ∙ (same y).1 (Mem_of_elem y l k)),
)

-- A number in unary, before the bytes that follow it.
ones : ℕ → Bytes → Bytes
ones zero t = 0 ∷ t
ones (suc n) t = 1 ∷ ones n t

encode : List ℕ → Bytes
encode [] = []
encode (x ∷ xs) = ones x (encode xs)

decode : Bytes → ℕ → List ℕ
decode [] n = []
decode (b ∷ bs) n = elim (nat_eqb b 0) [ true ↦ n ∷ decode bs 0 | false ↦ decode bs (n + 1) ]

decode-ones : (x n : ℕ) (t : Bytes) → decode (ones x t) n ≡ (n + x) ∷ decode t 0
unfolding decode ones
decode-ones zero n t = ap (λ k. k ∷ decode t 0) (omega arith)
decode-ones (suc x) n t = decode-ones x (n + 1) t ∙ ap (λ k. k ∷ decode t 0) (omega arith)

decode-encode : (l : List ℕ) → decode (encode l) 0 ≡ l
unfolding decode encode
decode-encode [] = refl
decode-encode (x ∷ xs) =
    decode-ones x 0 (encode xs)
    ∙ ap (λ r. (0 + x) ∷ r) (decode-encode xs)
    ∙ ap (λ k. k ∷ xs) (omega arith)

ones-IsByte : (n : ℕ) (t : Bytes) → All IsByte t → All IsByte (ones n t)
unfolding ones
ones-IsByte zero t h = (omega arith, h)
ones-IsByte (suc n) t h = (omega arith, ones-IsByte n t h)

encode-IsByte : (l : List ℕ) → All IsByte (encode l)
unfolding encode
encode-IsByte [] = tt
encode-IsByte (x ∷ xs) = ones-IsByte x (encode xs) (encode-IsByte xs)

unfoldable pub list_roaring : Roaring
unfolding elem distinct encode ones decode
list_roaring = record {
  Bitmap = List ℕ;
  new = [];
  add = λ b x. x ∷ b;
  or = λ b c. b ++ c;
  clone = λ b. b;
  contains = λ b x. elem x b;
  get_cardinality = λ b. length (distinct b);
  marshal_binary = λ b. (encode b, none);
  unmarshal_binary = λ bs. ok (decode bs 0);
}

elem-cons : (y x : ℕ) (b : List ℕ) → elem x (y ∷ b) ≡ (if y == x then true else elem x b)
unfolding elem
elem-cons y x b = refl

same_members :
    (b c : List ℕ) → ((x : ℕ) → elem x b ≡ elem x c) → length (distinct b) ≡ length (distinct c)
same_members b c same = omega (
  arith,
  length-sub (distinct b) (distinct c) (distinct-IsUnique b)
      (λ y k. elem-distinct y c ∙ sym (same y) ∙ sym (elem-distinct y b) ∙ k),
  length-sub (distinct c) (distinct b) (distinct-IsUnique c)
      (λ y k. elem-distinct y b ∙ same y ∙ sym (elem-distinct y c) ∙ k),
)

pub list_roaring-IsRoaring : IsRoaring list_roaring
unfolding list_roaring
list_roaring-IsRoaring = record {
  contains-new = λ x. refl;
  contains-add = λ b y x. elem-cons y x b;
  contains-or = λ b c x. elem-append x b c;
  contains-clone = λ b x. refl;
  counts = λ b l h same. counts_distinct b l h same;
  counts_members = λ b c same. same_members b c same;
  marshal_bytes = λ b. encode-IsByte b;
  unmarshal-marshal = λ b. (b, ap ok (decode-encode b), λ x. refl);
}
