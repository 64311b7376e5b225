-- ===== src/Startup/Recovery.antt =====
-- What `run` reads back from the store: every group that the store holds, and no other.
use time_series_cardinality.Base.{
  ℕ, ◌+◌, ◌≡◌, refl, sym, ◌∙◌, ap, inl, inr, Option, none, some, List, [], ◌∷◌, Bytes, bytes_eq,
  ◌==◌, arith, length, Bool-cases, subst, bytes_eqb_iff, true, false,
}
use time_series_cardinality.Map.{Distinct, find, lookup, insert, lookup-insert}
use time_series_cardinality.Errors.{Error, Result, ok}
use time_series_cardinality.Sketch.{SketchOps, Algorithm}
use time_series_cardinality.Engine.{Engine}
use time_series_cardinality.Engine.Snapshots.{restore_lem}
use time_series_cardinality.Store.{key, key_prefix, trim_prefix, load_items}
use time_series_cardinality.Store.Laws.{trim_prefix-key, key-injective}
use time_series_cardinality.Startup.{restore_item}

-- What LoadAll leaves at a group, from the item under its key and what stood there before.
abbrev pub After :
    {S : Type 0} → (S → Type 0) → Option (Result Bytes) → Option S → Option S → Type 0
After R none old now = now ≡ old
After {S} R (some item) old now = (t : S) × (now ≡ some t) × R t

find-head : {V : Type 0} (k : Bytes) (v : V) (l : List (Bytes × V)) → find k ((k, v) ∷ l) ≡ some v
unfolding find
find-head k v l = ground (arith, bytes_eq.beq_iff k k)

other_key : (k g group : Bytes) → k ≡ key group → (group == g) ≡ false → (k == key g) ≡ false
other_key k g group under other = elim (Bool-cases (k == key g)) [
  | inr apart ↦ apart
  | inl hit ↦
      let same = key-injective group g (sym under ∙ (bytes_eqb_iff k (key g)).0 hit) in
      cc (other, (bytes_eqb_iff group g).1 same)
]

one_more : {A : Type 0} (n : ℕ) (x : A) (l : List A) → n + 1 + length l ≡ n + length (x ∷ l)
unfolding length
one_more n x l = omega arith

load_items_ok :
    {W : Type 0} (fn : Bytes → Bytes → W → Option Error × W) (k : Bytes) (item : Result Bytes)
    (b : Bytes) (l : List (Bytes × Result Bytes)) (w : W) {w' : W}
    → item ≡ ok b
    → fn (trim_prefix k key_prefix) b w ≡ (none, w')
    → load_items fn ((k, item) ∷ l) w ≡ load_items fn l w'
unfolding load_items
load_items_ok {W = W} fn k item b l w there ran =
    rw (there, load_items)
      (ap
        (λ (r : Option Error × W). elim r.0 as (λ _. Option Error × W) [
          | none ↦ load_items fn l r.1
          | some x ↦ (some x, r.1)
        ])
        ran)

module _ (o : SketchOps) (alg : Algorithm o) (R : Bytes → o.Sketch → Type 0) where
  -- The item stands under a group's key, and its bytes parse to a sketch that R relates to the group.
  pub record Readable (k : Bytes) (item : Result Bytes) : Type 0 where
    pub group : Bytes
    pub bytes : Bytes
    pub sketch : o.Sketch
    pub under : k ≡ key group
    pub there : item ≡ ok bytes
    pub parsed : alg.parse bytes ≡ ok sketch
    pub related : R group sketch

  abbrev pub AllReadable : List (Bytes × Result Bytes) → Type 0
  AllReadable l = (k : Bytes) (item : Result Bytes) → find k l ≡ some item → Readable k item

  AllReadable-tail :
      (k : Bytes) (item : Result Bytes) (l : List (Bytes × Result Bytes))
      → find k l ≡ none
      → AllReadable ((k, item) ∷ l)
      → AllReadable l
  unfolding find
  AllReadable-tail k item l absent h j i p = h j i (ground (arith, bytes_eq.beq_iff k j))

  restore_item_lem :
      (g b : Bytes) (e : Engine o alg) (n : ℕ) {sk : o.Sketch}
      → alg.parse b ≡ ok sk
      → restore_item o alg g b (e, n) ≡ (none, (record e { groups = insert g sk e.groups }, n + 1))
  unfolding restore_item
  restore_item_lem g b e n parsed =
      ap
        (λ (r : Option Error × Engine o alg). elim r.0 as (λ _. Option Error × (Engine o alg × ℕ)) [
          | some x ↦ (some x, (r.1, n))
          | none ↦ (none, (r.1, n + 1))
        ])
        (restore_lem o alg g b e parsed)

  load_items-step :
      (k : Bytes) (item : Result Bytes) (l : List (Bytes × Result Bytes)) (e : Engine o alg) (n : ℕ)
      (h : Readable k item)
      → load_items (restore_item o alg) ((k, item) ∷ l) (e, n)
        ≡ load_items
            (restore_item o alg)
            l
            (record e { groups = insert h.group h.sketch e.groups }, n + 1)
  load_items-step k item l e n h =
      load_items_ok (restore_item o alg) k item h.bytes l (e, n) h.there
        (ap (λ j. restore_item o alg j h.bytes (e, n))
            (ap (λ j. trim_prefix j key_prefix) h.under ∙ trim_prefix-key h.group)
          ∙ restore_item_lem h.group h.bytes e n h.parsed)

  After-cons :
      (k : Bytes) (item : Result Bytes) (l : List (Bytes × Result Bytes)) (e : Engine o alg)
      (now : Option o.Sketch) (g : Bytes) (h : Readable k item)
      → find k l ≡ none
      → After (R g) (find (key g) l) (lookup g (insert h.group h.sketch e.groups)) now
      → After (R g) (find (key g) ((k, item) ∷ l)) (lookup g e.groups) now
  unfolding find
  After-cons k item l e now g h absent left = elim (Bool-cases (h.group == g)) [
    | inl same ↦
        let q = (bytes_eqb_iff h.group g).0 same in
        let here : k ≡ key g = h.under ∙ ap key q in
        let hit : (k == key g) ≡ true = (bytes_eqb_iff k (key g)).1 here in
        let gone : find (key g) l ≡ none = subst (λ j. find j l ≡ none) here absent in
        rw hit (
          h.sketch,
          rw (gone, rw same at (lookup-insert h.group g h.sketch e.groups)) at left,
          subst (λ j. R j h.sketch) q h.related,
        )
    | inr other ↦
        rw (other_key k g h.group h.under other)
          (rw (rw other at (lookup-insert h.group g h.sketch e.groups)) at left)
  ]

  -- Reading the items of a scan: no error, one group restored for each item, and at each group the
  -- sketch of its item, or what stood there before.
  pub load_items-Readable :
      (l : List (Bytes × Result Bytes)) (e : Engine o alg) (n : ℕ)
      → Distinct l
      → AllReadable l
      → (e' : Engine o alg) × (load_items (restore_item o alg) l (e, n)
          ≡ (none, (e', n + length l)))
        × ((g : Bytes) → After (R g) (find (key g) l) (lookup g e.groups) (lookup g e'.groups))
  load_items-Readable [] e n d h = (
    e,
    unfold load_items length in ap (λ k. (none, (e, k))) (omega arith),
    λ g. unfold find in refl,
  )
  load_items-Readable ((k, item) ∷ l) e n d h =
      let here = h k item (find-head k item l) in
      let e₁ : Engine o alg = record e { groups = insert here.group here.sketch e.groups } in
      let (e', ran, now) = load_items-Readable l e₁ (n + 1) d.1 (AllReadable-tail k item l d.0 h) in
      (
        e',
        load_items-step k item l e n here
            ∙ ran
            ∙ ap (λ k. (none, (e', k))) (one_more n (k, item) l),
        λ g. After-cons k item l e (lookup g e'.groups) g here d.0 (now g),
      )
