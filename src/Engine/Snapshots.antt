-- ===== src/Engine/Snapshots.antt =====
-- Marshal and Unmarshal: a snapshot that is written out comes back.
use time_series_cardinality.Base.{
  ◌≡◌, refl, ◌∙◌, sym, ap, Option, none, some, List, [], ◌∷◌, Bytes, bytes_eq, ◌==◌, arith,
  Bool-cases, Option-cases, inl, inr, subst,
}
use time_series_cardinality.Map
use time_series_cardinality.Map.{
  Map, IsMap, Distinct, find, lookup, insert, lookup-insert, lookup-empty, insert-IsMap,
  empty-IsMap, lookup-insert_self, lookup-find,
}
use time_series_cardinality.Errors.{unknown_group, ok, err}
use time_series_cardinality.Sketch.{SketchOps, Algorithm, IsLawful}
use time_series_cardinality.Engine.{
  Engine, Gob, cardinality, restore, wire, marshal, parse_all, unmarshal,
}
use time_series_cardinality.Engine.Groups.{IsSound}

-- What encoding/gob documents: a map that was encoded decodes to the same map.
pub record IsGob (gob : Gob) : Type 0 where
  pub decode-encode :
      (m : Map Bytes Bytes) (b : Bytes)
      → gob.encode m ≡ ok b
      → (n : Map Bytes Bytes) × (gob.decode b ≡ ok n)
        × IsMap n
        × ((k : Bytes) → lookup k n ≡ lookup k m)

module _ (o : SketchOps) (alg : Algorithm o) where
  open o use {Sketch, bytes}

  pub cardinality_known :
      (g : Bytes) (e : Engine o alg) {sk : Sketch}
      → lookup g e.groups ≡ some sk
      → cardinality o alg g e ≡ ok (o.cardinality sk)
  unfolding cardinality
  cardinality_known g e h = ground arith

  pub cardinality_unknown :
      (g : Bytes) (e : Engine o alg)
      → lookup g e.groups ≡ none
      → cardinality o alg g e ≡ err (unknown_group g)
  unfolding cardinality
  cardinality_unknown g e h = ground arith

  pub restore_lem :
      (g b : Bytes) (e : Engine o alg) {sk : Sketch}
      → alg.parse b ≡ ok sk
      → restore o alg g b e ≡ (none, record e { groups = insert g sk e.groups })
  unfolding restore
  restore_lem g b e h = ground arith

  written : Option Sketch → Option Bytes
  written none = none
  written (some sk) = some (bytes sk)

  unwritten : (s : Option Sketch) → none ≡ written s → s ≡ none
  unfolding written
  unwritten none p = refl
  unwritten (some sk) p = cc

  lookup-wire :
      (l : List (Bytes × Sketch)) (out : Map Bytes Bytes) (g : Bytes)
      → Distinct l
      → lookup g (wire o alg l out)
        ≡ elim (find g l) [ none ↦ lookup g out | some sk ↦ some (bytes sk) ]
  unfolding wire find
  lookup-wire [] out g d = refl
  lookup-wire ((j, sk) ∷ l) out g d =
      lookup-wire l (insert j (bytes sk) out) g d.1
      ∙ ground (arith, lookup-insert j g (bytes sk) out, bytes_eq.beq_iff j g, d.0)

  lookup-wire_all :
      (e : Engine o alg)
      → Distinct e.groups.entries
      → (g : Bytes) → lookup g (wire o alg e.groups.entries Map.empty) ≡ written (lookup g e.groups)
  unfolding lookup written
  lookup-wire_all e d g =
      lookup-wire e.groups.entries Map.empty g d ∙ ground (arith, lookup-empty {V = Bytes} g)

  marshal_lem :
      (gob : Gob) (e : Engine o alg) {b : Bytes}
      → marshal o alg gob e ≡ ok b
      → gob.encode (wire o alg e.groups.entries Map.empty) ≡ ok b
  unfolding marshal
  marshal_lem gob e p = p

  unmarshal_lem :
      (gob : Gob) (b : Bytes) (e : Engine o alg) {n : Map Bytes Bytes} {m : Map Bytes Sketch}
      → gob.decode b ≡ ok n
      → parse_all o alg n.entries Map.empty ≡ ok m
      → unmarshal o alg gob b e ≡ (none, record e { groups = m })
  unfolding unmarshal
  unmarshal_lem gob b e decoded ran = ground arith

  -- What the loop of Unmarshal leaves at a group, from its bytes and what stood there before.
  abbrev Loaded : (Sketch → Type 0) → Option Bytes → Option Sketch → Option Sketch → Type 0
  Loaded R none old now = now ≡ old
  Loaded R (some b) old now = (t : Sketch) × (now ≡ some t) × (alg.parse b ≡ ok t) × R t

  module _ (R : Bytes → Sketch → Type 0) where
    -- Every entry parses, to a sketch that R relates to its group.
    abbrev Parses : List (Bytes × Bytes) → Type 0
    Parses l = (g b : Bytes) → find g l ≡ some b → (t : Sketch) × (alg.parse b ≡ ok t) × R g t

    Parses-tail :
        (j b : Bytes) (l : List (Bytes × Bytes)) → find j l ≡ none → Parses ((j, b) ∷ l) → Parses l
    unfolding find
    Parses-tail j b l absent h g c p = h g c (ground (arith, bytes_eq.beq_iff j g))

    find-head : (j b : Bytes) (l : List (Bytes × Bytes)) → find j ((j, b) ∷ l) ≡ some b
    unfolding find
    find-head j b l = ground (arith, bytes_eq.beq_iff j j)

    Loaded-cons :
        (j b g : Bytes) (t : Sketch) (l : List (Bytes × Bytes)) (out : Map Bytes Sketch)
        (now : Option Sketch)
        → find j l ≡ none
        → alg.parse b ≡ ok t
        → R j t
        → Loaded (R g) (find g l) (lookup g (insert j t out)) now
        → Loaded (R g) (find g ((j, b) ∷ l)) (lookup g out) now
    unfolding find
    Loaded-cons j b g t l out now absent parsed r h = elim (Bool-cases (j == g)) [
      | inl same ↦
          let e = (bytes_eq.beq_iff j g).0 same in
          let none_left = subst (λ k. find k l ≡ none) e absent in
          rw same (
            t,
            rw (none_left, rw same at (lookup-insert j g t out)) at h,
            parsed,
            subst (λ k. R k t) e r,
          )
      | inr other ↦ rw other (rw (rw other at (lookup-insert j g t out)) at h)
    ]

    parse_all_lem :
        (l : List (Bytes × Bytes)) (out : Map Bytes Sketch)
        → Distinct l
        → Parses l
        → IsMap out
        → (m : Map Bytes Sketch) × (parse_all o alg l out ≡ ok m)
          × IsMap m
          × ((g : Bytes) → Loaded (R g) (find g l) (lookup g out) (lookup g m))
    unfolding parse_all
    parse_all_lem [] out d h is_map = (out, refl, is_map, λ g. unfold find in refl)
    parse_all_lem ((j, b) ∷ l) out d h is_map =
        let (t, parsed, r) = h j b (find-head j b l) in
        let (m, ran, keys, loaded) =
          parse_all_lem l (insert j t out) d.1 (Parses-tail j b l d.0 h)
            (insert-IsMap j t is_map) in
        (
          m,
          rw (parsed, parse_all) ran,
          keys,
          λ g. Loaded-cons j b g t l out (lookup g m) d.0 parsed r (loaded g),
        )

module _ {o : SketchOps} {alg : Algorithm o} (law : IsLawful o alg) where
  open o use {Sketch, bytes, cardinality as sketch_cardinality}
  open law use {Made, Same, same_cardinality, parse_bytes, made_parse, made_bytes}

  -- The sketch that stands behind some bytes that Marshal wrote for a group.
  abbrev Wrote : Engine o alg → Bytes → Sketch → Type 0
  Wrote e g t = (sk : Sketch) × (lookup g e.groups ≡ some sk) × Same t sk

  wrote :
      (e : Engine o alg) (g c : Bytes)
      → IsSound law e
      → written o alg (lookup g e.groups) ≡ some c
      → (t : Sketch) × (alg.parse c ≡ ok t) × Wrote e g t
  unfolding written
  wrote e g c h p = elim (Option-cases (lookup g e.groups)) [
    | inl absent ↦ cc (ap (written o alg) absent, p)
    | inr (sk, found) ↦
        let (t, parsed, same) = parse_bytes sk (h.made g sk found) in
        let eq : bytes sk ≡ c = cc (ap (written o alg) found, p) in
        (t, rw (← eq) parsed, (sk, found, same))
  ]

  reads :
      (e e' : Engine o alg) (g : Bytes) (b : Option Bytes)
      → b ≡ written o alg (lookup g e.groups)
      → Loaded o alg (Wrote e g) b (lookup g (Map.empty {V = Sketch})) (lookup g e'.groups)
      → cardinality o alg g e' ≡ cardinality o alg g e
  unfolding written
  reads e e' g none p absent =
      cardinality_unknown o alg g e' (absent ∙ lookup-empty {V = Sketch} g)
      ∙ sym (cardinality_unknown o alg g e (unwritten o alg (lookup g e.groups) p))
  reads e e' g (some b) p (t, found, parsed, (sk, known, same)) =
      cardinality_known o alg g e' found
      ∙ ap ok (same_cardinality same)
      ∙ sym (cardinality_known o alg g e known)

  -- A snapshot round trip: Unmarshal of what Marshal wrote of a sound engine succeeds on any engine,
  -- and every group, known or not, answers as before.
  pub unmarshal-marshal :
      (gob : Gob) (e e₀ : Engine o alg) (b : Bytes)
      → IsGob gob
      → IsSound law e
      → marshal o alg gob e ≡ ok b
      → ((unmarshal o alg gob b e₀).0 ≡ none)
        × ((g : Bytes) → cardinality o alg g (unmarshal o alg gob b e₀).1 ≡ cardinality o alg g e)
  unmarshal-marshal gob e e₀ b is_gob h p =
      let (n, decoded, n_map, same) = is_gob.decode-encode _ b (marshal_lem o alg gob e p) in
      let at = λ (g : Bytes). same g ∙ lookup-wire_all o alg e h.keys.distinct g in
      let (m, ran, m_map, loaded) =
        parse_all_lem o alg (Wrote e) n.entries Map.empty n_map.distinct
          (λ g c found. wrote e g c h (sym (at g) ∙ lookup-find g n ∙ found)) empty-IsMap in
      let done = unmarshal_lem o alg gob b e₀ decoded ran in
      (
        ap (λ r. r.0) done,
        λ g.
            ap (λ r. cardinality o alg g r.1) done
            ∙ reads e (record e₀ { groups = m }) g (find g n.entries) (sym (lookup-find g n) ∙ at g)
                (loaded g),
      )
