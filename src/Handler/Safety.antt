-- ===== src/Handler/Safety.antt =====
-- Commands applied to an engine, whatever bytes they carry.
use time_series_cardinality.Base.{
  ℕ, zero, suc, ◌≢◌, false, ◌≡◌, some, Bytes, IsByte, All, All-drop, drop, take, length, ltb, inl,
  inr, Bool-cases, nat_eqb, bytes_eq, ◌==◌,
}
use time_series_cardinality.Errors.{Returns, then_do-Returns}
use time_series_cardinality.Varint.{uvarint, Uvarint-cases}
use time_series_cardinality.Sketch.{SketchOps, Algorithm, IsLawful}
use time_series_cardinality.Engine.{Engine, add, merge_bytes}
use time_series_cardinality.Engine.Groups.{
  IsSound, Touches, Touches-refl, Touches-trans, added-Touches, merge_bytes-Touches,
}
use time_series_cardinality.Handler.Dispatching.{dispatch-default}
use time_series_cardinality.Handler.{
  Command, Adder, apply_add, batch_loop, apply_batch_add, merge_rest, apply_merge_sketch,
  default_registry, dispatch, type_add, type_batch_add, type_merge_sketch,
}

-- *cardinality.Engine as an Adder.
abbrev pub engine_adder : (o : SketchOps) (alg : Algorithm o) → Adder (Engine o alg)
engine_adder o alg = record { add = add o alg; merge_bytes = merge_bytes o alg }

module _ {o : SketchOps} {alg : Algorithm o} (law : IsLawful o alg) where
  -- From e the group's sketch may have changed, and the engine is sound.
  abbrev pub Step : Bytes → Engine o alg → Engine o alg → Type 0
  Step group e t = Touches law group e t

  add-Step :
      (group : Bytes) (id : ℕ) {e t : Engine o alg}
      → Step group e t
      → Returns (Step group e) (add o alg group id t)
  unfolding add
  add-Step group id h = Touches-trans law group h (added-Touches law group id h.sound)

  merge_bytes-Step :
      (group algo b : Bytes) {e : Engine o alg}
      → IsSound law e
      → All IsByte b
      → Returns (Step group e) (merge_bytes o alg group algo b e)
  merge_bytes-Step group algo b h bs = merge_bytes-Touches law group algo b h bs

  batch_loop-Step :
      (left n : ℕ) (group buf : Bytes) (e t : Engine o alg)
      → Step group e t
      → Returns (Step group e) (batch_loop left n group (engine_adder o alg) buf t)
  unfolding batch_loop
  batch_loop-Step zero n group buf e t h = h
  batch_loop-Step (suc left) n group buf e t h = elim (Uvarint-cases (uvarint buf)) [
    | inl (id, m, p) ↦
        rw (p, batch_loop, Returns)
          (then_do-Returns (Step group e) (add o alg group id t) _ (add-Step group id h)
            (λ v k. batch_loop-Step left n group (drop m buf) e v k))
    | inr (inl p) ↦ rw (p, batch_loop, Returns) h
    | inr (inr (k, p)) ↦ rw (p, batch_loop, Returns) h
  ]

  module _ (cmd : Command) {e : Engine o alg} (sound : IsSound law e) where
    apply_add-Step : Returns (Step cmd.group e) (apply_add cmd (engine_adder o alg) e)
    unfolding apply_add
    apply_add-Step = elim (Uvarint-cases (uvarint cmd.payload)) [
      | inl (id, n, p) ↦ elim (Bool-cases (nat_eqb n (length cmd.payload))) [
        | inl whole ↦ rw (p, apply_add, Returns) (rw whole (add-Step cmd.group id same))
        | inr cut ↦ rw (p, apply_add, Returns) (rw cut same)
      ]
      | inr (inl p) ↦ rw (p, apply_add, Returns) same
      | inr (inr (k, p)) ↦ rw (p, apply_add, Returns) same
    ]
      where
        same : Step cmd.group e e
        same = Touches-refl law cmd.group sound

    apply_batch_add-Step : Returns (Step cmd.group e) (apply_batch_add cmd (engine_adder o alg) e)
    unfolding apply_batch_add
    apply_batch_add-Step = elim (Uvarint-cases (uvarint cmd.payload)) [
      | inl (n, k, p) ↦
          rw (p, apply_batch_add, Returns)
            (batch_loop-Step n n cmd.group (drop k cmd.payload) e e same)
      | inr (inl p) ↦ rw (p, apply_batch_add, Returns) same
      | inr (inr (k, p)) ↦ rw (p, apply_batch_add, Returns) same
    ]
      where
        same : Step cmd.group e e
        same = Touches-refl law cmd.group sound

    merge_rest-Step :
        (n : ℕ) (buf : Bytes)
        → All IsByte buf
        → Returns (Step cmd.group e) (merge_rest n buf cmd.group (engine_adder o alg) e)
    unfolding merge_rest
    merge_rest-Step n buf bs = elim (Bool-cases (ltb (length buf) n)) [
      | inl over ↦ rw (over, merge_rest, Returns) (Touches-refl law cmd.group sound)
      | inr fits ↦
          rw (fits, merge_rest, Returns)
            (merge_bytes-Step cmd.group (take n buf) (drop n buf) sound (All-drop IsByte n buf bs))
    ]

    apply_merge_sketch-Step :
        All IsByte cmd.payload
        → Returns (Step cmd.group e) (apply_merge_sketch cmd (engine_adder o alg) e)
    unfolding apply_merge_sketch
    apply_merge_sketch-Step bs = elim (Uvarint-cases (uvarint cmd.payload)) [
      | inl (len, n, p) ↦
          rw (p, apply_merge_sketch, Returns)
            (merge_rest-Step len (drop n cmd.payload) (All-drop IsByte n cmd.payload bs))
      | inr (inl p) ↦ rw (p, apply_merge_sketch, Returns) (Touches-refl law cmd.group sound)
      | inr (inr (k, p)) ↦ rw (p, apply_merge_sketch, Returns) (Touches-refl law cmd.group sound)
    ]

    -- Whatever command is dispatched to a sound engine, of a known type or not, with whatever bytes
    -- for a payload: the handler returns, the engine stays sound, and no group but the command's
    -- own has changed.
    pub dispatch-Touches :
        All IsByte cmd.payload
        → Returns
            (Touches law cmd.group e)
            (dispatch default_registry (some cmd) (some (engine_adder o alg)) e)
    dispatch-Touches bs =
        let (add, batch, merge, other) = dispatch-default cmd (engine_adder o alg) e in
        elim (Bool-cases (cmd.type == type_add)) [
          | inl a ↦ rw (add ((bytes_eq.beq_iff _ _).0 a)) apply_add-Step
          | inr a ↦ elim (Bool-cases (cmd.type == type_batch_add)) [
            | inl b ↦ rw (batch ((bytes_eq.beq_iff _ _).0 b)) apply_batch_add-Step
            | inr b ↦ elim (Bool-cases (cmd.type == type_merge_sketch)) [
              | inl c ↦ rw (merge ((bytes_eq.beq_iff _ _).0 c)) (apply_merge_sketch-Step bs)
              | inr c ↦
                  rw (other (differs a) (differs b) (differs c)) (Touches-refl law cmd.group sound)
            ]
          ]
        ]
      where
        differs : {a b : Bytes} → (a == b) ≡ false → a ≢ b
        differs {a} {b} h p = cc (h, (bytes_eq.beq_iff a b).1 p)
