-- ===== src/Handler/Payloads.antt =====
-- What the handlers do with the payloads that a proposer encodes, and with any other.
use time_series_cardinality.Base.{
  ℕ, zero, suc, ◌+◌, ◌-◌, ◌<◌, ◌^◌, ◌≡◌, ◌≢◌, refl, ap, ◌∙◌, sym, Option, none, some, List, [], ◌∷◌,
  ◌++◌, Bytes, bytes_eq, arith, ltb, length, append-nil, append_assoc, length-append, take-append,
  drop-append, All, false,
}
use time_series_cardinality.Errors.{
  Error, bad_payload, not_single_varint, id_truncated, Run, done, panic, Action, then_do,
}
use time_series_cardinality.Varint.{Uvarint, value, short, overflow, uvarint, append_uvarint}
use time_series_cardinality.Varint.RoundTrip.{uvarint-append_uvarint}
use time_series_cardinality.Handler.{
  Command, Adder, apply_add, batch_loop, apply_batch_add, merge_rest, apply_merge_sketch, bad,
}

abbrev pub IsId : ℕ → Type 0
IsId v = v < 2 ^ 64

-- [varint id_1] ... [varint id_n]
unfoldable pub encoded_ids : List ℕ → Bytes
encoded_ids [] = []
encoded_ids (id ∷ ids) = append_uvarint id ++ encoded_ids ids

module _ {ℓ} {S : Type ℓ} where
  -- Add for each id in turn, up to the first that fails.
  unfoldable pub add_each : Adder S → Bytes → List ℕ → Action S
  add_each apply group [] s = done (none, s)
  add_each apply group (id ∷ ids) s = then_do (apply.add group id s) (add_each apply group ids)

  -- A payload of one encoded id is that one Add.
  pub apply_add-encoded :
      (type group : Bytes) (id : ℕ) (apply : Adder S) (s : S)
      → IsId id
      → apply_add (record { type = type; group = group; payload = append_uvarint id }) apply s
        ≡ apply.add group id s
  unfolding apply_add
  apply_add-encoded type group id apply s h =
      rw (rw append-nil at (uvarint-append_uvarint id [] h), apply_add) (ground arith)

  then_do-ext :
      (r : Run (Option Error × S)) (k l : Action S)
      → ((t : S) → k t ≡ l t)
      → then_do r k ≡ then_do r l
  then_do-ext panic k l h = refl
  then_do-ext (done (some e, s)) k l h = refl
  then_do-ext (done (none, s)) k l h = h s

  then_do_assoc :
      (r : Run (Option Error × S)) (k l : Action S)
      → then_do (then_do r k) l ≡ then_do r (λ t. then_do (k t) l)
  then_do_assoc panic k l = refl
  then_do_assoc (done (some e, s)) k l = refl
  then_do_assoc (done (none, s)) k l = refl

  then_do_done : (r : Run (Option Error × S)) → then_do r (λ t. done (none, t)) ≡ r
  then_do_done panic = refl
  then_do_done (done (some e, s)) = refl
  then_do_done (done (none, s)) = refl

  -- The loop takes the encoded ids one by one and goes on with the bytes behind them.
  batch_loop-encoded :
      (ids : List ℕ) (rounds left n : ℕ) (group more : Bytes) (apply : Adder S) (s : S)
      → All IsId ids
      → rounds ≡ length ids + left
      → batch_loop rounds n group apply (encoded_ids ids ++ more) s
        ≡ then_do (add_each apply group ids s) (batch_loop left n group apply more)
  unfolding batch_loop encoded_ids add_each length
  batch_loop-encoded [] rounds left n group more apply s h e =
      let same : rounds ≡ left = omega arith in rw same
  batch_loop-encoded (id ∷ ids) zero left n group more apply s h e = absurd (omega arith)
  batch_loop-encoded (id ∷ ids) (suc rounds) left n group more apply s h e =
      let rest = encoded_ids ids ++ more in
      rw (append_assoc (append_uvarint id) (encoded_ids ids) more) (
        rw (uvarint-append_uvarint id rest h.0, batch_loop)
          (rw (drop-append (append_uvarint id) rest) (
            then_do-ext (apply.add group id s) _ _
              (λ t. batch_loop-encoded ids rounds left n group more apply t h.1 (omega arith))
            ∙ sym (then_do_assoc (apply.add group id s) _ _))))

  batch_loop_short :
      (left n i : ℕ) (group : Bytes) (apply : Adder S) (s : S)
      → n - left ≡ i
      → batch_loop (suc left) n group apply [] s ≡ bad (id_truncated i n) s
  unfolding batch_loop uvarint
  batch_loop_short left n i group apply s e = rw e

  -- BATCH_ADD adds the encoded ids in order, up to the first Add that fails; bytes behind the last
  -- id are ignored.
  pub apply_batch_add-encoded :
      (type group more : Bytes) (ids : List ℕ) (apply : Adder S) (s : S)
      → All IsId ids
      → IsId (length ids)
      → apply_batch_add
          (record {
            type = type;
            group = group;
            payload = append_uvarint (length ids) ++ (encoded_ids ids ++ more);
          })
          apply
          s
        ≡ add_each apply group ids s
  unfolding apply_batch_add
  apply_batch_add-encoded type group more ids apply s h hn =
      let n = length ids in
      rw (uvarint-append_uvarint n (encoded_ids ids ++ more) hn, apply_batch_add)
        (rw (drop-append (append_uvarint n) (encoded_ids ids ++ more)) (
          batch_loop-encoded ids n 0 n group more apply s h (omega arith)
          ∙ unfold batch_loop in then_do_done (add_each apply group ids s)))

  -- A BATCH_ADD that states more ids than it carries: the ids that are there are added first, and
  -- only then does it fail, so a rejected batch leaves its ids behind.
  pub apply_batch_add-truncated :
      (type group : Bytes) (ids : List ℕ) (missing : ℕ) (apply : Adder S) (s : S)
      → All IsId ids
      → IsId (length ids + suc missing)
      → apply_batch_add
          (record {
            type = type;
            group = group;
            payload = append_uvarint (length ids + suc missing) ++ encoded_ids ids;
          })
          apply
          s
        ≡ then_do
            (add_each apply group ids s)
            (bad (id_truncated (length ids + 1) (length ids + suc missing)))
  unfolding apply_batch_add
  apply_batch_add-truncated type group ids missing apply s h hn =
      let n = length ids + suc missing in
      rw (uvarint-append_uvarint n (encoded_ids ids) hn, apply_batch_add)
        (rw (drop-append (append_uvarint n) (encoded_ids ids)) (
          ap (λ buf. batch_loop n n group apply buf s) (sym (append-nil (encoded_ids ids)))
          ∙ batch_loop-encoded ids n (suc missing) n group [] apply s h refl
          ∙ then_do-ext (add_each apply group ids s) _ _
              (λ t. batch_loop_short missing n (length ids + 1) group apply t (omega arith))))

  merge_rest-cut :
      (algo sketch group : Bytes) (apply : Adder S) (s : S)
      → merge_rest (length algo) (algo ++ sketch) group apply s
        ≡ apply.merge_bytes group algo sketch s
  unfolding merge_rest
  merge_rest-cut algo sketch group apply s =
      let fits : ltb (length (algo ++ sketch)) (length algo) ≡ false =
        ground (arith, length-append algo sketch) in
      rw (fits, take-append algo sketch, drop-append algo sketch)

  -- From a payload of the length of a name, the name, and the rest, where the length has 64 bits, the
  -- name and the rest reach MergeBytes.
  pub apply_merge_sketch-encoded :
      (type group algo sketch : Bytes) (apply : Adder S) (s : S)
      → IsId (length algo)
      → apply_merge_sketch
          (record {
            type = type;
            group = group;
            payload = append_uvarint (length algo) ++ (algo ++ sketch);
          })
          apply
          s
        ≡ apply.merge_bytes group algo sketch s
  unfolding apply_merge_sketch
  apply_merge_sketch-encoded type group algo sketch apply s h =
      let n = length algo in
      rw (uvarint-append_uvarint n (algo ++ sketch) h, apply_merge_sketch)
        (rw (drop-append (append_uvarint n) (algo ++ sketch))
          (merge_rest-cut algo sketch group apply s))

  apply_add_rejects :
      (cmd : Command) (apply : Adder S) (s : S) (u : Uvarint)
      → uvarint cmd.payload ≡ u
      → ((id : ℕ) → uvarint cmd.payload ≢ value id (length cmd.payload))
      → apply_add cmd apply s ≡ done (some (bad_payload not_single_varint), s)
  unfolding apply_add
  apply_add_rejects cmd apply s (value id n) e h = ground (arith, h id)
  apply_add_rejects cmd apply s short e h = ground arith
  apply_add_rejects cmd apply s (overflow k) e h = ground arith

  -- What reaches Add: a payload that is one varint and nothing else. Any other payload is rejected
  -- and the state is left alone.
  pub apply_add_lem :
      (cmd : Command) (apply : Adder S) (s : S)
      → ((id : ℕ)
          → uvarint cmd.payload ≡ value id (length cmd.payload)
          → apply_add cmd apply s ≡ apply.add cmd.group id s)
        × (((id : ℕ) → uvarint cmd.payload ≢ value id (length cmd.payload))
            → apply_add cmd apply s ≡ done (some (bad_payload not_single_varint), s))
  unfolding apply_add
  apply_add_lem cmd apply s =
      (λ id h. ground arith, λ h. apply_add_rejects cmd apply s (uvarint cmd.payload) refl h)
