-- ===== src/Handler.antt =====
-- internal/raft/handler: the command registry and the handlers of the three command types. A
-- handler sees an engine only through the interface Adder, and so does this model.
pub mod Payloads
pub mod Dispatching
pub mod Safety
pub mod Batches
use time_series_cardinality.Base.{
  ℕ, zero, suc, ◌+◌, ◌-◌, Option, none, some, List, [], ◌∷◌, Bytes, bytes_eq, lit, ltb, nat_eqb,
  if◌then◌else◌, length, take, drop,
}
use time_series_cardinality.Map
use time_series_cardinality.Map.{Map, lookup, insert}
use time_series_cardinality.Errors.{
  Error, PayloadFault, bad_payload, not_single_varint, missing_count, id_truncated,
  missing_algo_len, algo_len_exceeds, unknown_command, nil_adder, Run, done, Action, then_do,
}
use time_series_cardinality.Varint.{Uvarint, value, short, overflow, uvarint}

-- pb.Command
pub record Command : Type 0 where
  pub type : Bytes
  pub group : Bytes
  pub payload : Bytes

pub record Adder {ℓ} (S : Type ℓ) : Type ℓ where
  pub add : Bytes → ℕ → Action S
  pub merge_bytes : Bytes → Bytes → Bytes → Action S

abbrev pub type_add : Bytes
type_add = lit "ADD"

abbrev pub type_batch_add : Bytes
type_batch_add = lit "BATCH_ADD"

abbrev pub type_merge_sketch : Bytes
type_merge_sketch = lit "MERGE_SKETCH"

module _ {ℓ} {S : Type ℓ} where
  abbrev bad : PayloadFault → Action S
  bad fault s = done (some (bad_payload fault), s)

  unfoldable pub apply_add : Command → Adder S → Action S
  unfolding length
  apply_add cmd apply s = elim (uvarint cmd.payload) [
    | value id n ↦
        if nat_eqb n (length cmd.payload) then apply.add cmd.group id s else bad not_single_varint s
    | _ ↦ bad not_single_varint s
  ]

  -- The loop of applyBatchAdd with the rounds left; `n` is the count that the payload states.
  unfoldable pub batch_loop : ℕ → ℕ → Bytes → Adder S → Bytes → Action S
  unfolding drop
  batch_loop zero n group apply buf s = done (none, s)
  batch_loop (suc left) n group apply buf s = elim (uvarint buf) [
    | value id m ↦
        then_do (apply.add group id s) (λ t. batch_loop left n group apply (drop m buf) t)
    | _ ↦ bad (id_truncated (n - left) n) s
  ]

  unfoldable pub apply_batch_add : Command → Adder S → Action S
  unfolding batch_loop drop
  apply_batch_add cmd apply s = elim (uvarint cmd.payload) [
    | value n k ↦ batch_loop n n cmd.group apply (drop k cmd.payload) s
    | _ ↦ bad missing_count s
  ]

  -- buf behind the length prefix, cut at the length that the prefix states
  unfoldable pub merge_rest : ℕ → Bytes → Bytes → Adder S → Action S
  unfolding length take drop
  merge_rest algo_len buf group apply s =
      if ltb (length buf) algo_len
      then bad (algo_len_exceeds algo_len (length buf)) s
      else apply.merge_bytes group (take algo_len buf) (drop algo_len buf) s

  unfoldable pub apply_merge_sketch : Command → Adder S → Action S
  unfolding merge_rest drop
  apply_merge_sketch cmd apply s = elim (uvarint cmd.payload) [
    | value algo_len n ↦ merge_rest algo_len (drop n cmd.payload) cmd.group apply s
    | _ ↦ bad missing_algo_len s
  ]

abbrev pub Handler {ℓ} : Type ℓ → Type ℓ
Handler S = Command → Adder S → Action S

abbrev pub Registry {ℓ} : Type ℓ → Type ℓ
Registry S = Map Bytes (Handler S)

module _ {ℓ} {S : Type ℓ} where
  unfoldable pub new_registry : Registry S
  new_registry = Map.empty

  unfoldable pub register : Bytes → Handler S → Registry S → Registry S
  register t h r = insert t h r

  unfoldable pub register_add : Registry S → Registry S
  unfolding register
  register_add = register type_add apply_add

  unfoldable pub register_batch : Registry S → Registry S
  unfolding register
  register_batch = register type_batch_add apply_batch_add

  unfoldable pub register_merge : Registry S → Registry S
  unfolding register
  register_merge = register type_merge_sketch apply_merge_sketch

  unfoldable pub default_registry : Registry S
  unfolding new_registry register_add register_batch register_merge
  default_registry = register_merge (register_batch (register_add new_registry))

  -- `none` is a nil command and a nil adder.
  unfoldable pub dispatch : Registry S → Option Command → Option (Adder S) → Action S
  dispatch r none apply s = done (some (unknown_command none), s)
  dispatch r (some cmd) apply s = elim (lookup cmd.type r) [
    | none ↦ done (some (unknown_command (some cmd.type)), s)
    | some h ↦ elim apply [ none ↦ done (some nil_adder, s) | some a ↦ h cmd a s ]
  ]
