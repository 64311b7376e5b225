-- ===== src/Tests/Encodings.antt =====
-- Encodings in place of gob and protobuf, with what those packages document.
use time_series_cardinality.Base.{
  ℕ, zero, suc, ◌+◌, ◌<◌, ◌≡◌, refl, sym, ap, ◌∙◌, inl, inr, ◌&&◌, Bool, true, false, Option, none,
  some, List, [], ◌∷◌, ◌++◌, append_assoc, append-nil, Bytes, IsByte, All, bytes_eq, arith, length,
  nat_eqb, ltb, ltb→lt, if◌then◌else◌, Bool-cases,
}
use time_series_cardinality.Map
use time_series_cardinality.Map.{
  Map, IsMap, find, lookup, insert, lookup-insert, lookup-empty, insert-IsMap, empty-IsMap,
}
use time_series_cardinality.Errors.{Result, ok, err, external}
use time_series_cardinality.Engine.{Gob}
use time_series_cardinality.Engine.Snapshots.{IsGob}
use time_series_cardinality.Handler.{Command}
use time_series_cardinality.Node.{Proto, add_command}
use time_series_cardinality.Node.Laws.{IsProto}

-- A number in unary, ended by 0; a string is numbers ended by 2.
number : ℕ → Bytes → Bytes
number zero t = 0 ∷ t
number (suc n) t = 1 ∷ number n t

text : Bytes → Bytes → Bytes
text [] t = 2 ∷ t
text (x ∷ s) t = number x (text s t)

pairs : List (Bytes × Bytes) → Bytes
pairs [] = []
pairs ((k, v) ∷ l) = text k (text v (pairs l))

-- The number so far, the string so far, and the first string of a pair.
unpair : Bytes → ℕ → Bytes → Option Bytes → List (Bytes × Bytes)
unpair [] n s first = []
unpair (b ∷ bs) n s first = elim (nat_eqb b 0) [
  | true ↦ unpair bs 0 (s ++ n ∷ []) first
  | false ↦ elim (nat_eqb b 1) [
    | true ↦ unpair bs (n + 1) s first
    | false ↦ elim first [ none ↦ unpair bs 0 [] (some s) | some k ↦ (k, s) ∷ unpair bs 0 [] none ]
  ]
]

unpair-number :
    (x n : ℕ) (t s : Bytes) (first : Option Bytes)
    → unpair (number x t) n s first ≡ unpair t 0 (s ++ (n + x) ∷ []) first
unfolding unpair number
unpair-number zero n t s first = ap (λ k. unpair t 0 (s ++ k ∷ []) first) (omega arith)
unpair-number (suc x) n t s first =
    unpair-number x (n + 1) t s first ∙ ap (λ k. unpair t 0 (s ++ k ∷ []) first) (omega arith)

unpair-text :
    (x t s : Bytes) (first : Option Bytes)
    → unpair (text x t) 0 s first ≡ unpair (2 ∷ t) 0 (s ++ x) first
unfolding text
unpair-text [] t s first = ap (λ k. unpair (2 ∷ t) 0 k first) (sym (append-nil s))
unpair-text (x ∷ xs) t s first =
    unpair-number x 0 (text xs t) s first
    ∙ unpair-text xs t (s ++ (0 + x) ∷ []) first
    ∙ ap (λ k. unpair (2 ∷ t) 0 k first)
        (append_assoc s ((0 + x) ∷ []) xs ∙ ap (λ k. s ++ k ∷ xs) (omega arith))

unpair-pairs : (l : List (Bytes × Bytes)) → unpair (pairs l) 0 [] none ≡ l
unfolding pairs
unpair-pairs [] = unfold unpair in refl
unpair-pairs ((k, v) ∷ l) =
    unpair-text k (text v (pairs l)) [] none
    ∙ first_ends k (text v (pairs l))
    ∙ unpair-text v (pairs l) [] (some k)
    ∙ second_ends k v (pairs l)
    ∙ ap (λ r. (k, v) ∷ r) (unpair-pairs l)
  where
    first_ends : (k t : Bytes) → unpair (2 ∷ t) 0 k none ≡ unpair t 0 [] (some k)
    first_ends k t = unfold unpair in refl

    second_ends : (k v t : Bytes) → unpair (2 ∷ t) 0 v (some k) ≡ (k, v) ∷ unpair t 0 [] none
    second_ends k v t = unfold unpair in refl

rebuild : List (Bytes × Bytes) → Map Bytes Bytes
rebuild [] = Map.empty
rebuild ((k, v) ∷ l) = insert k v (rebuild l)

rebuild-IsMap : (l : List (Bytes × Bytes)) → IsMap (rebuild l)
unfolding rebuild
rebuild-IsMap [] = empty-IsMap
rebuild-IsMap ((k, v) ∷ l) = insert-IsMap k v (rebuild-IsMap l)

lookup-rebuild : (k : Bytes) (l : List (Bytes × Bytes)) → lookup k (rebuild l) ≡ find k l
unfolding rebuild find
lookup-rebuild k [] = lookup-empty {V = Bytes} k
lookup-rebuild k ((j, v) ∷ l) = ground (arith, lookup-insert j k v (rebuild l), lookup-rebuild k l)

unfoldable pub pair_gob : Gob
unfolding number text pairs unpair rebuild
pair_gob = record {
  encode = λ m. ok (pairs m.entries);
  decode = λ b. ok (rebuild (unpair b 0 [] none));
}

pub pair_gob-IsGob : IsGob pair_gob
unfolding pair_gob
pair_gob-IsGob = record {
  decode-encode = λ m b h.
      let same : pairs m.entries ≡ b = cc h in
      (
        rebuild m.entries,
        ap (λ t. ok (rebuild (unpair t 0 [] none))) (sym same)
            ∙ ap (λ l. ok (rebuild l)) (unpair-pairs m.entries),
        rebuild-IsMap m.entries,
        λ k. lookup-rebuild k m.entries ∙ unfold lookup in refl,
      );
}

all_bytes : Bytes → Bool
all_bytes [] = true
all_bytes (b ∷ bs) = ltb b 256 && all_bytes bs

All_of_all_bytes : (b : Bytes) → all_bytes b ≡ true → All IsByte b
unfolding all_bytes
All_of_all_bytes [] h = tt
All_of_all_bytes (x ∷ bs) h = elim (Bool-cases (ltb x 256)) [
  | inl small ↦ (ltb→lt x 256 small, All_of_all_bytes bs (rw small at h))
  | inr large ↦ cc (rw large at h)
]

command_of : List (Bytes × Bytes) → Option Command
command_of ((type, group) ∷ (payload, x) ∷ []) =
    some (record { type = type; group = group; payload = payload })
command_of _ = none

-- A command whose payload holds a number past 255 is no message.
checked : Option Command → Result Command
checked none = err (external 1)
checked (some cmd) = if all_bytes cmd.payload then ok cmd else err (external 2)

unfoldable pub pair_proto : Proto
unfolding number text pairs unpair checked command_of all_bytes
pair_proto = record {
  marshal = λ cmd.
      if all_bytes cmd.payload
      then ok (pairs ((cmd.type, cmd.group) ∷ (cmd.payload, []) ∷ []))
      else err (external 2);
  unmarshal = λ b. checked (command_of (unpair b 0 [] none));
}

checked-all_bytes :
    (c : Option Command) (cmd : Command) → checked c ≡ ok cmd → all_bytes cmd.payload ≡ true
unfolding checked
checked-all_bytes none cmd h = cc h
checked-all_bytes (some c) cmd h = elim (Bool-cases (all_bytes c.payload)) [
  | inl fine ↦
      let same : c ≡ cmd = cc (rw fine at h) in
      ap (λ (x : Command). all_bytes x.payload) (sym same) ∙ fine
  | inr bad ↦ cc (rw bad at h)
]

encoded :
    (cmd : Command) (b : Bytes)
    → (if all_bytes cmd.payload
        then ok (pairs ((cmd.type, cmd.group) ∷ (cmd.payload, []) ∷ []))
        else err (external 2))
      ≡ ok b
    → (all_bytes cmd.payload ≡ true) × (pairs ((cmd.type, cmd.group) ∷ (cmd.payload, []) ∷ []) ≡ b)
encoded cmd b h = elim (Bool-cases (all_bytes cmd.payload)) [
  | inl fine ↦ (fine, cc (rw fine at h))
  | inr bad ↦ cc (rw bad at h)
]

some_bytes : (k v : Bytes) (l : List (Bytes × Bytes)) → 0 < length (pairs ((k, v) ∷ l))
unfolding pairs text number length
some_bytes [] v l = omega arith
some_bytes (zero ∷ k) v l = omega arith
some_bytes (suc x ∷ k) v l = omega arith

pub pair_proto-IsProto : IsProto pair_proto
unfolding pair_proto
pair_proto-IsProto = record {
  unmarshal-marshal = λ cmd b h.
      let (fine, same) = encoded cmd b h in
      ap (λ t. checked (command_of (unpair t 0 [] none))) (sym same)
      ∙ ap (λ l. checked (command_of l))
          (unpair-pairs ((cmd.type, cmd.group) ∷ (cmd.payload, []) ∷ []))
      ∙ unfold checked command_of in rw fine refl;
  marshal_some = λ group id b h.
      let cmd = add_command group id in
      let (fine, same) = encoded cmd b h in
      omega
        (arith, some_bytes cmd.type cmd.group ((cmd.payload, []) ∷ []), ap (length {A = ℕ}) same);
  payload_bytes = λ b cmd h.
      All_of_all_bytes cmd.payload (checked-all_bytes (command_of (unpair b 0 [] none)) cmd h);
}
