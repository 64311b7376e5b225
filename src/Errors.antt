-- ===== src/Errors.antt =====
-- The errors that the packages return, and Go's ways out of a call: a value, an error, a panic.
-- An error of a third-party package is `external` with a number that tells its errors apart.
use time_series_cardinality.Base.{ℕ, Option, none, some, Bytes, ◌≡◌, refl, ◌⊎◌, inl, inr}

-- internal/raft/handler: what stands behind "raft: bad payload"
pub data PayloadFault : Type 0 where
  not_single_varint missing_count missing_algo_len : PayloadFault
  id_truncated : ℕ → ℕ → PayloadFault
  algo_len_exceeds : ℕ → ℕ → PayloadFault

-- internal/server: the stage that the message of a codes.Internal names
pub data Stage : Type 0 where
  dial_peer raft_propose engine_add : Stage

pub data Error : Type 0 where
  unknown_group : Bytes → Error
  algo_mismatch : Bytes → Bytes → Error
  nil_remote nil_adder buffer_too_short not_found : Error
  precision_mismatch : ℕ → Error
  parse_group : Bytes → Error → Error
  store_open : Error → Error
  unknown_command : Option Bytes → Error
  bad_payload : PayloadFault → Error
  group_required : Error
  internal : Stage → Error → Error
  external : ℕ → Error

-- (value, nil) or (zero, err)
pub data Result {ℓ} (A : Type ℓ) : Type ℓ where
  ok : A → Result A
  err : Error → Result A

pub Result-cases {ℓ} :
    {A : Type ℓ} (r : Result A) → ((a : A) × (r ≡ ok a)) ⊎ ((e : Error) × (r ≡ err e))
Result-cases (ok a) = inl (a, refl)
Result-cases (err e) = inr (e, refl)

-- A call that returns, or that panics.
pub data Run {ℓ} (A : Type ℓ) : Type ℓ where
  done : A → Run A
  panic : Run A

-- A method of an object with state S that returns an error: `none` is nil.
abbrev pub Action {ℓ} : Type ℓ → Type ℓ
Action S = S → Run (Option Error × S)

-- `if err := m; err != nil { return err }; k`, and what was written before stays written.
abbrev pub then_do {ℓ} : {S : Type ℓ} → Run (Option Error × S) → Action S → Run (Option Error × S)
then_do panic k = panic
then_do (done (some e, s)) k = done (some e, s)
then_do (done (none, s)) k = k s

-- The call returned, and P holds of its new state, whether or not it returned an error.
abbrev pub Returns {ℓ} : {S : Type ℓ} → (S → Type 0) → Run (Option Error × S) → Type 0
Returns P panic = ⊥
Returns P (done (r, s)) = P s

pub then_do-Returns {ℓ} :
    {S : Type ℓ} (P : S → Type 0) (r : Run (Option Error × S)) (k : Action S)
    → Returns P r
    → ((s : S) → P s → Returns P (k s))
    → Returns P (then_do r k)
then_do-Returns P panic k h step = h
then_do-Returns P (done (some e, s)) k h step = h
then_do-Returns P (done (none, s)) k h step = step s h

pub Returns-cases {ℓ} :
    {S : Type ℓ} (P : S → Type 0) (r : Run (Option Error × S))
    → Returns P r
    → (x : Option Error) × (s : S) × (r ≡ done (x, s)) × P s
Returns-cases P panic h = absurd h
Returns-cases P (done (x, s)) h = (x, s, refl, h)
