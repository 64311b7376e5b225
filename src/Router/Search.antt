-- ===== src/Router/Search.antt =====
-- sort.Search finds the first index at which a monotone test holds.
use native.Mathlib.Decide.{dec_lt}
use time_series_cardinality.Base.{
  ℕ, zero, suc, ◌+◌, ◌/◌, ◌≤◌, ◌<◌, ◌≡◌, inl, inr, Bool, true, false, arith, ltb, ltb→lt,
  Bool-cases,
}
use time_series_cardinality.Router.{search}

fails_below :
    (n : ℕ) (f : ℕ → Bool)
    → ((a b : ℕ) → a ≤ b → b < n → f a ≡ true → f b ≡ true)
    → (a b : ℕ) → f b ≡ false
    → a ≤ b
    → b < n
    → f a ≡ false
fails_below n f mono a b h le lt = ground (arith, mono a b le lt)

-- With as many rounds as the interval is long, the search ends at an index of the interval, below
-- which the test fails and from which on it holds.
pub search_lem :
    (fuel i j n : ℕ) (f : ℕ → Bool)
    → ((a b : ℕ) → a ≤ b → b < n → f a ≡ true → f b ≡ true)
    → i ≤ j
    → j ≤ n
    → j ≤ i + fuel
    → (i ≤ search fuel i j f)
      × (search fuel i j f ≤ j)
      × ((k : ℕ) → i ≤ k → k < search fuel i j f → f k ≡ false)
      × ((k : ℕ) → search fuel i j f ≤ k → k < j → f k ≡ true)
unfolding search
search_lem zero i j n f mono h hn e =
    (omega arith, omega arith, λ k lo hi. absurd (omega arith), λ k lo hi. absurd (omega arith))
search_lem (suc fuel) i j n f mono h hn e = elim (Bool-cases (ltb i j)) [
  | inr empty ↦
      rw (empty, search)
        (omega arith, h, λ k lo hi. absurd (omega arith), λ k lo hi. absurd (ground arith))
  | inl more ↦
      let lt = ltb→lt i j more in
      let mid = (i + j) / 2 in
      elim (Bool-cases (f mid)) [
        | inl holds ↦
            let (lo, hi, below, above) =
              search_lem fuel i mid n f mono (omega arith) (omega arith) (omega arith) in
            rw (more, holds, search)
              (
                lo,
                omega arith,
                below,
                λ k p q. elim (dec_lt k mid) [
                  | yes inside ↦ above k p inside
                  | no beyond ↦ mono mid k (omega arith) (omega arith) holds
                ],
              )
        | inr fails ↦
            let (lo, hi, below, above) =
              search_lem fuel (mid + 1) j n f mono (omega arith) hn (omega arith) in
            rw (more, fails, search)
              (
                omega arith,
                hi,
                λ k p q. elim (dec_lt mid k) [
                  | yes inside ↦ below k (omega arith) q
                  | no before ↦ fails_below n f mono k mid fails (omega arith) (omega arith)
                ],
                above,
              )
      ]
]
