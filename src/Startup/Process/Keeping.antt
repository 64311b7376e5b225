-- ===== src/Startup/Process/Keeping.antt =====
-- cmd/server/main.go: a property of every effect, through the shapes that run is made of.
use time_series_cardinality.Base.{
  ◌≡◌, refl, Bool, true, false, Option, none, some, List, ◌∷◌, All, if◌then◌else◌,
}
use time_series_cardinality.Errors.{Error, Run, done, panic}
use time_series_cardinality.Sketch.{SketchOps, Algorithm}
use time_series_cardinality.Startup.Process.{
  Failure, Exit, returned, panicked, waiting, Effect, Body, returns, does, deferred, checked,
  calling,
}

module _ {o : SketchOps} {alg : Algorithm o} {Db Storage : Type 0} where
  module _ (P : Effect o alg Db Storage → Type 0) where
    unfoldable pub Kept : Exit × List (Effect o alg Db Storage) → Type 0
    Kept (exit, t) = All P t

    -- From effects that satisfy P.
    abbrev pub Keeps : Body o alg Db Storage → Type 0
    Keeps body = (t : List (Effect o alg Db Storage)) → All P t → Kept (body t)

    pub if-Kept :
        (c : Bool) (x y : Exit × List (Effect o alg Db Storage))
        → Kept x
        → Kept y
        → Kept (if c then x else y)
    if-Kept true x y h k = h
    if-Kept false x y h k = k

    deferred-Kept :
        (e : Effect o alg Db Storage) (t : List (Effect o alg Db Storage))
        (b : Exit × List (Effect o alg Db Storage))
        → P e
        → Kept b
        → Kept (deferred o alg Db Storage e (λ u. b) t)
    unfolding deferred Kept
    deferred-Kept e t (returned r, u) p h = (p, h)
    deferred-Kept e t (panicked, u) p h = (p, h)
    deferred-Kept e t (waiting, u) p h = h

    pub returns-Keeps : (r : Option Failure) → Keeps (returns o alg Db Storage r)
    unfolding Kept
    returns-Keeps r t h = h

    pub does-Keeps :
        (e : Effect o alg Db Storage) (body : Body o alg Db Storage)
        → P e
        → Keeps body
        → Keeps (does o alg Db Storage e body)
    does-Keeps e body p h t k = h (e ∷ t) (p, k)

    pub deferred-Keeps :
        (e : Effect o alg Db Storage) (body : Body o alg Db Storage)
        → P e
        → Keeps body
        → Keeps (deferred o alg Db Storage e body)
    unfolding deferred
    deferred-Keeps e body p h t k = deferred-Kept e t (body t) p (h t k)

    pub checked-Keeps :
        (failure : Error → Failure) (x : Option Error) (body : Body o alg Db Storage)
        → (x ≡ none → Keeps body)
        → Keeps (checked o alg Db Storage failure x body)
    unfolding checked Kept
    checked-Keeps failure none body h = h refl
    checked-Keeps failure (some x) body h = λ t k. k

    pub calling-Keeps {ℓ} :
        {A : Type ℓ} (call : Run A) (body : A → Body o alg Db Storage)
        → ((a : A) → call ≡ done a → Keeps (body a))
        → Keeps (calling o alg Db Storage call body)
    unfolding calling Kept
    calling-Keeps panic body h = λ t k. k
    calling-Keeps (done a) body h = h a refl
