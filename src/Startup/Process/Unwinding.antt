-- ===== src/Startup/Process/Unwinding.antt =====
-- cmd/server/main.go: what run has taken is given back on every way out, the last first.
use time_series_cardinality.Base.{
  ℕ, ◌≡◌, refl, ◌∙◌, ap, inl, inr, Option, none, some, List, [], ◌∷◌, Bytes, Bool-cases, nat_eqb,
  if◌then◌else◌,
}
use time_series_cardinality.External.{Murmur, Floats, Roaring}
use time_series_cardinality.Errors.{Error, Result-cases, Run, done, panic}
use time_series_cardinality.Sketch.{SketchOps, Algorithm}
use time_series_cardinality.Engine.{Engine}
use time_series_cardinality.Router.{Ring}
use time_series_cardinality.Store
use time_series_cardinality.Store.{Badger, BadgerStore}
use time_series_cardinality.Startup.{rebuild, configure}
use time_series_cardinality.Startup.Process.{
  Flags, Failure, Exit, returned, panicked, waiting, Host, Service, Effect, opened, started,
  created_server, created_context, created_timeout, timeout_cancelled, cancelled, server_closed,
  node_stopped, store_closed, signalled, grpc_stopped, http_down, metrics_down, listening,
  serving_grpc, gateway_to, serving_http, serving_metrics, registered, restored, listen_grpc,
  register_gateway, restore_state, Body, returns, does, deferred, checked, calling, shut_down,
  serve, start, restore, run_with, run,
}

-- What run takes and gives back.
pub data Resource : Type 0 where
  store_open node_running server_open context_live timeout_live : Resource

-- What is held while run waits for a signal.
abbrev pub serving : List Resource
serving = context_live ∷ server_open ∷ node_running ∷ store_open ∷ []

-- An effect takes a resource, gives one back, or neither.
pub data Change : Type 0 where
  takes gives : Resource → Change
  neither : Change

abbrev number : Resource → ℕ
number store_open = 0
number node_running = 1
number server_open = 2
number context_live = 3
number timeout_live = 4

-- Only the resource that was taken last can be given back.
unfoldable pub give : Resource → List Resource → Option (List Resource)
give r [] = none
give r (x ∷ s) = if nat_eqb (number x) (number r) then some s else none

unfoldable pub changed : Change → List Resource → Option (List Resource)
unfolding give
changed (takes r) s = some (r ∷ s)
changed (gives r) s = give r s
changed neither s = some s

module _ {o : SketchOps} {alg : Algorithm o} {Db Storage : Type 0} where
  unfoldable pub change : Effect o alg Db Storage → Change
  change (opened dir) = takes store_open
  change started = takes node_running
  change created_server = takes server_open
  change created_context = takes context_live
  change created_timeout = takes timeout_live
  change timeout_cancelled = gives timeout_live
  change cancelled = gives context_live
  change server_closed = gives server_open
  change node_stopped = gives node_running
  change store_closed = gives store_open
  change other = neither

  -- The resources that are held after the effects, the last taken first, or none if some effect gave
  -- back what was not the last taken.
  unfoldable pub held : List (Effect o alg Db Storage) → Option (List Resource)
  unfolding changed change
  held [] = some []
  held (e ∷ t) = elim (held t) [ none ↦ none | some s ↦ changed (change e) s ]

  -- Where run ends, exactly the resources `s` are held; where it waits for a signal, the four that
  -- it then needs.
  unfoldable pub Leaves : List Resource → Exit × List (Effect o alg Db Storage) → Type 0
  Leaves s (returned r, t) = held t ≡ some s
  Leaves s (panicked, t) = held t ≡ some s
  Leaves s (waiting, t) = held t ≡ some serving

  -- From any effects that leave `s` held.
  abbrev Unwinds : List Resource → Body o alg Db Storage → Type 0
  Unwinds s body = (t : List (Effect o alg Db Storage)) → held t ≡ some s → Leaves s (body t)

  returns-Unwinds :
      (s : List Resource) (r : Option Failure) → Unwinds s (returns o alg Db Storage r)
  unfolding Leaves
  returns-Unwinds s r t h = h

  held-cons :
      (e : Effect o alg Db Storage) (t : List (Effect o alg Db Storage)) {s : List Resource}
      → held t ≡ some s
      → held (e ∷ t) ≡ changed (change e) s
  unfolding held
  held-cons e t h = rw (h, held) refl

  does-Unwinds :
      (e : Effect o alg Db Storage) (s : List Resource) (body : Body o alg Db Storage)
      → changed (change e) s ≡ some s
      → Unwinds s body
      → Unwinds s (does o alg Db Storage e body)
  does-Unwinds e s body plain h t k = h (e ∷ t) (held-cons e t k ∙ plain)

  deferred-Leaves :
      (giving : Effect o alg Db Storage) (r : Resource) (s : List Resource)
      (t : List (Effect o alg Db Storage)) (b : Exit × List (Effect o alg Db Storage))
      → changed (change giving) (r ∷ s) ≡ some s
      → Leaves (r ∷ s) b
      → Leaves s (deferred o alg Db Storage giving (λ u. b) t)
  unfolding deferred Leaves
  deferred-Leaves giving r s t (returned x, u) gives_r l = held-cons giving u l ∙ gives_r
  deferred-Leaves giving r s t (panicked, u) gives_r l = held-cons giving u l ∙ gives_r
  deferred-Leaves giving r s t (waiting, u) gives_r l = l

  -- Taking a resource and deferring the call that gives it back.
  take_deferred-Unwinds :
      (taking giving : Effect o alg Db Storage) (r : Resource) (s : List Resource)
      (body : Body o alg Db Storage)
      → change taking ≡ takes r
      → changed (change giving) (r ∷ s) ≡ some s
      → Unwinds (r ∷ s) body
      → Unwinds s (does o alg Db Storage taking (deferred o alg Db Storage giving body))
  unfolding deferred
  take_deferred-Unwinds taking giving r s body takes_r gives_r h t k =
      deferred-Leaves giving r s t (body (taking ∷ t)) gives_r
        (h (taking ∷ t) (held-cons taking t k ∙ unfold changed in ap (λ c. changed c s) takes_r))

  checked-Unwinds :
      (failure : Error → Failure) (x : Option Error) (s : List Resource)
      (body : Body o alg Db Storage)
      → (x ≡ none → Unwinds s body)
      → Unwinds s (checked o alg Db Storage failure x body)
  unfolding checked Leaves
  checked-Unwinds failure none s body h = h refl
  checked-Unwinds failure (some x) s body h = λ t k. k

  calling-Unwinds {ℓ} :
      {A : Type ℓ} (call : Run A) (s : List Resource) (body : A → Body o alg Db Storage)
      → ((a : A) → call ≡ done a → Unwinds s (body a))
      → Unwinds s (calling o alg Db Storage call body)
  unfolding calling Leaves
  calling-Unwinds panic s body h = λ t k. k
  calling-Unwinds (done a) s body h = h a refl

  module _ (badger : Badger Db) (m : Murmur) (host : Host Db Storage) (flags : Flags) where
    shut_down-Unwinds : Unwinds serving (shut_down o alg Db Storage badger m host flags)
    unfolding shut_down change changed give
    shut_down-Unwinds t k = elim (Bool-cases host.signal) [
      | inr quiet ↦ rw quiet (unfold Leaves in k)
      | inl came ↦ rw came (
          does-Unwinds signalled serving _ refl
            (does-Unwinds grpc_stopped serving _ refl (
              take_deferred-Unwinds created_timeout timeout_cancelled timeout_live serving _ refl
                refl
                (does-Unwinds http_down (timeout_live ∷ serving) _ refl (
                  does-Unwinds metrics_down (timeout_live ∷ serving) _ refl
                    (returns-Unwinds (timeout_live ∷ serving) none)))))
            t k)
    ]

    serve-Unwinds :
        (service : Service o alg Db Storage)
        → Unwinds
            (server_open ∷ node_running ∷ store_open ∷ [])
            (serve o alg Db Storage badger m host flags service)
    unfolding serve change changed give
    serve-Unwinds service =
        let s = server_open ∷ node_running ∷ store_open ∷ [] in
        checked-Unwinds listen_grpc (host.listen flags.grpc_port) s _ (λ listened.
          does-Unwinds (listening flags.grpc_port) s _ refl (
            does-Unwinds (serving_grpc service) s _ refl (
              take_deferred-Unwinds created_context cancelled context_live s _ refl refl (
                checked-Unwinds register_gateway (host.register_gateway flags.grpc_port) serving _
                  (λ reached. does-Unwinds (gateway_to flags.grpc_port) serving _ refl (
                    does-Unwinds (serving_http flags.http_port) serving _ refl (
                      does-Unwinds (serving_metrics flags.metrics_port) serving _ refl
                        shut_down-Unwinds)))))))

    start-Unwinds :
        (e : Engine o alg) (st : BadgerStore Db) (c : Option Ring × Bytes)
        → Unwinds (store_open ∷ []) (start o alg Db Storage badger m host flags e st c)
    unfolding start change changed give
    start-Unwinds e st (ring, self) =
        calling-Unwinds (host.start_node flags.node_id) (store_open ∷ []) _ (λ storage made.
          take_deferred-Unwinds started node_stopped node_running (store_open ∷ []) _ refl refl (
            calling-Unwinds host.must_register (node_running ∷ store_open ∷ []) _ (λ u fine.
              does-Unwinds (registered flags.metrics_max_groups) (node_running ∷ store_open ∷ []) _
                refl
                (take_deferred-Unwinds created_server server_closed server_open
                  (node_running ∷ store_open ∷ []) _ refl refl (serve-Unwinds _)))))

    restore-Unwinds :
        (st : BadgerStore Db)
        → Unwinds (store_open ∷ []) (restore o alg Db Storage badger m host flags st)
    unfolding restore change changed
    restore-Unwinds st =
        checked-Unwinds restore_state (rebuild o alg badger st).0 (store_open ∷ []) _ (λ fine.
          does-Unwinds (restored (rebuild o alg badger st).1.1) (store_open ∷ []) _ refl (
            calling-Unwinds (configure m flags.node_id flags.peers) (store_open ∷ []) _
              (λ c set_up. start-Unwinds (rebuild o alg badger st).1.0 st c)))

    run_with-Unwinds : Unwinds [] (run_with o alg Db Storage badger m host flags)
    unfolding run_with change changed give
    run_with-Unwinds t k = elim (Result-cases (Store.open_at host.badger_open flags.data_dir)) [
      | inr (x, failed) ↦ rw (failed, run_with) (unfold Leaves in k)
      | inl (st, fine) ↦
          rw (fine, run_with)
            (take_deferred-Unwinds (opened flags.data_dir) store_closed store_open [] _ refl refl
              (restore-Unwinds st) t k)
    ]

-- However the calls of the packages answer and however run ends, by a return, with an error or
-- without, or by a panic: what it has taken (the store, the running node, the server, the gateway's
-- context, the shutdown's timeout) it has given back, each once and the last taken first. While it
-- waits for a signal it holds the first four of these.
pub run-Leaves :
    (m : Murmur) (f : Floats) (r : Roaring) (Db Storage : Type 0) (badger : Badger Db)
    (host : Host Db Storage) (flags : Flags)
    → Leaves [] (run m f r Db Storage badger host flags)
unfolding run
run-Leaves m f r Db Storage badger host flags =
    run_with-Unwinds badger m host flags [] (unfold held in refl)
