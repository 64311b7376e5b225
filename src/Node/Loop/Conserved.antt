-- ===== src/Node/Loop/Conserved.antt =====
-- internal/raft/node.go: what every interleaving keeps.
use time_series_cardinality.Base.{
  ℕ, ◌+◌, ◌≤◌, ◌≡◌, refl, ap, Option, List, [], ◌∷◌, ◌++◌, arith, length, nat_eqb, nat_eqb_iff,
  if◌then◌else◌, ltb, subst,
}
use time_series_cardinality.Errors.{Error, done}
use time_series_cardinality.Sketch.{SketchOps, Algorithm, IsLawful}
use time_series_cardinality.Engine.{Engine, Gob}
use time_series_cardinality.Store.{Badger, BadgerStore}
use time_series_cardinality.Engine.Groups.{IsSound}
use time_series_cardinality.Node.{Node, Proto, Entry, MemoryStorage, apply_entries, run}
use time_series_cardinality.Node.Laws.{IsProto}
use time_series_cardinality.Node.Batching.{Agrees, committed, run-apply_entries}
use time_series_cardinality.Node.Loop.{
  Propose, Loop, new_loop, propose_cap, Step, send, take, answer, receive, stop, leave, Steps, stay,
  step,
}

-- How often a ticket stands among proposals, and among answers.
unfoldable pub queued : ℕ → List Propose → ℕ
queued t [] = 0
queued t (p ∷ ps) = let rest = queued t ps in if nat_eqb p.ticket t then rest + 1 else rest

unfoldable pub answered : ℕ → List (ℕ × Option Error) → ℕ
answered t [] = 0
answered t ((u, r) ∷ rs) = let rest = answered t rs in if nat_eqb u t then rest + 1 else rest

pub queued-append : (t : ℕ) (a b : List Propose) → queued t (a ++ b) ≡ queued t a + queued t b
unfolding queued
queued-append t [] b = omega arith
queued-append t (p ∷ a) b = ground (arith, queued-append t a b)

length-snoc : (a : List Propose) (p : Propose) → length (a ++ p ∷ []) ≡ length a + 1
unfolding length
length-snoc [] p = omega arith
length-snoc (q ∷ a) p = omega (arith, length-snoc a p)

module _ {o : SketchOps} {alg : Algorithm o} {Db Storage : Type 0} where
  -- proposeC holds no more than its capacity, and each proposal sent so far stands at exactly one
  -- place: in the channel, with a goroutine, or answered.
  pub record IsLoop (s : Loop o alg Db Storage) : Type 0 where
    pub bounded : length s.queue ≤ propose_cap
    pub once :
        (t : ℕ)
        → queued t s.queue + queued t s.in_flight + answered t s.answers
          ≡ (if ltb t s.issued then 1 else 0)

  pub new_loop-IsLoop :
      (id : ℕ) (e : Engine o alg) (st : BadgerStore Db) (storage : Storage)
      → IsLoop (new_loop o alg Db Storage id e st storage)
  unfolding new_loop queued answered length
  new_loop-IsLoop id e st storage = record { bounded = omega arith; once = λ t. ground arith }

  module _ (badger : Badger Db) (proto : Proto) (memory : MemoryStorage Storage) (gob : Gob) where
    Step-IsLoop :
        (s t : Loop o alg Db Storage)
        → Step o alg Db Storage badger proto memory gob s t
        → IsLoop s
        → IsLoop t
    unfolding queued answered length
    Step-IsLoop s t (send s' b room) h = record {
      bounded = omega (arith, length-snoc s'.queue (record { bytes = b; ticket = s'.issued }));
      once = λ u. ground (
        arith,
        h.once u,
        queued-append u s'.queue (record { bytes = b; ticket = s'.issued } ∷ []),
        nat_eqb_iff s'.issued u,
      );
    }
    Step-IsLoop s t (take s' p rest live e) h = record {
      bounded = omega (arith, ap length e, h.bounded);
      once = λ u. ground (arith, h.once u, ap (queued u) e, queued-append u s'.in_flight (p ∷ []));
    }
    Step-IsLoop s t (answer s' before after p r e) h = record {
      bounded = h.bounded;
      once = λ u. ground (
        arith,
        h.once u,
        ap (queued u) e,
        queued-append u before (p ∷ after),
        queued-append u before after,
      );
    }
    Step-IsLoop s t (receive s' rd n live e) h = record { bounded = h.bounded; once = h.once }
    Step-IsLoop s t (stop s' e) h = record { bounded = h.bounded; once = h.once }
    Step-IsLoop s t (leave s' e) h = record { bounded = h.bounded; once = h.once }

    pub Steps-IsLoop :
        (s t : Loop o alg Db Storage)
        → Steps o alg Db Storage badger proto memory gob s t
        → IsLoop s
        → IsLoop t
    Steps-IsLoop s t (stay u) h = h
    Steps-IsLoop s t (step {t = u} first rest) h = Steps-IsLoop u t rest (Step-IsLoop s u first h)

    -- Whatever the interleaving of the event loop, the callers of ProposeAdd, the goroutines and Stop,
    -- from a new node on: proposeC never holds more than 128 proposals, and each proposal that was sent
    -- stands at exactly one place, in the channel, with a goroutine, or answered, so none is lost
    -- and none is answered twice.
    pub Steps-new_loop-IsLoop :
        (id : ℕ) (e : Engine o alg) (st : BadgerStore Db) (storage : Storage)
        (s : Loop o alg Db Storage)
        → Steps o alg Db Storage badger proto memory gob
            (new_loop o alg Db Storage id e st storage)
            s
        → IsLoop s
    Steps-new_loop-IsLoop id e st storage s steps =
        Steps-IsLoop _ s steps (new_loop-IsLoop id e st storage)

    -- The Readys that the loop received, in order.
    unfoldable pub received :
        {s t : Loop o alg Db Storage}
        → Steps o alg Db Storage badger proto memory gob s t
        → List (List Entry × List Entry)
    received (stay u) = []
    received (step (send s b room) rest) = received rest
    received (step (take s p queue live e) rest) = received rest
    received (step (answer s before after p r e) rest) = received rest
    received (step (receive s rd n live e) rest) = rd ∷ received rest
    received (step (stop s e) rest) = received rest
    received (step (leave s e) rest) = received rest

    -- Whatever the interleaving: the node's own state is what `run` makes of the Readys that the loop
    -- received, in their order.
    pub run-received :
        (s t : Loop o alg Db Storage) (steps : Steps o alg Db Storage badger proto memory gob s t)
        → run o alg Db Storage badger proto memory gob (received steps) s.raft ≡ done t.raft
    unfolding run received
    run-received s t (stay u) = refl
    run-received s t (step (send s' b room) rest) = run-received _ t rest
    run-received s t (step (take s' p queue live e) rest) = run-received _ t rest
    run-received s t (step (answer s' before after p r e) rest) = run-received _ t rest
    run-received s t (step (receive s' rd n live e) rest) = rw (e, run) (run-received _ t rest)
    run-received s t (step (stop s' e) rest) = run-received _ t rest
    run-received s t (step (leave s' e) rest) = run-received _ t rest

    -- Whatever the interleaving, from a sound engine on: the engine, the store and the applied index
    -- are those that applying the committed entries of the received Readys one after another leaves.
    pub Steps-apply_entries :
        {law : IsLawful o alg} (s t : Loop o alg Db Storage)
        (steps : Steps o alg Db Storage badger proto memory gob s t)
        → IsProto proto
        → IsSound law s.raft.engine
        → (m : Node o alg Db Storage) × (apply_entries o alg Db Storage badger proto
              (committed (received steps))
              s.raft
            ≡ done m)
          × Agrees t.raft m
    Steps-apply_entries {law} s t steps is_proto sound =
        let (n', m, ran, applied, same) =
          run-apply_entries badger proto memory gob {law = law} (received steps) s.raft is_proto
            sound in
        let here : n' ≡ t.raft = cc (ran, run-received s t steps) in
        (m, applied, subst (λ n. Agrees n m) here same)
