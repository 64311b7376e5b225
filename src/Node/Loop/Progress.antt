-- ===== src/Node/Loop/Progress.antt =====
-- internal/raft/node.go: which proposals can still be answered, and which never are.
use time_series_cardinality.Base.{
  ℕ, ◌≤◌, ◌<◌, ◌≡◌, refl, ◌∙◌, ap, true, Option, List, [], ◌∷◌, ◌++◌, arith,
}
use time_series_cardinality.Errors.{Error}
use time_series_cardinality.Sketch.{SketchOps, Algorithm}
use time_series_cardinality.Engine.{Engine, Gob}
use time_series_cardinality.Store.{Badger, BadgerStore}
use time_series_cardinality.Node.{Proto, MemoryStorage}
use time_series_cardinality.Node.Loop.{
  Propose, Loop, new_loop, exited, selects, Step, send, take, answer, receive, stop, leave, Steps,
  stay, step,
}
use time_series_cardinality.Node.Loop.Conserved.{
  queued, answered, queued-append, new_loop-IsLoop, Steps-IsLoop,
}

module _ {o : SketchOps} {alg : Algorithm o} {Db Storage : Type 0} (badger : Badger Db)
    (proto : Proto) (memory : MemoryStorage Storage) (gob : Gob) where
  abbrev To : Loop o alg Db Storage → Loop o alg Db Storage → Type 0
  To = Steps o alg Db Storage badger proto memory gob

  -- The loop can take what stands before a proposal, and then that proposal.
  taken :
      (before after : List Propose) (p : Propose) (s : Loop o alg Db Storage)
      → selects s.phase ≡ true
      → s.queue ≡ before ++ p ∷ after
      → (t : Loop o alg Db Storage) × To s t
        × (flying : List Propose) × (t.in_flight ≡ flying ++ p ∷ [])
        × (t.answers ≡ s.answers)
  taken [] after p s live e = (
    record s { queue = after; in_flight = s.in_flight ++ p ∷ [] },
    step (take s p after live e) (stay _),
    s.in_flight,
    refl,
    refl,
  )
  taken (q ∷ before) after p s live e =
      let u : Loop o alg Db Storage = record s {
        queue = before ++ p ∷ after;
        in_flight = s.in_flight ++ q ∷ [];
      } in
      let (t, steps, flying, there, same) = taken before after p u live refl in
      (t, step (take s q (before ++ p ∷ after) live e) steps, flying, there, same)

  -- While Run has not returned, every proposal in proposeC can still be taken and answered, with
  -- whatever etcd's Propose returns for it: some interleaving ends with that answer.
  pub queued-answer :
      (before after : List Propose) (p : Propose) (s : Loop o alg Db Storage) (r : Option Error)
      → selects s.phase ≡ true
      → s.queue ≡ before ++ p ∷ after
      → (t : Loop o alg Db Storage) × To s t × (t.answers ≡ (p.ticket, r) ∷ s.answers)
  queued-answer before after p s r live e =
      let (t, steps, flying, there, same) = taken before after p s live e in
      (
        record t { in_flight = flying ++ []; answers = (p.ticket, r) ∷ t.answers },
        followed s t _ steps (step (answer t flying [] p r there) (stay _)),
        ap (λ l. (p.ticket, r) ∷ l) same,
      )
    where
      followed : (s t u : Loop o alg Db Storage) → To s t → To t u → To s u
      followed s t u (stay v) more = more
      followed s t u (step {t = v} first rest) more = step first (followed v t u rest more)

  Step-exited :
      (t : ℕ) (s u : Loop o alg Db Storage)
      → Step o alg Db Storage badger proto memory gob s u
      → s.phase ≡ exited
      → queued t s.in_flight ≡ 0
      → (u.phase ≡ exited)
        × (queued t u.in_flight ≡ 0)
        × (answered t u.answers ≡ answered t s.answers)
        × (queued t s.queue ≤ queued t u.queue)
  unfolding queued answered selects
  Step-exited t s u (send s' b room) e none_there = (
    e,
    none_there,
    refl,
    omega (arith, queued-append t s'.queue (record { bytes = b; ticket = s'.issued } ∷ [])),
  )
  Step-exited t s u (take s' p rest live q) e none_there = cc (ap selects e, live)
  Step-exited t s u (answer s' before after p r q) e none_there =
      let here = ap (queued t) q ∙ queued-append t before (p ∷ after) in
      let gone = queued-append t before after in
      (e, ground (arith, here, gone, none_there), ground (arith, here, none_there), omega arith)
  Step-exited t s u (receive s' rd n live q) e none_there = cc (ap selects e, live)
  Step-exited t s u (stop s' q) e none_there = cc (e, q)
  Step-exited t s u (leave s' q) e none_there = (refl, none_there, refl, omega arith)

  Steps-exited :
      (t : ℕ) (s u : Loop o alg Db Storage)
      → To s u
      → s.phase ≡ exited
      → queued t s.in_flight ≡ 0
      → (answered t u.answers ≡ answered t s.answers) × (queued t s.queue ≤ queued t u.queue)
  Steps-exited t s u (stay v) e none_there = (refl, omega arith)
  Steps-exited t s u (step {t = v} first rest) e none_there =
      let (e', none_there', same, more) = Step-exited t s v first e none_there in
      let (same', more') = Steps-exited t v u rest e' none_there' in (same' ∙ same, omega arith)

  -- Once Run has returned, a proposal that is still in proposeC, sent before or after that, stays
  -- there and is never answered, whatever happens next: ProposeAdd then returns only when its
  -- context ends.
  pub exited-answered :
      (t id : ℕ) (e : Engine o alg) (st : BadgerStore Db) (storage : Storage)
      (s u : Loop o alg Db Storage)
      → To (new_loop o alg Db Storage id e st storage) s
      → s.phase ≡ exited
      → 0 < queued t s.queue
      → To s u
      → (queued t u.queue ≡ 1) × (answered t u.answers ≡ 0)
  exited-answered t id e st storage s u before left waits after =
      let h = Steps-IsLoop badger proto memory gob _ s before (new_loop-IsLoop id e st storage) in
      let k = Steps-IsLoop badger proto memory gob s u after h in
      let (same, more) = Steps-exited t s u after left (ground (arith, h.once t)) in
      (ground (arith, k.once t), ground (arith, h.once t))
