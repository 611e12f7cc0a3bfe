-- ===== src/Orchestrator/Engine/Runs.antt =====
-- Whole runs of the engine, over any number of turns of either loop.
use open_zk.Common.{
  ℕ, zero, suc, ◌≡◌, refl, sym, ◌∙◌, ap, inl, inr, Bool-cases, List, [], ◌∷◌, ◌++◌, length, ltb,
  All, All-append,
}
use open_zk.Common.Outcome.{Result, ok, err, Outcome, returned, panicked, out_of_fuel}
use open_zk.Common.Words.{Profile}
use open_zk.Core.{ProofMode, beacon, sentinel, ProofRequest}
use open_zk.Orchestrator.Intent.{ResolvedIntent}
use open_zk.Orchestrator.Monitor.{ChainMonitor}
use open_zk.Orchestrator.Dispatcher.{ProofDispatcher}
use open_zk.Orchestrator.Engine.{
  EngineConfig, EngineEvent, EngineError, Run, Step, continue, forever, run_mode, run,
  range_detected, proof_submitted, error, dispute_detected, dispute_resolved,
}
use open_zk.Orchestrator.Engine.Events.{transcript, StoppedAt}
use open_zk.Orchestrator.Engine.Turns.{
  aggregation, BeaconEnd, idle, range_fails, range_panics, range_loops, state_fails, plan_panics,
  plan_loops, proof_fails, aggregation_fails, range_proved, beacon_turn_ends,
}
use open_zk.Orchestrator.Engine.Disputes
use open_zk.Orchestrator.Engine.Disputes.{SentinelEnd, sentinel_turn_ends}
use mathlib.Core.List.{append-nil, append_assoc}

-- Any event but a submission and an error.
abbrev pub IsOwn : EngineEvent → Type 0
IsOwn (proof_submitted s e) = ⊥
IsOwn (error m) = ⊥
IsOwn _ = Unit

-- The events before are kept, and only such events come after them.
abbrev pub Extends : List EngineEvent → List EngineEvent → Type 0
Extends before after = (more : List EngineEvent) × (after ≡ before ++ more) × All IsOwn more

Extends-refl : (before after : List EngineEvent) → after ≡ before → Extends before after
Extends-refl before after e = ([], e ∙ sym (append-nil before), tt)

Extends-trans : (xs ys zs : List EngineEvent) → Extends xs ys → Extends ys zs → Extends xs zs
Extends-trans xs ys zs (m, e, h) (n, f, k) = (
  m ++ n,
  f ∙ ap (λ (t : List EngineEvent). t ++ n) e ∙ append_assoc xs m n,
  All-append IsOwn m n h k,
)

transcript-IsOwn : (requests : List ProofRequest) → All IsOwn (transcript requests)
transcript-IsOwn [] = tt
transcript-IsOwn (r ∷ rs) = (tt, (tt, transcript-IsOwn rs))

aggregation-IsOwn : (start end n : ℕ) → All IsOwn (aggregation start end n)
aggregation-IsOwn start end n = elim (Bool-cases (ltb 1 n)) [
  | inl many ↦ rw many (tt, (tt, tt))
  | inr one ↦ rw one tt
]

range-Extends :
    (start end : ℕ) (before after more : List EngineEvent)
    → after ≡ (before ++ range_detected start end ∷ []) ++ more
    → All IsOwn more
    → Extends before after
range-Extends start end before after more e h =
    (range_detected start end ∷ more, e ∙ append_assoc before _ more, (tt, h))

StoppedAt-Extends :
    (start end : ℕ) (requests : List ProofRequest) (before after : List EngineEvent)
    (e : EngineError)
    → StoppedAt requests (before ++ range_detected start end ∷ []) after e
    → Extends before after
StoppedAt-Extends start end requests before after e h =
    range-Extends start end before after _ h.sent
      (All-append IsOwn (transcript h.done) _ (transcript-IsOwn h.done) (tt, tt))

module _ {W : Type 0} (p : Profile) (fuel : ℕ) (intent : ResolvedIntent) (watch : ChainMonitor W)
    (before after : List EngineEvent) where
  BeaconEnd-Extends :
      {o : Outcome (Result EngineError (Unit {0}))}
      → BeaconEnd p fuel intent watch before after o
      → Extends before after
  BeaconEnd-Extends (idle d e) = Extends-refl before after e
  BeaconEnd-Extends (range_fails m e) = Extends-refl before after e
  BeaconEnd-Extends (range_panics d e) = Extends-refl before after e
  BeaconEnd-Extends (range_loops d e) = Extends-refl before after e
  BeaconEnd-Extends (state_fails s l m h) = range-Extends s l before after [] h.1 tt
  BeaconEnd-Extends (plan_panics s l h d) = range-Extends s l before after [] h.1 tt
  BeaconEnd-Extends (plan_loops s l h d) = range-Extends s l before after [] h.1 tt
  BeaconEnd-Extends (proof_fails s l requests e d q h) =
      StoppedAt-Extends s l requests before after e h
  BeaconEnd-Extends (aggregation_fails s l requests m q many h) =
      range-Extends s l before after _ h.1
        (All-append IsOwn (transcript requests) _ (transcript-IsOwn requests) (tt, tt))
  BeaconEnd-Extends (range_proved s l requests q h) = range-Extends s l before after _ h.1 (
      All-append IsOwn (transcript requests) _ (transcript-IsOwn requests)
        (aggregation-IsOwn s l (length requests)))

module _ {W : Type 0} (p : Profile) (fuel : ℕ) (intent : ResolvedIntent) (watch : ChainMonitor W)
    (dispatcher : ProofDispatcher W) (before after : List EngineEvent) where
  SentinelEnd-Extends :
      {o : Outcome (Result EngineError (Unit {0}))}
      → SentinelEnd p fuel intent watch dispatcher before after o
      → Extends before after
  SentinelEnd-Extends (Disputes.quiet d e) = Extends-refl before after e
  SentinelEnd-Extends (Disputes.state_fails d m h) =
      (dispute_detected d.start_block d.end_block ∷ [], h.1, (tt, tt))
  SentinelEnd-Extends (Disputes.plan_panics d h q) =
      (dispute_detected d.start_block d.end_block ∷ [], h.1, (tt, tt))
  SentinelEnd-Extends (Disputes.plan_loops d h q) =
      (dispute_detected d.start_block d.end_block ∷ [], h.1, (tt, tt))
  SentinelEnd-Extends (Disputes.proof_fails d requests behind m h q fails) =
      (dispute_detected d.start_block d.end_block ∷ [], h.1, (tt, tt))
  SentinelEnd-Extends (Disputes.resolved d requests behind v announced h q proved e) =
      let first = dispute_detected d.start_block d.end_block in
      let last = dispute_resolved d.start_block d.end_block in
      (
        first ∷ last ∷ [],
        e ∙ ap (λ (t : List EngineEvent). t ++ last ∷ []) h.1 ∙ append_assoc before (first ∷ []) _,
        (tt, (tt, tt)),
      )

continue-Extends :
    {W : Type 0} (k : Step W (Unit {0})) (before : List EngineEvent)
    → ((r : Run W) → Extends r.events (k r).1.events)
    → (x : Outcome (Result EngineError (Unit {0})) × Run W) → Extends before x.1.events
    → Extends before (continue x.0 (λ _. k) x.1).1.events
continue-Extends k before step (returned (ok tt), r) h =
    Extends-trans before r.events (k r).1.events h (step r)
continue-Extends k before step (returned (err e), r) h = h
continue-Extends k before step (panicked, r) h = h
continue-Extends k before step (out_of_fuel, r) h = h

module _ {W : Type 0} (sleep : ℕ → W → W) (poll_interval : ℕ) (turn : Step W (Unit {0})) where
  forever-Extends :
      ((r : Run W) → Extends r.events (turn r).1.events)
      → (turns : ℕ) (r : Run W)
      → Extends r.events (forever sleep poll_interval turns turn r).1.events
  unfolding forever
  forever-Extends step zero r = Extends-refl r.events r.events refl
  forever-Extends step (suc turns) r =
      continue-Extends _ r.events
        (λ r'. forever-Extends step turns (record r' { world = sleep poll_interval r'.world }))
        (turn r) (step r)

module _ {W : Type 0} (p : Profile) (fuel : ℕ) (config : EngineConfig) (watch : ChainMonitor W)
    (dispatcher : ProofDispatcher W) (sleep : ℕ → W → W) (turns : ℕ) (r : Run W) where
  run_mode-Extends :
      (mode : ProofMode)
      → Extends r.events (run_mode p fuel config watch dispatcher sleep turns mode r).1.events
  unfolding run_mode
  run_mode-Extends beacon =
      forever-Extends sleep config.poll_interval _
        (λ r'.
          BeaconEnd-Extends p fuel config.intent watch _ _
            (beacon_turn_ends p fuel config.intent watch dispatcher r'))
        turns r
  run_mode-Extends sentinel =
      forever-Extends sleep config.poll_interval _
        (λ r'.
          SentinelEnd-Extends p fuel config.intent watch dispatcher _ _
            (sentinel_turn_ends p fuel config.intent watch dispatcher r'))
        turns r

  -- Over any number of turns, in either mode and however it ends, the engine only adds to the events
  -- that were sent, and adds neither a proof submission nor an error.
  pub run_never_submits :
      Extends r.events (run p fuel config watch dispatcher sleep turns r).1.events
  unfolding run
  run_never_submits = run_mode-Extends config.intent.proof_mode
