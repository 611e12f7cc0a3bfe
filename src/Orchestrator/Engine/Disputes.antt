-- ===== src/Orchestrator/Engine/Disputes.antt =====
-- One turn of the sentinel loop: how it can end, and what it has sent by then.
use open_zk.Common.{
  ℕ, ◌≡◌, ◌⊎◌, inl, inr, refl, sym, ap, Option, none, some, List, [], ◌∷◌, ◌++◌, Text,
}
use open_zk.Common.Outcome.{Result, ok, err, Outcome, returned, panicked, out_of_fuel}
use open_zk.Common.Words.{Profile}
use open_zk.Core.{ProofArtifact, ProofRequest}
use open_zk.Orchestrator.Intent.{ResolvedIntent}
use open_zk.Orchestrator.Monitor.{ChainMonitor, ChainState, DisputeInfo}
use open_zk.Orchestrator.Dispatcher.{ProofDispatcher}
use open_zk.Orchestrator.Planner.{plan_range}
use open_zk.Orchestrator.Engine.{
  EngineEvent, dispute_detected, dispute_resolved, EngineError, monitor, dispatch, Run, ◌>>=◌, ◌>>◌,
  lift, send, prove, prove_dispute, sentinel_dispute, sentinel_turn,
}
use open_zk.Orchestrator.Engine.Events.{Dispatched, Refused, bind_assoc, call_rule, prove_rule}
use mathlib.Core.Path.{subst}
use open_zk.Orchestrator.Engine.Turns.{Planned}

module _ {W : Type 0} (dispatcher : ProofDispatcher W) where
  -- Each request is proved by the dispatcher, one behind the other, from a world to a world.
  abbrev pub ProvedFrom : List ProofRequest → W → W → Type 0
  ProvedFrom [] w v = w ≡ v
  ProvedFrom (request ∷ requests) w v =
      (proof : ProofArtifact) × (u : W) × Dispatched dispatcher request w proof u
      × ProvedFrom requests u v

  -- The dispatcher fails on one of the requests, behind the proofs of those before it.
  abbrev pub FailsFrom : List ProofRequest → W → Text → Type 0
  FailsFrom [] w m = ⊥
  FailsFrom (request ∷ requests) w m =
      ((v : W) × Refused dispatcher request w m v)
      ⊎ ((proof : ProofArtifact) × (u : W) × Dispatched dispatcher request w proof u
          × FailsFrom requests u m)

module _ {W : Type 0} (p : Profile) (fuel : ℕ) (intent : ResolvedIntent) (watch : ChainMonitor W)
    (dispatcher : ProofDispatcher W) where
  -- The monitor reports this dispute, or none, in some world.
  abbrev pub Reports : Option DisputeInfo → Type 0
  Reports d = (w : W) × ((watch.active_dispute w).0 ≡ d)

  -- The dispute was reported, and announced; nothing else has been sent.
  abbrev pub Announced : DisputeInfo → List EngineEvent → List EngineEvent → Type 0
  Announced d before after =
      Reports (some d) × (after ≡ before ++ dispute_detected d.start_block d.end_block ∷ [])

  -- The plan for a range, of the state that the monitor gives with a world behind it.
  abbrev pub PlannedBefore : ℕ → ℕ → List ProofRequest → W → Type 0
  PlannedBefore start end requests behind =
      (state : ChainState) × (u : W) × (watch.get_state u ≡ (ok state, behind))
      × (plan_range p fuel intent start end state ≡ returned requests)

  -- How a turn of the sentinel loop ends, by the events before it and after it.
  pub data SentinelEnd (before after : List EngineEvent)
      : Outcome (Result EngineError (Unit {0})) → Type 0 where
    quiet : Reports none → after ≡ before → SentinelEnd before after (returned (ok tt))
    state_fails :
        (d : DisputeInfo) (m : Text)
        → Announced d before after
        → SentinelEnd before after (returned (err (monitor m)))
    plan_panics :
        (d : DisputeInfo)
        → Announced d before after
        → Planned p fuel intent watch d.start_block d.end_block panicked
        → SentinelEnd before after panicked
    plan_loops :
        (d : DisputeInfo)
        → Announced d before after
        → Planned p fuel intent watch d.start_block d.end_block out_of_fuel
        → SentinelEnd before after out_of_fuel
    proof_fails :
        (d : DisputeInfo) (requests : List ProofRequest) (behind : W) (m : Text)
        → Announced d before after
        → PlannedBefore d.start_block d.end_block requests behind
        → FailsFrom dispatcher requests behind m
        → SentinelEnd before after (returned (err (dispatch m)))
    resolved :
        (d : DisputeInfo) (requests : List ProofRequest) (behind v : W)
        (announced : List EngineEvent)
        → Announced d before announced
        → PlannedBefore d.start_block d.end_block requests behind
        → ProvedFrom dispatcher requests behind v
        → after ≡ announced ++ dispute_resolved d.start_block d.end_block ∷ []
        → SentinelEnd before after (returned (ok tt))

module _ {W : Type 0} (p : Profile) (fuel : ℕ) (intent : ResolvedIntent) (watch : ChainMonitor W)
    (dispatcher : ProofDispatcher W) (before : List EngineEvent) where
  abbrev Ends : Outcome (Result EngineError (Unit {0})) × Run W → Type 0
  Ends (o, r) = SentinelEnd p fuel intent watch dispatcher before r.events o

  module _ (d : DisputeInfo) where
    -- Proving the requests sends nothing, so what was announced stands until all are proved. What is
    -- proved or fails of the requests that are left is so of them all.
    module _ (requests : List ProofRequest) (behind : W)
        (planned : PlannedBefore p fuel intent watch dispatcher d.start_block d.end_block requests
          behind) where
      proving-Ends :
          (left : List ProofRequest) (r : Run W)
          → Announced p fuel intent watch dispatcher d before r.events
          → ((v : W)
              → ProvedFrom dispatcher left r.world v
              → ProvedFrom dispatcher requests behind v)
          → ((m : Text)
              → FailsFrom dispatcher left r.world m
              → FailsFrom dispatcher requests behind m)
          → Ends (
              (prove_dispute dispatcher left >> send (dispute_resolved d.start_block d.end_block))
                r)
      unfolding prove_dispute
      proving-Ends [] r announced all none_of =
          resolved d requests behind r.world r.events announced planned (all r.world refl) refl
      proving-Ends (request ∷ left) r announced all none_of =
          subst Ends (sym (bind_assoc _ _ (prove dispatcher request) r)) (
            prove_rule dispatcher request _ Ends r
              (λ proof w dispatched.
                proving-Ends left (record r { world = w }) announced
                  (λ v proved. all v (proof, w, dispatched, proved))
                  (λ m fails. none_of m (inr (proof, w, dispatched, fails))))
              (λ m w refused.
                proof_fails d requests behind m announced planned (none_of m (inl (w, refused)))))

    plan-Ends :
        (state : ChainState) (u : W) (plan : Outcome (List ProofRequest)) (r : Run W)
        → watch.get_state u ≡ (ok state, r.world)
        → plan_range p fuel intent d.start_block d.end_block state ≡ plan
        → Announced p fuel intent watch dispatcher d before r.events
        → Ends (
            (lift plan >>= λ requests.
            prove_dispute dispatcher requests >> send (dispute_resolved d.start_block d.end_block))
              r)
    plan-Ends state u (returned requests) r seen planned announced =
        proving-Ends requests r.world (state, u, seen, planned) requests r announced
          (λ v proved. proved) (λ m fails. fails)
    plan-Ends state u panicked r seen planned announced =
        plan_panics d announced
          (state, (u, ap (λ (x : Result Text ChainState × W). x.0) seen), planned)
    plan-Ends state u out_of_fuel r seen planned announced =
        plan_loops d announced
          (state, (u, ap (λ (x : Result Text ChainState × W). x.0) seen), planned)

  dispute-Ends :
      (x : Option DisputeInfo × W) (r : Run W)
      → watch.active_dispute r.world ≡ x
      → r.events ≡ before
      → Ends (sentinel_dispute p fuel intent watch dispatcher x.0 (record r { world = x.1 }))
  unfolding sentinel_dispute
  dispute-Ends (none, w) r e sent = quiet (r.world, ap (λ (x : Option DisputeInfo × W). x.0) e) sent
  dispute-Ends (some d, w) r e sent =
      let announced : Announced p fuel intent watch dispatcher d before
          (r.events ++ dispute_detected d.start_block d.end_block ∷ []) =
        (
          (r.world, ap (λ (x : Option DisputeInfo × W). x.0) e),
          ap (λ (t : List EngineEvent). t ++ dispute_detected d.start_block d.end_block ∷ []) sent,
        ) in
      call_rule monitor watch.get_state _ Ends _
        (λ state w' seen.
          plan-Ends d state w (plan_range p fuel intent d.start_block d.end_block state) _ seen refl
            announced)
        (λ m w'. state_fails d m announced)

-- A turn of the sentinel loop ends in one of these ways. Without a dispute nothing is sent. A dispute
-- is announced, and reported resolved only where the state was read, a plan was made of it, and the
-- dispatcher proved each request of the plan, one behind the other. An error of the dispatcher is on one
-- of these requests, behind the proofs of those before it. On any failure the announcement is all that
-- was sent.
pub sentinel_turn_ends :
    {W : Type 0} (p : Profile) (fuel : ℕ) (intent : ResolvedIntent) (watch : ChainMonitor W)
    (dispatcher : ProofDispatcher W) (r : Run W)
    → let (o, r') = sentinel_turn p fuel intent watch dispatcher r in
      SentinelEnd p fuel intent watch dispatcher r.events r'.events o
unfolding sentinel_turn
sentinel_turn_ends p fuel intent watch dispatcher r =
    dispute-Ends p fuel intent watch dispatcher r.events (watch.active_dispute r.world) r refl refl
