-- ===== src/Orchestrator/Engine.antt =====
-- crates/orchestrator/src/engine.rs: the proving loop. A step of the engine takes the external world
-- and the events sent so far, and gives back both, with how it ended.
pub mod Events
pub mod Turns
pub mod Disputes
pub mod Runs
pub mod Ends
use open_zk.Common.{
  ℕ, zero, suc, ◌<◌, Bool, true, false, Option, none, some, List, [], ◌∷◌, ◌++◌, length, ltb, Text,
  if◌then◌else◌,
}
use open_zk.Common.Outcome.{Result, ok, err, Outcome, returned, panicked, out_of_fuel}
use open_zk.Common.Words.{Profile}
use open_zk.Core.{ProofMode, beacon, sentinel, ProofArtifact, ProofRequest}
use open_zk.Orchestrator.Intent.{ResolvedIntent}
use open_zk.Orchestrator.Monitor.{ChainState, ChainMonitor, DisputeInfo, pending_range}
use open_zk.Orchestrator.Dispatcher.{ProofDispatcher, ProofJobHandle}
use open_zk.Orchestrator.Planner.{plan_range}

pub record EngineConfig : Type 0 where
  pub intent : ResolvedIntent
  pub poll_interval : ℕ
  pub max_concurrent_proofs : ℕ

pub data EngineEvent : Type 0 where
  range_detected : ℕ → ℕ → EngineEvent
  proof_started proof_completed proof_submitted : ℕ → ℕ → EngineEvent
  aggregation_started : ℕ → EngineEvent
  aggregation_completed : ℕ → ℕ → EngineEvent
  dispute_detected dispute_resolved : ℕ → ℕ → EngineEvent
  error : Text → EngineEvent

pub data EngineError : Type 0 where
  monitor dispatch : Text → EngineError

-- The world, and what went into the event channel, oldest first.
pub record Run (W : Type 0) : Type 0 where
  pub world : W
  pub events : List EngineEvent

abbrev pub Step : Type 0 → Type 0 → Type 0
Step W A = Run W → Outcome (Result EngineError A) × Run W

module _ {W A B : Type 0} where
  abbrev pub continue : Outcome (Result EngineError A) → (A → Step W B) → Step W B
  continue (returned (ok a)) f r = f a r
  continue (returned (err e)) f r = (returned (err e), r)
  continue panicked f r = (panicked, r)
  continue out_of_fuel f r = (out_of_fuel, r)

  infixl 5 ◌>>=◌
  abbrev pub ◌>>=◌ : Step W A → (A → Step W B) → Step W B
  ◌>>=◌ m f r = let (o, r') = m r in continue o f r'

-- `.map_err(...)?` on what an async call gave.
abbrev pub raised : {A : Type 0} → (Text → EngineError) → Result Text A → Result EngineError A
raised kind (ok a) = ok a
raised kind (err e) = err (kind e)

module _ {W A : Type 0} where
  abbrev pub pure : A → Step W A
  pure a r = (returned (ok a), r)

  abbrev pub call : (Text → EngineError) → (W → Result Text A × W) → Step W A
  call kind f r = let (a, w) = f r.world in (returned (raised kind a), record r { world = w })

  abbrev pub lift : Outcome A → Step W A
  lift (returned a) r = (returned (ok a), r)
  lift panicked r = (panicked, r)
  lift out_of_fuel r = (out_of_fuel, r)

  infixl 5 ◌>>◌
  abbrev pub ◌>>◌ : Step W (Unit {0}) → Step W A → Step W A
  m >> k = m >>= λ _. k

-- `self.event_tx.send(event)`
abbrev pub send : {W : Type 0} → EngineEvent → Step W (Unit {0})
send e r = (returned (ok tt), record r { events = r.events ++ e ∷ [] })

abbrev pub raised_range :
    Outcome (Result Text (Option (ℕ × ℕ))) → Outcome (Result EngineError (Option (ℕ × ℕ)))
raised_range (returned a) = returned (raised monitor a)
raised_range panicked = panicked
raised_range out_of_fuel = out_of_fuel

module _ {W : Type 0} (dispatcher : ProofDispatcher W) where
  -- The two calls that have one request proved.
  unfoldable pub prove : ProofRequest → Step W ProofArtifact
  prove request = do
    handle ← call dispatch (dispatcher.submit request)
    call dispatch (dispatcher.wait handle)

  -- The `for` loop of the beacon mode, which collects the proofs.
  unfoldable pub prove_ranges : List ProofRequest → Step W (List ProofArtifact)
  prove_ranges [] = pure []
  prove_ranges (request ∷ requests) = do
    send (proof_started request.l2_start_block request.l2_end_block)
    proof ← prove request
    send (proof_completed request.l2_start_block request.l2_end_block)
    proofs ← prove_ranges requests
    pure (proof ∷ proofs)

  unfoldable pub aggregate : ℕ → ℕ → List ProofArtifact → Step W (Unit {0})
  aggregate start end range_proofs =
      if ltb 1 (length range_proofs)
      then (do
        send (aggregation_started (length range_proofs))
        handle ← call dispatch (dispatcher.submit_aggregation range_proofs)
        proof ← call dispatch (dispatcher.wait handle)
        send (aggregation_completed start end))
      else pure tt

  -- The `for` loop of the sentinel mode.
  unfoldable pub prove_dispute : List ProofRequest → Step W (Unit {0})
  prove_dispute [] = pure tt
  prove_dispute (request ∷ requests) = do proof ← prove request; prove_dispute requests

-- `fuel` bounds the rounds of one call of `plan_range`.
module _ {W : Type 0} (p : Profile) (fuel : ℕ) (intent : ResolvedIntent) (watch : ChainMonitor W)
    (dispatcher : ProofDispatcher W) where
  -- `self.monitor.pending_range().await` and its `?`
  unfoldable pub pending : Step W (Option (ℕ × ℕ))
  pending r = let (o, w) = pending_range p watch r.world in (raised_range o, record r { world = w })

  -- The `match range` of the beacon mode.
  unfoldable pub beacon_range : Option (ℕ × ℕ) → Step W (Unit {0})
  beacon_range none = pure tt
  beacon_range (some (start, end)) = do
    send (range_detected start end)
    state ← call monitor watch.get_state
    requests ← lift (plan_range p fuel intent start end state)
    range_proofs ← prove_ranges dispatcher requests
    aggregate dispatcher start end range_proofs

  -- One turn of `run_beacon_loop`, up to the sleep.
  unfoldable pub beacon_turn : Step W (Unit {0})
  unfolding pending beacon_range
  beacon_turn = do range ← pending; beacon_range range

  -- The `if let Some(dispute)` of the sentinel mode.
  unfoldable pub sentinel_dispute : Option DisputeInfo → Step W (Unit {0})
  sentinel_dispute none = pure tt
  sentinel_dispute (some dispute) = do
    send (dispute_detected dispute.start_block dispute.end_block)
    state ← call monitor watch.get_state
    requests ← lift (plan_range p fuel intent dispute.start_block dispute.end_block state)
    prove_dispute dispatcher requests
    send (dispute_resolved dispute.start_block dispute.end_block)

  -- One turn of `run_sentinel_loop`, up to the sleep.
  unfoldable pub sentinel_turn : Step W (Unit {0})
  unfolding sentinel_dispute
  sentinel_turn r =
      let (dispute, w) = watch.active_dispute r.world in
      sentinel_dispute dispute (record r { world = w })

-- `loop { turn; sleep }`, which is left by `?` alone; `turns` bounds the turns that are looked at,
-- and `sleep` is what the world does meanwhile.
module _ {W : Type 0} (sleep : ℕ → W → W) (poll_interval : ℕ) where
  unfoldable pub pause : Step W (Unit {0})
  pause r = (returned (ok tt), record r { world = sleep poll_interval r.world })

  unfoldable pub forever : ℕ → Step W (Unit {0}) → Step W (Unit {0})
  unfolding pause
  forever zero turn = λ r. (out_of_fuel, r)
  forever (suc turns) turn = do turn; pause; forever turns turn

module _ {W : Type 0} (p : Profile) (fuel : ℕ) (config : EngineConfig) (watch : ChainMonitor W)
    (dispatcher : ProofDispatcher W) (sleep : ℕ → W → W) (turns : ℕ) where
  -- The `match` of `OrchestrationEngine::run`.
  unfoldable pub run_mode : ProofMode → Step W (Unit {0})
  unfolding forever beacon_turn sentinel_turn
  run_mode beacon =
      forever sleep config.poll_interval turns (beacon_turn p fuel config.intent watch dispatcher)
  run_mode sentinel =
      forever sleep config.poll_interval turns (sentinel_turn p fuel config.intent watch dispatcher)

  -- `OrchestrationEngine::run`
  unfoldable pub run : Step W (Unit {0})
  unfolding run_mode
  run = run_mode config.intent.proof_mode
