-- ===== src/Cli/Serve/Silent.antt =====
-- What the engine of `open-zk serve` sends, with either monitor.
use open_zk.Common.{ℕ, zero, suc, ◌≡◌, refl, ◌∙◌, Bool, true, false, Option, none, some, Text}
use open_zk.Common.Outcome.{Result, ok, err, Outcome, returned, panicked, out_of_fuel}
use open_zk.Common.Words.{Profile}
use open_zk.Core.{Bytes, ProofMode, beacon, sentinel}
use open_zk.Orchestrator.Intent.{ResolvedIntent}
use open_zk.Orchestrator.Monitor.{
  ChainMonitor, mock_monitor, default_state, pending_range, range_of_state,
}
use open_zk.Orchestrator.RpcMonitor.Skeleton.{skeleton_monitor}
use open_zk.Orchestrator.Dispatcher.{mock_dispatcher}
use open_zk.Orchestrator.Engine.{
  EngineConfig, EngineError, Run, Step, continue, forever, pending, beacon_range, beacon_turn,
  sentinel_turn, sentinel_dispute, run_mode, run,
}
use open_zk.Cli.Halt.{Halt}
use open_zk.Cli.Serve.{engine_config, choose_monitor, serve_engine}
use mathlib.Core.Path.{subst}

-- The turn sends nothing.
abbrev IsSilent : {W : Type 0} → Step W (Unit {0}) → Type 0
IsSilent turn = (r : Run _) → (turn r).1.events ≡ r.events

continue-IsSilent :
    {W : Type 0} (k : Step W (Unit {0}))
    → IsSilent k
    → (x : Outcome (Result EngineError (Unit {0})) × Run W)
    → (continue x.0 (λ _. k) x.1).1.events ≡ x.1.events
continue-IsSilent k silent (returned (ok tt), r) = silent r
continue-IsSilent k silent (returned (err e), r) = refl
continue-IsSilent k silent (panicked, r) = refl
continue-IsSilent k silent (out_of_fuel, r) = refl

forever-IsSilent :
    {W : Type 0} (sleep : ℕ → W → W) (poll_interval : ℕ) (turn : Step W (Unit {0}))
    → IsSilent turn
    → (turns : ℕ) → IsSilent (forever sleep poll_interval turns turn)
unfolding forever
forever-IsSilent sleep poll_interval turn silent zero r = refl
forever-IsSilent sleep poll_interval turn silent (suc turns) r =
    continue-IsSilent _
      (λ r'.
        forever-IsSilent sleep poll_interval turn silent turns
          (record r' { world = sleep poll_interval r'.world }))
      (turn r)
    ∙ silent r

module _ {W : Type 0} (p : Profile) (fuel : ℕ) (sleep : ℕ → W → W) (turns : ℕ)
    (config : EngineConfig) where
  mock_monitor-IsSilent :
      (now : ℕ) (mode : ProofMode)
      → IsSilent (
          run_mode p fuel config
            (mock_monitor (default_state now))
            mock_dispatcher
            sleep
            turns
            mode)
  unfolding run_mode beacon_turn pending beacon_range sentinel_turn sentinel_dispute mock_monitor
      pending_range range_of_state
  mock_monitor-IsSilent now beacon = forever-IsSilent sleep config.poll_interval _ (λ r. refl) turns
  mock_monitor-IsSilent now sentinel =
      forever-IsSilent sleep config.poll_interval _ (λ r. refl) turns

  skeleton_monitor-IsSilent :
      (mode : ProofMode)
      → IsSilent (run_mode p fuel config skeleton_monitor mock_dispatcher sleep turns mode)
  unfolding run_mode beacon_turn pending beacon_range sentinel_turn sentinel_dispute
      skeleton_monitor pending_range
  skeleton_monitor-IsSilent beacon = forever-IsSilent sleep config.poll_interval _ (λ r. refl) turns
  skeleton_monitor-IsSilent sentinel =
      forever-IsSilent sleep config.poll_interval _ (λ r. refl) turns

  abbrev Served : Result Halt (ChainMonitor W) × W → Type 0
  Served (ok watch, v) = IsSilent (serve_engine p fuel sleep turns config watch)
  Served (err e, v) = Unit

  address-Served :
      (parsed : Result Text Bytes) (parse_address : Text → Result Text Bytes) (now : W → ℕ)
      (oracle_address : Text) (w : W)
      → parse_address oracle_address ≡ parsed
      → Served (choose_monitor parse_address now false (some oracle_address) w)
  unfolding choose_monitor serve_engine run
  address-Served (ok a) parse_address now oracle_address w e =
      rw e (skeleton_monitor-IsSilent config.intent.proof_mode)
  address-Served (err m) parse_address now oracle_address w e = rw e tt

  chosen-Served :
      (parse_address : Text → Result Text Bytes) (now : W → ℕ) (mock_mode : Bool)
      (oracle_address : Option Text) (w : W)
      → Served (choose_monitor parse_address now mock_mode oracle_address w)
  unfolding choose_monitor serve_engine run
  chosen-Served parse_address now true oracle_address w =
      mock_monitor-IsSilent (now w) config.intent.proof_mode
  chosen-Served parse_address now false none w =
      mock_monitor-IsSilent (now w) config.intent.proof_mode
  chosen-Served parse_address now false (some oracle_address) w =
      address-Served (parse_address oracle_address) parse_address now oracle_address w refl

-- In each mode, with or without the address of an oracle, and over any number of turns, the engine
-- that the command runs with the monitor that it chose sends no event.
pub serve_engine_silent :
    {W : Type 0} (p : Profile) (fuel : ℕ) (sleep : ℕ → W → W) (turns : ℕ) (intent : ResolvedIntent)
    (poll_interval : ℕ) (parse_address : Text → Result Text Bytes) (now : W → ℕ) (mock_mode : Bool)
    (oracle_address : Option Text) (w v : W) (watch : ChainMonitor W) (r : Run W)
    → choose_monitor parse_address now mock_mode oracle_address w ≡ (ok watch, v)
    → (serve_engine p fuel sleep turns (engine_config intent poll_interval) watch r).1.events
      ≡ r.events
serve_engine_silent p fuel sleep turns intent poll_interval parse_address now mock_mode
      oracle_address w v watch r chosen =
    subst (λ x. Served p fuel sleep turns (engine_config intent poll_interval) x) chosen
      (chosen-Served p fuel sleep turns (engine_config intent poll_interval) parse_address now
        mock_mode oracle_address w)
      r
