-- ===== src/Orchestrator/Engine/Ends.antt =====
-- How the engine stops, where the blocks that the monitor names leave room for the planner.
use open_zk.Common.{ℕ, ◌+◌, ◌-◌, ◌≤◌, ◌<◌, ◌≡◌, ◌⊎◌, some}
use open_zk.Common.Outcome.{Result, ok, err, Outcome, returned, out_of_fuel}
use open_zk.Common.Words.{Profile, u64_mod}
use open_zk.Orchestrator.Intent.{ResolvedIntent}
use open_zk.Orchestrator.Monitor.{ChainState, ChainMonitor, DisputeInfo}
use open_zk.Orchestrator.Engine.{EngineError}
use open_zk.Orchestrator.Engine.Disputes

-- The safe block of every state, and the blocks of every dispute, are a window below 2 ^ 64 and have
-- enough rounds.
pub record HasRoom {W : Type 0} (fuel : ℕ) (intent : ResolvedIntent) (watch : ChainMonitor W)
    : Type 0 where
  pub positive : 0 < intent.aggregation_window
  pub states :
      (w : W) (state : ChainState)
      → (watch.get_state w).0 ≡ ok state
      → (state.l2_safe_block + intent.aggregation_window < u64_mod) × (state.l2_safe_block ≤ fuel)
  pub disputes :
      (w : W) (d : DisputeInfo)
      → (watch.active_dispute w).0 ≡ some d
      → (d.start_block ≤ d.end_block + 1)
        × (d.end_block + intent.aggregation_window < u64_mod)
        × (d.end_block < fuel)

abbrev Returns : {A : Type 0} → Outcome A → Type 0
Returns o = (x : _) × (o ≡ returned x)

module _ {W : Type 0} (p : Profile) (fuel : ℕ) (intent : ResolvedIntent) (watch : ChainMonitor W)
    (room : HasRoom fuel intent watch) where
  -- A range that the planner has room for.
  abbrev FitsPlan : ℕ → ℕ → Type 0
  FitsPlan start end =
      (start ≤ end + 1) × (end + intent.aggregation_window < u64_mod) × (end + 1 - start ≤ fuel)

-- All the turns were made, or an error was returned.
abbrev pub KeepsOn : Outcome (Result EngineError (Unit {0})) → Type 0
KeepsOn o = (o ≡ out_of_fuel) ⊎ ((e : EngineError) × (o ≡ returned (err e)))
