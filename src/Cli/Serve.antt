-- ===== src/Cli/Serve.antt =====
-- crates/cli/src/commands/serve.rs: the engine that `open-zk serve` runs, and what it prints of the
-- events. The command is built without the feature `rpc` of the orchestrator, since it gives the
-- monitor two arguments.
pub mod Silent
use open_zk.Common.{ℕ, Bool, true, false, Option, none, some, ◌++◌, Text, codes, decimal}
use open_zk.Common.Outcome.{Result, ok}
use open_zk.Common.Io.{Io, ◌>>=◌, pure, map_err}
use open_zk.Common.Words.{Profile}
use open_zk.Core.{Bytes}
use open_zk.Orchestrator.Intent.{ResolvedIntent}
use open_zk.Orchestrator.Monitor.{ChainMonitor, mock_monitor, default_state}
use open_zk.Orchestrator.RpcMonitor.Skeleton.{skeleton_monitor}
use open_zk.Orchestrator.Dispatcher.{mock_dispatcher}
use open_zk.Orchestrator.Engine
use open_zk.Orchestrator.Engine.{
  EngineConfig, EngineEvent, range_detected, proof_started, proof_completed, proof_submitted,
  aggregation_started, aggregation_completed, dispute_detected, dispute_resolved, Step, run,
}
use open_zk.Cli.Halt.{Halt, error}

unfoldable pub engine_config : ResolvedIntent → ℕ → EngineConfig
engine_config intent poll_interval = record {
  intent = intent;
  poll_interval = poll_interval;
  max_concurrent_proofs = 4;
}

module _ {W : Type 0} (parse_address : Text → Result Text Bytes) (now : W → ℕ) where
  -- The monitor of the branch; the parsed address is dropped.
  abbrev address_dropped : Option Text → Io W Halt (ChainMonitor W)
  unfolding skeleton_monitor mock_monitor
  address_dropped none w = (ok (mock_monitor (default_state (now w))), w)
  address_dropped (some oracle_address) w =
      ((do _ ← λ w. map_err error (parse_address oracle_address, w); pure skeleton_monitor) w)

  unfoldable pub choose_monitor : Bool → Option Text → Io W Halt (ChainMonitor W)
  unfolding address_dropped
  choose_monitor true oracle_address w = (ok (mock_monitor (default_state (now w))), w)
  choose_monitor false oracle_address w = address_dropped oracle_address w

-- The run of the engine with a monitor, for a number of turns.
unfoldable pub serve_engine :
    {W : Type 0} → Profile → ℕ → (ℕ → W → W) → ℕ → EngineConfig → ChainMonitor W → Step W (Unit {0})
unfolding run mock_dispatcher
serve_engine p fuel sleep turns config watch = run p fuel config watch mock_dispatcher sleep turns

abbrev blocks : Text → ℕ → ℕ → Text
unfolding decimal
blocks what start end =
    codes "[engine] " ++ what ++ codes ": blocks " ++ decimal start ++ codes ".." ++ decimal end

unfoldable pub log_event : EngineEvent → Text
unfolding blocks decimal
log_event (range_detected start end) = blocks (codes "range detected") start end
log_event (proof_started start end) = blocks (codes "proof started") start end
log_event (proof_completed start end) = blocks (codes "proof completed") start end
log_event (proof_submitted start end) = blocks (codes "proof submitted") start end
log_event (aggregation_started num_proofs) =
    codes "[engine] aggregation started: " ++ decimal num_proofs ++ codes " proofs"
log_event (aggregation_completed start end) = blocks (codes "aggregation completed") start end
log_event (dispute_detected start end) = blocks (codes "dispute detected") start end
log_event (dispute_resolved start end) = blocks (codes "dispute resolved") start end
log_event (Engine.error message) = codes "[engine] error: " ++ message
