-- ===== src/Orchestrator/Planner.antt =====
-- `OrchestrationEngine::plan_range` of crates/orchestrator/src/engine.rs, which cuts a range of
-- blocks into proof requests. `fuel` counts the rounds of its `while` loop.
pub mod Tiling
pub mod Divergence
use open_zk.Common.{ℕ, zero, suc, List, [], ◌∷◌, min, leb, if◌then◌else◌}
use open_zk.Common.Outcome.{Outcome, returned, out_of_fuel, ◌>>=◌}
use open_zk.Common.Words.{Profile, add_u64, sub_u64}
use open_zk.Core.{B256, b256_zero, ProofRequest, ProvingMode}
use open_zk.Orchestrator.Intent.{ResolvedIntent}
use open_zk.Orchestrator.Monitor.{ChainState}

unfoldable pub request_for : B256 → ProvingMode → ℕ → ℕ → ProofRequest
request_for l1_head mode first last = record {
  l1_head = l1_head;
  l2_start_block = first;
  l2_end_block = last;
  l2_start_output_root = b256_zero;
  mode = mode;
}

-- `(cursor + window - 1).min(end)`
unfoldable pub range_end : Profile → ℕ → ℕ → ℕ → Outcome ℕ
range_end p window end cursor = do
  past ← add_u64 p cursor window
  last ← sub_u64 p past 1
  returned (min last end)

-- `while cursor <= end`. The vector is this round's request, then those of the later rounds.
module _ (p : Profile) (window : ℕ) (l1_head : B256) (mode : ProvingMode) (end : ℕ) where
  unfoldable pub plan_loop : ℕ → ℕ → Outcome (List ProofRequest)
  plan_loop zero cursor = if leb cursor end then out_of_fuel else returned []
  plan_loop (suc fuel) cursor =
      let rest = λ (last : ℕ). (do
        next ← add_u64 p last 1
        requests ← plan_loop fuel next
        returned (request_for l1_head mode cursor last ∷ requests)) in
      if leb cursor end then range_end p window end cursor >>= rest else returned []

unfoldable pub plan_range :
    Profile → ℕ → ResolvedIntent → ℕ → ℕ → ChainState → Outcome (List ProofRequest)
unfolding plan_loop
plan_range p fuel intent start end state =
    plan_loop p intent.aggregation_window state.l1_head intent.proving_mode end fuel start
