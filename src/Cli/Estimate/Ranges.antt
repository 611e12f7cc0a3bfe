-- ===== src/Cli/Estimate/Ranges.antt =====
-- The number of range proofs that `open-zk estimate` announces, next to the engine's plan.
use native.Mathlib.Nat.{div-eq_of_lt, div-eq-sub-div, div-add-mod, mul-add-div, mod-lt}
use open_zk.Common.{
  ℕ, zero, suc, ◌+◌, ◌-◌, ◌*◌, ◌/◌, ◌%◌, ◌≤◌, ◌<◌, ◌≡◌, sym, ap, ◌∙◌, ltb, if◌then◌else◌, List,
  length, arith,
}
use open_zk.Common.Outcome.{returned}
use open_zk.Common.Words.{Profile, u64_mod, add_u64-returned}
use open_zk.Core.{ProofRequest}
use open_zk.Orchestrator.Intent.{ResolvedIntent}
use open_zk.Orchestrator.Monitor.{ChainState}
use open_zk.Orchestrator.Planner.{plan_range}
use open_zk.Orchestrator.Planner.Tiling
use open_zk.Orchestrator.Planner.Tiling.{plan_range-Tiles}
use open_zk.Cli.Estimate.{div_ceil, num_blocks, num_ranges}

-- What a remainder takes.
remainder_window : (r b : ℕ) → 0 < b → r < b → (r + b - 1) / b ≡ (if ltb 0 r then 1 else 0)
remainder_window zero b pos small = div-eq_of_lt (omega arith)
remainder_window (suc r) b pos small =
    let e : suc r + b - 1 - b ≡ r = omega arith in
    rw
      (
        div-eq-sub-div {m = b} {n = suc r + b - 1} pos (omega arith),
        e,
        div-eq_of_lt {n = r} {m = b} (omega arith),
      )
      (ground arith)

div_ceil_same : (a b : ℕ) → 0 < b → Tiling.div_ceil a b ≡ div_ceil a b
unfolding div_ceil
div_ceil_same a b pos =
    let e : a + b - 1 ≡ b * (a / b) + (a % b + b - 1) = omega (arith, div-add-mod a b) in
    ap (λ t. t / b) e
    ∙ mul-add-div pos (a / b) (a % b + b - 1)
    ∙ ap (λ t. a / b + t) (remainder_window (a % b) b pos (mod-lt a pos))

-- For a range with its end no less than its start, the announced number of range proofs is the
-- number of requests that the engine plans for it, where the engine's planning has room: the window
-- is positive, the end is a window below 2 ^ 64, and there is a round for each block.
pub num_ranges-plan_range :
    (p : Profile) (fuel : ℕ) (intent : ResolvedIntent) (start end : ℕ) (state : ChainState)
    → 0 < intent.aggregation_window
    → end + intent.aggregation_window < u64_mod
    → start ≤ end
    → end + 1 - start ≤ fuel
    → (requests : List ProofRequest) × (plan_range p fuel intent start end state
        ≡ returned requests)
      × (num_ranges p intent start end ≡ returned (length requests))
unfolding num_ranges num_blocks
num_ranges-plan_range p fuel intent start end state pos room le enough =
    let (requests, planned, _, _, count) =
      plan_range-Tiles p fuel intent start end state pos room (omega arith) enough in
    let blocks : end - start + 1 ≡ end + 1 - start = omega arith in
    (
      requests,
      planned,
      rw (
        add_u64-returned p (end - start) 1 (omega arith),
        blocks,
        sym (div_ceil_same (end + 1 - start) _ pos),
        count,
      ),
    )
