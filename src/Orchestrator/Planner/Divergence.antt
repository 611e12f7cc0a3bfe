-- ===== src/Orchestrator/Planner/Divergence.antt =====
-- The `while` loop of `plan_range` on a window of zero and at the largest `u64`.
use open_zk.Common.{ℕ, zero, suc, ◌+◌, ◌-◌, ◌≤◌, ◌<◌, ◌≡◌, min, arith, le→leb}
use open_zk.Common.Outcome.{returned, out_of_fuel}
use open_zk.Common.Words.{
  Profile, release, u64_mod, IsU64, add_u64, add_u64-returned, sub_u64-returned, add_u64-release,
  sub_u64-release,
}
use open_zk.Core.{B256, ProvingMode}
use open_zk.Orchestrator.Intent.{ResolvedIntent}
use open_zk.Orchestrator.Monitor.{ChainState}
use open_zk.Orchestrator.Planner.{range_end, plan_loop, plan_range}

-- A round that goes on, and a loop behind it that does not end.
module _ (p : Profile) (window : ℕ) (l1_head : B256) (mode : ProvingMode) (end : ℕ) where
  round_loops :
      (fuel cursor last next : ℕ)
      → cursor ≤ end
      → range_end p window end cursor ≡ returned last
      → add_u64 p last 1 ≡ returned next
      → plan_loop p window l1_head mode end fuel next ≡ out_of_fuel
      → plan_loop p window l1_head mode end (suc fuel) cursor ≡ out_of_fuel
  unfolding plan_loop
  round_loops fuel cursor last next le ends goes loops =
      rw (le→leb cursor end le, ends) (rw (goes, loops))

-- With an empty window the cursor stays where it is.
range_end_zero_window :
    (p : Profile) (end cursor : ℕ)
    → 0 < cursor
    → cursor ≤ end
    → end < u64_mod
    → range_end p 0 end cursor ≡ returned (cursor - 1)
unfolding range_end
range_end_zero_window p end cursor pos le fits =
    let e : min (cursor + 0 - 1) end ≡ cursor - 1 = omega arith in
    rw (add_u64-returned p cursor 0 (omega arith))
      (rw (sub_u64-returned p (cursor + 0) 1 (omega arith)) (rw e))

zero_window_loop :
    (p : Profile) (l1_head : B256) (mode : ProvingMode) (end cursor fuel : ℕ)
    → 0 < cursor
    → cursor ≤ end
    → end < u64_mod
    → plan_loop p 0 l1_head mode end fuel cursor ≡ out_of_fuel
zero_window_loop p l1_head mode end cursor zero pos le fits =
    unfold plan_loop in rw (le→leb cursor end le)
zero_window_loop p l1_head mode end cursor (suc fuel) pos le fits =
    let same : cursor - 1 + 1 ≡ cursor = omega arith in
    round_loops p 0 l1_head mode end fuel cursor (cursor - 1) (cursor - 1 + 1) le
      (range_end_zero_window p end cursor pos le fits)
      (add_u64-returned p (cursor - 1) 1 (omega arith))
      (rw same (zero_window_loop p l1_head mode end cursor fuel pos le fits))

-- A release build always finds some last block for the round.
range_end-release :
    (window end cursor : ℕ) → (last : ℕ) × (range_end release window end cursor ≡ returned last)
unfolding range_end
range_end-release window end cursor =
    let (past, adds, fits) = add_u64-release cursor window in
    let (last, subs, _) = sub_u64-release past 1 fits in (min last end, rw adds (rw subs))

-- Every word is at most the largest, so the test of the loop never fails.
max_end_loop :
    (window : ℕ) (l1_head : B256) (mode : ProvingMode) (end cursor fuel : ℕ)
    → end + 1 ≡ u64_mod
    → IsU64 cursor
    → plan_loop release window l1_head mode end fuel cursor ≡ out_of_fuel
max_end_loop window l1_head mode end cursor zero e fits =
    unfold plan_loop in rw (le→leb cursor end (omega arith))
max_end_loop window l1_head mode end cursor (suc fuel) e fits =
    let (last, ends) = range_end-release window end cursor in
    let (next, adds, next_fits) = add_u64-release last 1 in
    round_loops release window l1_head mode end fuel cursor last next (omega arith) ends adds
      (max_end_loop window l1_head mode end next fuel e next_fits)

-- With an aggregation window of zero `plan_range` does not end on any range that starts above block
-- zero, however many rounds it is given, in either build.
pub plan_range_zero_window :
    (p : Profile) (fuel : ℕ) (intent : ResolvedIntent) (start end : ℕ) (state : ChainState)
    → intent.aggregation_window ≡ 0
    → 0 < start
    → start ≤ end
    → IsU64 end
    → plan_range p fuel intent start end state ≡ out_of_fuel
unfolding plan_range
plan_range_zero_window p fuel intent start end state e pos le fits =
    rw e (zero_window_loop p state.l1_head intent.proving_mode end start fuel pos le fits)

-- A release build of `plan_range` does not end on a range whose last block is the largest `u64`,
-- whatever the window and however many rounds it is given.
pub plan_range_max_end :
    (fuel : ℕ) (intent : ResolvedIntent) (start end : ℕ) (state : ChainState)
    → end + 1 ≡ u64_mod
    → IsU64 start
    → plan_range release fuel intent start end state ≡ out_of_fuel
unfolding plan_range
plan_range_max_end fuel intent start end state e fits =
    max_end_loop intent.aggregation_window state.l1_head intent.proving_mode end start fuel e fits
