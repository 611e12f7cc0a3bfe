-- ===== src/Orchestrator/Monitor.antt =====
-- crates/orchestrator/src/monitor.rs and mock_monitor.rs: the state of the chains, as one sees it.
-- A monitor answers by an external world of type `W`, which every call may change.
use open_zk.Common.{ℕ, Option, none, some, ltb, if◌then◌else◌, Text}
use open_zk.Common.Outcome.{Result, ok, err, Outcome, returned, ◌>>=◌}
use open_zk.Common.Words.{Profile, add_u64}
use open_zk.Core.{B256, b256_zero}

-- The timestamp is in seconds.
pub record ChainState : Type 0 where
  pub l1_head : B256
  pub l1_block_number : ℕ
  pub l2_proven_block : ℕ
  pub l2_safe_block : ℕ
  pub timestamp : ℕ

pub record DisputeInfo : Type 0 where
  pub start_block : ℕ
  pub end_block : ℕ

-- The trait, with the error as the text that it prints.
pub record ChainMonitor (W : Type 0) : Type 0 where
  pub get_state : W → Result Text ChainState × W
  pub active_dispute : W → Option DisputeInfo × W

-- The comparison and the range of `ChainMonitor::pending_range`.
unfoldable pub range_of_state : Profile → ChainState → Outcome (Option (ℕ × ℕ))
range_of_state p state =
    if ltb state.l2_proven_block state.l2_safe_block
    then (do
      first ← add_u64 p state.l2_proven_block 1
      returned (some (first, state.l2_safe_block)))
    else returned none

-- `get_state().await?` and the rest of `pending_range`.
abbrev pub range_of_result :
    Profile → Result Text ChainState → Outcome (Result Text (Option (ℕ × ℕ)))
range_of_result p (err e) = returned (err e)
range_of_result p (ok state) = do range ← range_of_state p state; returned (ok range)

module _ {W : Type 0} where
  -- `ChainMonitor::pending_range`, which no monitor of the program overrides.
  unfoldable pub pending_range :
      Profile → ChainMonitor W → W → Outcome (Result Text (Option (ℕ × ℕ))) × W
  unfolding range_of_state
  pending_range p monitor w =
      let (answer, w') = monitor.get_state w in (range_of_result p answer, w')

  -- `MockMonitor`: the injected state on every call, and the trait's default dispute.
  unfoldable pub mock_monitor : ChainState → ChainMonitor W
  mock_monitor state = record { get_state = λ w. (ok state, w); active_dispute = λ w. (none, w) }

-- The state of `MockMonitor::default`, at the time of the clock.
abbrev pub default_state : ℕ → ChainState
default_state now = record {
  l1_head = b256_zero;
  l1_block_number = 0;
  l2_proven_block = 0;
  l2_safe_block = 0;
  timestamp = now;
}
