-- ===== src/Cli/Estimate.antt =====
-- crates/cli/src/commands/estimate.rs: the counts that `open-zk estimate` prints, and their texts.
pub mod Ranges
pub mod Provider
pub mod Report
pub mod Command
use open_zk.Common.{
  ℕ, ◌+◌, ◌-◌, ◌/◌, ◌%◌, ◌++◌, Bool, ltb, leb, if◌then◌else◌, Text, codes, decimal,
}
use open_zk.Common.Outcome.{Outcome, returned, ◌>>=◌}
use open_zk.Common.Words.{Profile, add_u64}
use open_zk.Orchestrator.Intent.{ResolvedIntent}

-- `u64::div_ceil`: the quotient, and one more where something is left.
unfoldable pub div_ceil : ℕ → ℕ → ℕ
div_ceil a b = a / b + (if ltb 0 (a % b) then 1 else 0)

-- `end_block.saturating_sub(start_block) + 1`
unfoldable pub num_blocks : Profile → ℕ → ℕ → Outcome ℕ
num_blocks p start_block end_block = add_u64 p (end_block - start_block) 1

unfoldable pub num_ranges : Profile → ResolvedIntent → ℕ → ℕ → Outcome ℕ
unfolding num_blocks div_ceil
num_ranges p intent start_block end_block = do
  blocks ← num_blocks p start_block end_block
  returned (div_ceil blocks intent.aggregation_window)

unfoldable pub needs_aggregation : ℕ → Bool
needs_aggregation ranges = ltb 1 ranges

unfoldable pub format_duration : ℕ → Text
format_duration secs =
    if leb 3600 secs
    then decimal (secs / 3600) ++ codes "h " ++ decimal (secs % 3600 / 60) ++ codes "m"
    else if leb 60 secs
    then decimal (secs / 60) ++ codes "m " ++ decimal (secs % 60) ++ codes "s"
    else decimal secs ++ codes "s"
