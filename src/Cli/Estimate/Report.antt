-- ===== src/Cli/Estimate/Report.antt =====
-- crates/cli/src/commands/estimate.rs: the amounts that `open-zk estimate` prints.
use open_zk.Common.{
  ℕ, ◌*◌, ◌%◌, ltb, leb, Bool, true, false, if◌then◌else◌, Option, none, some, ◌++◌, Text, codes,
  decimal,
}
use open_zk.Common.Outcome.{Outcome, returned, ◌>>=◌}
use open_zk.Common.Words.{Profile, u64_mod, overflowed}
use open_zk.Core.{CycleEstimate, PricingInfo, CostEstimate}
use open_zk.Host.Pricing.Provider.{Double}

-- `*` on `u64`
unfoldable pub mul_u64 : Profile → ℕ → ℕ → Outcome ℕ
mul_u64 p a b = if ltb (a * b) u64_mod then returned (a * b) else overflowed p (a * b % u64_mod)

unfoldable pub compose_cost_estimate : {F : Type 0} → CycleEstimate → PricingInfo F → CostEstimate F
compose_cost_estimate cycle pricing = record {
  estimated_cycles = cycle.cycles;
  estimated_cost_usd = pricing.cost_usd;
  estimated_duration_secs = pricing.duration_secs;
}

-- The total that `print_estimate` prints below the estimate for a range.
module _ {F : Type 0} (double : Double F) where
  unfoldable pub total_for : Profile → CostEstimate F → ℕ → Bool → Outcome (CostEstimate F)
  unfolding mul_u64
  total_for p estimate num_ranges false = returned estimate
  total_for p estimate num_ranges true = do
    total_cycles ← mul_u64 p estimate.estimated_cycles num_ranges
    total_duration ← mul_u64 p estimate.estimated_duration_secs num_ranges
    returned (record {
      estimated_cycles = total_cycles;
      estimated_cost_usd = double.times estimate.estimated_cost_usd (double.of_int num_ranges);
      estimated_duration_secs = total_duration;
    })

-- Floating-point numbers as text: `{:.k}` for a number of digits `k`.
module _ {F : Type 0} (double : Double F) (fixed_digits : ℕ → F → Text) where
  abbrev pub format_native : F → Option F → Option Text → Option F → Text
  format_native cost (some native) (some symbol) (some rate) =
      codes "$"
      ++ fixed_digits 4 cost
      ++ codes " ("
      ++ fixed_digits 7 native
      ++ codes " "
      ++ symbol
      ++ codes " @ $"
      ++ fixed_digits 2 rate
      ++ codes "/"
      ++ symbol
      ++ codes ")"
  format_native cost (some native) (some symbol) none = codes "$" ++ fixed_digits 4 cost
  format_native cost (some native) none rate = codes "$" ++ fixed_digits 4 cost
  format_native cost none symbol rate = codes "$" ++ fixed_digits 4 cost

  unfoldable pub format_cost : PricingInfo F → Text
  format_cost pricing =
      format_native pricing.cost_usd pricing.native_cost pricing.native_symbol
        pricing.token_usd_rate

  unfoldable pub format_cycles : ℕ → Text
  unfolding decimal
  format_cycles cycles =
      if leb 1000000000 cycles
      then fixed_digits 2 (double.over (double.of_int cycles) (double.literal 1000000000 1))
        ++ codes "B"
      else if leb 1000000 cycles
      then fixed_digits 2 (double.over (double.of_int cycles) (double.literal 1000000 1))
        ++ codes "M"
      else if leb 1000 cycles
      then fixed_digits 1 (double.over (double.of_int cycles) (double.literal 1000 1)) ++ codes "K"
      else decimal cycles
