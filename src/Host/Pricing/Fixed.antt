-- ===== src/Host/Pricing/Fixed.antt =====
-- crates/host/src/pricing/fixed.rs: prices at fixed rates.
pub mod Durations
use open_zk.Common.{ℕ, zero, suc, ◌/◌, Bool, true, none, Text, codes}
use open_zk.Common.Outcome.{Outcome, returned, panicked, ◌>>=◌}
use open_zk.Core.{ZkvmBackend, sp1, risc_zero, auto, mock, CycleEstimate, PricingInfo}
use open_zk.Host.Pricing.Provider.{Double}

pub record FixedPricing (F : Type 0) : Type 0 where
  pub sp1_cost_per_10m : F
  pub sp1_cycles_per_sec : ℕ
  pub risc0_cost_per_10m : F
  pub risc0_cycles_per_sec : ℕ

-- A division of integers, which panics at zero.
abbrev pub div_u64 : ℕ → ℕ → Outcome ℕ
div_u64 a zero = panicked
div_u64 a (suc b) = returned (a / suc b)

abbrev pub fixed_name : Text
fixed_name = codes "fixed"

abbrev pub fixed_supports : ZkvmBackend → Bool
fixed_supports backend = true

module _ {F : Type 0} (double : Double F) where
  unfoldable pub default_fixed : FixedPricing F
  default_fixed = record {
    sp1_cost_per_10m = double.literal 1 100;
    sp1_cycles_per_sec = 1000000;
    risc0_cost_per_10m = double.literal 8 1000;
    risc0_cycles_per_sec = 500000;
  }

  -- `(cycles as f64) / 10_000_000.0 * rate`
  abbrev pub cost_at : ℕ → F → F
  cost_at cycles rate =
      double.times (double.over (double.of_int cycles) (double.literal 10000000 1)) rate

  abbrev pub fixed_info : F → ℕ → PricingInfo F
  fixed_info cost_usd duration_secs = record {
    cost_usd = cost_usd;
    duration_secs = duration_secs;
    source = codes "fixed";
    native_cost = none;
    native_symbol = none;
    token_usd_rate = none;
  }

  abbrev pub fixed_rates : FixedPricing F → ℕ → ZkvmBackend → Outcome (F × ℕ)
  fixed_rates self cycles sp1 = do
    duration_secs ← div_u64 cycles self.sp1_cycles_per_sec
    returned (cost_at cycles self.sp1_cost_per_10m, duration_secs)
  fixed_rates self cycles risc_zero = do
    duration_secs ← div_u64 cycles self.risc0_cycles_per_sec
    returned (cost_at cycles self.risc0_cost_per_10m, duration_secs)
  fixed_rates self cycles mock = returned (double.literal 0 1, 0)
  fixed_rates self cycles auto = returned (double.literal 0 1, 0)

  -- `price`, which gives no error.
  unfoldable pub fixed_price : FixedPricing F → CycleEstimate → Outcome (PricingInfo F)
  fixed_price self estimate = do
    (cost_usd, duration_secs) ← fixed_rates self estimate.cycles estimate.backend
    returned (fixed_info cost_usd duration_secs)
