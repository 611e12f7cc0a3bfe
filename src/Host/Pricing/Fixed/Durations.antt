-- ===== src/Host/Pricing/Fixed/Durations.antt =====
-- The durations that the fixed rates give.
use open_zk.Common.{ℕ, ◌+◌, ◌*◌, ◌≤◌, ◌<◌, ◌≡◌, refl, none, arith}
use open_zk.Common.Outcome.{returned}
use open_zk.Core.{ZkvmBackend, sp1, risc_zero, auto, mock, CycleEstimate, PricingInfo}
use open_zk.Host.Pricing.Provider.{Double}
use open_zk.Host.Pricing.Fixed.{default_fixed, fixed_name, fixed_price}

-- `secs` whole seconds at `rate` cycles for a second.
abbrev pub Lasts : ℕ → ℕ → ℕ → Type 0
Lasts rate cycles secs = (secs * rate ≤ cycles) × (cycles < (secs + 1) * rate)

abbrev pub LastsOn : ZkvmBackend → ℕ → ℕ → Type 0
LastsOn sp1 cycles secs = Lasts 1000000 cycles secs
LastsOn risc_zero cycles secs = Lasts 500000 cycles secs
LastsOn auto cycles secs = secs ≡ 0
LastsOn mock cycles secs = secs ≡ 0

module _ {F : Type 0} (double : Double F) where
  priced :
      (backend : ZkvmBackend) (cycles : ℕ)
      → (info : PricingInfo F) × (fixed_price double
            (default_fixed double)
            (record { cycles = cycles; backend = backend })
          ≡ returned info)
        × LastsOn backend cycles info.duration_secs
        × (info.source ≡ fixed_name)
        × (info.native_cost ≡ none)
  unfolding fixed_price default_fixed
  priced sp1 cycles = (_, refl, (omega arith, omega arith), refl, refl)
  priced risc_zero cycles = (_, refl, (omega arith, omega arith), refl, refl)
  priced auto cycles = (_, refl, refl, refl, refl)
  priced mock cycles = (_, refl, refl, refl, refl)

  -- With the default rates every estimate has a price, without a panic or a native token. Its
  -- duration is the number of whole seconds at a million cycles a second for SP1 and half a million
  -- for RISC Zero, and zero for the others.
  pub fixed_price-LastsOn :
      (estimate : CycleEstimate)
      → (info : PricingInfo F) × (fixed_price double (default_fixed double) estimate
          ≡ returned info)
        × LastsOn estimate.backend estimate.cycles info.duration_secs
        × (info.source ≡ fixed_name)
        × (info.native_cost ≡ none)
  fixed_price-LastsOn estimate = priced estimate.backend estimate.cycles
