-- ===== src/Host/Pricing/Provider.antt =====
-- crates/core/src/traits/pricing.rs: the interface of a source of prices. The floating-point numbers
-- are a parameter: `Double` has what the code does with an `f64`.
use open_zk.Common.{ℕ, Bool, Option, Text}
use open_zk.Common.Io.{Io}
use open_zk.Core.{ZkvmBackend, CycleEstimate, PricingInfo}

pub data Order : Type 0 where
  less equal greater : Order

pub record Double (F : Type 0) : Type 0 where
  -- the literal `n / d`, and `n as f64`
  pub literal : ℕ → ℕ → F
  pub of_int : ℕ → F
  pub times : F → F → F
  pub over : F → F → F
  pub plus : F → F → F
  pub partial_cmp : F → F → Option Order

pub record PricingProvider (W F E : Type 0) : Type 0 where
  pub name : Text
  pub supports_backend : ZkvmBackend → Bool
  pub price : CycleEstimate → Io W E (PricingInfo F)
