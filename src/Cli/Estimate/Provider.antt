-- ===== src/Cli/Estimate/Provider.antt =====
-- crates/cli/src/commands/estimate.rs: the choice of a source of prices.
pub mod Auto
use open_zk.Common.{
  Bool, true, false, if◌then◌else◌, bytes_eq, Option, none, some, [], ◌∷◌, ◌++◌, Text, codes,
}
use open_zk.Common.Outcome.{Result, ok, err}
use open_zk.Common.Maybe.{unwrap_or}
use open_zk.Common.Io.{Io, ◌>>=◌, pure, fail, map_err}
use open_zk.Core.{ZkvmBackend, sp1, risc_zero, auto, mock, CycleEstimate, PricingInfo}
use open_zk.Cli.Config.{CliConfig}
use open_zk.Cli.Halt.{Halt, error, panic, settled}
use open_zk.Host.Pricing.{p50, parse}
use open_zk.Host.Pricing.Provider.{Double}
use open_zk.Host.Pricing.Fixed.{FixedPricing, default_fixed, fixed_price}
use open_zk.Host.Pricing.Boundless.{
  BoundlessPricing, BoundlessPricingError, http, no_data, parse_wei, unsupported_backend, Indexer,
  with_options, boundless_price,
}
use open_zk.Host.Pricing.Succinct
use open_zk.Host.Pricing.Succinct.{
  SuccinctPricing, SuccinctPricingError, grpc, bad_config, Stop, Network, from_env, succinct_price,
}
use open_zk.Host.Pricing.TokenPrice.{PriceService, fetch_eth_usd, fetch_prove_usd}

-- The `Debug` form of a backend.
abbrev pub backend_name : ZkvmBackend → Text
backend_name sp1 = codes "Sp1"
backend_name risc_zero = codes "RiscZero"
backend_name auto = codes "Auto"
backend_name mock = codes "Mock"

abbrev pub boundless_message : BoundlessPricingError → Text
boundless_message (http e) = codes "HTTP request failed: " ++ e
boundless_message no_data = codes "no aggregate data returned from indexer"
boundless_message (parse_wei s e) = codes "failed to parse wei value '" ++ s ++ codes "': " ++ e
boundless_message (unsupported_backend backend) =
    codes "backend " ++ backend_name backend ++ codes " is not supported by Boundless pricing"

abbrev pub succinct_message : SuccinctPricingError → Text
succinct_message (grpc e) = codes "gRPC call failed: " ++ e
succinct_message Succinct.no_data = codes "no fulfilled proof requests found"
succinct_message (bad_config e) = codes "configuration error: " ++ e
succinct_message (Succinct.unsupported_backend backend) =
    codes "backend " ++ backend_name backend ++ codes " is not supported by Succinct pricing"

abbrev pub halted : Stop → Halt
halted (Stop.failed e) = error (succinct_message e)
halted Stop.panic = panic

pub data DynPricing (Client F : Type 0) : Type 0 where
  fixed : FixedPricing F → DynPricing Client F
  boundless : BoundlessPricing F → DynPricing Client F
  succinct : SuccinctPricing Client F → DynPricing Client F

-- The configuration with the two optional prices of its section on pricing.
pub record PricedConfig (F : Type 0) : Type 0 where
  pub config : CliConfig
  pub eth_usd_price : Option F
  pub prove_usd_price : Option F

-- All that the sources of prices ask for.
pub record Markets (W Json Signer Client F : Type 0) : Type 0 where
  pub double : Double F
  pub indexer : Indexer W
  pub network : Network W Signer Client
  pub service : PriceService W Json F

module _ {W Json Signer Client F : Type 0} (markets : Markets W Json Signer Client F) where
  unfoldable pub dyn_price : DynPricing Client F → CycleEstimate → Io W Halt (PricingInfo F)
  unfolding fixed_price boundless_price succinct_price
  dyn_price (fixed p) estimate w = settled (fixed_price markets.double p estimate) w
  dyn_price (boundless p) estimate w =
      map_err (λ e. error (boundless_message e))
        (boundless_price markets.double markets.indexer p estimate w)
  dyn_price (succinct p) estimate w =
      map_err halted (succinct_price markets.double markets.network p estimate w)

  unfoldable pub resolve_boundless : PricedConfig F → Io W Halt (DynPricing Client F)
  unfolding parse fetch_eth_usd with_options
  resolve_boundless c w =
      let (eth_usd, v) = fetch_eth_usd markets.double markets.service c.eth_usd_price w in
      ((do
        pricing ← settled (
            with_options markets.indexer.client_built
              (codes "https://d2mdvlnmyov1e1.cloudfront.net")
              (unwrap_or (parse c.config.pricing.boundless_percentile) p50) eth_usd)
        pure (boundless pricing))
        v)

  unfoldable pub resolve_succinct : PricedConfig F → Io W Halt (DynPricing Client F)
  unfolding fetch_prove_usd from_env
  resolve_succinct c w =
      let (prove_usd, v) = fetch_prove_usd markets.double markets.service c.prove_usd_price w in
      ((do
        pricing ← λ u.
            map_err (λ e. error (succinct_message e))
              (from_env markets.double markets.network prove_usd u)
        pure (succinct pricing))
        v)

  abbrev pub default_pricing : DynPricing Client F
  unfolding default_fixed
  default_pricing = fixed (default_fixed markets.double)

  abbrev pub or_fixed :
      Result Halt (DynPricing Client F) × W → Result Halt (DynPricing Client F) × W
  unfolding default_pricing
  or_fixed (ok pricing, w) = (ok pricing, w)
  or_fixed (err (error e), w) = (ok default_pricing, w)
  or_fixed (err panic, w) = (err panic, w)

  -- The provider for a backend; `has_sp1` is the feature of that name.
  unfoldable pub auto_pricing :
      Bool → PricedConfig F → ZkvmBackend → Io W Halt (DynPricing Client F)
  unfolding resolve_boundless resolve_succinct or_fixed
  auto_pricing has_sp1 c risc_zero w = resolve_boundless c w
  auto_pricing has_sp1 c sp1 w =
      if has_sp1 then or_fixed (resolve_succinct c w) else (ok default_pricing, w)
  auto_pricing has_sp1 c auto w = (ok default_pricing, w)
  auto_pricing has_sp1 c mock w = (ok default_pricing, w)

  abbrev pub needs_sp1 : Text
  needs_sp1 =
      codes "succinct pricing requires the `sp1` feature "
      ++ (226 ∷ 128 ∷ 148 ∷ [])
      ++ codes " compile with: cargo build --bin open-zk --features sp1"

  unfoldable pub resolve_pricing :
      Bool → PricedConfig F → Option Text → ZkvmBackend → Io W Halt (DynPricing Client F)
  unfolding auto_pricing
  resolve_pricing has_sp1 c pricing_arg backend w =
      let provider = unwrap_or pricing_arg c.config.pricing.provider in
      if bytes_eq provider (codes "boundless")
      then resolve_boundless c w
      else if bytes_eq provider (codes "succinct")
      then (if has_sp1 then resolve_succinct c w else (err (error needs_sp1), w))
      else if bytes_eq provider (codes "fixed")
      then (ok default_pricing, w)
      else auto_pricing has_sp1 c backend w
