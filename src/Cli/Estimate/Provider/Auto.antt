-- ===== src/Cli/Estimate/Provider/Auto.antt =====
-- Without the name of a provider, the choice suits the backend.
use open_zk.Common.{◌≡◌, ◌⊎◌, inl, inr, refl, ap, Bool, true, false, bytes_eq, Option, Text, codes}
use open_zk.Common.Outcome.{Result, ok, err}
use open_zk.Common.Maybe.{unwrap_or}
use open_zk.Common.Io.{pure, map_err, after}
use open_zk.Core.{ZkvmBackend, sp1, risc_zero, auto, mock}
use open_zk.Host.Pricing.{p50, parse}
use open_zk.Host.Pricing.Fixed.{default_fixed}
use open_zk.Host.Pricing.Boundless.{boundless_supports, with_options}
use open_zk.Host.Pricing.Succinct.{
  SuccinctPricing, SuccinctPricingError, succinct_supports, from_env,
}
use open_zk.Host.Pricing.TokenPrice.{fetch_eth_usd, fetch_prove_usd}
use open_zk.Cli.Halt.{Halt, error}
use open_zk.Cli.Estimate.Provider.{
  succinct_message, DynPricing, fixed, boundless, succinct, PricedConfig, Markets, or_fixed,
  resolve_boundless, resolve_succinct, auto_pricing, resolve_pricing,
}

module _ {W Json Signer Client F : Type 0} (markets : Markets W Json Signer Client F)
    (has_sp1 : Bool) (c : PricedConfig F) (w : W) where
  -- What the environment gives for the market of Succinct, in the world behind the price of PROVE.
  abbrev pub succinct_market : Result SuccinctPricingError (SuccinctPricing Client F) × W
  unfolding from_env fetch_prove_usd
  succinct_market =
      let (prove_usd, v) = fetch_prove_usd markets.double markets.service c.prove_usd_price w in
      from_env markets.double markets.network prove_usd v

  -- No market prices the backend, or the one that does is not in the build or not in the environment.
  abbrev pub HasNoMarket : ZkvmBackend → Type 0
  HasNoMarket backend =
      (boundless_supports backend ≡ false)
      × ((succinct_supports backend ≡ false)
          ⊎ ((has_sp1 ≡ false) ⊎ ((e : SuccinctPricingError) × (succinct_market.0 ≡ err e))))

  -- Does the provider suit the backend? A market supports it and is set up from the configuration, and
  -- the fixed prices are the default for want of a market alone.
  abbrev pub Suits : DynPricing Client F → ZkvmBackend → Type 0
  Suits (fixed p) backend = (p ≡ default_fixed markets.double) × HasNoMarket backend
  Suits (boundless p) backend =
      (boundless_supports backend ≡ true)
      × (p.percentile ≡ unwrap_or (parse c.config.pricing.boundless_percentile) p50)
      × (p.eth_usd ≡ (fetch_eth_usd markets.double markets.service c.eth_usd_price w).0)
  Suits (succinct p) backend =
      (succinct_supports backend ≡ true) × (has_sp1 ≡ true) × (succinct_market.0 ≡ ok p)

  abbrev pub Chosen : ZkvmBackend → Result Halt (DynPricing Client F) × W → Type 0
  Chosen backend r =
      (pricing : DynPricing Client F) × (v : W) × (r ≡ (ok pricing, v)) × Suits pricing backend

  -- Both ends of `from_env` lead to a provider.
  or_fixed-Chosen :
      (r : Result SuccinctPricingError (SuccinctPricing Client F) × W)
      → has_sp1 ≡ true
      → succinct_market ≡ r
      → Chosen sp1 (
          or_fixed markets
            (after (λ p. pure (succinct p)) (map_err (λ e. error (succinct_message e)) r)))
  unfolding or_fixed default_fixed
  or_fixed-Chosen (ok p, v) in_build same =
      (succinct p, v, refl, (refl, in_build, ap (λ t. t.0) same))
  or_fixed-Chosen (err e, v) in_build same =
      (_, v, refl, (refl, (refl, inr (inr (e, ap (λ t. t.0) same)))))

module _ {W Json Signer Client F : Type 0} (markets : Markets W Json Signer Client F)
    (c : PricedConfig F) (w : W) where
  boundless-Chosen :
      (has_sp1 : Bool) (built : Result Text (Unit {0}))
      → markets.indexer.client_built ≡ built
      → built ≡ ok tt
      → Chosen markets has_sp1 c w risc_zero (resolve_boundless markets c w)
  unfolding resolve_boundless with_options parse fetch_eth_usd
  boundless-Chosen has_sp1 (ok tt) same ok_built = rw same (_, _, refl, (refl, refl, refl))
  boundless-Chosen has_sp1 (err e) same ok_built = cc

  auto_pricing-Chosen :
      (has_sp1 : Bool) (backend : ZkvmBackend)
      → markets.indexer.client_built ≡ ok tt
      → Chosen markets has_sp1 c w backend (auto_pricing markets has_sp1 c backend w)
  unfolding auto_pricing resolve_succinct default_fixed from_env fetch_prove_usd
  auto_pricing-Chosen has_sp1 risc_zero built =
      boundless-Chosen has_sp1 markets.indexer.client_built refl built
  auto_pricing-Chosen true sp1 built =
      or_fixed-Chosen markets true c w (succinct_market markets true c w) refl refl
  auto_pricing-Chosen false sp1 built = (_, w, refl, (refl, (refl, inr (inl refl))))
  auto_pricing-Chosen has_sp1 auto built = (_, w, refl, (refl, (refl, inl refl)))
  auto_pricing-Chosen has_sp1 mock built = (_, w, refl, (refl, (refl, inl refl)))

  -- Where an HTTP client can be built, and the argument, or else the configuration, names none of the
  -- three providers, as the word auto does not, a provider is chosen without an error: the market that
  -- supports the backend, set up from the configuration, if it is in the build and the environment has
  -- what it needs, and the default of the fixed prices for want of such a market alone.
  pub resolve_pricing-Chosen :
      (has_sp1 : Bool) (pricing_arg : Option Text) (backend : ZkvmBackend)
      → markets.indexer.client_built ≡ ok tt
      → bytes_eq (unwrap_or pricing_arg c.config.pricing.provider) (codes "boundless") ≡ false
      → bytes_eq (unwrap_or pricing_arg c.config.pricing.provider) (codes "succinct") ≡ false
      → bytes_eq (unwrap_or pricing_arg c.config.pricing.provider) (codes "fixed") ≡ false
      → Chosen markets has_sp1 c w backend (resolve_pricing markets has_sp1 c pricing_arg backend w)
  unfolding resolve_pricing
  resolve_pricing-Chosen has_sp1 pricing_arg backend built no_boundless no_succinct no_fixed =
      rw (no_boundless, no_succinct, no_fixed) (auto_pricing-Chosen has_sp1 backend built)
