-- ===== src/Cli/Estimate/Command/Mocked.antt =====
-- Mock mode with the backend of RISC Zero.
use open_zk.Common.{ℕ, ◌≡◌, refl, Bool, true, false, bytes_eq, Option, Text, codes}
use open_zk.Common.Outcome.{ok, err, returned}
use open_zk.Common.Maybe.{unwrap_or}
use open_zk.Common.Words.{Profile}
use open_zk.Common.Io.{Io}
use open_zk.Core.{risc_zero}
use open_zk.Orchestrator.Intent.{ResolvedIntent}
use open_zk.Cli.Config.{CliConfig, is_mock_mode}
use open_zk.Cli.Files.{ConfigFiles}
use open_zk.Cli.Halt.{Halt, error}
use open_zk.Cli.Prove.{load_intent}
use open_zk.Cli.Estimate.{num_ranges}
use open_zk.Cli.Estimate.Provider.{
  Markets, resolve_boundless, resolve_pricing, auto_pricing, dyn_price,
}
use open_zk.Cli.Estimate.Command.{counted_in, estimate_command}
use open_zk.Cli.Zkvms.{Zkvms}
use open_zk.Host.Adapter.{RawWitness}
use open_zk.Host.Pricing.Boundless.{boundless_price, with_options}
use open_zk.Host.Pricing.TokenPrice.{fetch_eth_usd}
use open_zk.Host.Prover.{mock_prover}

abbrev pub refused : Halt
refused = error (codes "backend Mock is not supported by Boundless pricing")

module _ {W Json Signer Client F Stdin Key Proof Builder Env Receipt : Type 0} (p : Profile)
    (has_kona : Bool) (markets : Markets W Json Signer Client F)
    (zkvms : Zkvms W Stdin Key Proof Builder Env Receipt) (files : ConfigFiles W)
    (sp1_prover : W → Option Text) (generate : CliConfig → ℕ → ℕ → Io W Halt RawWitness)
    (prices_of : CliConfig → Option F × Option F) where
  -- In mock mode, where the backend resolves to RISC Zero, the HTTP client can be built and no
  -- provider is named, the command ends with an error: it counts the cycles of the mock, and has them
  -- priced by the market of Boundless, which refuses the mock.
  pub estimate_command-refused :
      (path : Text) (pricing_arg : Option Text) (start_block end_block ranges : ℕ)
      (config : CliConfig) (intent : ResolvedIntent) (w v : W)
      → load_intent files path w ≡ (ok (config, intent), v)
      → intent.backend ≡ risc_zero
      → markets.indexer.client_built ≡ ok tt
      → is_mock_mode (sp1_prover v) config ≡ true
      → num_ranges p intent start_block end_block ≡ returned ranges
      → bytes_eq (unwrap_or pricing_arg config.pricing.provider) (codes "boundless") ≡ false
      → bytes_eq (unwrap_or pricing_arg config.pricing.provider) (codes "succinct") ≡ false
      → bytes_eq (unwrap_or pricing_arg config.pricing.provider) (codes "fixed") ≡ false
      → (u : W) × (estimate_command p has_kona markets zkvms files sp1_prover generate prices_of
            path pricing_arg start_block end_block w
          ≡ (err refused, u))
  unfolding with_options estimate_command counted_in resolve_pricing auto_pricing resolve_boundless
      dyn_price boundless_price mock_prover
  estimate_command-refused path pricing_arg start_block end_block ranges config intent w v loaded
        on_risc_zero built mocked counted no_boundless no_succinct no_fixed =
      (
        (fetch_eth_usd markets.double markets.service (prices_of config).0 v).1,
        rw (loaded, mocked, counted, on_risc_zero, built, no_boundless, no_succinct, no_fixed) refl,
      )
