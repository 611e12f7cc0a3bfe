-- ===== src/Cli/Estimate/Command.antt =====
-- crates/cli/src/commands/estimate.rs: the steps of `open-zk estimate`.
pub mod Mocked
use open_zk.Common.{ℕ, Bool, if◌then◌else◌, Option, [], Text, codes}
use open_zk.Common.Outcome.{Result, ok, err}
use open_zk.Common.Words.{Profile}
use open_zk.Common.Io.{Io, ◌>>=◌, pure, map_err}
use open_zk.Core.{CycleEstimate, PricingInfo, CostEstimate}
use open_zk.Orchestrator.Intent.{ResolvedIntent}
use open_zk.Cli.Config.{CliConfig, is_mock_mode}
use open_zk.Cli.Files.{ConfigFiles}
use open_zk.Cli.Halt.{Halt, error, settled}
use open_zk.Cli.Prove.{load_intent, needs_kona}
use open_zk.Cli.Estimate.{num_ranges, needs_aggregation}
use open_zk.Cli.Estimate.Provider.{Markets, PricedConfig, resolve_pricing, dyn_price}
use open_zk.Cli.Estimate.Report.{compose_cost_estimate, total_for}
use open_zk.Cli.Zkvms.{Zkvms, range_ethereum, mock_message, run_cycle_count}
use open_zk.Host.Adapter.{RawWitness}
use open_zk.Host.Prover.{mock_prover, new_mock_program}

-- What is printed: the estimate that is called one for a range, its price, and the total.
pub record Printed (F : Type 0) : Type 0 where
  pub per_range : CostEstimate F
  pub pricing : PricingInfo F
  pub total : CostEstimate F

module _ {W Json Signer Client F Stdin Key Proof Builder Env Receipt : Type 0} (p : Profile)
    (has_kona : Bool) (markets : Markets W Json Signer Client F)
    (zkvms : Zkvms W Stdin Key Proof Builder Env Receipt) (files : ConfigFiles W)
    (sp1_prover : W → Option Text) (generate : CliConfig → ℕ → ℕ → Io W Halt RawWitness)
    (prices_of : CliConfig → Option F × Option F) where
  -- The cycles of the guest on the witness for all the blocks.
  abbrev counted : CliConfig → ResolvedIntent → ℕ → ℕ → Io W Halt CycleEstimate
  unfolding run_cycle_count
  counted config intent start_block end_block w =
      if has_kona
      then ((do
        witness ← generate config start_block end_block
        run_cycle_count zkvms intent witness)
          w)
      else (err (needs_kona (codes "cost estimation")), w)

  abbrev pub counted_in : Bool → CliConfig → ResolvedIntent → ℕ → ℕ → Io W Halt CycleEstimate
  unfolding mock_prover new_mock_program counted
  counted_in mock_mode config intent start_block end_block w =
      if mock_mode
      then map_err (λ e. error (mock_message e))
          (mock_prover.count_cycles (new_mock_program range_ethereum) (record { data_bytes = [] })
            w)
      else counted config intent start_block end_block w

  -- The two optional prices are read from the configuration.
  abbrev priced : CliConfig → PricedConfig F
  priced config = record {
    config = config;
    eth_usd_price = (prices_of config).0;
    prove_usd_price = (prices_of config).1;
  }

  unfoldable pub estimate_command : Text → Option Text → ℕ → ℕ → Io W Halt (Printed F)
  unfolding load_intent num_ranges needs_aggregation resolve_pricing is_mock_mode counted_in
      dyn_price compose_cost_estimate total_for
  estimate_command path pricing_arg start_block end_block = do
    (config, intent) ← load_intent files path
    mock_mode ← λ w. (ok (is_mock_mode (sp1_prover w) config), w)
    ranges ← settled (num_ranges p intent start_block end_block)
    pricing ← resolve_pricing markets zkvms.has_sp1 (priced config) pricing_arg intent.backend
    cycle_estimate ← counted_in mock_mode config intent start_block end_block
    info ← dyn_price markets pricing cycle_estimate
    total ← settled (
        total_for markets.double p (compose_cost_estimate cycle_estimate info) ranges
          (needs_aggregation ranges))
    pure (record {
      per_range = compose_cost_estimate cycle_estimate info;
      pricing = info;
      total = total;
    })
