-- ===== src/Cli/Prove.antt =====
-- crates/cli/src/commands/prove.rs: one proof for a range of blocks. The witness is that of the
-- witness helper, a parameter here that Cli/Witness fills.
pub mod Built
use open_zk.Common.{ℕ, Bool, if◌then◌else◌, Option, [], ◌∷◌, ◌++◌, Text, codes}
use open_zk.Common.Outcome.{err}
use open_zk.Common.Io.{Io, ◌>>=◌, pure, map_err}
use open_zk.Core.{ProofArtifact}
use open_zk.Orchestrator.Intent.{ResolvedIntent}
use open_zk.Sdk.{OpenZkConfig, ConfigError, missing_field}
use open_zk.Sdk
use open_zk.Cli.Config.{CliConfig, to_sdk_config, is_mock_mode}
use open_zk.Cli.Files.{ConfigFiles, from_file}
use open_zk.Cli.Halt.{Halt, error}
use open_zk.Cli.Zkvms.{Zkvms, range_ethereum, mock_message, run_prover}
use open_zk.Host.Adapter.{RawWitness}
use open_zk.Host.Prover.{mock_prover, new_mock_program}

abbrev pub config_message : ConfigError → Text
config_message (missing_field name) = codes "missing required field: " ++ name

-- `CliConfig::from_file` and `to_sdk_config`, with which the commands begin.
module _ {W : Type 0} (files : ConfigFiles W) where
  unfoldable pub load_intent : Text → Io W Halt (CliConfig × ResolvedIntent)
  unfolding from_file to_sdk_config Sdk.resolve
  load_intent path = do
    config ← λ w. map_err error (from_file files path w)
    sdk_config ← λ w.
        map_err (λ e. error (codes "config error: " ++ config_message e)) (to_sdk_config config, w)
    pure (config, Sdk.resolve sdk_config)

abbrev pub needs_kona : Text → Halt
needs_kona what = error (
    what
    ++ codes " requires the `kona` feature "
    ++ (226 ∷ 128 ∷ 148 ∷ [])
    ++ codes " compile with: cargo build --bin open-zk --features kona")

module _ {W Stdin Key Proof Builder Env Receipt : Type 0} (has_kona : Bool)
    (zkvms : Zkvms W Stdin Key Proof Builder Env Receipt) (files : ConfigFiles W)
    (sp1_prover : W → Option Text) (generate : CliConfig → ℕ → ℕ → Io W Halt RawWitness) where
  -- The branch without the mock.
  unfoldable pub prove_range : CliConfig → ResolvedIntent → ℕ → ℕ → Io W Halt ProofArtifact
  unfolding run_prover
  prove_range config intent start_block end_block w =
      if has_kona
      then ((do witness ← generate config start_block end_block; run_prover zkvms intent witness) w)
      else (err (needs_kona (codes "real proving")), w)

  -- The artifact that `execute` prints.
  unfoldable pub prove_command : Text → ℕ → ℕ → Io W Halt ProofArtifact
  unfolding load_intent is_mock_mode mock_prover new_mock_program prove_range
  prove_command path start_block end_block = do
    (config, intent) ← load_intent files path
    λ w.
        if is_mock_mode (sp1_prover w) config
        then map_err (λ e. error (mock_message e))
            (mock_prover.prove (new_mock_program range_ethereum) (record { data_bytes = [] })
              intent.proving_mode w)
        else prove_range config intent start_block end_block w
