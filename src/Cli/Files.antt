-- ===== src/Cli/Files.antt =====
-- crates/cli/src/config.rs and crates/cli/src/commands/init.rs: the file of the configuration. The
-- file system and the form of TOML are parameters.
use open_zk.Common.{Bool, not, ◌&&◌, if◌then◌else◌, none, ◌++◌, Text, codes}
use open_zk.Common.Outcome.{Result, err}
use open_zk.Common.Io.{Io, ◌>>=◌}
use open_zk.Core.{Bytes}
use open_zk.Cli.Config.{CliConfig, default_proving, default_pricing}

pub record ConfigFiles (W : Type 0) : Type 0 where
  pub exists : Text → W → Bool
  pub read_to_string : Text → W → Result Text Bytes × W
  pub write : Text → Bytes → W → Result Text (Unit {0}) × W
  pub from_toml : Bytes → Result Text CliConfig
  pub to_toml : CliConfig → Bytes

abbrev pub default_config : CliConfig
default_config = record {
  network = record {
    l1_rpc_url = codes "http://localhost:8545";
    l2_rpc_url = codes "http://localhost:9545";
    l1_beacon_url = codes "http://localhost:5052";
    op_node_url = none;
    chain_id = none;
  };
  proving = default_proving;
  pricing = default_pricing;
}

module _ {W : Type 0} (files : ConfigFiles W) where
  unfoldable pub from_file : Text → Io W Text CliConfig
  from_file path = do content ← files.read_to_string path; λ w. (files.from_toml content, w)

  abbrev pub refused : Text → Text
  refused output =
      codes "Config file already exists at " ++ output ++ codes ". Use --force to overwrite."

  -- `open-zk init`
  unfoldable pub init : Text → Bool → Io W Text (Unit {0})
  init output force w =
      if files.exists output w && not force
      then (err (refused output), w)
      else files.write output (files.to_toml default_config) w
