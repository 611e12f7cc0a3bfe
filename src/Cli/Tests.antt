-- ===== src/Cli/Tests.antt =====
-- The default configuration file, and one with words that are not known.
use open_zk.Common.{◌≡◌, refl, none, List, codes, length, replicate, arith, true, bytes_eq, decimal}
use open_zk.Common.Outcome.{ok, returned}
use open_zk.Common.Words.{debug}
use open_zk.Core.{ProofRequest, beacon, groth16, sp1, standard}
use open_zk.Orchestrator.Intent.{ResolvedIntent}
use open_zk.Orchestrator.Monitor.{ChainState}
use open_zk.Orchestrator.Planner.{plan_range}
use open_zk.Sdk.{OpenZkConfig, resolve}
use open_zk.Cli.Config.{
  CliConfig, NetworkConfig, default_proving, default_pricing, to_sdk_config, is_mock_mode,
  security_of,
}
use open_zk.Cli.Config.Resolution.{Usable, to_sdk_config-Usable}
use open_zk.Cli.Estimate.{num_ranges, format_duration}
use open_zk.Cli.Estimate.Ranges.{num_ranges-plan_range}

abbrev network : NetworkConfig
network = record {
  l1_rpc_url = codes "http://localhost:8545";
  l2_rpc_url = codes "http://localhost:9545";
  l1_beacon_url = codes "http://localhost:5052";
  op_node_url = none;
  chain_id = none;
}

abbrev mock_file : CliConfig
mock_file = record {
  network = network;
  proving = record default_proving { backend = codes "mock"; security = codes "maximum" };
  pricing = default_pricing;
}

to_sdk_config-Usable_example :
    (sdk : OpenZkConfig) × (to_sdk_config mock_file ≡ ok sdk)
    × Usable (codes "maximum") (codes "mock") (resolve sdk)
to_sdk_config-Usable_example = to_sdk_config-Usable mock_file

mock_file-mock : is_mock_mode none mock_file ≡ true
unfolding is_mock_mode bytes_eq
mock_file-mock = refl

-- A word in another case is not an error: it is the default.
misspelt : security_of (codes "Maximum") ≡ standard
unfolding security_of bytes_eq
misspelt = refl

two_hours : format_duration 7384 ≡ codes "2h 3m"
unfolding format_duration decimal
two_hours = refl

abbrev state : ChainState
state = record {
  l1_head = replicate 32 9;
  l1_block_number = 500;
  l2_proven_block = 100;
  l2_safe_block = 125;
  timestamp = 0;
}

abbrev intent : ResolvedIntent
intent = record {
  proof_mode = beacon;
  backend = sp1;
  proving_mode = groth16;
  aggregation_window = 10;
}

num_ranges-plan_range_example :
    (requests : List ProofRequest) × (plan_range debug 25 intent 101 125 state ≡ returned requests)
    × (num_ranges debug intent 101 125 ≡ returned (length requests))
num_ranges-plan_range_example =
    num_ranges-plan_range debug 25 intent 101 125 state (omega arith) (omega arith) (omega arith)
      (omega arith)
