-- ===== src/Cli/Config.antt =====
-- crates/cli/src/config.rs: the configuration file, and the SDK configuration made of it. Reading
-- the file and its TOML are the file system's and a library's. An optional price is left out, since
-- it is a floating-point number that nothing here reads.
pub mod Resolution
use open_zk.Common.{
  ℕ, Bool, true, false, ◌||◌, if◌then◌else◌, Option, none, some, List, [], ◌∷◌, Text, codes,
  bytes_eq,
}
use open_zk.Common.Outcome.{Result}
use open_zk.Core.{
  SecurityLevel, maximum, standard, economy, ZkvmBackend, sp1, risc_zero, auto, mock,
}
use open_zk.Sdk.{
  OpenZkConfig, ConfigError, builder, with_backend, with_allowed_backends, with_target_finality,
  with_security, with_l1_rpc_url, with_l2_rpc_url, with_l1_beacon_url, build,
}

pub record NetworkConfig : Type 0 where
  pub l1_rpc_url : Text
  pub l2_rpc_url : Text
  pub l1_beacon_url : Text
  pub op_node_url : Option Text
  pub chain_id : Option ℕ

pub record ProvingConfig : Type 0 where
  pub backend : Text
  pub allowed_backends : List Text
  pub security : Text
  pub target_finality_secs : ℕ
  pub max_concurrent_proofs : ℕ

pub record PricingConfig : Type 0 where
  pub provider : Text
  pub boundless_percentile : Text

pub record CliConfig : Type 0 where
  pub network : NetworkConfig
  pub proving : ProvingConfig
  pub pricing : PricingConfig

-- `ProvingConfig::default` and the functions it calls.
abbrev pub default_proving : ProvingConfig
default_proving = record {
  backend = codes "auto";
  allowed_backends = codes "sp1" ∷ codes "risc0" ∷ [];
  security = codes "standard";
  target_finality_secs = 1800;
  max_concurrent_proofs = 4;
}

-- `PricingConfig::default` and the functions it calls.
abbrev pub default_pricing : PricingConfig
default_pricing = record { provider = codes "auto"; boundless_percentile = codes "p50" }

-- The three `match`es of `to_sdk_config`: the security level,
unfoldable pub security_of : Text → SecurityLevel
security_of s =
    if bytes_eq s (codes "maximum")
    then maximum
    else if bytes_eq s (codes "economy")
    then economy
    else standard

-- the backend,
unfoldable pub backend_of : Text → ZkvmBackend
backend_of s =
    if bytes_eq s (codes "sp1")
    then sp1
    else if bytes_eq s (codes "risc0")
    then risc_zero
    else if bytes_eq s (codes "mock")
    then mock
    else auto

-- and the names that are kept of the allowed backends.
unfoldable pub allowed_of : List Text → List ZkvmBackend
allowed_of [] = []
allowed_of (s ∷ rest) =
    let others = allowed_of rest in
    if bytes_eq s (codes "sp1")
    then sp1 ∷ others
    else if bytes_eq s (codes "risc0")
    then risc_zero ∷ others
    else others

unfoldable pub to_sdk_config : CliConfig → Result ConfigError OpenZkConfig
unfolding security_of backend_of allowed_of build
to_sdk_config c = build (
    with_l1_beacon_url c.network.l1_beacon_url (
      with_l2_rpc_url c.network.l2_rpc_url (
        with_l1_rpc_url c.network.l1_rpc_url (
          with_security (security_of c.proving.security) (
            with_target_finality c.proving.target_finality_secs (
              with_allowed_backends (allowed_of c.proving.allowed_backends)
                (with_backend (backend_of c.proving.backend) builder)))))))

-- `sp1_prover` is the environment variable `SP1_PROVER`, where it is set and is text.
unfoldable pub is_mock_mode : Option Text → CliConfig → Bool
is_mock_mode none c = bytes_eq c.proving.backend (codes "mock")
is_mock_mode (some sp1_prover) c =
    bytes_eq c.proving.backend (codes "mock") || bytes_eq sp1_prover (codes "mock")
