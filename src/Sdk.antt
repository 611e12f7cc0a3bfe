-- ===== src/Sdk.antt =====
-- crates/sdk/src/config.rs: the configuration that an application builds, and what it resolves to.
-- A duration is its number of seconds.
use open_zk.Common.{ℕ, ◌*◌, Option, none, some, List, Text, codes}
use open_zk.Common.Outcome.{Result, ok}
use open_zk.Common.Fallible.{◌>>=◌}
use open_zk.Common.Maybe.{unwrap_or, ok_or}
use open_zk.Core.{SecurityLevel, standard, ZkvmBackend, auto}
use open_zk.Orchestrator.Intent.{ResolvedIntent, default_allowed_backends}
use open_zk.Orchestrator.Intent

pub record OpenZkConfig : Type 0 where
  pub backend : ZkvmBackend
  pub allowed_backends : List ZkvmBackend
  pub target_finality : ℕ
  pub security : SecurityLevel
  pub l1_rpc_url : Text
  pub l2_rpc_url : Text
  pub l1_beacon_url : Text

-- `OpenZkConfig::resolve`
unfoldable pub resolve : OpenZkConfig → ResolvedIntent
resolve c = Intent.resolve c.backend c.allowed_backends c.target_finality c.security

pub record OpenZkConfigBuilder : Type 0 where
  pub backend : Option ZkvmBackend
  pub allowed_backends : Option (List ZkvmBackend)
  pub target_finality : Option ℕ
  pub security : Option SecurityLevel
  pub l1_rpc_url : Option Text
  pub l2_rpc_url : Option Text
  pub l1_beacon_url : Option Text

pub data ConfigError : Type 0 where
  missing_field : Text → ConfigError

-- `OpenZkConfig::builder`
abbrev pub builder : OpenZkConfigBuilder
builder = record {
  backend = none;
  allowed_backends = none;
  target_finality = none;
  security = none;
  l1_rpc_url = none;
  l2_rpc_url = none;
  l1_beacon_url = none;
}

abbrev pub with_backend : ZkvmBackend → OpenZkConfigBuilder → OpenZkConfigBuilder
with_backend v self = record self { backend = some v }

abbrev pub with_allowed_backends : List ZkvmBackend → OpenZkConfigBuilder → OpenZkConfigBuilder
with_allowed_backends v self = record self { allowed_backends = some v }

abbrev pub with_target_finality : ℕ → OpenZkConfigBuilder → OpenZkConfigBuilder
with_target_finality v self = record self { target_finality = some v }

abbrev pub with_security : SecurityLevel → OpenZkConfigBuilder → OpenZkConfigBuilder
with_security v self = record self { security = some v }

abbrev pub with_l1_rpc_url : Text → OpenZkConfigBuilder → OpenZkConfigBuilder
with_l1_rpc_url v self = record self { l1_rpc_url = some v }

abbrev pub with_l2_rpc_url : Text → OpenZkConfigBuilder → OpenZkConfigBuilder
with_l2_rpc_url v self = record self { l2_rpc_url = some v }

abbrev pub with_l1_beacon_url : Text → OpenZkConfigBuilder → OpenZkConfigBuilder
with_l1_beacon_url v self = record self { l1_beacon_url = some v }

unfoldable pub build : OpenZkConfigBuilder → Result ConfigError OpenZkConfig
build self = do
  l1_rpc_url ← ok_or self.l1_rpc_url (missing_field (codes "l1_rpc_url"))
  l2_rpc_url ← ok_or self.l2_rpc_url (missing_field (codes "l2_rpc_url"))
  l1_beacon_url ← ok_or self.l1_beacon_url (missing_field (codes "l1_beacon_url"))
  ok (record {
    backend = unwrap_or self.backend auto;
    allowed_backends = unwrap_or self.allowed_backends default_allowed_backends;
    target_finality = unwrap_or self.target_finality (30 * 60);
    security = unwrap_or self.security standard;
    l1_rpc_url = l1_rpc_url;
    l2_rpc_url = l2_rpc_url;
    l1_beacon_url = l1_beacon_url;
  })
