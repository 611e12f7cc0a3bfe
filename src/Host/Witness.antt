-- ===== src/Host/Witness.antt =====
-- crates/host/src/witness/rpc.rs: the provider that collects a witness from the nodes. The nodes, the
-- files, serde's JSON values, kona's host and client and the hash are parameters: the two records
-- `Values` and `Outside` have a field for each of the calls.
pub mod Forks
pub mod Config
pub mod Answers
pub mod Output
pub mod Collect
pub mod Generate
pub mod Mock
use open_zk.Common.{ℕ, Bool, Option, none, some, List, Text}
use open_zk.Common.Outcome.{Result}
use open_zk.Core.{Bytes, B256, ProofRequest}

pub record RpcWitnessProvider : Type 0 where
  pub l1_rpc_url : Text
  pub l2_rpc_url : Text
  pub l1_beacon_url : Text
  pub op_node_url : Option Text
  pub rollup_config_path : Option Text
  pub l2_chain_id : Option ℕ

pub data RpcWitnessError : Type 0 where
  connection fetch serialization kona_host kona_client : Text → RpcWitnessError

-- How a call of the provider ends without a value: with its error, or with a panic.
pub data Stop : Type 0 where
  failed : RpcWitnessError → Stop
  panic : Stop

abbrev pub new_provider : Text → Text → Text → RpcWitnessProvider
new_provider l1_rpc_url l2_rpc_url l1_beacon_url = record {
  l1_rpc_url = l1_rpc_url;
  l2_rpc_url = l2_rpc_url;
  l1_beacon_url = l1_beacon_url;
  op_node_url = none;
  rollup_config_path = none;
  l2_chain_id = none;
}

abbrev pub with_op_node_url : Text → RpcWitnessProvider → RpcWitnessProvider
with_op_node_url url self = record self { op_node_url = some url }

abbrev pub with_rollup_config : Text → RpcWitnessProvider → RpcWitnessProvider
with_rollup_config path self = record self { rollup_config_path = some path }

abbrev pub with_chain_id : ℕ → RpcWitnessProvider → RpcWitnessProvider
with_chain_id chain_id self = record self { l2_chain_id = some chain_id }

-- `serde_json::Value`: parsing and printing, the fields of an object, and the literals of `json!`.
pub record Values (Json : Type 0) : Type 0 where
  pub parse : Bytes → Result Text Json
  pub to_vec : Json → Result Text Bytes
  pub to_string_pretty : Json → Result Text Bytes
  pub get_field : Json → Text → Option Json
  -- `value[key] = field`; `none` where it panics
  pub set_field : Json → Text → Json → Option Json
  pub is_null : Json → Bool
  pub as_str : Json → Option Text
  pub as_u64 : Json → Option ℕ
  pub object : List (Text × Json) → Json
  pub number : ℕ → Json
  pub string : Text → Json
  pub bool : Bool → Json

-- kona's `SingleChainHost`, without the fields that keep their defaults.
pub record SingleChainHost : Type 0 where
  pub l1_head : B256
  pub agreed_l2_head_hash : B256
  pub agreed_l2_output_root : B256
  pub claimed_l2_output_root : B256
  pub claimed_l2_block_number : ℕ
  pub l1_node_address : Option Text
  pub l2_node_address : Option Text
  pub l1_beacon_address : Option Text
  pub native : Bool
  pub server : Bool
  pub l2_chain_id : Option ℕ
  pub rollup_config_path : Option Text
  pub l1_config_path : Option Text
  pub data_dir : Option Text

-- The header of an L2 block, as far as it is read.
pub record Header : Type 0 where
  pub hash : B256
  pub state_root : B256
  pub withdrawals_root : Option B256

-- How the task of kona's client ended.
pub data ClientEnd : Type 0 where
  completed : ClientEnd
  client_error join_error : Text → ClientEnd

pub record Outside (W Json : Type 0) : Type 0 where
  -- files: `canonicalize`, `read_to_string`, `read`, `write`, `temp_dir().join(..)`, `id()`
  pub canonicalize : Text → W → Result Text Text × W
  pub read_to_string : Text → W → Result Text Bytes × W
  pub read : Text → W → Result Text Bytes × W
  pub write : Text → Bytes → W → Result Text (Unit {0}) × W
  pub temp_file : Text → Text
  pub process_id : ℕ
  -- nodes: the parsing of a URL, a raw request at a URL, and a block with its number
  pub parse_url : Text → Result Text Text
  pub raw_request : Text → Text → List Text → W → Result Text Json × W
  pub get_block_by_number : Text → ℕ → W → Result Text (Option Header) × W
  pub parse_b256 : Text → Option B256
  pub keccak256 : Bytes → B256
  -- kona: the checks of a host, its providers, a channel, and a run of the client against the
  -- preimage server, with the server's writes to the store in their order
  pub read_rollup_config : SingleChainHost → W → Result Text (Unit {0}) × W
  pub read_l1_config : SingleChainHost → W → Result Text (Unit {0}) × W
  pub create_providers : SingleChainHost → W → Result Text (Unit {0}) × W
  pub new_channel : W → Result Text (Unit {0}) × W
  pub run_client : SingleChainHost → W → (ClientEnd × List (B256 × Bytes)) × W
  -- `SingleChainLocalInputs::get`, and `PreimageKey::new_local`
  pub local_get : SingleChainHost → B256 → W → Option Bytes
  pub local_key : ℕ → B256
