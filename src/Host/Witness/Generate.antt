-- ===== src/Host/Witness/Generate.antt =====
-- crates/host/src/witness/rpc.rs: a witness for a request, from end to end.
pub mod Inputs
pub mod Steps
pub mod Contents
pub mod Planned
use open_zk.Common.{ℕ, Option, none, some, List, [], ◌∷◌, ◌++◌, Text, codes, decimal}
use open_zk.Common.Outcome.{Result, ok, err}
use open_zk.Common.Io.{Io, ◌>>=◌, pure, map_err, ok_or_fail}
use open_zk.Common.Maps.{Map, insert}
use open_zk.Core.{Bytes, B256, ProofRequest, BootInfo}
use open_zk.Core.Abi.{AbiCodec, boot_to_abi_bytes}
use open_zk.Host.Adapter.{RawWitness}
use open_zk.Host.KvStore.{ArcMemoryKvStore, snapshot, serialize_preimages}
use open_zk.Host.Witness.{
  RpcWitnessProvider, Stop, failed, fetch, SingleChainHost, Values, Header, Outside,
}
use open_zk.Host.Witness.Answers.{l1_chain_id_of}
use open_zk.Host.Witness.Config.{
  connection_error, fetch_error, pure_result, ensure_rollup_config, ensure_l1_config,
  compute_rollup_config_hash,
}
use open_zk.Host.Witness.Output.{fetch_output_root}
use open_zk.Host.Witness.Collect.{build_host_config, collect_witness}

-- `1u64..=7`
abbrev pub local_key_indices : List ℕ
local_key_indices = 1 ∷ 2 ∷ 3 ∷ 4 ∷ 5 ∷ 6 ∷ 7 ∷ []

unfoldable pub boot_info_of : ProofRequest → B256 → B256 → BootInfo
boot_info_of request claimed_l2_output_root rollup_config_hash = record {
  l1_head = request.l1_head;
  l2_pre_root = request.l2_start_output_root;
  l2_claim = claimed_l2_output_root;
  l2_block_number = request.l2_end_block;
  rollup_config_hash = rollup_config_hash;
}

-- The key and the value of a local key, where kona's local inputs have one.
abbrev pub local_entry : B256 → Option Bytes → List (B256 × Bytes)
local_entry key none = []
local_entry key (some value) = (key, value) ∷ []

module _ {W Json : Type 0} (outside : Outside W Json) where
  abbrev pub insert_some : B256 → Option Bytes → Map → Map
  insert_some key none preimages = preimages
  insert_some key (some value) preimages = insert key value preimages

  -- The loop over the local keys.
  unfoldable pub inject_local : SingleChainHost → List ℕ → Map → W → Map
  inject_local host [] preimages w = preimages
  inject_local host (index ∷ indices) preimages w =
      let key = outside.local_key index in
      inject_local host indices (insert_some key (outside.local_get host key w) preimages) w

  unfoldable pub fetch_start_hash : Text → ProofRequest → Io W Stop B256
  unfolding decimal
  fetch_start_hash l2_url request = do
    found ← λ w.
        map_err (fetch_error (codes "L2 start block: "))
          (outside.get_block_by_number l2_url request.l2_start_block w)
    header ←
        ok_or_fail found (
          failed
            (fetch (codes "L2 block " ++ decimal request.l2_start_block ++ codes " not found")))
    pure header.hash

  module _ (archive : Map → Bytes) (codec : AbiCodec) where
    -- Steps 6 and 7, for the host's configuration and the boot information.
    unfoldable pub finish_witness : SingleChainHost → BootInfo → Io W Stop RawWitness
    unfolding collect_witness snapshot serialize_preimages inject_local
    finish_witness host boot_info = do
      store ← collect_witness outside host
      λ w. (
        ok (record {
          boot_info = boot_to_abi_bytes codec boot_info;
          oracle_data =
              serialize_preimages archive (inject_local host local_key_indices (snapshot store) w);
          blob_data = [];
        }),
        w,
      )

module _ {W Json : Type 0} (values : Values Json) (outside : Outside W Json) where
  unfoldable pub read_chain_id : Text → Io W Stop ℕ
  unfolding l1_chain_id_of
  read_chain_id rollup_config_path = do
    contents ← λ w.
        map_err (fetch_error (codes "re-read rollup config: "))
          (outside.read_to_string rollup_config_path w)
    rollup_json ←
        pure_result (fetch_error (codes "re-parse rollup config: ")) (values.parse contents)
    pure (l1_chain_id_of values rollup_json)

  module _ (archive : Map → Bytes) (codec : AbiCodec) where
    unfoldable pub generate_witness : RpcWitnessProvider → ProofRequest → Io W Stop RawWitness
    unfolding ensure_rollup_config compute_rollup_config_hash fetch_start_hash fetch_output_root
        read_chain_id ensure_l1_config build_host_config finish_witness boot_info_of
    generate_witness self request = do
      rollup_config_path ← ensure_rollup_config values outside self
      rollup_config_hash ← compute_rollup_config_hash values outside rollup_config_path
      l2_url ←
          pure_result (connection_error (codes "invalid L2 URL: "))
            (outside.parse_url self.l2_rpc_url)
      agreed_l2_head_hash ← fetch_start_hash outside l2_url request
      claimed_l2_output_root ← fetch_output_root values outside self l2_url request.l2_end_block
      l1_chain_id ← read_chain_id rollup_config_path
      l1_config_path ← ensure_l1_config values outside self l1_chain_id
      finish_witness outside archive codec
          (build_host_config self request agreed_l2_head_hash claimed_l2_output_root
            rollup_config_path l1_config_path)
          (boot_info_of request claimed_l2_output_root rollup_config_hash)
