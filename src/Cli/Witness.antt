-- ===== src/Cli/Witness.antt =====
-- crates/cli/src/commands/witness_helper.rs: the witness for a range of blocks, with its L1 head and
-- its start fetched from the nodes.
use open_zk.Common.{ℕ, Option, none, some, [], ◌∷◌, ◌++◌, Text, codes, hex}
use open_zk.Common.Outcome.{Result}
use open_zk.Common.Maybe.{unwrap_or}
use open_zk.Common.Io.{Io, ◌>>=◌, map_err, ok_or_fail}
use open_zk.Common.Maps.{Map}
use open_zk.Core.{Bytes, B256, ProofRequest, execute}
use open_zk.Core.Abi.{AbiCodec}
use open_zk.Cli.Config.{CliConfig}
use open_zk.Cli.Halt.{Halt, error, panic}
use open_zk.Host.Adapter.{RawWitness}
use open_zk.Host.Witness.{
  RpcWitnessProvider, new_provider, with_op_node_url, with_chain_id, RpcWitnessError, connection,
  fetch, serialization, kona_host, kona_client, Stop, failed, Values, Outside, Header,
}
use open_zk.Host.Witness.Generate.{generate_witness}

abbrev pub error_text : RpcWitnessError → Text
error_text (connection e) = codes "RPC connection failed: " ++ e
error_text (fetch e) = codes "data fetching failed: " ++ e
error_text (serialization e) = codes "witness serialization failed: " ++ e
error_text (kona_host e) = codes "kona host error: " ++ e
error_text (kona_client e) = codes "kona client error: " ++ e

abbrev pub halted : Stop → Halt
halted (failed e) = error (error_text e)
halted Stop.panic = panic

abbrev pub default_op_node_url : Text
default_op_node_url = codes "http://127.0.0.1:7545"

unfoldable pub helper_provider : CliConfig → RpcWitnessProvider
helper_provider c = with_chain_id (unwrap_or c.network.chain_id 901) (
    with_op_node_url (unwrap_or c.network.op_node_url default_op_node_url)
      (new_provider c.network.l1_rpc_url c.network.l2_rpc_url c.network.l1_beacon_url))

unfoldable pub helper_request : B256 → B256 → ℕ → ℕ → ProofRequest
helper_request l1_head l2_start_output_root start_block end_block = record {
  l1_head = l1_head;
  l2_start_block = start_block;
  l2_end_block = end_block;
  l2_start_output_root = l2_start_output_root;
  mode = execute;
}

abbrev text_of : {Json : Type 0} → Values Json → Option Json → Option Text
text_of values none = none
text_of values (some value) = values.as_str value

module _ {W Json : Type 0} (values : Values Json) where
  -- `latest` is the latest block of a node, and `parse_root` the parsing of a hash with its error.
  module _ (outside : Outside W Json) (latest : Text → W → Result Text (Option Header) × W)
      (parse_root : Text → Result Text B256) (archive : Map → Bytes) (codec : AbiCodec) where
    unfoldable pub fetch_start_root : Text → ℕ → Io W Halt B256
    unfolding hex
    fetch_start_root op_node_url start_block = do
      url ← λ w. map_err error (outside.parse_url op_node_url, w)
      resp ← λ w. map_err error (
          outside.raw_request url (codes "optimism_outputAtBlock")
            ((codes "0x" ++ hex start_block) ∷ []) w)
      root_str ←
          ok_or_fail (text_of values (values.get_field resp (codes "outputRoot")))
            (error (codes "failed to get output root"))
      λ w. map_err error (parse_root root_str, w)

    unfoldable pub helper_witness : CliConfig → ℕ → ℕ → Io W Halt RawWitness
    unfolding fetch_start_root helper_provider helper_request generate_witness
    helper_witness c start_block end_block = do
      l1_url ← λ w. map_err error (outside.parse_url c.network.l1_rpc_url, w)
      found ← λ w. map_err error (latest l1_url w)
      l1_block ← ok_or_fail found (error (codes "L1 latest block not found"))
      root ← fetch_start_root (unwrap_or c.network.op_node_url default_op_node_url) start_block
      λ w. map_err halted (
          generate_witness values outside archive codec (helper_provider c)
            (helper_request l1_block.hash root start_block end_block) w)
