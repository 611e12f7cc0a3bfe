-- ===== src/Host/Witness/Collect.antt =====
-- crates/host/src/witness/rpc.rs: the run of kona's client that fills the store. The preimage server
-- runs beside it and is stopped behind it; the writes of the two are the parameter's.
use open_zk.Common.{true, false, none, some, List, ◌++◌, Text, codes}
use open_zk.Common.Outcome.{Result, ok, err}
use open_zk.Common.Io.{Io, ◌>>=◌, map_err}
use open_zk.Core.{Bytes, B256, ProofRequest}
use open_zk.Host.KvStore.{ArcMemoryKvStore, new_kv, set_all}
use open_zk.Host.Witness.{
  RpcWitnessProvider, Stop, failed, kona_host, kona_client, SingleChainHost, ClientEnd, completed,
  client_error, join_error, Outside,
}
use open_zk.Host.Witness.Config.{connection_error}

unfoldable pub build_host_config :
    RpcWitnessProvider → ProofRequest → B256 → B256 → Text → Text → SingleChainHost
build_host_config self request agreed_l2_head_hash claimed_l2_output_root rollup_config_path
      l1_config_path =
    record {
      l1_head = request.l1_head;
      agreed_l2_head_hash = agreed_l2_head_hash;
      agreed_l2_output_root = request.l2_start_output_root;
      claimed_l2_output_root = claimed_l2_output_root;
      claimed_l2_block_number = request.l2_end_block;
      l1_node_address = some self.l1_rpc_url;
      l2_node_address = some self.l2_rpc_url;
      l1_beacon_address = some self.l1_beacon_url;
      native = true;
      server = false;
      l2_chain_id = self.l2_chain_id;
      rollup_config_path = some rollup_config_path;
      l1_config_path = some l1_config_path;
      data_dir = none;
    }

abbrev unreadable : Text → Text → Stop
unreadable what e =
    failed (kona_host (what ++ codes " not readable (SingleChainLocalInputs will fail): " ++ e))

-- The store that the writes made, where the client came to its end.
unfoldable pub collected :
    {W : Type 0} → (ClientEnd × List (B256 × Bytes)) × W → Result Stop ArcMemoryKvStore × W
collected ((completed, writes), w) = (ok (set_all writes new_kv), w)
collected ((client_error e, writes), w) = (err (failed (kona_client e)), w)
collected ((join_error e, writes), w) =
    (err (failed (kona_client (codes "client task panicked: " ++ e))), w)

module _ {W Json : Type 0} (outside : Outside W Json) where
  unfoldable pub collect_witness : SingleChainHost → Io W Stop ArcMemoryKvStore
  unfolding collected
  collect_witness host = do
    _ ← λ w. map_err (unreadable (codes "rollup config")) (outside.read_rollup_config host w)
    _ ← λ w. map_err (unreadable (codes "L1 config")) (outside.read_l1_config host w)
    _ ← λ w. map_err (connection_error (codes "")) (outside.create_providers host w)
    _ ← λ w. map_err (connection_error (codes "")) (outside.new_channel w)
    _ ← λ w. map_err (connection_error (codes "")) (outside.new_channel w)
    λ w. collected (outside.run_client host w)
