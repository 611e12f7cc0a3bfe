-- ===== src/Host/Witness/Config.antt =====
-- crates/host/src/witness/rpc.rs: the configuration files that kona's host reads.
use open_zk.Common.{ℕ, true, Option, none, some, [], ◌∷◌, ◌++◌, Text, codes, decimal}
use open_zk.Common.Outcome.{Result, ok, err}
use open_zk.Common.Io.{Io, ◌>>=◌, pure, map_err, ok_or_fail}
use open_zk.Core.{Bytes, B256}
use open_zk.Host.Witness.{
  RpcWitnessProvider, Stop, failed, panic, connection, fetch, serialization, Values, Outside,
}
use open_zk.Host.Witness.Forks.{fork_mappings, merge_forks}

abbrev pub connection_error : Text → Text → Stop
connection_error what e = failed (connection (what ++ e))

abbrev pub fetch_error : Text → Text → Stop
fetch_error what e = failed (fetch (what ++ e))

abbrev pub serialization_error : Text → Text → Stop
serialization_error what e = failed (serialization (what ++ e))

-- A result that does not depend on the world.
abbrev pub pure_result : {W A : Type 0} → (Text → Stop) → Result Text A → Io W Stop A
pure_result f r w = map_err f (r, w)

module _ {W Json : Type 0} (values : Values Json) (outside : Outside W Json) where
  abbrev checked : Text → Result Text Json → Option Text
  checked abs_path (err e) = none
  checked abs_path (ok value) = some abs_path

  abbrev readable : Text → Result Text Bytes × W → Option Text × W
  readable abs_path (err e, w) = (none, w)
  readable abs_path (ok contents, w) = (checked abs_path (values.parse contents), w)

  abbrev canonical : Result Text Text × W → Option Text × W
  canonical (err e, w) = (none, w)
  canonical (ok abs_path, w) = readable abs_path (outside.read_to_string abs_path w)

  -- The path that is configured, where it leads to a file of JSON.
  unfoldable pub existing_config : Option Text → W → Option Text × W
  existing_config none w = (none, w)
  existing_config (some path) w = canonical (outside.canonicalize path w)

  -- What the answer of `debug_chainConfig` adds; nothing where the node does not know the method.
  unfoldable pub with_chain_config : Json → Result Text Json × W → Result Stop Json × W
  unfolding merge_forks
  with_chain_config rollup_config (err e, w) = (ok rollup_config, w)
  with_chain_config rollup_config (ok chain_config, w) =
      ok_or_fail (merge_forks values chain_config fork_mappings rollup_config) panic w

  -- The file with the number of the process in its name.
  abbrev tmp_path : Text → Text
  tmp_path name = outside.temp_file (name ++ decimal outside.process_id ++ codes ".json")

  unfoldable pub write_config : Text → Text → Text → Json → Io W Stop Text
  unfolding decimal
  write_config name what shown value = do
    config_str ←
        pure_result (serialization_error (what ++ codes " serialization: "))
          (values.to_string_pretty value)
    _ ← λ w.
        map_err
          (fetch_error
            (codes "failed to write " ++ shown ++ codes " to " ++ tmp_path name ++ codes ": "))
          (outside.write (tmp_path name) config_str w)
    pure (tmp_path name)

  -- The configuration from the nodes.
  unfoldable pub fetch_rollup_config : RpcWitnessProvider → Io W Stop Text
  unfolding with_chain_config write_config
  fetch_rollup_config self = do
    op_node_url ← ok_or_fail self.op_node_url (
        failed (
          fetch (
            codes
              "no rollup config path or OP Node URL provided; set one via with_rollup_config() or with_op_node_url()")))
    op_url ←
        pure_result (connection_error (codes "invalid OP Node URL: "))
          (outside.parse_url op_node_url)
    rollup_config ← λ w.
        map_err (fetch_error (codes "optimism_rollupConfig RPC failed: "))
          (outside.raw_request op_url (codes "optimism_rollupConfig") [] w)
    l2_url ←
        pure_result (connection_error (codes "invalid L2 URL: "))
          (outside.parse_url self.l2_rpc_url)
    merged ← λ w.
        with_chain_config rollup_config
          (outside.raw_request l2_url (codes "debug_chainConfig") [] w)
    write_config (codes "open-zk-rollup-config-") (codes "rollup config") (codes "rollup config")
        merged

  abbrev or_fetched : RpcWitnessProvider → Option Text × W → Result Stop Text × W
  or_fetched self (some abs_path, w) = (ok abs_path, w)
  or_fetched self (none, w) = fetch_rollup_config self w

  unfoldable pub ensure_rollup_config : RpcWitnessProvider → Io W Stop Text
  unfolding existing_config fetch_rollup_config
  ensure_rollup_config self w = or_fetched self (existing_config self.rollup_config_path w)

  -- The literal of `json!`, for a development chain.
  unfoldable pub default_l1_config : ℕ → Json
  default_l1_config l1_chain_id = values.object (
      (codes "chainId", values.number l1_chain_id)
      ∷ (codes "homesteadBlock", values.number 0)
      ∷ (codes "eip150Block", values.number 0)
      ∷ (codes "eip155Block", values.number 0)
      ∷ (codes "eip158Block", values.number 0)
      ∷ (codes "byzantiumBlock", values.number 0)
      ∷ (codes "constantinopleBlock", values.number 0)
      ∷ (codes "petersburgBlock", values.number 0)
      ∷ (codes "istanbulBlock", values.number 0)
      ∷ (codes "berlinBlock", values.number 0)
      ∷ (codes "londonBlock", values.number 0)
      ∷ (codes "shanghaiTime", values.number 0)
      ∷ (codes "cancunTime", values.number 0)
      ∷ (codes "terminalTotalDifficulty", values.string (codes "0"))
      ∷ (codes "terminalTotalDifficultyPassed", values.bool true)
      ∷ [])

  abbrev or_default : ℕ → Result Text Json × W → Result Stop Json × W
  or_default l1_chain_id (err e, w) = (ok (default_l1_config l1_chain_id), w)
  or_default l1_chain_id (ok config, w) = (ok config, w)

  unfoldable pub ensure_l1_config : RpcWitnessProvider → ℕ → Io W Stop Text
  unfolding default_l1_config write_config
  ensure_l1_config self l1_chain_id = do
    l1_url ←
        pure_result (connection_error (codes "invalid L1 URL: "))
          (outside.parse_url self.l1_rpc_url)
    l1_config ←
        λ w. or_default l1_chain_id (outside.raw_request l1_url (codes "debug_chainConfig") [] w)
    write_config (codes "open-zk-l1-config-") (codes "l1 config") (codes "L1 config") l1_config

  unfoldable pub compute_rollup_config_hash : Text → Io W Stop B256
  compute_rollup_config_hash rollup_config_path = do
    contents ← λ w.
        map_err
          (fetch_error
            (codes "failed to read rollup config at " ++ rollup_config_path ++ codes ": "))
          (outside.read rollup_config_path w)
    value ← pure_result (fetch_error (codes "invalid rollup config JSON: ")) (values.parse contents)
    canonical_bytes ←
        pure_result (serialization_error (codes "rollup config serialization: "))
          (values.to_vec value)
    pure (outside.keccak256 canonical_bytes)
