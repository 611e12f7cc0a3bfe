-- ===== src/Host/Witness/Generate/Steps.antt =====
-- The steps that lie behind a witness.
use open_zk.Common.{ℕ, ◌≡◌, ap, sym, ◌∙◌, some, List, [], Text}
use open_zk.Common.Outcome.{ok}
use open_zk.Common.Io.{after-eq-ok, after-result}
use open_zk.Common.Maps.{Map}
use open_zk.Core.{Bytes, B256, ProofRequest, BootInfo}
use open_zk.Core.Abi.{AbiCodec, boot_to_abi_bytes}
use open_zk.Host.Adapter.{RawWitness}
use open_zk.Host.KvStore.{new_kv, set_all, snapshot, serialize_preimages}
use open_zk.Host.Witness.{RpcWitnessProvider, SingleChainHost, completed, Values, Header, Outside}
use open_zk.Host.Witness.Config.{ensure_rollup_config, ensure_l1_config, compute_rollup_config_hash}
use open_zk.Host.Witness.Output.{fetch_output_root}
use open_zk.Host.Witness.Output.Sources.{RootOf, fetch_output_root-RootOf}
use open_zk.Host.Witness.Collect.{build_host_config, collect_witness}
use open_zk.Host.Witness.Generate.Inputs.{
  ok_pair, HashOf, compute_rollup_config_hash-HashOf, ChainIdOf, read_chain_id-ChainIdOf, Ready,
  collect_witness-eq-ok, fetch_start_hash-eq-ok,
}
use open_zk.Host.Witness.Generate.{
  local_key_indices, boot_info_of, inject_local, fetch_start_hash, read_chain_id, finish_witness,
  generate_witness,
}

module _ {W Json : Type 0} (values : Values Json) (outside : Outside W Json) (archive : Map → Bytes)
    (codec : AbiCodec) where
  -- The witness that is generated from the world `w` to the world `v`, by one step behind the other:
  -- the configuration with its hash, the header of the first block, the claimed root with its source,
  -- the number of the L1 chain, the configuration of L1, the checks, and the writes of the client's run.
  pub record Generated (self : RpcWitnessProvider) (request : ProofRequest) (w v : W)
      (witness : RawWitness) : Type 0 where
    pub rollup_config_path : Text
    pub behind_config : W
    pub config_ensured :
        ensure_rollup_config values outside self w ≡ (ok rollup_config_path, behind_config)
    pub rollup_config_hash : B256
    pub before_start : W
    pub config_hash :
        HashOf values outside rollup_config_path behind_config before_start rollup_config_hash
    pub l2_url : Text
    pub l2_url_parsed : outside.parse_url self.l2_rpc_url ≡ ok l2_url
    pub start : Header
    pub behind_start : W
    pub start_block :
        outside.get_block_by_number l2_url request.l2_start_block before_start
        ≡ (ok (some start), behind_start)
    pub agreed : B256
    pub agreed_hash : agreed ≡ start.hash
    pub claimed : B256
    pub behind_claimed : W
    pub claimed_fetched :
        fetch_output_root values outside self l2_url request.l2_end_block behind_start
        ≡ (ok claimed, behind_claimed)
    pub claimed_root : RootOf values outside self l2_url request.l2_end_block behind_claimed claimed
    pub l1_chain_id : ℕ
    pub behind_chain_id : W
    pub chain_id :
        ChainIdOf values outside rollup_config_path behind_claimed behind_chain_id l1_chain_id
    pub l1_config_path : Text
    pub before_checks : W
    pub l1_config_ensured :
        ensure_l1_config values outside self l1_chain_id behind_chain_id
        ≡ (ok l1_config_path, before_checks)
    pub before_run : W
    pub ready :
        Ready values outside
          (build_host_config self request agreed claimed rollup_config_path l1_config_path)
          before_checks
          before_run
    pub writes : List (B256 × Bytes)
    pub run :
        outside.run_client
          (build_host_config self request agreed claimed rollup_config_path l1_config_path)
          before_run
        ≡ ((completed, writes), v)
    pub boot_info :
        witness.boot_info
        ≡ boot_to_abi_bytes codec (boot_info_of request claimed rollup_config_hash)
    pub oracle_data :
        witness.oracle_data
        ≡ serialize_preimages archive (
            inject_local outside
              (build_host_config self request agreed claimed rollup_config_path l1_config_path)
              local_key_indices
              (snapshot (set_all writes new_kv))
              v)
    pub blob_data : witness.blob_data ≡ []

  finish_witness-eq-ok :
      (host : SingleChainHost) (boot_info : BootInfo) (w v : W) (witness : RawWitness)
      → finish_witness outside archive codec host boot_info w ≡ (ok witness, v)
      → (writes : List (B256 × Bytes)) × (u : W) × Ready values outside host w u
        × (outside.run_client host u ≡ ((completed, writes), v))
        × (witness.boot_info ≡ boot_to_abi_bytes codec boot_info)
        × (witness.oracle_data
            ≡ serialize_preimages archive
                (inject_local outside host local_key_indices (snapshot (set_all writes new_kv)) v))
        × (witness.blob_data ≡ [])
  unfolding finish_witness
  finish_witness-eq-ok host boot_info w v witness h =
      let (store, w1, e, rest) = after-eq-ok _ (collect_witness outside host w) h in
      let (writes, u, ready, run, filled) = collect_witness-eq-ok values outside host w w1 e in
      let (made, same) = ok_pair rest in
      (
        writes,
        u,
        ready,
        run ∙ ap (λ t. ((completed, writes), t)) same,
        sym (ap (λ (r : RawWitness). r.boot_info) made),
        sym (ap (λ (r : RawWitness). r.oracle_data) made)
            ∙ ap
                (λ s.
                  serialize_preimages archive
                    (inject_local outside host local_key_indices (snapshot s) w1))
                filled
            ∙ ap
                (λ t. serialize_preimages archive (
                  inject_local outside host local_key_indices (snapshot (set_all writes new_kv)) t))
                same,
        sym (ap (λ (r : RawWitness). r.blob_data) made),
      )

  -- A witness is only given behind all the steps: the configuration was found and hashed, the first
  -- block and the claimed root were found, the configuration of L1 was written and checked, and kona's
  -- client came to its end on the host of these; the witness has the boot information of the request
  -- with the claimed root, and in its preimages the client's writes with the local keys.
  pub generate_witness-Generated :
      (self : RpcWitnessProvider) (request : ProofRequest) (w v : W) (witness : RawWitness)
      → generate_witness values outside archive codec self request w ≡ (ok witness, v)
      → Generated self request w v witness
  unfolding generate_witness finish_witness
  generate_witness-Generated self request w v witness h =
      let (path, w1, e1, h1) = after-eq-ok _ (ensure_rollup_config values outside self w) h in
      let (hash, w2, e2, h2) =
        after-eq-ok _ (compute_rollup_config_hash values outside path w1) h1 in
      let (l2_url, parsed, h3) = after-result _ _ (outside.parse_url self.l2_rpc_url) w2 h2 in
      let (agreed, w3, e3, h4) = after-eq-ok _ (fetch_start_hash outside l2_url request w2) h3 in
      let (claimed, w4, e4, h5) =
        after-eq-ok _ (fetch_output_root values outside self l2_url request.l2_end_block w3) h4 in
      let (chain_id, w5, e5, h6) = after-eq-ok _ (read_chain_id values outside path w4) h5 in
      let (l1_path, w6, e6, h7) =
        after-eq-ok _ (ensure_l1_config values outside self chain_id w5) h6 in
      let host = build_host_config self request agreed claimed path l1_path in
      let (start, found, same) = fetch_start_hash-eq-ok values outside l2_url request w2 w3 e3 in
      let (writes, u, ready, run, boot, oracle, blob) =
        finish_witness-eq-ok host _ w6 v witness h7 in
      record {
        rollup_config_path = path;
        behind_config = w1;
        config_ensured = e1;
        rollup_config_hash = hash;
        before_start = w2;
        config_hash = compute_rollup_config_hash-HashOf values outside path w1 w2 e2;
        l2_url = l2_url;
        l2_url_parsed = parsed;
        start = start;
        behind_start = w3;
        start_block = found;
        agreed = agreed;
        agreed_hash = same;
        claimed = claimed;
        behind_claimed = w4;
        claimed_fetched = e4;
        claimed_root =
            fetch_output_root-RootOf values outside self l2_url request.l2_end_block w3 w4 claimed
              e4;
        l1_chain_id = chain_id;
        behind_chain_id = w5;
        chain_id = read_chain_id-ChainIdOf values outside path w4 w5 e5;
        l1_config_path = l1_path;
        before_checks = w6;
        l1_config_ensured = e6;
        before_run = u;
        ready = ready;
        writes = writes;
        run = run;
        boot_info = boot;
        oracle_data = oracle;
        blob_data = blob;
      }
