-- ===== src/Host/Witness/Generate/Inputs.antt =====
-- The single steps of crates/host/src/witness/rpc.rs: the hash of the configuration, the number of the
-- L1 chain, the header of the first block, and the checks before the client's run.
use open_zk.Common.{ℕ, ◌≡◌, ap, sym, ◌∙◌, some, List, Text}
use open_zk.Common.Outcome.{Result, ok}
use open_zk.Common.Io.{after-map_err, after-ok_or_fail, after-result}
use open_zk.Core.{Bytes, B256, ProofRequest}
use open_zk.Host.KvStore.{ArcMemoryKvStore, new_kv, set_all}
use open_zk.Host.Witness.{
  Stop, SingleChainHost, ClientEnd, completed, client_error, join_error, Values, Header, Outside,
}
use open_zk.Host.Witness.Collect.{collected, collect_witness}
use open_zk.Host.Witness.Answers.{l1_chain_id_of}
use open_zk.Host.Witness.Config.{compute_rollup_config_hash}
use open_zk.Host.Witness.Generate.{fetch_start_hash, read_chain_id}

-- The value and the world of a call.
pub ok_pair :
    {W A : Type 0} {a b : A} {u v : W}
    → Path (Result Stop A × W) (ok a, u) (ok b, v)
    → (a ≡ b) × (u ≡ v)
ok_pair h = (cc, cc)

module _ {W Json : Type 0} (values : Values Json) (outside : Outside W Json) where
  -- The hash of the canonical bytes of the JSON in a file.
  pub record HashOf (path : Text) (u v : W) (hash : B256) : Type 0 where
    pub contents : Bytes
    pub was_read : outside.read path u ≡ (ok contents, v)
    pub value : Json
    pub parsed : values.parse contents ≡ ok value
    pub canonical_bytes : Bytes
    pub serialized : values.to_vec value ≡ ok canonical_bytes
    pub hashed : hash ≡ outside.keccak256 canonical_bytes

  pub compute_rollup_config_hash-HashOf :
      (path : Text) (u v : W) {hash : B256}
      → compute_rollup_config_hash values outside path u ≡ (ok hash, v)
      → HashOf path u v hash
  unfolding compute_rollup_config_hash
  compute_rollup_config_hash-HashOf path u v h =
      let (contents, u1, got, h1) = after-map_err _ _ (outside.read path u) h in
      let (value, parsed, h2) = after-result _ _ (values.parse contents) u1 h1 in
      let (bytes, written, last) = after-result _ _ (values.to_vec value) u1 h2 in
      record {
        contents = contents;
        was_read = got ∙ ap (λ t. (ok contents, t)) (ok_pair last).1;
        value = value;
        parsed = parsed;
        canonical_bytes = bytes;
        serialized = written;
        hashed = sym (ok_pair last).0;
      }

  -- The number of the L1 chain in the JSON of a file.
  pub record ChainIdOf (path : Text) (u v : W) (l1_chain_id : ℕ) : Type 0 where
    pub contents : Bytes
    pub was_read : outside.read_to_string path u ≡ (ok contents, v)
    pub rollup_json : Json
    pub parsed : values.parse contents ≡ ok rollup_json
    pub chain_id : l1_chain_id ≡ l1_chain_id_of values rollup_json

  pub read_chain_id-ChainIdOf :
      (path : Text) (u v : W) {l1_chain_id : ℕ}
      → read_chain_id values outside path u ≡ (ok l1_chain_id, v)
      → ChainIdOf path u v l1_chain_id
  unfolding read_chain_id
  read_chain_id-ChainIdOf path u v h =
      let (contents, u1, got, h1) = after-map_err _ _ (outside.read_to_string path u) h in
      let (json, parsed, last) = after-result _ _ (values.parse contents) u1 h1 in
      record {
        contents = contents;
        was_read = got ∙ ap (λ t. (ok contents, t)) (ok_pair last).1;
        rollup_json = json;
        parsed = parsed;
        chain_id = sym (ok_pair last).0;
      }

  -- kona's host reads both configurations, and the providers and the two channels are there, one step
  -- behind the other.
  pub record Ready (host : SingleChainHost) (before_checks before_run : W) : Type 0 where
    pub behind_rollup : W
    pub behind_l1 : W
    pub behind_providers : W
    pub behind_hints : W
    pub rollup_config_read : outside.read_rollup_config host before_checks ≡ (ok tt, behind_rollup)
    pub l1_config_read : outside.read_l1_config host behind_rollup ≡ (ok tt, behind_l1)
    pub providers : outside.create_providers host behind_l1 ≡ (ok tt, behind_providers)
    pub hints : outside.new_channel behind_providers ≡ (ok tt, behind_hints)
    pub preimages : outside.new_channel behind_hints ≡ (ok tt, before_run)

  collected-eq-ok :
      (r : (ClientEnd × List (B256 × Bytes)) × W) {store : ArcMemoryKvStore} {v : W}
      → collected r ≡ (ok store, v)
      → (writes : List (B256 × Bytes)) × (r ≡ ((completed, writes), v))
        × (store ≡ set_all writes new_kv)
  unfolding collected
  collected-eq-ok ((completed, writes), w) h = (writes, cc, cc)
  collected-eq-ok ((client_error e, writes), w) h = cc
  collected-eq-ok ((join_error e, writes), w) h = cc

  pub collect_witness-eq-ok :
      (host : SingleChainHost) (w v : W) {store : ArcMemoryKvStore}
      → collect_witness outside host w ≡ (ok store, v)
      → (writes : List (B256 × Bytes)) × (u : W) × Ready host w u
        × (outside.run_client host u ≡ ((completed, writes), v))
        × (store ≡ set_all writes new_kv)
  unfolding collect_witness
  collect_witness-eq-ok host w v h =
      let (_, w1, e1, h1) = after-map_err _ _ (outside.read_rollup_config host w) h in
      let (_, w2, e2, h2) = after-map_err _ _ (outside.read_l1_config host w1) h1 in
      let (_, w3, e3, h3) = after-map_err _ _ (outside.create_providers host w2) h2 in
      let (_, w4, e4, h4) = after-map_err _ _ (outside.new_channel w3) h3 in
      let (_, w5, e5, h5) = after-map_err _ _ (outside.new_channel w4) h4 in
      let (writes, run, is_store) = collected-eq-ok (outside.run_client host w5) h5 in
      let ready : Ready host w w5 = record {
        behind_rollup = w1;
        behind_l1 = w2;
        behind_providers = w3;
        behind_hints = w4;
        rollup_config_read = e1;
        l1_config_read = e2;
        providers = e3;
        hints = e4;
        preimages = e5;
      } in
      (writes, w5, ready, run, is_store)

  pub fetch_start_hash-eq-ok :
      (l2_url : Text) (request : ProofRequest) (w v : W) {hash : B256}
      → fetch_start_hash outside l2_url request w ≡ (ok hash, v)
      → (start : Header) × (outside.get_block_by_number l2_url request.l2_start_block w
          ≡ (ok (some start), v))
        × (hash ≡ start.hash)
  unfolding fetch_start_hash
  fetch_start_hash-eq-ok l2_url request w v h =
      let (found, u, got, rest) =
        after-map_err _ _ (outside.get_block_by_number l2_url request.l2_start_block w) h in
      let (start, is_some, last) = after-ok_or_fail found _ _ u rest in
      (
        start,
        got ∙ ap (λ o. (ok o, u)) is_some ∙ ap (λ t. (ok (some start), t)) (ok_pair last).1,
        sym (ok_pair last).0,
      )
