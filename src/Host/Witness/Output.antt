-- ===== src/Host/Witness/Output.antt =====
-- crates/host/src/witness/rpc.rs: the output root of a block.
pub mod Sources
pub mod SafeHead
use open_zk.Common.{
  ℕ, Option, none, some, List, [], ◌∷◌, ◌++◌, replicate, Text, codes, decimal, hex,
}
use open_zk.Common.Outcome.{Result, ok, err}
use open_zk.Common.Maybe.{unwrap_or}
use open_zk.Common.Io.{Io, ◌>>=◌, pure, map_err, ok_or_fail}
use open_zk.Core.{Bytes, B256, b256_zero}
use open_zk.Host.Witness.{RpcWitnessProvider, Stop, failed, fetch, Values, Header, Outside}
use open_zk.Host.Witness.Answers.{answered_root}
use open_zk.Host.Witness.Config.{connection_error, fetch_error, pure_result}

-- `payload`: the version, the two roots and the hash, of 32 bytes each.
unfoldable pub output_payload : Header → Bytes
output_payload header =
    b256_zero ++ header.state_root ++ unwrap_or header.withdrawals_root b256_zero ++ header.hash

module _ {W Json : Type 0} (outside : Outside W Json) where
  -- The last source: the hash of what the block's header says.
  unfoldable pub derived_root : Text → ℕ → Io W Stop B256
  unfolding output_payload decimal
  derived_root l2_url block_number = do
    found ← λ w.
        map_err (fetch_error (codes "L2 block " ++ decimal block_number ++ codes ": "))
          (outside.get_block_by_number l2_url block_number w)
    header ←
        ok_or_fail found
          (failed (fetch (codes "L2 block " ++ decimal block_number ++ codes " not found")))
    pure (outside.keccak256 (output_payload header))

module _ {W Json : Type 0} (values : Values Json) (outside : Outside W Json) where
  unfoldable pub output_at_block : Text → ℕ → W → Option B256 × W
  unfolding answered_root hex
  output_at_block url block_number w =
      let (rpc_result, v) =
        outside.raw_request url (codes "optimism_outputAtBlock")
          ((codes "0x" ++ hex block_number) ∷ []) w in
      (answered_root values outside rpc_result, v)

  -- The first source: the OP node, where its URL is configured.
  unfoldable pub op_node_root : Option Text → ℕ → Io W Stop (Option B256)
  unfolding output_at_block
  op_node_root none block_number = pure none
  op_node_root (some op_url) block_number = do
    url ← pure_result (connection_error (codes "invalid OP Node URL: ")) (outside.parse_url op_url)
    λ w. let (root, v) = output_at_block url block_number w in (ok root, v)

  -- The second source, the L2 node, before the last.
  abbrev from_l2_node : Text → ℕ → Option B256 × W → Result Stop B256 × W
  from_l2_node l2_url block_number (some root, w) = (ok root, w)
  from_l2_node l2_url block_number (none, w) = derived_root outside l2_url block_number w

  abbrev or_l2_node : Text → ℕ → Option B256 → Io W Stop B256
  or_l2_node l2_url block_number (some root) w = (ok root, w)
  or_l2_node l2_url block_number none w =
      from_l2_node l2_url block_number (output_at_block l2_url block_number w)

  unfoldable pub fetch_output_root : RpcWitnessProvider → Text → ℕ → Io W Stop B256
  unfolding op_node_root output_at_block derived_root
  fetch_output_root self l2_url block_number = do
    root ← op_node_root self.op_node_url block_number
    or_l2_node l2_url block_number root
