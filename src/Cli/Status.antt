-- ===== src/Cli/Status.antt =====
-- crates/cli/src/commands/status.rs: the numbers that `open-zk status` prints. The nodes are
-- parameters.
use open_zk.Common.{ℕ, ◌-◌, leb, if◌then◌else◌, Option, none, some, ◌++◌, length, Text, codes}
use open_zk.Common.Outcome.{Result, ok, err}
use open_zk.Common.Io.{Io, ◌>>=◌, pure, map_err}
use open_zk.Core.{Bytes}
use open_zk.Orchestrator.RpcMonitor.{word_u64}
use open_zk.Cli.Config.{CliConfig}
use open_zk.Cli.Files.{ConfigFiles, from_file}
use open_zk.Cli.Halt.{Halt, error}

-- The latest block of a node, its safe block where it answers with one, a call of a contract, and
-- the data of the call `latestBlockNumber`.
pub record StatusNodes (W : Type 0) : Type 0 where
  pub parse_url : Text → Result Text Text
  pub get_block_number : Text → W → Result Text ℕ × W
  pub safe_block : Text → W → Option ℕ × W
  pub parse_address : Text → Result Text Bytes
  pub call : Text → Bytes → Bytes → W → Result Text Bytes × W
  pub latest_block_number_call : Bytes

-- What is printed of the oracle: its block with the blocks that are pending, or that it did not
-- answer with a word.
pub data OracleStatus : Type 0 where
  no_address : OracleStatus
  proven : ℕ → Option ℕ → OracleStatus
  unexpected : OracleStatus
  call_failed : Text → OracleStatus

pub record ChainStatus : Type 0 where
  pub l1_block : ℕ
  pub l2_latest : ℕ
  pub l2_safe : Option ℕ
  pub oracle : OracleStatus

-- `safe.saturating_sub(proven_block)`
abbrev pub pending_blocks : Option ℕ → ℕ → Option ℕ
pending_blocks none proven_block = none
pending_blocks (some safe) proven_block = some (safe - proven_block)

unfoldable pub oracle_status : Option ℕ → Result Text Bytes → OracleStatus
unfolding word_u64
oracle_status l2_safe (err e) = call_failed e
oracle_status l2_safe (ok result) =
    if leb 32 (length result)
    then proven (word_u64 result) (pending_blocks l2_safe (word_u64 result))
    else unexpected

module _ {W : Type 0} (nodes : StatusNodes W) where
  unfoldable pub fetch_oracle : Text → Option Text → Option ℕ → Io W Halt OracleStatus
  unfolding oracle_status
  fetch_oracle l1_url none l2_safe = pure no_address
  fetch_oracle l1_url (some addr_str) l2_safe = do
    oracle_addr ← λ w. map_err error (nodes.parse_address addr_str, w)
    λ w.
        let (call_result, v) = nodes.call l1_url oracle_addr nodes.latest_block_number_call w in
        (ok (oracle_status l2_safe call_result), v)

  unfoldable pub fetch_chain_status : CliConfig → Option Text → Io W Halt ChainStatus
  unfolding fetch_oracle
  fetch_chain_status config oracle_address = do
    l1_url ← λ w. map_err error (nodes.parse_url config.network.l1_rpc_url, w)
    l2_url ← λ w. map_err error (nodes.parse_url config.network.l2_rpc_url, w)
    l1_block ← λ w.
        map_err (λ e. error (codes "L1 RPC unreachable: " ++ e)) (nodes.get_block_number l1_url w)
    l2_latest ← λ w.
        map_err (λ e. error (codes "L2 RPC unreachable: " ++ e)) (nodes.get_block_number l2_url w)
    l2_safe ← λ w. let (safe, v) = nodes.safe_block l2_url w in (ok safe, v)
    oracle ← fetch_oracle l1_url oracle_address l2_safe
    pure (record { l1_block = l1_block; l2_latest = l2_latest; l2_safe = l2_safe; oracle = oracle })

  unfoldable pub status_command : ConfigFiles W → Text → Option Text → Io W Halt ChainStatus
  unfolding from_file fetch_chain_status
  status_command files path oracle_address = do
    config ← λ w. map_err error (from_file files path w)
    fetch_chain_status config oracle_address
