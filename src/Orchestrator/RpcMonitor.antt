-- ===== src/Orchestrator/RpcMonitor.antt =====
-- crates/orchestrator/src/rpc_monitor.rs, with the feature `rpc`: the monitor that asks the nodes.
-- What the nodes answer, and the calls' ABI data, are parameters.
pub mod Answers
pub mod Skeleton
use open_zk.Common.{
  ℕ, ◌<◌, ◌==◌, leb, Bool, false, if◌then◌else◌, Option, none, some, List, [], ◌∷◌, ◌++◌, length,
  take, drop, Text, codes,
}
use open_zk.Common.BigEndian.{be_value}
use open_zk.Common.Outcome.{Result, ok, err}
use open_zk.Common.Io.{Io, ◌>>=◌, pure, map_err, ok_or_fail}
use open_zk.Core.{Bytes, B256}
use open_zk.Orchestrator.Monitor.{ChainState, DisputeInfo, ChainMonitor}

pub record RpcChainMonitor : Type 0 where
  pub oracle_address : Bytes
  pub dispute_address : Option Bytes

pub data RpcMonitorError : Type 0 where
  l1_rpc l2_rpc contract url_parse : Text → RpcMonitorError

-- The two providers: the finalized block of L1 with its hash and number, the safe block of L2 with
-- its number, a contract call on L1, the clock, and the data of the two calls.
pub record Nodes (W : Type 0) : Type 0 where
  pub finalized : W → Result Text (Option (B256 × ℕ)) × W
  pub safe : W → Result Text (Option ℕ) × W
  pub call : Bytes → Bytes → W → Result Text Bytes × W
  pub now : W → ℕ
  pub latest_block_number_call : Bytes
  pub is_disputed_call : ℕ → Bytes

-- `RpcChainMonitor::new`, where the URLs have been parsed, and `with_dispute_address`.
abbrev pub new_monitor : Bytes → RpcChainMonitor
new_monitor oracle_address = record { oracle_address = oracle_address; dispute_address = none }

abbrev pub with_dispute_address : Bytes → RpcChainMonitor → RpcChainMonitor
with_dispute_address address self = record self { dispute_address = some address }

-- `u64::from_be_bytes(result[24..32])`
unfoldable pub word_u64 : Bytes → ℕ
unfolding be_value
word_u64 result = be_value 0 (take 8 (drop 24 result))

-- The proven block of a call's result, which is 0 for a result that is too short.
unfoldable pub proven_block : Bytes → ℕ
unfolding word_u64
proven_block result = if leb 32 (length result) then word_u64 result else 0

-- Is the last byte of a full word 1?
unfoldable pub is_true_word : Bytes → Bool
is_true_word result =
    if leb 32 (length result) then elim (drop 31 result) [ [] ↦ false | b ∷ _ ↦ b == 1 ] else false

module _ {W : Type 0} (nodes : Nodes W) where
  unfoldable pub get_state : RpcChainMonitor → Io W RpcMonitorError ChainState
  unfolding proven_block
  get_state self = do
    l1_block ← λ w. map_err l1_rpc (nodes.finalized w)
    (l1_head, l1_block_number) ← ok_or_fail l1_block (l1_rpc (codes "finalized block not found"))
    l2_block ← λ w. map_err l2_rpc (nodes.safe w)
    l2_safe_block ← ok_or_fail l2_block (l2_rpc (codes "safe block not found"))
    result ← λ w. map_err contract (nodes.call self.oracle_address nodes.latest_block_number_call w)
    λ w. (
      ok (record {
        l1_head = l1_head;
        l1_block_number = l1_block_number;
        l2_proven_block = proven_block result;
        l2_safe_block = l2_safe_block;
        timestamp = nodes.now w;
      }),
      w,
    )

  -- The end of `active_dispute`: what the second call says of the block.
  unfoldable pub reported : ℕ → Result Text Bytes × W → Option DisputeInfo × W
  unfolding is_true_word
  reported latest (err e, w) = (none, w)
  reported latest (ok result, w) = (
    if is_true_word result
        then some (record { start_block = latest; end_block = latest })
        else none,
    w,
  )

  -- From the test of the first call's result to the second call.
  unfoldable pub check_block : Bytes → Result Text Bytes × W → Option DisputeInfo × W
  unfolding reported word_u64
  check_block address (err e, w) = (none, w)
  check_block address (ok result, w) =
      if leb 32 (length result)
      then reported (word_u64 result)
          (nodes.call address (nodes.is_disputed_call (word_u64 result)) w)
      else (none, w)

  unfoldable pub check_dispute : Option Bytes → RpcChainMonitor → W → Option DisputeInfo × W
  unfolding check_block
  check_dispute none self w = (none, w)
  check_dispute (some address) self w =
      check_block address (nodes.call self.oracle_address nodes.latest_block_number_call w)

  unfoldable pub active_dispute : RpcChainMonitor → W → Option DisputeInfo × W
  unfolding check_dispute
  active_dispute self w = check_dispute self.dispute_address self w

-- The texts of the errors.
abbrev pub message : RpcMonitorError → Text
message (l1_rpc m) = codes "L1 RPC error: " ++ m
message (l2_rpc m) = codes "L2 RPC error: " ++ m
message (contract m) = codes "contract call error: " ++ m
message (url_parse m) = codes "URL parse error: " ++ m

-- It as the trait's implementation.
abbrev pub rpc_monitor : {W : Type 0} → Nodes W → RpcChainMonitor → ChainMonitor W
rpc_monitor nodes self = record {
  get_state = λ w. map_err message (get_state nodes self w);
  active_dispute = active_dispute nodes self;
}
