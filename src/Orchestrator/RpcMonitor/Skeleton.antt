-- ===== src/Orchestrator/RpcMonitor/Skeleton.antt =====
-- crates/orchestrator/src/rpc_monitor.rs, without the feature `rpc`: a monitor that only has errors.
use open_zk.Common.{none, [], ◌∷◌, ◌++◌, Text, codes}
use open_zk.Common.Outcome.{err}
use open_zk.Orchestrator.Monitor.{ChainMonitor}

-- The text of the error, in which a dash is not ASCII.
abbrev pub not_available : Text
not_available =
    codes "L1 RPC error: RPC chain monitor not available "
    ++ (226 ∷ 128 ∷ 148 ∷ [])
    ++ codes " enable `rpc` feature"

unfoldable pub skeleton_monitor : {W : Type 0} → ChainMonitor W
skeleton_monitor = record {
  get_state = λ w. (err not_available, w);
  active_dispute = λ w. (none, w);
}
