-- ===== src/Host/Witness/Answers.antt =====
-- crates/host/src/witness/rpc.rs: what is read from the JSON of an answer and of the configuration.
use open_zk.Common.{ℕ, Option, none, Text, codes}
use open_zk.Common.Outcome.{Result, ok, err}
use open_zk.Common.Maybe.{◌>>=◌, unwrap_or}
use open_zk.Core.{B256}
use open_zk.Host.Witness.{Values, Outside}

module _ {W Json : Type 0} (values : Values Json) where
  -- The root in an answer, where there is one.
  unfoldable pub answered_root : Outside W Json → Result Text Json → Option B256
  answered_root outside (err e) = none
  answered_root outside (ok resp) = do
    root ← values.get_field resp (codes "outputRoot")
    root_str ← values.as_str root
    outside.parse_b256 root_str

module _ {Json : Type 0} (values : Values Json) where
  -- The identifier of the L1 chain in the configuration, or that of the main network.
  unfoldable pub l1_chain_id_of : Json → ℕ
  l1_chain_id_of rollup_json =
      unwrap_or (do id ← values.get_field rollup_json (codes "l1_chain_id"); values.as_u64 id) 1
