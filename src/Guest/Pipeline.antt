-- ===== src/Guest/Pipeline.antt =====
-- crates/guest/src/pipeline.rs: one range proof. kona's derivation and execution are parameters: the
-- record `Kona` has a field for each of its calls, with what the call is given.
pub mod Meaning
pub mod SafeHead
use open_zk.Common.{
  ℕ, Bool, leb, if◌then◌else◌, bytes_eq, Option, none, some, List, drop, replicate, Text,
}
use open_zk.Common.Outcome.{Result, ok, err, Outcome, returned, panicked, assert, ◌>>=◌, ◌>>◌}
use open_zk.Core.{Bytes, B256, b256_zero, StateTransitionJournal}
use open_zk.Core.Abi.{AbiCodec, journal_to_abi_bytes}
use open_zk.Guest.Store.{PreimageStore, OracleError, Oracle, store_oracle}

-- `kona_proof::BootInfo`
pub record Boot (Config L1Config : Type 0) : Type 0 where
  pub l1_head : B256
  pub agreed_l2_output_root : B256
  pub claimed_l2_output_root : B256
  pub claimed_l2_block_number : ℕ
  pub rollup_config : Config
  pub l1_config : L1Config

pub record Kona (Config L1Config Cursor Da Pipeline : Type 0) : Type 0 where
  -- `CachingOracle::new`
  pub caching : Oracle → Oracle
  -- `BootInfo::load`
  pub load : Oracle → Option (Boot Config L1Config)
  -- `header_by_hash(..)` and its number
  pub header_number : Oracle → B256 → Option ℕ
  -- `new_oracle_pipeline_cursor`, with the L1 head and the safe head that its providers start from
  pub new_cursor : Oracle → Config → B256 → B256 → Option Cursor
  -- `OraclePipeline::new`, and `Driver::new` with the executor, with the heads of both providers
  pub new_pipeline : Oracle → Config → L1Config → B256 → B256 → Cursor → Da → Option Pipeline
  -- `advance_to_target`: the output root
  pub advance_to_target : Pipeline → Config → ℕ → Option B256

-- The hint of `HintType::StartingL2Output`, and `PreimageKey::new(.., Keccak256)`.
pub record Hints : Type 0 where
  pub starting_l2_output : B256 → Text
  pub keccak_key : B256 → B256

abbrev pub expect {ℓ} : {A : Type ℓ} → Option A → Outcome A
expect none = panicked
expect (some a) = returned a

abbrev pub expect_ok {ℓ κ} : {E : Type ℓ} {A : Type κ} → Result E A → Outcome A
expect_ok (err e) = panicked
expect_ok (ok a) = returned a

-- The buffer has 128 bytes on success, so that the conversion of its last 32 cannot fail.
unfoldable pub fetch_safe_head_hash : Hints → Oracle → B256 → Result OracleError B256
fetch_safe_head_hash hints oracle agreed_l2_output_root =
    elim (oracle.write (hints.starting_l2_output agreed_l2_output_root)) [
      | err e ↦ err e
      | ok _ ↦
          let (read, output_preimage) =
            oracle.get_exact (hints.keccak_key agreed_l2_output_root) (replicate 128 0) in
          elim read [ err e ↦ err e | ok _ ↦ ok (drop 96 output_preimage) ]
    ]

-- The five values of `run_pipeline`, and the record that `run` makes of them.
unfoldable pub journal_of :
    {Config L1Config : Type 0} → Boot Config L1Config → B256 → StateTransitionJournal
journal_of boot l2_post_root = record {
  l1_head = boot.l1_head;
  l2_pre_root = boot.agreed_l2_output_root;
  l2_post_root = l2_post_root;
  l2_block_number = boot.claimed_l2_block_number;
  rollup_config_hash = b256_zero;
  program_id = b256_zero;
}

module _ {Config L1Config Cursor Da Pipeline : Type 0} (hints : Hints)
    (kona : Kona Config L1Config Cursor Da Pipeline)
    (create_da_source : Oracle → B256 → Config → Da) where
  -- The derivation and execution, up to `advance_to_target`.
  unfoldable pub derive : Oracle → Boot Config L1Config → B256 → Outcome B256
  derive oracle boot safe_head_hash = do
    cursor ← expect (kona.new_cursor oracle boot.rollup_config boot.l1_head safe_head_hash)
    pipeline ← expect (
        kona.new_pipeline oracle boot.rollup_config boot.l1_config boot.l1_head safe_head_hash
          cursor (create_da_source oracle boot.l1_head boot.rollup_config))
    expect (kona.advance_to_target pipeline boot.rollup_config boot.claimed_l2_block_number)

  -- From the test of the claim against the agreed root.
  unfoldable pub prove_claim : Oracle → Boot Config L1Config → B256 → Outcome StateTransitionJournal
  prove_claim oracle boot safe_head_hash =
      if bytes_eq boot.agreed_l2_output_root boot.claimed_l2_output_root
      then returned (journal_of boot boot.claimed_l2_output_root)
      else (do
        output_root ← derive oracle boot safe_head_hash
        assert (bytes_eq output_root boot.claimed_l2_output_root)
        returned (journal_of boot output_root))

  unfoldable pub run_pipeline : PreimageStore → Outcome StateTransitionJournal
  run_pipeline store =
      let oracle = kona.caching (store_oracle store) in
      do
        boot ← expect (kona.load oracle)
        safe_head_hash ← expect_ok (fetch_safe_head_hash hints oracle boot.agreed_l2_output_root)
        safe_head_number ← expect (kona.header_number oracle safe_head_hash)
        assert (leb safe_head_number boot.claimed_l2_block_number)
        prove_claim oracle boot safe_head_hash

  -- The bytes that the guest commits.
  unfoldable pub run : AbiCodec → PreimageStore → Outcome Bytes
  run codec store = do journal ← run_pipeline store; returned (journal_to_abi_bytes codec journal)
