-- ===== src/Orchestrator/Dispatcher.antt =====
-- crates/orchestrator/src/dispatcher.rs: how proof jobs are handed to a proving backend.
use open_zk.Common.{some, List, [], ◌∷◌, ◌++◌, Text, codes, decimal}
use open_zk.Common.Outcome.{Result, ok}
use open_zk.Core.{ProofRequest, ProofArtifact, mock, groth16, b256_zero}

pub data ProofJobStatus : Type 0 where
  queued in_progress : ProofJobStatus
  completed : ProofArtifact → ProofJobStatus
  failed : Text → ProofJobStatus

pub record ProofJobHandle : Type 0 where
  pub id : Text
  pub request : ProofRequest

-- The trait, over an external world of type `W` that every call may change.
pub record ProofDispatcher (W : Type 0) : Type 0 where
  pub submit : ProofRequest → W → Result Text ProofJobHandle × W
  pub status : ProofJobHandle → W → Result Text ProofJobStatus × W
  pub wait : ProofJobHandle → W → Result Text ProofArtifact × W
  pub submit_aggregation : List ProofArtifact → W → Result Text ProofJobHandle × W

unfoldable pub mock_proof_artifact : ProofArtifact
mock_proof_artifact = record {
  backend = mock;
  mode = groth16;
  proof_bytes = 0xDE ∷ 0xAD ∷ [];
  public_values = [];
  program_id = b256_zero;
  cycle_count = some 0;
}

-- `format!("mock-{}-{}", start, end)`
unfoldable pub mock_id : ProofRequest → Text
unfolding decimal
mock_id r = codes "mock-" ++ (decimal r.l2_start_block ++ (codes "-" ++ decimal r.l2_end_block))

unfoldable pub mock_aggregation_handle : ProofJobHandle
mock_aggregation_handle = record {
  id = codes "mock-aggregation";
  request = record {
    l1_head = b256_zero;
    l2_start_block = 0;
    l2_end_block = 0;
    l2_start_output_root = b256_zero;
    mode = groth16;
  };
}

-- `MockDispatcher`
unfoldable pub mock_dispatcher : {W : Type 0} → ProofDispatcher W
unfolding mock_proof_artifact mock_id mock_aggregation_handle
mock_dispatcher = record {
  submit = λ r w. (ok (record { id = mock_id r; request = r }), w);
  status = λ h w. (ok (completed mock_proof_artifact), w);
  wait = λ h w. (ok mock_proof_artifact, w);
  submit_aggregation = λ proofs w. (ok mock_aggregation_handle, w);
}
