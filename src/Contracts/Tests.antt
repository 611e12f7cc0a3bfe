-- ===== src/Contracts/Tests.antt =====
-- The submitter on a chain that confirms every transaction, and whose world is the list of the calls.
use open_zk.Common.{◌≡◌, refl, some, List, [], ◌∷◌, ◌++◌, replicate, codes}
use open_zk.Common.Outcome.{ok, err}
use open_zk.Core.{Bytes, b256_zero, ProofArtifact, StateTransitionJournal, sp1, mock, groth16}
use open_zk.Core.Abi.{journal_to_abi_bytes}
use open_zk.Core.Abi.Slots.{slot_codec}
use open_zk.Contracts.{
  RpcProofSubmitter, unsupported_backend, Call, submit_sp1_proof, Provider, new_submitter,
  with_dispute_address, submit_proof, resolve_dispute, resolve,
}
use open_zk.Contracts.Sent.{Submitted, Resolved, submit_proof-Submitted, resolve_dispute-Resolved}

abbrev journal : StateTransitionJournal
journal = record {
  l1_head = replicate 32 1;
  l2_pre_root = replicate 32 2;
  l2_post_root = replicate 32 3;
  l2_block_number = 100;
  rollup_config_hash = replicate 32 4;
  program_id = replicate 32 5;
}

abbrev proof : ProofArtifact
proof = record {
  backend = sp1;
  mode = groth16;
  proof_bytes = 222 ∷ 173 ∷ [];
  public_values = [];
  program_id = b256_zero;
  cycle_count = some 0;
}

abbrev chain : Provider (List Call) (Unit {0})
chain = record {
  parse_url = λ url. ok tt;
  parse_key = λ key. ok tt;
  send = λ call calls. (ok tt, calls ++ call ∷ []);
  get_receipt = λ pending calls. (ok b256_zero, calls);
}

abbrev submitter : RpcProofSubmitter
submitter =
    with_dispute_address (8 ∷ [])
      (new_submitter (codes "http://localhost:8545") (9 ∷ []) (codes "key"))

abbrev values : Bytes
values = journal_to_abi_bytes slot_codec journal

mock_proof-refused :
    submit_proof slot_codec chain submitter journal (record proof { backend = mock }) []
    ≡ (err (unsupported_backend mock), [])
unfolding submit_proof
mock_proof-refused = refl

submit_proof-Submitted_example :
    Submitted slot_codec chain submitter journal proof [] b256_zero
      (submit_sp1_proof (9 ∷ []) values (222 ∷ 173 ∷ []) ∷ [])
unfolding submit_proof
submit_proof-Submitted_example =
    submit_proof-Submitted slot_codec chain submitter journal proof []
      (submit_sp1_proof (9 ∷ []) values (222 ∷ 173 ∷ []) ∷ []) b256_zero refl

resolve_dispute-Resolved_example :
    Resolved slot_codec chain submitter journal proof [] b256_zero
      (resolve (8 ∷ []) 100 values (222 ∷ 173 ∷ []) 0 ∷ [])
unfolding resolve_dispute
resolve_dispute-Resolved_example =
    resolve_dispute-Resolved slot_codec chain submitter journal proof []
      (resolve (8 ∷ []) 100 values (222 ∷ 173 ∷ []) 0 ∷ []) b256_zero refl
