-- ===== src/Contracts.antt =====
-- crates/contracts/src: client.rs (the trait and its mock) and rpc_submitter.rs. The provider, the
-- sending of a transaction and its receipt are parameters; a call is what a transaction asks for.
pub mod Sent
mod Tests
use open_zk.Common.{ℕ, Option, none, some, Text, codes, ◌++◌}
use open_zk.Common.Outcome.{Result, ok, err}
use open_zk.Common.Io.{Io, ◌>>=◌, fail, map_err, ok_or_fail}
use open_zk.Core.{
  Bytes, B256, b256_zero, ProofArtifact, StateTransitionJournal, ZkvmBackend, sp1, risc_zero, auto,
  mock,
}
use open_zk.Core.Abi.{AbiCodec, journal_to_abi_bytes}

-- The trait `ProofSubmitter`: two operations that give a transaction's hash.
pub record ProofSubmitter (W E : Type 0) : Type 0 where
  pub submit_proof : StateTransitionJournal → ProofArtifact → Io W E B256
  pub resolve_dispute : StateTransitionJournal → ProofArtifact → Io W E B256

-- `MockProofSubmitter`
abbrev pub mock_submitter : {W : Type 0} → ProofSubmitter W Text
mock_submitter = record {
  submit_proof = λ journal proof w. (ok b256_zero, w);
  resolve_dispute = λ journal proof w. (ok b256_zero, w);
}

pub record RpcProofSubmitter : Type 0 where
  pub rpc_url : Text
  pub oracle_address : Bytes
  pub dispute_address : Option Bytes
  pub private_key : Text

pub data RpcSubmitterError : Type 0 where
  contract_call : Text → RpcSubmitterError
  unsupported_backend : ZkvmBackend → RpcSubmitterError
  dispute_address_not_configured : RpcSubmitterError

-- `RpcProofSubmitter::new` and `with_dispute_address`.
abbrev pub new_submitter : Text → Bytes → Text → RpcProofSubmitter
new_submitter url address key = record {
  rpc_url = url;
  oracle_address = address;
  dispute_address = none;
  private_key = key;
}

abbrev pub with_dispute_address : Bytes → RpcProofSubmitter → RpcProofSubmitter
with_dispute_address address self = record self { dispute_address = some address }

-- The contract functions that are called, each with the contract's address.
pub data Call : Type 0 where
  submit_sp1_proof submit_risc0_proof : Bytes → Bytes → Bytes → Call
  resolve : Bytes → ℕ → Bytes → Bytes → ℕ → Call

-- The provider: the parsing of the URL and of the key, a transaction's sending, and its receipt's hash.
pub record Provider (W Pending : Type 0) : Type 0 where
  pub parse_url : Text → Result Text (Unit {0})
  pub parse_key : Text → Result Text (Unit {0})
  pub send : Call → Io W Text Pending
  pub get_receipt : Pending → Io W Text B256

-- The `match` of `submit_proof`: the call for a backend.
unfoldable pub submit_call : Bytes → ZkvmBackend → Bytes → Bytes → Result RpcSubmitterError Call
submit_call address sp1 public_values proof = ok (submit_sp1_proof address public_values proof)
submit_call address risc_zero public_values proof =
    ok (submit_risc0_proof address public_values proof)
submit_call address other public_values proof = err (unsupported_backend other)

-- The `match` of `resolve_dispute`: the backend's number.
unfoldable pub backend_number : ZkvmBackend → Result RpcSubmitterError ℕ
backend_number sp1 = ok 0
backend_number risc_zero = ok 1
backend_number other = err (unsupported_backend other)

module _ {W Pending : Type 0} (codec : AbiCodec) (provider : Provider W Pending)
    (self : RpcProofSubmitter) where
  unfoldable pub build_provider : Io W RpcSubmitterError (Unit {0})
  build_provider = do
    url ← λ w.
        map_err (λ e. contract_call (codes "invalid url: " ++ e))
          (provider.parse_url self.rpc_url, w)
    λ w.
        map_err (λ e. contract_call (codes "invalid key: " ++ e))
          (provider.parse_key self.private_key, w)

  -- `.send().await` and `.get_receipt().await`
  unfoldable pub transact : Call → Io W RpcSubmitterError B256
  transact call = do
    pending ← λ w. map_err contract_call (provider.send call w)
    λ w. map_err contract_call (provider.get_receipt pending w)

  unfoldable pub submit_proof : StateTransitionJournal → ProofArtifact → Io W RpcSubmitterError B256
  unfolding build_provider transact submit_call
  submit_proof journal proof = do
    built ← build_provider
    call ← λ w. (
      submit_call self.oracle_address proof.backend (journal_to_abi_bytes codec journal)
          proof.proof_bytes,
      w,
    )
    transact call

  unfoldable pub resolve_dispute :
      StateTransitionJournal → ProofArtifact → Io W RpcSubmitterError B256
  unfolding build_provider transact backend_number
  resolve_dispute journal proof = do
    address ← ok_or_fail self.dispute_address dispute_address_not_configured
    built ← build_provider
    backend ← λ w. (backend_number proof.backend, w)
    transact (
        resolve address journal.l2_block_number (journal_to_abi_bytes codec journal)
          proof.proof_bytes backend)
