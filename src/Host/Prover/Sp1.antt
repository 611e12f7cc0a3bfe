-- ===== src/Host/Prover/Sp1.antt =====
-- crates/host/src/prover/sp1.rs: the prover for SP1. Its SDK and bincode are parameters, a field of
-- `Sp1Sdk` for each call.
pub mod Verified
use open_zk.Common.{ℕ, Bool, true, Option, none, some, [], ◌++◌, Text, codes}
use open_zk.Common.Outcome.{Result, ok, err}
use open_zk.Common.Io.{Io, ◌>>=◌, pure, map_err}
use open_zk.Core.{
  Bytes, b256_zero, ProofArtifact, ProvingMode, groth16, compressed, execute, CycleEstimate, sp1,
}
use open_zk.Host.Prover.{GuestProgram, ProverBackend}

pub record Sp1Witness (Stdin : Type 0) : Type 0 where
  pub stdin : Stdin

pub record Sp1Program : Type 0 where
  pub elf : Bytes
  pub program_name : Text

abbrev pub new_program : Text → Bytes → Sp1Program
new_program name elf = record { elf = elf; program_name = name }

abbrev pub sp1_guest : Sp1Program → GuestProgram
sp1_guest self = record { program_id = self.elf; name = self.program_name }

pub data Sp1ProverError : Type 0 where
  proving_failed verification_failed : Text → Sp1ProverError

pub record Sp1Sdk (W Stdin Key Proof : Type 0) : Type 0 where
  -- the public values and the count of instructions
  pub run : Bytes → Stdin → W → Result Text (Bytes × ℕ) × W
  pub setup : Bytes → W → Result Text Key × W
  -- `prove(..).compressed()` and `prove(..).groth16()`
  pub prove_compressed : Key → Stdin → W → Result Text Proof × W
  pub prove_groth16 : Key → Stdin → W → Result Text Proof × W
  pub public_values : Proof → Bytes
  pub serialize : Proof → Result Text Bytes
  pub deserialize : Bytes → Result Text Proof
  -- `verifying_key().bytes32_raw()`
  pub key_bytes : Key → Bytes
  pub check : Proof → Key → Result Text (Unit {0})

module _ {W Stdin Key Proof : Type 0} (sdk : Sp1Sdk W Stdin Key Proof) where
  abbrev executed : Sp1Program → Sp1Witness Stdin → Io W Sp1ProverError ProofArtifact
  executed program witness = do
    (public_values, cycles) ← λ w. map_err proving_failed (sdk.run program.elf witness.stdin w)
    pure (record {
      backend = sp1;
      mode = execute;
      proof_bytes = [];
      public_values = public_values;
      program_id = b256_zero;
      cycle_count = some cycles;
    })

  -- The proof of one of the two modes, as an artifact.
  abbrev pub proved :
      (Key → Stdin → W → Result Text Proof × W)
      → Sp1Program
      → Sp1Witness Stdin
      → ProvingMode
      → Io W Sp1ProverError ProofArtifact
  proved prove program witness mode = do
    key ← λ w. map_err (λ e. proving_failed (codes "setup: " ++ e)) (sdk.setup program.elf w)
    proof ← λ w. map_err proving_failed (prove key witness.stdin w)
    proof_bytes ← λ w. map_err proving_failed (sdk.serialize proof, w)
    pure (record {
      backend = sp1;
      mode = mode;
      proof_bytes = proof_bytes;
      public_values = sdk.public_values proof;
      program_id = sdk.key_bytes key;
      cycle_count = none;
    })

  unfoldable pub prove_sp1 :
      Sp1Program → Sp1Witness Stdin → ProvingMode → Io W Sp1ProverError ProofArtifact
  prove_sp1 program witness execute = executed program witness
  prove_sp1 program witness compressed = proved sdk.prove_compressed program witness compressed
  prove_sp1 program witness groth16 = proved sdk.prove_groth16 program witness groth16

  abbrev pub proof_checked : Sp1Program → ProofArtifact → Io W Sp1ProverError Bool
  proof_checked program proof = do
    sp1_proof ← λ w. map_err verification_failed (sdk.deserialize proof.proof_bytes, w)
    key ← λ w. map_err (λ e. verification_failed (codes "setup: " ++ e)) (sdk.setup program.elf w)
    _ ← λ w. map_err verification_failed (sdk.check sp1_proof key, w)
    pure true

  abbrev pub verified_in : ProvingMode → Sp1Program → ProofArtifact → Io W Sp1ProverError Bool
  verified_in execute program proof = pure true
  verified_in compressed program proof = proof_checked program proof
  verified_in groth16 program proof = proof_checked program proof

  unfoldable pub verify_sp1 : Sp1Program → ProofArtifact → Io W Sp1ProverError Bool
  verify_sp1 program proof = verified_in proof.mode program proof

  unfoldable pub count_cycles_sp1 :
      Sp1Program → Sp1Witness Stdin → Io W Sp1ProverError CycleEstimate
  count_cycles_sp1 program witness = do
    (_, cycles) ← λ w. map_err proving_failed (sdk.run program.elf witness.stdin w)
    pure (record { cycles = cycles; backend = sp1 })

  abbrev pub sp1_backend : ProverBackend W (Sp1Witness Stdin) Sp1Program Sp1ProverError
  sp1_backend = record {
    name = codes "sp1";
    prove = prove_sp1;
    verify = verify_sp1;
    count_cycles = count_cycles_sp1;
  }
