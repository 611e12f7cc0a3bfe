-- ===== src/Host/Prover/RiscZero.antt =====
-- crates/host/src/prover/risc0.rs: the prover for RISC Zero. Its zkVM and bincode are parameters, a
-- field of `RiscZeroSdk` for each call.
pub mod Verified
pub mod Identifier
use open_zk.Common.{ℕ, Bool, true, Option, some, List, [], ◌∷◌, ◌++◌, Text, codes}
use open_zk.Common.Outcome.{Result, ok, err}
use open_zk.Common.Io.{Io, ◌>>=◌, pure, map_err}
use open_zk.Core.{
  Bytes, ProofArtifact, ProvingMode, groth16, compressed, execute, CycleEstimate, risc_zero,
}
use open_zk.Host.Adapter.{to_le_bytes}
use open_zk.Host.Prover.{GuestProgram, ProverBackend}

-- The words of the identifier, each as four bytes, the lowest first.
unfoldable pub image_id_to_bytes : List ℕ → Bytes
unfolding to_le_bytes
image_id_to_bytes [] = []
image_id_to_bytes (word ∷ words) = to_le_bytes word ++ image_id_to_bytes words

pub record RiscZeroWitness : Type 0 where
  pub oracle_data : Bytes

-- `RiscZeroProgram`; `new` fills the second field from the first.
pub record RiscZeroProgram : Type 0 where
  pub image_id : List ℕ
  pub image_id_bytes : Bytes
  pub elf : Bytes
  pub program_name : Text

unfoldable pub new_program : Text → List ℕ → Bytes → RiscZeroProgram
unfolding image_id_to_bytes
new_program name image_id elf = record {
  image_id = image_id;
  image_id_bytes = image_id_to_bytes image_id;
  elf = elf;
  program_name = name;
}

abbrev pub risc_zero_guest : RiscZeroProgram → GuestProgram
risc_zero_guest self = record { program_id = self.image_id_bytes; name = self.program_name }

pub data RiscZeroProverError : Type 0 where
  proving_failed verification_failed : Text → RiscZeroProverError

-- `ProverOpts::default()`, `succinct()` and `groth16()`
pub data ProverOpts : Type 0 where
  default_opts succinct_opts groth16_opts : ProverOpts

pub record ProveInfo (Receipt : Type 0) : Type 0 where
  pub receipt : Receipt
  pub total_cycles : ℕ

pub record RiscZeroSdk (W Builder Env Receipt : Type 0) : Type 0 where
  pub write : Bytes → Result Text Builder
  pub build : Builder → Result Text Env
  pub prove_with_opts : Env → Bytes → ProverOpts → W → Result Text (ProveInfo Receipt) × W
  pub prove : Env → Bytes → W → Result Text (ProveInfo Receipt) × W
  pub journal_bytes : Receipt → Bytes
  pub serialize : Receipt → Result Text Bytes
  pub deserialize : Bytes → Result Text Receipt
  -- `receipt.verify(image_id)`
  pub verify : Receipt → List ℕ → Result Text (Unit {0})

abbrev pub opts_of : ProvingMode → ProverOpts
opts_of execute = default_opts
opts_of compressed = succinct_opts
opts_of groth16 = groth16_opts

module _ {W Builder Env Receipt : Type 0} (sdk : RiscZeroSdk W Builder Env Receipt) where
  unfoldable pub build_env : RiscZeroWitness → Io W RiscZeroProverError Env
  build_env self = do
    builder ← λ w.
        map_err (λ e. proving_failed (codes "write oracle_data: " ++ e))
          (sdk.write self.oracle_data, w)
    λ w. map_err proving_failed (sdk.build builder, w)

  abbrev pub artifact_of : RiscZeroProgram → ProvingMode → ProveInfo Receipt → Bytes → ProofArtifact
  artifact_of program mode info proof_bytes = record {
    backend = risc_zero;
    mode = mode;
    proof_bytes = proof_bytes;
    public_values = sdk.journal_bytes info.receipt;
    program_id = program.image_id_bytes;
    cycle_count = some info.total_cycles;
  }

  abbrev pub serialized :
      RiscZeroProgram → ProvingMode → ProveInfo Receipt → Io W RiscZeroProverError ProofArtifact
  serialized program mode info = do
    receipt_bytes ← λ w. map_err proving_failed (sdk.serialize info.receipt, w)
    pure (artifact_of program mode info receipt_bytes)

  -- From the test of the mode: only a proof has the bytes of its receipt.
  unfoldable pub artifact :
      RiscZeroProgram → ProvingMode → ProveInfo Receipt → Io W RiscZeroProverError ProofArtifact
  artifact program execute info = pure (artifact_of program execute info [])
  artifact program compressed info = serialized program compressed info
  artifact program groth16 info = serialized program groth16 info

  unfoldable pub prove_risc_zero :
      RiscZeroProgram → RiscZeroWitness → ProvingMode → Io W RiscZeroProverError ProofArtifact
  unfolding build_env artifact
  prove_risc_zero program witness mode = do
    env ← build_env witness
    info ← λ w. map_err proving_failed (sdk.prove_with_opts env program.elf (opts_of mode) w)
    artifact program mode info

  abbrev receipt_checked : RiscZeroProgram → ProofArtifact → Io W RiscZeroProverError Bool
  receipt_checked program proof = do
    receipt ← λ w. map_err verification_failed (sdk.deserialize proof.proof_bytes, w)
    _ ← λ w. map_err verification_failed (sdk.verify receipt program.image_id, w)
    pure true

  abbrev pub verified_in :
      ProvingMode → RiscZeroProgram → ProofArtifact → Io W RiscZeroProverError Bool
  verified_in execute program proof = pure true
  verified_in compressed program proof = receipt_checked program proof
  verified_in groth16 program proof = receipt_checked program proof

  unfoldable pub verify_risc_zero : RiscZeroProgram → ProofArtifact → Io W RiscZeroProverError Bool
  verify_risc_zero program proof = verified_in proof.mode program proof

  unfoldable pub count_cycles_risc_zero :
      RiscZeroProgram → RiscZeroWitness → Io W RiscZeroProverError CycleEstimate
  unfolding build_env
  count_cycles_risc_zero program witness = do
    env ← build_env witness
    info ← λ w. map_err proving_failed (sdk.prove env program.elf w)
    pure (record { cycles = info.total_cycles; backend = risc_zero })

  abbrev pub risc_zero_backend : ProverBackend W RiscZeroWitness RiscZeroProgram RiscZeroProverError
  risc_zero_backend = record {
    name = codes "risc0";
    prove = prove_risc_zero;
    verify = verify_risc_zero;
    count_cycles = count_cycles_risc_zero;
  }
