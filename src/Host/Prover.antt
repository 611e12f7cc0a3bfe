-- ===== src/Host/Prover.antt =====
-- crates/core/src/traits/prover.rs, the interface of a prover, and the mock of
-- crates/host/src/prover/mock.rs.
pub mod RiscZero
pub mod Sp1
use open_zk.Common.{ℕ, Bool, true, false, Option, some, [], ◌∷◌, Text, codes}
use open_zk.Common.Outcome.{ok}
use open_zk.Common.Io.{Io, pure}
use open_zk.Core.{
  Bytes, B256, b256_zero, ProvingMode, ProofArtifact, CycleEstimate, ZkvmBackend, sp1, risc_zero,
  auto, mock,
}

pub record GuestProgram : Type 0 where
  pub program_id : Bytes
  pub name : Text

-- The trait, over a world `W`.
pub record ProverBackend (W Witness Program E : Type 0) : Type 0 where
  pub name : Text
  pub prove : Program → Witness → ProvingMode → Io W E ProofArtifact
  pub verify : Program → ProofArtifact → Io W E Bool
  pub count_cycles : Program → Witness → Io W E CycleEstimate

pub record MockWitness : Type 0 where
  pub data_bytes : Bytes

pub record MockProgram : Type 0 where
  pub id : Bytes
  pub program_name : Text

unfoldable pub new_mock_program : Text → MockProgram
new_mock_program name = record { id = name; program_name = name }

abbrev pub mock_guest : MockProgram → GuestProgram
mock_guest self = record { program_id = self.id; name = self.program_name }

pub data MockProverError : Type 0 where
  mock_prover_error : Text → MockProverError

-- `proof.backend == ZkvmBackend::Mock`
abbrev pub is_mock : ZkvmBackend → Bool
is_mock mock = true
is_mock sp1 = false
is_mock risc_zero = false
is_mock auto = false

unfoldable pub mock_prover : {W : Type 0} → ProverBackend W MockWitness MockProgram MockProverError
mock_prover = record {
  name = codes "mock";
  prove = λ program witness mode. pure (record {
    backend = mock;
    mode = mode;
    proof_bytes = 222 ∷ 173 ∷ [];
    public_values = [];
    program_id = b256_zero;
    cycle_count = some 0;
  });
  verify = λ program proof. pure (is_mock proof.backend);
  count_cycles = λ program witness. pure (record { cycles = 0; backend = mock });
}
