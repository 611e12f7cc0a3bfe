-- ===== src/Cli/Zkvms.antt =====
-- The provers that crates/cli was built with: `run_prover` of commands/prove.rs and
-- `run_cycle_count` of commands/estimate.rs, which choose one by the backend.
use open_zk.Common.{ℕ, Bool, if◌then◌else◌, List, [], ◌∷◌, ◌++◌, Text, codes}
use open_zk.Common.Outcome.{err}
use open_zk.Common.Io.{Io, map_err}
use open_zk.Core.{
  Bytes, ZkvmBackend, sp1, risc_zero, auto, mock, ProofArtifact, ProvingMode, CycleEstimate,
}
use open_zk.Orchestrator.Intent.{ResolvedIntent}
use open_zk.Cli.Halt.{Halt, error}
use open_zk.Cli.Estimate.Provider.{backend_name}
use open_zk.Host.Adapter.{RawWitness}
use open_zk.Host.Prover.{new_mock_program, MockProverError, mock_prover_error, mock_prover}
use open_zk.Host.Prover.RiscZero
use open_zk.Host.Prover.RiscZero.{
  RiscZeroSdk, RiscZeroProgram, RiscZeroProverError, prove_risc_zero, count_cycles_risc_zero,
}
use open_zk.Host.Prover.Sp1.{
  Sp1Sdk, Sp1Program, Sp1ProverError, proving_failed, verification_failed, prove_sp1,
  count_cycles_sp1,
}

-- The features, the SDKs, and the binaries of the range guest. `stdin_with` is `SP1Stdin::new` with
-- one `write`.
pub record Zkvms (W Stdin Key Proof Builder Env Receipt : Type 0) : Type 0 where
  pub has_sp1 : Bool
  pub has_risc_zero : Bool
  pub sp1_sdk : Sp1Sdk W Stdin Key Proof
  pub risc_zero_sdk : RiscZeroSdk W Builder Env Receipt
  pub stdin_with : Bytes → Stdin
  pub sp1_elf : Bytes
  pub risc_zero_elf : Bytes
  pub risc_zero_id : List ℕ

abbrev pub mock_message : MockProverError → Text
mock_message (mock_prover_error e) = codes "mock prover error: " ++ e

abbrev pub sp1_message : Sp1ProverError → Text
sp1_message (proving_failed e) = codes "sp1 proving failed: " ++ e
sp1_message (verification_failed e) = codes "sp1 verification failed: " ++ e

abbrev pub risc_zero_message : RiscZeroProverError → Text
risc_zero_message (RiscZero.proving_failed e) = codes "risc0 proving failed: " ++ e
risc_zero_message (RiscZero.verification_failed e) = codes "risc0 verification failed: " ++ e

abbrev pub range_ethereum : Text
range_ethereum = codes "range-ethereum"

abbrev pub unavailable : ZkvmBackend → Halt
unavailable backend = error (
    codes "backend "
    ++ backend_name backend
    ++ codes " not available "
    ++ (226 ∷ 128 ∷ 148 ∷ [])
    ++ codes " compile with the corresponding feature flag")

module _ {W Stdin Key Proof Builder Env Receipt : Type 0}
    (zkvms : Zkvms W Stdin Key Proof Builder Env Receipt) where
  abbrev pub sp1_program : Sp1Program
  sp1_program = record { elf = zkvms.sp1_elf; program_name = range_ethereum }

  abbrev pub risc_zero_program : RiscZeroProgram
  risc_zero_program = RiscZero.new_program range_ethereum zkvms.risc_zero_id zkvms.risc_zero_elf

  unfoldable pub run_with : ProvingMode → ZkvmBackend → RawWitness → Io W Halt ProofArtifact
  unfolding mock_prover new_mock_program prove_sp1 prove_risc_zero
  run_with mode mock witness w =
      map_err (λ e. error (mock_message e))
        (mock_prover.prove (new_mock_program range_ethereum) (record { data_bytes = [] }) mode w)
  run_with mode sp1 witness w =
      if zkvms.has_sp1
      then map_err (λ e. error (sp1_message e))
          (prove_sp1 zkvms.sp1_sdk sp1_program
            (record { stdin = zkvms.stdin_with witness.oracle_data }) mode w)
      else (err (unavailable sp1), w)
  run_with mode risc_zero witness w =
      if zkvms.has_risc_zero
      then map_err (λ e. error (risc_zero_message e))
          (prove_risc_zero zkvms.risc_zero_sdk risc_zero_program
            (record { oracle_data = witness.oracle_data }) mode w)
      else (err (unavailable risc_zero), w)
  run_with mode auto witness w = (err (unavailable auto), w)

  unfoldable pub run_prover : ResolvedIntent → RawWitness → Io W Halt ProofArtifact
  unfolding run_with
  run_prover intent witness = run_with intent.proving_mode intent.backend witness

  abbrev count_with : ZkvmBackend → RawWitness → Io W Halt CycleEstimate
  unfolding mock_prover new_mock_program count_cycles_sp1 count_cycles_risc_zero
  count_with mock witness w =
      map_err (λ e. error (mock_message e))
        (mock_prover.count_cycles (new_mock_program range_ethereum) (record { data_bytes = [] }) w)
  count_with sp1 witness w =
      if zkvms.has_sp1
      then map_err (λ e. error (sp1_message e))
          (count_cycles_sp1 zkvms.sp1_sdk sp1_program
            (record { stdin = zkvms.stdin_with witness.oracle_data }) w)
      else (err (unavailable sp1), w)
  count_with risc_zero witness w =
      if zkvms.has_risc_zero
      then map_err (λ e. error (risc_zero_message e))
          (count_cycles_risc_zero zkvms.risc_zero_sdk risc_zero_program
            (record { oracle_data = witness.oracle_data }) w)
      else (err (unavailable risc_zero), w)
  count_with auto witness w = (err (unavailable auto), w)

  unfoldable pub run_cycle_count : ResolvedIntent → RawWitness → Io W Halt CycleEstimate
  unfolding count_with
  run_cycle_count intent witness = count_with intent.backend witness
