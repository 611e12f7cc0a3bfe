-- ===== src/Host/ProverTests.antt =====
-- Provers whose receipts are the bytes that they commit, and the mock.
use open_zk.Common.{
  ℕ, ◌≡◌, ◌↔◌, ◌⊎◌, refl, sym, true, some, none, List, [], ◌∷◌, replicate, codes, length, arith,
}
use open_zk.Common.Outcome.{ok}
use open_zk.Core.{Bytes, IsB256, ProofArtifact, groth16, compressed, execute, sp1, risc_zero}
use open_zk.Host.Prover.RiscZero.{
  RiscZeroSdk, RiscZeroProgram, RiscZeroWitness, image_id_to_bytes, prove_risc_zero,
  verify_risc_zero,
}
use open_zk.Host.Prover.RiscZero.Identifier.{words_of, image_id_to_bytes-IsB256}
use open_zk.Host.Prover.RiscZero.Verified.{
  HoldsReceipt, Made, verify_risc_zero_iff, verify-prove_risc_zero,
}
use open_zk.Host.Prover.Sp1.{Sp1Sdk, Sp1Program, prove_sp1, verify_sp1}
use open_zk.Host.Prover.Sp1.Verified
use open_zk.Host.Prover.Sp1.Verified.{Proves, verify-prove_sp1}

abbrev image_id : List ℕ
image_id = 1 ∷ 256 ∷ 65536 ∷ 4294967295 ∷ 0 ∷ 7 ∷ 8 ∷ 9 ∷ []

image_id_to_bytes-IsB256_example :
    IsB256 (image_id_to_bytes image_id) × (words_of (image_id_to_bytes image_id) ≡ image_id)
image_id_to_bytes-IsB256_example = image_id_to_bytes-IsB256 image_id refl (ground arith)

-- The receipt of a run is what the guest was given.
abbrev risc_zero_sdk : RiscZeroSdk (Unit {0}) Bytes Bytes Bytes
risc_zero_sdk = record {
  write = ok;
  build = ok;
  prove_with_opts = λ env elf opts w. (ok (record { receipt = env; total_cycles = length env }), w);
  prove = λ env elf w. (ok (record { receipt = env; total_cycles = length env }), w);
  journal_bytes = λ receipt. receipt;
  serialize = ok;
  deserialize = ok;
  verify = λ receipt id. ok tt;
}

abbrev program : RiscZeroProgram
program = record {
  image_id = image_id;
  image_id_bytes = replicate 32 5;
  elf = [];
  program_name = codes "range-ethereum";
}

abbrev input : RiscZeroWitness
input = record { oracle_data = 4 ∷ 2 ∷ [] }

abbrev proof : ProofArtifact
proof = record {
  backend = risc_zero;
  mode = groth16;
  proof_bytes = 4 ∷ 2 ∷ [];
  public_values = 4 ∷ 2 ∷ [];
  program_id = replicate 32 5;
  cycle_count = some 2;
}

proved : prove_risc_zero risc_zero_sdk program input groth16 tt ≡ (ok proof, tt)
unfolding prove_risc_zero
proved = refl

verify-prove_risc_zero_example :
    (receipt : Bytes) × Made risc_zero_sdk program groth16 receipt proof
    × (verify_risc_zero risc_zero_sdk program proof tt ≡ (ok true, tt))
verify-prove_risc_zero_example =
    verify-prove_risc_zero risc_zero_sdk program input groth16 tt tt proof
      (λ receipt bytes h. sym h) (λ env opts u u2 info h. refl) proved

-- An artifact with public values that its receipt never committed.
verify_risc_zero_iff_example :
    (verify_risc_zero risc_zero_sdk program (record proof { public_values = 6 ∷ [] }) tt
      ≡ (ok true, tt))
    ↔ ((groth16 ≡ execute) ⊎ HoldsReceipt risc_zero_sdk program (4 ∷ 2 ∷ []))
verify_risc_zero_iff_example =
    verify_risc_zero_iff risc_zero_sdk program (record proof { public_values = 6 ∷ [] }) tt

abbrev sp1_sdk : Sp1Sdk (Unit {0}) Bytes Bytes Bytes
sp1_sdk = record {
  run = λ elf stdin w. (ok (stdin, length stdin), w);
  setup = λ elf w. (ok elf, w);
  prove_compressed = λ key stdin w. (ok stdin, w);
  prove_groth16 = λ key stdin w. (ok stdin, w);
  public_values = λ p. p;
  serialize = ok;
  deserialize = ok;
  key_bytes = λ key. key;
  check = λ p key. ok tt;
}

abbrev sp1_program : Sp1Program
sp1_program = record { elf = 1 ∷ []; program_name = codes "range-ethereum" }

abbrev sp1_proof : ProofArtifact
sp1_proof = record {
  backend = sp1;
  mode = compressed;
  proof_bytes = 3 ∷ [];
  public_values = 3 ∷ [];
  program_id = 1 ∷ [];
  cycle_count = none;
}

sp1_sdk-Proves : Proves sp1_sdk sp1_program (1 ∷ [])
sp1_sdk-Proves = record {
  setup = λ u. refl;
  compressed_proofs = λ stdin p u v h. refl;
  groth16_proofs = λ stdin p u v h. refl;
}

sp1_proved :
    prove_sp1 sp1_sdk sp1_program (record { stdin = 3 ∷ [] }) compressed tt ≡ (ok sp1_proof, tt)
unfolding prove_sp1
sp1_proved = refl

verify-prove_sp1_example :
    Verified.Made sp1_sdk compressed (1 ∷ []) sp1_proof
    × (verify_sp1 sp1_sdk sp1_program sp1_proof tt ≡ (ok true, tt))
verify-prove_sp1_example =
    verify-prove_sp1 sp1_sdk sp1_program (1 ∷ []) (record { stdin = 3 ∷ [] }) compressed tt tt
      sp1_proof (λ p bytes h. sym h) sp1_sdk-Proves sp1_proved
