-- ===== src/Host/Prover/Sp1/Verified.antt =====
-- Proofs of SP1 pass its verification.
use open_zk.Common.{◌≡◌, ◌⊎◌, inl, inr, refl, ap, sym, ◌∙◌, true, Text}
use open_zk.Common.Outcome.{Result, ok}
use open_zk.Common.Io.{after-map_err, after-result}
use open_zk.Core.{Bytes, ProofArtifact, ProvingMode, groth16, compressed, execute, sp1}
use open_zk.Host.Prover.Sp1.{
  Sp1Sdk, Sp1Program, Sp1Witness, proved, prove_sp1, verified_in, verify_sp1,
}

ok_of : {W A E : Type 0} {a b : A} {u v : W} → Path (Result E A × W) (ok a, u) (ok b, v) → a ≡ b
ok_of h = cc

module _ {W Stdin Key Proof : Type 0} (sdk : Sp1Sdk W Stdin Key Proof) where
  -- A proof by one of the two calls, as an artifact: its bytes, its public values and the key.
  pub record MadeOf (key : Key) (proof : Proof) (made : ProofArtifact) : Type 0 where
    pub bytes : sdk.serialize proof ≡ ok made.proof_bytes
    pub committed : made.public_values ≡ sdk.public_values proof
    pub program_id : made.program_id ≡ sdk.key_bytes key
    pub valid : sdk.check proof key ≡ ok tt

  -- The setup of a binary always gives the same key, and the proofs of both calls check with it.
  pub record Proves (program : Sp1Program) (key : Key) : Type 0 where
    pub setup : (u : W) → sdk.setup program.elf u ≡ (ok key, u)
    pub compressed_proofs :
        (stdin : Stdin) (proof : Proof) (u v : W)
        → sdk.prove_compressed key stdin u ≡ (ok proof, v)
        → sdk.check proof key ≡ ok tt
    pub groth16_proofs :
        (stdin : Stdin) (proof : Proof) (u v : W)
        → sdk.prove_groth16 key stdin u ≡ (ok proof, v)
        → sdk.check proof key ≡ ok tt

  key_eq : {a b : Key} {u v : W} → Path (Result Text Key × W) (ok a, u) (ok b, v) → a ≡ b
  key_eq h = cc

  proved-MadeOf :
      (program : Sp1Program) (key : Key) (witness : Sp1Witness Stdin) (mode : ProvingMode)
      (prove : Key → Stdin → W → Result Text Proof × W) (w v : W) (made : ProofArtifact)
      → ((u : W) → sdk.setup program.elf u ≡ (ok key, u))
      → ((stdin : Stdin) (proof : Proof) (u u2 : W)
          → prove key stdin u ≡ (ok proof, u2)
          → sdk.check proof key ≡ ok tt)
      → proved sdk prove program witness mode w ≡ (ok made, v)
      → (made.backend ≡ sp1) × (made.mode ≡ mode) × ((proof : Proof) × MadeOf key proof made)
  proved-MadeOf program key witness mode prove w v made setup valid h =
      let (pk, w1, set_up, h1) = after-map_err _ _ (sdk.setup program.elf w) h in
      let (proof, w2, proving, h2) = after-map_err _ _ (prove pk witness.stdin w1) h1 in
      let (bytes, written, last) = after-result _ _ (sdk.serialize proof) w2 h2 in
      let same : pk ≡ key = key_eq (sym set_up ∙ setup w) in
      let proving_key : prove key witness.stdin w1 ≡ (ok proof, w2) =
        ap (λ k. prove k witness.stdin w1) (sym same) ∙ proving in
      let made_eq = ok_of last in
      (
        sym (ap (λ (a : ProofArtifact). a.backend) made_eq),
        sym (ap (λ (a : ProofArtifact). a.mode) made_eq),
        (
          proof,
          record {
            bytes = written ∙ ap (λ (a : ProofArtifact). ok a.proof_bytes) made_eq;
            committed = sym (ap (λ (a : ProofArtifact). a.public_values) made_eq);
            program_id =
                sym (ap (λ (a : ProofArtifact). a.program_id) made_eq) ∙ ap sdk.key_bytes same;
            valid = valid witness.stdin proof w1 w2 proving_key;
          },
        ),
      )

  proof_accepted :
      (mode : ProvingMode) (program : Sp1Program) (key : Key) (proof : Proof) (made : ProofArtifact)
      (w : W)
      → ((u : W) → sdk.setup program.elf u ≡ (ok key, u))
      → sdk.deserialize made.proof_bytes ≡ ok proof
      → sdk.check proof key ≡ ok tt
      → verified_in sdk mode program made w ≡ (ok true, w)
  proof_accepted execute program key proof made w setup read valid = refl
  proof_accepted compressed program key proof made w setup read valid = rw (read, setup w, valid)
  proof_accepted groth16 program key proof made w setup read valid = rw (read, setup w, valid)

  -- The artifact of a mode: what a proof became, but for an execution.
  abbrev pub Made : ProvingMode → Key → ProofArtifact → Type 0
  Made mode key made =
      (made.backend ≡ sp1)
      × (made.mode ≡ mode)
      × ((mode ≡ execute) ⊎ ((proof : Proof) × MadeOf key proof made))

  prove_sp1-Made :
      (mode : ProvingMode) (program : Sp1Program) (key : Key) (witness : Sp1Witness Stdin) (w v : W)
      (made : ProofArtifact)
      → Proves program key
      → prove_sp1 sdk program witness mode w ≡ (ok made, v)
      → Made mode key made
  unfolding prove_sp1
  prove_sp1-Made execute program key witness w v made proves h =
      let ((_, _), w1, _, last) = after-map_err _ _ (sdk.run program.elf witness.stdin w) h in
      let made_eq = ok_of last in
      (
        sym (ap (λ (a : ProofArtifact). a.backend) made_eq),
        sym (ap (λ (a : ProofArtifact). a.mode) made_eq),
        inl refl,
      )
  prove_sp1-Made compressed program key witness w v made proves h =
      let (backend, mode, from) =
        proved-MadeOf program key witness compressed sdk.prove_compressed w v made proves.setup
          proves.compressed_proofs h in
      (backend, mode, inr from)
  prove_sp1-Made groth16 program key witness w v made proves h =
      let (backend, mode, from) =
        proved-MadeOf program key witness groth16 sdk.prove_groth16 w v made proves.setup
          proves.groth16_proofs h in
      (backend, mode, inr from)

  execute_accepted :
      (mode : ProvingMode) (program : Sp1Program) (made : ProofArtifact) (w : W)
      → mode ≡ execute
      → verified_in sdk mode program made w ≡ (ok true, w)
  execute_accepted execute program made w same = refl
  execute_accepted compressed program made w same = cc
  execute_accepted groth16 program made w same = cc

  -- Where bincode reads what it wrote, the setup of the binary always gives the same key and proofs
  -- check with it: an artifact that `prove` gives is of SP1 and of the mode that was asked for; it
  -- has the public values and the key of a proof that its bytes hold, but for an execution; and
  -- `verify` accepts it.
  pub verify-prove_sp1 :
      (program : Sp1Program) (key : Key) (witness : Sp1Witness Stdin) (mode : ProvingMode) (w v : W)
      (made : ProofArtifact)
      → ((proof : Proof) (bytes : Bytes)
          → sdk.serialize proof ≡ ok bytes
          → sdk.deserialize bytes ≡ ok proof)
      → Proves program key
      → prove_sp1 sdk program witness mode w ≡ (ok made, v)
      → Made mode key made × (verify_sp1 sdk program made v ≡ (ok true, v))
  unfolding verify_sp1
  verify-prove_sp1 program key witness mode w v made reads_back proves h =
      let is_made = prove_sp1-Made mode program key witness w v made proves h in
      let (_, same_mode, from) = is_made in
      let accepted : verify_sp1 sdk program made v ≡ (ok true, v) = elim from [
        | inl executed ↦ execute_accepted made.mode program made v (same_mode ∙ executed)
        | inr (proof, of_proof) ↦
            proof_accepted made.mode program key proof made v proves.setup
              (reads_back proof made.proof_bytes of_proof.bytes) of_proof.valid
      ] in
      (is_made, accepted)
