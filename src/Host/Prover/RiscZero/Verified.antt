-- ===== src/Host/Prover/RiscZero/Verified.antt =====
-- What the verification of a RISC Zero proof says, and that proofs pass it.
use open_zk.Common.{◌≡◌, ◌↔◌, ◌⊎◌, inl, inr, refl, ◌∙◌, subst, true, []}
use open_zk.Common.Outcome.{Result, ok}
use open_zk.Common.Io.{after-eq-ok, after-map_err, after-result}
use open_zk.Core.{Bytes, ProofArtifact, ProvingMode, groth16, compressed, execute, risc_zero}
use open_zk.Host.Prover.RiscZero.{
  RiscZeroSdk, RiscZeroProgram, RiscZeroWitness, ProverOpts, ProveInfo, opts_of, artifact_of,
  artifact, build_env, prove_risc_zero, verified_in, verify_risc_zero,
}

module _ {W Builder Env Receipt : Type 0} (sdk : RiscZeroSdk W Builder Env Receipt) where
  -- A receipt in the bytes that verifies for the identifier of the program.
  abbrev pub HoldsReceipt : RiscZeroProgram → Bytes → Type 0
  HoldsReceipt program bytes =
      (receipt : Receipt) × (sdk.deserialize bytes ≡ ok receipt)
      × (sdk.verify receipt program.image_id ≡ ok tt)

  checked_sound :
      (mode : ProvingMode) (program : RiscZeroProgram) (proof : ProofArtifact) (w v : W)
      → verified_in sdk mode program proof w ≡ (ok true, v)
      → (mode ≡ execute) ⊎ HoldsReceipt program proof.proof_bytes
  checked_sound execute program proof w v h = inl refl
  checked_sound compressed program proof w v h =
      let (receipt, read, rest) = after-result _ _ (sdk.deserialize proof.proof_bytes) w h in
      let (_, valid, _) = after-result _ _ (sdk.verify receipt program.image_id) w rest in
      inr (receipt, read, valid)
  checked_sound groth16 program proof w v h =
      let (receipt, read, rest) = after-result _ _ (sdk.deserialize proof.proof_bytes) w h in
      let (_, valid, _) = after-result _ _ (sdk.verify receipt program.image_id) w rest in
      inr (receipt, read, valid)

  receipt_accepted :
      (mode : ProvingMode) (program : RiscZeroProgram) (proof : ProofArtifact) (w : W)
      → HoldsReceipt program proof.proof_bytes
      → verified_in sdk mode program proof w ≡ (ok true, w)
  receipt_accepted execute program proof w (receipt, read, valid) = refl
  receipt_accepted compressed program proof w (receipt, read, valid) = rw (read, valid)
  receipt_accepted groth16 program proof w (receipt, read, valid) = rw (read, valid)

  execute_accepted :
      (mode : ProvingMode) (program : RiscZeroProgram) (proof : ProofArtifact) (w : W)
      → mode ≡ execute
      → verified_in sdk mode program proof w ≡ (ok true, w)
  execute_accepted execute program proof w same = refl
  execute_accepted compressed program proof w same = cc
  execute_accepted groth16 program proof w same = cc

  -- An artifact is accepted exactly if it says that it was only executed, or its bytes hold a receipt
  -- that verifies for the program. Its public values, its program and its backend are not looked at.
  pub verify_risc_zero_iff :
      (program : RiscZeroProgram) (proof : ProofArtifact) (w : W)
      → (verify_risc_zero sdk program proof w ≡ (ok true, w))
        ↔ ((proof.mode ≡ execute) ⊎ HoldsReceipt program proof.proof_bytes)
  unfolding verify_risc_zero
  verify_risc_zero_iff program proof w = (
    checked_sound proof.mode program proof w w,
    λ reason. elim reason [
      | inl executed ↦ execute_accepted proof.mode program proof w executed
      | inr held ↦ receipt_accepted proof.mode program proof w held
    ],
  )

  -- The artifact that a receipt became: what it says of itself, and its bytes for a proof.
  pub record Made (program : RiscZeroProgram) (mode : ProvingMode) (receipt : Receipt)
      (made : ProofArtifact) : Type 0 where
    pub in_mode : made.mode ≡ mode
    pub of_risc_zero : made.backend ≡ risc_zero
    pub journal : made.public_values ≡ sdk.journal_bytes receipt
    pub program_id : made.program_id ≡ program.image_id_bytes
    pub kept : (mode ≡ execute) ⊎ (sdk.serialize receipt ≡ ok made.proof_bytes)

  Made-artifact_of :
      (program : RiscZeroProgram) (mode : ProvingMode) (info : ProveInfo Receipt) (bytes : Bytes)
      (made : ProofArtifact)
      → artifact_of sdk program mode info bytes ≡ made
      → (mode ≡ execute) ⊎ (sdk.serialize info.receipt ≡ ok bytes)
      → Made program mode info.receipt made
  Made-artifact_of program mode info bytes made same kept =
      subst (Made program mode info.receipt) same (record {
        in_mode = refl;
        of_risc_zero = refl;
        journal = refl;
        program_id = refl;
        kept = kept;
      })

  ok_of : {A E : Type 0} {a b : A} {u v : W} → Path (Result E A × W) (ok a, u) (ok b, v) → a ≡ b
  ok_of h = cc

  artifact-Made :
      (mode : ProvingMode) (program : RiscZeroProgram) (info : ProveInfo Receipt) (w v : W)
      (made : ProofArtifact)
      → artifact sdk program mode info w ≡ (ok made, v)
      → Made program mode info.receipt made
  unfolding artifact
  artifact-Made execute program info w v made h =
      Made-artifact_of program execute info [] made (ok_of h) (inl refl)
  artifact-Made compressed program info w v made h =
      let (bytes, written, last) = after-result _ _ (sdk.serialize info.receipt) w h in
      Made-artifact_of program compressed info bytes made (ok_of last) (inr written)
  artifact-Made groth16 program info w v made h =
      let (bytes, written, last) = after-result _ _ (sdk.serialize info.receipt) w h in
      Made-artifact_of program groth16 info bytes made (ok_of last) (inr written)

  pub prove_risc_zero-Made :
      (program : RiscZeroProgram) (witness : RiscZeroWitness) (mode : ProvingMode) (w v : W)
      (made : ProofArtifact)
      → prove_risc_zero sdk program witness mode w ≡ (ok made, v)
      → (receipt : Receipt) × Made program mode receipt made
  unfolding prove_risc_zero build_env
  prove_risc_zero-Made program witness mode w v made h =
      let (env, w1, _, h1) = after-eq-ok _ (build_env sdk witness w) h in
      let (info, w2, _, h2) =
        after-map_err _ _ (sdk.prove_with_opts env program.elf (opts_of mode) w1) h1 in
      (info.receipt, artifact-Made mode program info w2 v made h2)

  -- Where bincode reads what it wrote, and the receipts for the program's binary verify for its
  -- identifier: an artifact that `prove` gives carries the mode, the backend, the identifier of the
  -- program and the journal of a receipt, and `verify` accepts it.
  pub verify-prove_risc_zero :
      (program : RiscZeroProgram) (witness : RiscZeroWitness) (mode : ProvingMode) (w v : W)
      (made : ProofArtifact)
      → ((receipt : Receipt) (bytes : Bytes)
          → sdk.serialize receipt ≡ ok bytes
          → sdk.deserialize bytes ≡ ok receipt)
      → ((env : Env) (opts : ProverOpts) (u u2 : W) (info : ProveInfo Receipt)
          → sdk.prove_with_opts env program.elf opts u ≡ (ok info, u2)
          → sdk.verify info.receipt program.image_id ≡ ok tt)
      → prove_risc_zero sdk program witness mode w ≡ (ok made, v)
      → (receipt : Receipt) × Made program mode receipt made
        × (verify_risc_zero sdk program made v ≡ (ok true, v))
  unfolding prove_risc_zero build_env
  verify-prove_risc_zero program witness mode w v made reads_back verifies h =
      let (env, w1, _, h1) = after-eq-ok _ (build_env sdk witness w) h in
      let (info, w2, proved, h2) =
        after-map_err _ _ (sdk.prove_with_opts env program.elf (opts_of mode) w1) h1 in
      let is_made = artifact-Made mode program info w2 v made h2 in
      let reason : (made.mode ≡ execute) ⊎ HoldsReceipt program made.proof_bytes =
        elim is_made.kept [
          | inl executed ↦ inl (is_made.in_mode ∙ executed)
          | inr written ↦ inr (
            info.receipt,
            reads_back info.receipt made.proof_bytes written,
            verifies env (opts_of mode) w1 w2 info proved,
          )
        ] in
      (info.receipt, is_made, (verify_risc_zero_iff program made v).1 reason)
