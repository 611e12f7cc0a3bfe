-- ===== src/Cli/Prove/Built.antt =====
-- The artifact that `open-zk prove` gives, by the prover that the backend chooses.
use open_zk.Common.{ℕ, ◌≡◌, ◌⊎◌, refl, Bool, true, false, inl, inr, Bool-cases, Option, Text}
use open_zk.Common.Outcome.{Result, ok, err}
use open_zk.Common.Io.{Io, after-eq-ok, after-map_err, after-result, map_err}
use open_zk.Core.{
  ProofArtifact, ProvingMode, groth16, compressed, execute, ZkvmBackend, sp1, risc_zero, auto, mock,
}
use open_zk.Orchestrator.Intent.{ResolvedIntent}
use open_zk.Cli.Config.{CliConfig, is_mock_mode}
use open_zk.Cli.Files.{ConfigFiles}
use open_zk.Cli.Halt.{Halt}
use open_zk.Cli.Prove.{load_intent, prove_range, prove_command}
use open_zk.Cli.Zkvms.{Zkvms, run_with, run_prover, sp1_program, risc_zero_program}
use open_zk.Host.Adapter.{RawWitness}
use open_zk.Host.Prover.{mock_prover, new_mock_program}
use open_zk.Host.Prover.RiscZero.Verified.{prove_risc_zero-Made}
use open_zk.Host.Prover.Sp1.{Sp1Sdk, Sp1Program, Sp1Witness, proved, prove_sp1}

-- The backend and the mode of an artifact.
abbrev IsOf : ZkvmBackend → ProvingMode → ProofArtifact → Type 0
IsOf backend mode made = (made.backend ≡ backend) × (made.mode ≡ mode)

ok_IsOf :
    {W E : Type 0} (backend : ZkvmBackend) (mode : ProvingMode) (a made : ProofArtifact) (u v : W)
    → IsOf backend mode a
    → Path (Result E ProofArtifact × W) (ok a, u) (ok made, v)
    → IsOf backend mode made
ok_IsOf backend mode a made u v (same_backend, same_mode) h = (cc, cc)

err_ne_ok :
    {W E A : Type 0} {e : E} {a : A} {u v : W} → Path (Result E A × W) (err e, u) (ok a, v) → ⊥
err_ne_ok h = cc

map_err_inverted :
    {W E F : Type 0} {A : Type 0} (f : F → E) (r : Result F A × W) (a : A) (v : W)
    → map_err f r ≡ (ok a, v)
    → r ≡ (ok a, v)
map_err_inverted f (err e, w) a v h = cc
map_err_inverted f (ok b, w) a v h = cc

module _ {W Stdin Key Proof : Type 0} (sdk : Sp1Sdk W Stdin Key Proof) where
  proved-IsOf :
      (prove : Key → Stdin → W → Result Text Proof × W) (program : Sp1Program)
      (witness : Sp1Witness Stdin) (mode : ProvingMode) (w v : W) (made : ProofArtifact)
      → proved sdk prove program witness mode w ≡ (ok made, v)
      → IsOf sp1 mode made
  proved-IsOf prove program witness mode w v made h =
      let (key, w1, _, h1) = after-map_err _ _ (sdk.setup program.elf w) h in
      let (proof, w2, _, h2) = after-map_err _ _ (prove key witness.stdin w1) h1 in
      let (bytes, _, last) = after-result _ _ (sdk.serialize proof) w2 h2 in
      ok_IsOf sp1 mode _ made w2 v (refl, refl) last

  prove_sp1-IsOf :
      (program : Sp1Program) (witness : Sp1Witness Stdin) (mode : ProvingMode) (w v : W)
      (made : ProofArtifact)
      → prove_sp1 sdk program witness mode w ≡ (ok made, v)
      → IsOf sp1 mode made
  unfolding prove_sp1
  prove_sp1-IsOf program witness execute w v made h =
      let ((_, _), w1, _, last) = after-map_err _ _ (sdk.run program.elf witness.stdin w) h in
      ok_IsOf sp1 execute _ made w1 v (refl, refl) last
  prove_sp1-IsOf program witness compressed w v made h =
      proved-IsOf sdk.prove_compressed program witness compressed w v made h
  prove_sp1-IsOf program witness groth16 w v made h =
      proved-IsOf sdk.prove_groth16 program witness groth16 w v made h

module _ {W Stdin Key Proof Builder Env Receipt : Type 0}
    (zkvms : Zkvms W Stdin Key Proof Builder Env Receipt) where
  -- The mock is always there, and no prover is called auto.
  abbrev pub IsBuilt : ZkvmBackend → Type 0
  IsBuilt mock = Unit
  IsBuilt sp1 = zkvms.has_sp1 ≡ true
  IsBuilt risc_zero = zkvms.has_risc_zero ≡ true
  IsBuilt auto = ⊥

  -- The artifact is of the backend, which is built, and of the mode.
  abbrev pub Matches : ZkvmBackend → ProvingMode → ProofArtifact → Type 0
  Matches backend mode made = IsBuilt backend × (made.backend ≡ backend) × (made.mode ≡ mode)

  with_IsOf :
      (backend : ZkvmBackend) (mode : ProvingMode) (made : ProofArtifact)
      → IsBuilt backend
      → IsOf backend mode made
      → Matches backend mode made
  with_IsOf backend mode made built (same_backend, same_mode) = (built, same_backend, same_mode)

  run_with-Matches :
      (mode : ProvingMode) (backend : ZkvmBackend) (witness : RawWitness) (w v : W)
      (made : ProofArtifact)
      → run_with zkvms mode backend witness w ≡ (ok made, v)
      → Matches backend mode made
  unfolding run_with mock_prover new_mock_program
  run_with-Matches mode mock witness w v made h =
      with_IsOf mock mode made tt (ok_IsOf mock mode _ made w v (refl, refl) h)
  run_with-Matches mode sp1 witness w v made h = elim (Bool-cases zkvms.has_sp1) [
    | inl built ↦ with_IsOf sp1 mode made built (
        prove_sp1-IsOf zkvms.sp1_sdk (sp1_program zkvms) _ mode w v made
          (map_err_inverted _ _ made v (rw built at h)))
    | inr missing ↦ absurd (err_ne_ok (rw missing at h))
  ]
  run_with-Matches mode risc_zero witness w v made h = elim (Bool-cases zkvms.has_risc_zero) [
    | inl built ↦
        let (receipt, is_made) =
          prove_risc_zero-Made zkvms.risc_zero_sdk (risc_zero_program zkvms) _ mode w v made
            (map_err_inverted _ _ made v (rw built at h)) in
        (built, is_made.of_risc_zero, is_made.in_mode)
    | inr missing ↦ absurd (err_ne_ok (rw missing at h))
  ]
  run_with-Matches mode auto witness w v made h = cc

module _ {W Stdin Key Proof Builder Env Receipt : Type 0} (has_kona : Bool)
    (zkvms : Zkvms W Stdin Key Proof Builder Env Receipt) (files : ConfigFiles W)
    (sp1_prover : W → Option Text) (generate : CliConfig → ℕ → ℕ → Io W Halt RawWitness) where
  -- An artifact of the mock in mock mode, and else of a backend that is built.
  abbrev pub ProvedBy : CliConfig → ResolvedIntent → W → ProofArtifact → Type 0
  ProvedBy config intent u made =
      ((is_mock_mode (sp1_prover u) config ≡ true) × IsOf mock intent.proving_mode made)
      ⊎ ((has_kona ≡ true) × (Matches zkvms intent.backend intent.proving_mode made))

  prove_range-Matches :
      (built : Bool) (config : CliConfig) (intent : ResolvedIntent) (start_block end_block : ℕ)
      (w v : W) (made : ProofArtifact)
      → prove_range built zkvms files sp1_prover generate config intent start_block end_block w
        ≡ (ok made, v)
      → (built ≡ true) × (Matches zkvms intent.backend intent.proving_mode made)
  unfolding prove_range run_prover
  prove_range-Matches true config intent start_block end_block w v made h =
      let (witness, w1, _, h1) = after-eq-ok _ (generate config start_block end_block w) h in
      (refl, run_with-Matches zkvms intent.proving_mode intent.backend witness w1 v made h1)
  prove_range-Matches false config intent start_block end_block w v made h = cc

  -- If the command gives an artifact, then its configuration was loaded, and either it is in mock mode
  -- and the artifact is of the mock, or it was built with kona and with the backend of the intent, and
  -- the artifact is of this backend. The mode is that of the intent.
  pub prove_command-ProvedBy :
      (path : Text) (start_block end_block : ℕ) (w v : W) (made : ProofArtifact)
      → prove_command has_kona zkvms files sp1_prover generate path start_block end_block w
        ≡ (ok made, v)
      → (config : CliConfig) × (intent : ResolvedIntent) × (u : W) × (load_intent files path w
          ≡ (ok (config, intent), u))
        × ProvedBy config intent u made
  unfolding prove_command mock_prover new_mock_program
  prove_command-ProvedBy path start_block end_block w v made h =
      let ((config, intent), u, loaded, h1) = after-eq-ok _ (load_intent files path w) h in
      (
        config,
        intent,
        u,
        loaded,
        elim (Bool-cases (is_mock_mode (sp1_prover u) config)) [
          | inl mocked ↦
              inl
                (mocked, ok_IsOf mock intent.proving_mode _ made u v (refl, refl) (rw mocked at h1))
          | inr real ↦ inr (
              prove_range-Matches has_kona config intent start_block end_block u v made
                (rw real at h1))
        ],
      )
