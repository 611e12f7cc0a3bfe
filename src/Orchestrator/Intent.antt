-- ===== src/Orchestrator/Intent.antt =====
-- crates/orchestrator/src/intent.rs: from the user's constraints to concrete proving parameters.
use open_zk.Common.{ℕ, List, [], ◌∷◌}
use open_zk.Core.{
  ProofMode, beacon, sentinel, SecurityLevel, maximum, standard, economy, ZkvmBackend, sp1,
  risc_zero, auto, ProvingMode, groth16,
}

pub record ResolvedIntent : Type 0 where
  pub proof_mode : ProofMode
  pub backend : ZkvmBackend
  pub proving_mode : ProvingMode
  pub aggregation_window : ℕ

-- `IntentResolver::DEFAULT_ALLOWED_BACKENDS`
abbrev pub default_allowed_backends : List ZkvmBackend
default_allowed_backends = sp1 ∷ risc_zero ∷ []

-- The target finality, in seconds, is not read.
unfoldable pub resolve_proof_mode : ℕ → SecurityLevel → ProofMode
resolve_proof_mode target_finality maximum = beacon
resolve_proof_mode target_finality _ = sentinel

unfoldable pub resolve_auto : List ZkvmBackend → ZkvmBackend
resolve_auto [] = sp1
resolve_auto (first ∷ rest) = first

-- The `match security` of `resolve`.
unfoldable pub window_of : SecurityLevel → ℕ
window_of maximum = 10
window_of standard = 100
window_of economy = 1000

-- The `match backend` of `resolve`.
unfoldable pub backend_of : ZkvmBackend → List ZkvmBackend → ZkvmBackend
unfolding resolve_auto
backend_of auto allowed = resolve_auto allowed
backend_of explicit allowed = explicit

unfoldable pub resolve : ZkvmBackend → List ZkvmBackend → ℕ → SecurityLevel → ResolvedIntent
unfolding resolve_proof_mode window_of backend_of
resolve backend allowed_backends target_finality security = record {
  proof_mode = resolve_proof_mode target_finality security;
  backend = backend_of backend allowed_backends;
  proving_mode = groth16;
  aggregation_window = window_of security;
}
