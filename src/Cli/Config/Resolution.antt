-- ===== src/Cli/Config/Resolution.antt =====
-- What a configuration file comes to, once the SDK has resolved it.
use open_zk.Common.{
  ℕ, ◌<◌, ◌≡◌, ◌≢◌, ◌↔◌, refl, Bool, true, false, if◌then◌else◌, List, [], ◌∷◌, Text, codes,
  bytes_eq, bytes_eq→eq, eq→bytes_eq, arith, All,
}
use open_zk.Common.Outcome.{ok}
use open_zk.Core.{
  beacon, SecurityLevel, maximum, standard, economy, ZkvmBackend, sp1, risc_zero, auto, mock,
}
use open_zk.Orchestrator.Intent.{ResolvedIntent, resolve_auto, resolve_proof_mode, window_of}
use open_zk.Orchestrator.Intent
use open_zk.Sdk.{OpenZkConfig, build, resolve}
use open_zk.Cli.Config.{CliConfig, security_of, backend_of, allowed_of, to_sdk_config}

-- A resolved intent that the engine can work with, for a file with these words for security and
-- backend.
pub record Usable (security backend : Text) (intent : ResolvedIntent) : Type 0 where
  pub validity : (intent.proof_mode ≡ beacon) ↔ (security ≡ codes "maximum")
  pub concrete : intent.backend ≢ auto
  pub mocked : (intent.backend ≡ mock) ↔ (backend ≡ codes "mock")
  pub window_pos : 0 < intent.aggregation_window
  pub window_le : intent.aggregation_window < 1001

mode_if :
    (b c : Bool)
    → resolve_proof_mode 0 (if b then maximum else if c then economy else standard) ≡ beacon
    → b ≡ true
unfolding resolve_proof_mode
mode_if true c h = refl
mode_if false true h = cc
mode_if false false h = cc

mode_beacon :
    (secs : ℕ) (s : Text)
    → (resolve_proof_mode secs (security_of s) ≡ beacon) ↔ (s ≡ codes "maximum")
unfolding security_of resolve_proof_mode
mode_beacon secs s = (
  λ h. bytes_eq→eq s _ (mode_if (bytes_eq s (codes "maximum")) (bytes_eq s (codes "economy")) h),
  λ e. rw (eq→bytes_eq s (codes "maximum") e),
)

window_bounds : (s : SecurityLevel) → (0 < window_of s) × (window_of s < 1001)
unfolding window_of
window_bounds maximum = (omega arith, omega arith)
window_bounds standard = (omega arith, omega arith)
window_bounds economy = (omega arith, omega arith)

-- Neither of the two backends that stand for no zkVM.
abbrev IsZkvm : ZkvmBackend → Type 0
IsZkvm b = (b ≢ auto) × (b ≢ mock)

sp1-IsZkvm : IsZkvm sp1
sp1-IsZkvm = (λ h. cc, λ h. cc)

risc_zero-IsZkvm : IsZkvm risc_zero
risc_zero-IsZkvm = (λ h. cc, λ h. cc)

allowed_if :
    (a b : Bool) (others : List ZkvmBackend)
    → All IsZkvm others
    → All IsZkvm (if a then sp1 ∷ others else if b then risc_zero ∷ others else others)
allowed_if true b others h = (sp1-IsZkvm, h)
allowed_if false true others h = (risc_zero-IsZkvm, h)
allowed_if false false others h = h

allowed_of-IsZkvm : (names : List Text) → All IsZkvm (allowed_of names)
unfolding allowed_of
allowed_of-IsZkvm [] = tt
allowed_of-IsZkvm (s ∷ rest) =
    allowed_if (bytes_eq s (codes "sp1")) (bytes_eq s (codes "risc0")) (allowed_of rest)
      (allowed_of-IsZkvm rest)

resolve_auto-IsZkvm :
    (allowed : List ZkvmBackend) → All IsZkvm allowed → IsZkvm (resolve_auto allowed)
unfolding resolve_auto
resolve_auto-IsZkvm [] h = sp1-IsZkvm
resolve_auto-IsZkvm (first ∷ rest) h = h.0

-- What the backend is for the three answers to "is it this word?".
backend_if :
    (a b c : Bool) (allowed : List ZkvmBackend)
    → All IsZkvm allowed
    → let resolved =
        Intent.backend_of
          (if a then sp1 else if b then risc_zero else if c then mock else auto)
          allowed in
      (resolved ≢ auto) × (resolved ≡ mock → c ≡ true)
unfolding Intent.backend_of
backend_if true b c allowed h = (λ e. cc, λ e. cc)
backend_if false true c allowed h = (λ e. cc, λ e. cc)
backend_if false false true allowed h = (λ e. cc, λ e. refl)
backend_if false false false allowed h =
    let (live, real) = resolve_auto-IsZkvm allowed h in (live, λ e. absurd (real e))

backend_mock :
    (s : Text) (allowed : List ZkvmBackend)
    → s ≡ codes "mock"
    → Intent.backend_of (backend_of s) allowed ≡ mock
unfolding Intent.backend_of backend_of bytes_eq
backend_mock s allowed e = rw (e)

-- Every configuration file is accepted. It resolves to validity proofs exactly where its security is
-- the word "maximum"; never to the backend `auto`; to the mock backend exactly where its backend is
-- the word "mock"; and to a window between 1 and 1000.
pub to_sdk_config-Usable :
    (c : CliConfig)
    → (sdk : OpenZkConfig) × (to_sdk_config c ≡ ok sdk)
      × Usable c.proving.security c.proving.backend (resolve sdk)
unfolding to_sdk_config build resolve Intent.resolve backend_of
to_sdk_config-Usable c =
    let allowed = allowed_of c.proving.allowed_backends in
    let s = c.proving.backend in
    let (live, only) =
      backend_if (bytes_eq s (codes "sp1")) (bytes_eq s (codes "risc0")) (bytes_eq s (codes "mock"))
        allowed (allowed_of-IsZkvm c.proving.allowed_backends) in
    let (some_window, window_max) = window_bounds (security_of c.proving.security) in
    (
      _,
      refl,
      record {
        validity = mode_beacon c.proving.target_finality_secs c.proving.security;
        concrete = live;
        mocked = (λ e. bytes_eq→eq s (codes "mock") (only e), backend_mock s allowed);
        window_pos = some_window;
        window_le = window_max;
      },
    )
