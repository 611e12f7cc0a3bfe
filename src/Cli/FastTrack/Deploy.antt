-- ===== src/Cli/FastTrack/Deploy.antt =====
-- crates/cli/src/commands/fast_track.rs: the four steps of the command.
use open_zk.Common.{ℕ, Bool, false, if◌then◌else◌, bytes_eq, Option, none, some, ◌++◌, Text, codes}
use open_zk.Common.Outcome.{Result, ok, err}
use open_zk.Common.Io.{Io, ◌>>=◌, pure, map_err}
use open_zk.Core.{Bytes}
use open_zk.Cli.Halt.{Halt, error}
use open_zk.Cli.FastTrack.{
  FastTrackArgs, DeploymentResult, ForgeCommand, forge_command, is_key, parse_deployment_output,
}

-- What a process printed, and whether it succeeded.
pub record ProcessOutput : Type 0 where
  pub success : Bool
  pub stdout : Text
  pub stderr : Text

pub record Tools (W : Type 0) : Type 0 where
  pub parse_url : Text → Result Text Text
  pub get_chain_id : Text → W → Result Text ℕ × W
  pub forge_version : W → Result Text ProcessOutput × W
  pub run_forge : ForgeCommand → W → Result Text ProcessOutput × W
  pub parse_address : Text → Option Bytes
  -- `SP1_PROVER`, where it is set
  pub sp1_prover : W → Option Text
  -- the file `deployment.json`
  pub write_summary : DeploymentResult → FastTrackArgs → Bool → W → Result Text (Unit {0}) × W

module _ {W : Type 0} (tools : Tools W) where
  unfoldable pub verify_connectivity : Text → Text → Io W Halt (Unit {0})
  verify_connectivity l1_rpc l2_rpc = do
    l1_url ← λ w. map_err error (tools.parse_url l1_rpc, w)
    l2_url ← λ w. map_err error (tools.parse_url l2_rpc, w)
    _ ← λ w. map_err (λ e. error (codes "L1 RPC unreachable: " ++ e)) (tools.get_chain_id l1_url w)
    _ ← λ w. map_err (λ e. error (codes "L2 RPC unreachable: " ++ e)) (tools.get_chain_id l2_url w)
    pure tt

  abbrev foundry_missing : Halt
  foundry_missing =
      error
        (codes "Foundry not found. Install it with: curl -L https://foundry.paradigm.xyz | bash")

  abbrev installed : Result Text ProcessOutput × W → Result Halt (Unit {0}) × W
  installed (err e, w) = (err foundry_missing, w)
  installed (ok o, w) = (if o.success then ok tt else err foundry_missing, w)

  unfoldable pub check_foundry : Io W Halt (Unit {0})
  check_foundry w = installed (tools.forge_version w)

  abbrev script_output : ProcessOutput → Result Halt Text
  script_output o =
      if o.success
      then ok o.stdout
      else err (
          error (
            codes "forge script failed:\nstdout:\n" ++ o.stdout ++ codes "\nstderr:\n" ++ o.stderr))

  unfoldable pub deploy_via_forge : FastTrackArgs → Io W Halt Text
  unfolding forge_command
  deploy_via_forge args = do
    output ← λ w.
        map_err (λ e. error (codes "failed to run forge: " ++ e))
          (tools.run_forge (forge_command args) w)
    λ w. (script_output output, w)

  abbrev is_mock : Option Text → Bool
  is_mock none = false
  is_mock (some v) = bytes_eq v (codes "mock")

  abbrev bad_key : Halt
  bad_key = error (codes "invalid deployer key: must be 64 hex characters")

  -- `execute`: the result that it prints and writes.
  unfoldable pub fast_track : FastTrackArgs → Io W Halt DeploymentResult
  unfolding is_key verify_connectivity check_foundry deploy_via_forge parse_deployment_output
  fast_track args = do
    _ ← λ w. (if is_key args.deployer_key then ok tt else err bad_key, w)
    mock_mode ← λ w. (ok (is_mock (tools.sp1_prover w)), w)
    _ ← verify_connectivity args.l1_rpc_url args.l2_rpc_url
    _ ← check_foundry
    output ← deploy_via_forge args
    result ← parse_deployment_output tools.parse_address output args
    _ ← λ w. map_err error (tools.write_summary result args mock_mode w)
    pure result
