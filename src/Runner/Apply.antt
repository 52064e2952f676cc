-- ===== src/Runner/Apply.antt =====
-- The apply of `execute_phase` in src/runner.rs: the command, its marker, the recovery of the state
-- and its delivery.
pub mod Marker
pub mod State
unfoldable pub use Marker.*
unfoldable pub use State.*
use terrence_agent.Prelude.{
  ℕ, ◌*◌, String, Bool, true, false, not, ◌&&◌, ◌||◌, Option, none, some, List, [], ◌∷◌,
  if◌then◌else◌, str_eq, ltb, leb, max, saturating_add,
}
use terrence_agent.Protocol.Completion.{StateArtifact}
use terrence_agent.Protocol.Job.{AgentJobPayload, JobContainer, PlanCounts}
use terrence_agent.Runner.Control.{
  CancelReason, is_force, reason_text, at_call, ExecutionControl, RunError, canceled, failed,
  Result, ok, err, Argument, word, R, ◌>>=◌, ◌>>◌, pure, raise, lift, catch, require,
}
use terrence_agent.Runner.Command.{
  CommandRun, StateCapture, run_streamed, capture_state_file, capture_json,
}
use terrence_agent.Runner.Provenance.{
  Host, Measures, ProvenanceManifest, verify_plan_manifest, agent_metadata, tool_metadata,
  sandbox_metadata, requested_tool,
}

-- The manifest of the apply: that of the plan with what is different now.
unfoldable pub apply_manifest :
    Host
    → ApplyEnv
    → AgentJobPayload
    → JobContainer
    → ProvenanceManifest
    → RunResult
    → String
    → ProvenanceManifest
apply_manifest h e p c m r digest = record m {
  phase = "apply";
  status = if is_error r.apply_error || r.state_recovery_required then "errored" else "finished";
  agent = agent_metadata h;
  tool = tool_metadata (requested_tool p) c.terraform_version e.binary_path digest;
  cli_args = apply_args;
  sandbox = sandbox_metadata h;
  output_state_digest = r.state_digest;
  source_manifest_digest = e.source_digest;
  started_at = e.started;
  completed_at = max e.completed (saturating_add e.started 1);
}

-- From the state pull to the result; the manifest is written before its digest is known.
unfoldable pub recover_state :
    Host
    → ApplyEnv
    → AgentJobPayload
    → JobContainer
    → PlanCounts
    → ProvenanceManifest
    → Option String
    → R RunResult
recover_state h e p c counts m apply_error = do
  capture ← capture_state e
  commit ← commit_state e (is_recovered e capture) (artifact_url p c) e.artifact
  binary ← lift e.binary_digest
  let result = apply_result counts apply_error capture (is_recovered e capture) commit
  digest ← lift (e.persisted (apply_manifest h e p c m (result "") binary))
  pure (result digest)

-- The apply of `execute_phase`; `manifest` is that of the preparation.
unfoldable pub execute_phase_apply :
    Host
    → ApplyEnv
    → AgentJobPayload
    → JobContainer
    → PlanCounts
    → Measures
    → List String
    → Option ProvenanceManifest
    → R RunResult
execute_phase_apply h e p c counts now names manifest = do
  plan_manifest ← require manifest "plan filesystem snapshot is missing its execution manifest"
  verify_plan_manifest h p c now names plan_manifest
  apply_error ← apply_once e
  recover_state h e p c counts plan_manifest apply_error
