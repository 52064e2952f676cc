-- ===== src/Runner/Run.antt =====
-- `Runner::run` of src/runner.rs: the stages of a job, and the completion that it ends with.
use Prim.Native.String.{◌++◌ as append}
use terrence_agent.Prelude.{
  ℕ, String, Bool, true, false, not, ◌||◌, Option, none, some, List, if◌then◌else◌, str_eq,
}
use terrence_agent.Protocol.Completion.{CompletionJob}
use terrence_agent.Protocol.Job.{
  Phase, plan, apply, unsupported, phase_text, is_apply, AgentJobPayload, JobContainer, PlanCounts,
  container, has_changes,
}
use terrence_agent.Runner.Control.{
  CancelReason, reason, reason_text, ExecutionControl, failed, canceled, Result, ok, err, RunState,
  R, ◌>>=◌, ◌>>◌, pure, raise, lift, require, bail_if,
}
use terrence_agent.Runner.Provenance.{Host, Measures, ProvenanceManifest, requested_tool}
use terrence_agent.Runner.Apply.{ApplyEnv, RunResult, execute_phase_apply, is_error}
use terrence_agent.Runner.Plan.{PlanEnv, step, execute_phase_plan}
use terrence_agent.Runner.Inputs.{validate_payload_identifiers}
use terrence_agent.Agent.Effects.{JobOutcome}

-- What the stages before and after the commands do. `timeout` and `exec_dir` are errors of
-- `parse_job_timeout` and `working_directory`, `download`, `unpack` and `config_file` of the
-- preparation, `environment` of `execution_environment`, `binary` of `resolve_binary`, and
-- `snapshot_marker` the marker file that an unpacked snapshot holds.
pub record RunEnv : Type 0 where
  pub start_control : ExecutionControl
  pub directory : Result String
  pub timeout : Option String
  pub private_dirs : Option String
  pub exec_dir : Option String
  pub download : Option String
  pub config_digest : Result String
  pub unpack : Option String
  pub config_file : Option String
  pub snapshot_marker : Option (Option String)
  pub manifest : Result ProvenanceManifest
  pub create_exec_dir : Option String
  pub environment : Result (List String)
  pub binary : Option String
  pub counts : PlanCounts
  pub measures : Result Measures
  pub plan_env : PlanEnv
  pub apply_env : ApplyEnv
  pub log_incomplete : Bool
  pub outputs_of : String → String

pub record Preparation : Type 0 where
  pub config_digest : Option String
  pub manifest : Option ProvenanceManifest

-- `prepare_plan`
unfoldable pub prepare_plan : RunEnv → R Preparation
prepare_plan e = do
  step e.download
  digest ← lift e.config_digest
  step e.unpack
  step e.config_file
  pure (record { config_digest = some digest; manifest = none })

-- Unpacking a snapshot may leave a marker file.
unfoldable pub unpack_snapshot : RunEnv → R (Unit {0})
unpack_snapshot e s = (ok tt, record s { marker = e.snapshot_marker })

-- `prepare_apply`
unfoldable pub prepare_apply : RunEnv → R Preparation
prepare_apply e = do
  step e.download
  step e.unpack
  unpack_snapshot e
  step e.config_file
  manifest ← lift e.manifest
  pure (record { config_digest = none; manifest = some manifest })

unfoldable pub prepare : RunEnv → Phase → R Preparation
prepare e plan = prepare_plan e
prepare e apply = prepare_apply e
prepare e (unsupported w) = raise (failed (append "unsupported_workload: " w))

abbrev pub is_known_binary : String → Bool
is_known_binary name = str_eq name "terraform" || str_eq name "tofu"

unfoldable pub execute_phase :
    Host → RunEnv → AgentJobPayload → JobContainer → List String → Preparation → Phase → R RunResult
execute_phase h e p c names prep plan = execute_phase_plan h e.plan_env p c names prep.config_digest
execute_phase h e p c names prep apply = do
  now ← lift e.measures
  execute_phase_apply h e.apply_env p c e.counts now names prep.manifest
execute_phase h e p c names prep (unsupported w) =
    raise (failed (append "unsupported_workload: " w))

-- `run_inner` up to the logs, whose delivery is reported in the result.
unfoldable pub run_stages : Host → RunEnv → AgentJobPayload → R RunResult
run_stages h e p = do
  step e.timeout
  c ← require (container p p.phase) "job payload is missing its container"
  step e.private_dirs
  step e.exec_dir
  prep ← prepare e p.phase
  step e.create_exec_dir
  bail_if (not (is_known_binary (requested_tool p))) "unsupported IaC binary requested by Terrence"
  names ← lift e.environment
  step e.binary
  result ← execute_phase h e p c names prep p.phase
  pure (record result { log_incomplete = e.log_incomplete })

unfoldable pub run_after : Host → RunEnv → AgentJobPayload → Option CancelReason → R RunResult
run_after h e p (some r) = raise (canceled r none)
run_after h e p none = run_stages h e p

unfoldable pub run_inner : Host → RunEnv → AgentJobPayload → R RunResult
run_inner h e p = do
  bail_if (not (validate_payload_identifiers p)) "invalid identifier"
  run_after h e p (reason e.start_control)

unfoldable pub completion_status : Phase → RunResult → String
completion_status apply r =
    if is_error r.apply_error || r.state_recovery_required then "errored" else "finished"
completion_status _ r = "finished"

unfoldable pub completion_lifecycle : Phase → RunResult → Option String
completion_lifecycle apply r =
    if r.state_recovery_required
    then some "applied_state_recovery_required"
    else if is_error r.apply_error
    then some "apply_execution_finished"
    else some "applied"
completion_lifecycle _ r = none

abbrev pub or_message : Option String → Option String → Option String
or_message (some a) b = some a
or_message none b = b

unfoldable pub completion_from_result : AgentJobPayload → RunResult → CompletionJob
completion_from_result p r = record {
  status = completion_status p.phase r;
  error = or_message r.apply_error r.state_recovery_error;
  details = record {
    run_id = p.details.run_id;
    operation = phase_text p.phase;
    has_changes = has_changes r.counts;
    generated_configuration = false;
    resource_additions = some r.counts.additions;
    resource_changes = some r.counts.changes;
    resource_destructions = some r.counts.destructions;
    resource_imports = some r.counts.imports;
    action_failures = 0;
    action_invocations = 0;
    state = r.state;
    json_state = r.json_state;
    json_state_outputs = r.json_state_outputs;
    provenance_digest = r.provenance_digest;
    log_incomplete = if r.log_incomplete then some true else none;
    state_recovered = r.state_recovered;
    state_recovery_required = r.state_recovery_required;
    apply_error = r.apply_error;
    state_recovery_error = r.state_recovery_error;
    lifecycle = completion_lifecycle p.phase r;
    state_digest = r.state_digest;
    state_bytes = r.state_bytes;
    state_artifact = r.state_artifact;
  };
}

-- The completion of a run that ended with an error; only an apply has state to recover.
unfoldable pub failed_completion :
    AgentJobPayload → String → String → ℕ → Option String → Option String → CompletionJob
failed_completion p status message actions state outputs = record {
  status = status;
  error = some message;
  details = record {
    run_id = p.details.run_id;
    operation = phase_text p.phase;
    has_changes = false;
    generated_configuration = false;
    resource_additions = none;
    resource_changes = none;
    resource_destructions = none;
    resource_imports = none;
    action_failures = actions;
    action_invocations = actions;
    state = state;
    json_state = state;
    json_state_outputs = outputs;
    provenance_digest = none;
    log_incomplete = none;
    state_recovered = false;
    state_recovery_required = is_apply p.phase;
    apply_error = none;
    state_recovery_error = none;
    lifecycle = if is_apply p.phase then some "applied_state_recovery_required" else none;
    state_digest = none;
    state_bytes = none;
    state_artifact = none;
  };
}

abbrev lock_warning : String
lock_warning =
    "; the apply may have left a Terraform state lock; verify no agent process remains before considering `terraform force-unlock`"

abbrev pub map_text : (String → String) → Option String → Option String
map_text f none = none
map_text f (some a) = some (f a)

-- The match of `run` on the result.
unfoldable pub completion_of : RunEnv → AgentJobPayload → Result RunResult → CompletionJob
completion_of e p (ok r) = completion_from_result p r
completion_of e p (err (canceled r state)) =
    failed_completion p "canceled"
      (if is_apply p.phase then append (reason_text r) lock_warning else reason_text r) 0 state
      (map_text e.outputs_of state)
completion_of e p (err (failed message)) = failed_completion p "errored" message 1 none none

abbrev pub outcome : CompletionJob → Option String → JobOutcome
outcome c dir = record { completion = c; work_dir = dir }

unfoldable pub run_in :
    Host → RunEnv → AgentJobPayload → Result String → RunState → JobOutcome × RunState
run_in h e p (err error) s = (outcome (completion_of e p (err error)) none, s)
run_in h e p (ok dir) s =
    (outcome (completion_of e p (run_inner h e p s).0) (some dir), (run_inner h e p s).1)

unfoldable pub run_supported : Host → RunEnv → AgentJobPayload → RunState → JobOutcome × RunState
run_supported h e p s =
    if validate_payload_identifiers p
    then run_in h e p e.directory s
    else run_in h e p (err (failed "invalid identifier")) s

unfoldable pub run_phase :
    Host → RunEnv → AgentJobPayload → Phase → RunState → JobOutcome × RunState
run_phase h e p (unsupported w) s =
    run_in h e p (err (failed (append "unsupported_workload: " w))) s
run_phase h e p plan s = run_supported h e p s
run_phase h e p apply s = run_supported h e p s

unfoldable pub run : Host → RunEnv → AgentJobPayload → RunState → JobOutcome × RunState
run h e p s = run_phase h e p p.phase s
