-- ===== src/Agent/Effects.antt =====
-- What the poll loop of src/main.rs calls outside the journal: the control plane, the runner, and
-- the removal of run directories. Each is an action whose outcome an `AgentEnv` decides.
use terrence_agent.Prelude.{ℕ, ◌+◌, String, Bool, false, Option, none, some, ◌∷◌, if◌then◌else◌}
use terrence_agent.Protocol.Completion.{CompletionJob}
use terrence_agent.Journal.Record.{ExecutionManifest}
use terrence_agent.Journal.Operations.{Env, M, path_for_job}

-- A claimed payload, as far as the poll loop reads it; `fingerprint` is `payload_fingerprint`.
pub record Payload : Type 0 where
  pub job_id : String
  pub run_id : String
  pub phase : String
  pub fingerprint : Option String

pub data Claim : Type 0 where
  job : Payload → Claim
  empty : Claim
  retry_after : ℕ → Claim
  failed : Claim

-- `JobOutcome` of src/runner.rs
pub record JobOutcome : Type 0 where
  pub completion : CompletionJob
  pub work_dir : Option String

-- `runs` is `none` where the process dies before the runner returns.
pub record AgentEnv : Type 0 where
  pub journal : Env
  pub cancelled : ℕ → Bool
  pub claims : ℕ → Claim
  pub runs : ℕ → Payload → Option JobOutcome
  pub reports : ℕ → Bool
  pub cleans : ℕ → String → Bool

-- `ExecutionManifest::from_payload`
abbrev manifest_of : Payload → Option String → Option ExecutionManifest
manifest_of p none = none
manifest_of p (some f) = some (record {
  job_id = p.job_id;
  run_id = p.run_id;
  phase = p.phase;
  fingerprint = f;
  work_dir = none;
})

unfoldable pub from_payload : Payload → Option ExecutionManifest
from_payload p = manifest_of p p.fingerprint

-- `report_completion_details`: `put_status("idle", completion)`.
unfoldable pub report_completion_details : AgentEnv → String → CompletionJob → M (Unit {0})
report_completion_details e run_id completion w =
    if e.reports w.calls
    then (some tt, record w { reports = (run_id, completion) ∷ w.reports; calls = w.calls + 1 })
    else (none, record w { calls = w.calls + 1 })

-- `Runner::run` on a claimed payload.
unfoldable pub run_job : AgentEnv → Payload → M JobOutcome
run_job e p w = (
  e.runs w.calls p,
  record w { runs = (path_for_job w p.job_id, w.now) ∷ w.runs; calls = w.calls + 1 },
)

-- `Runner::cleanup_manifest`: without a directory there is nothing to remove.
unfoldable pub cleanup_dir : AgentEnv → Option String → M (Unit {0})
cleanup_dir e none w = (some tt, w)
cleanup_dir e (some dir) w =
    if e.cleans w.calls dir
    then (some tt, record w { cleanups = dir ∷ w.cleanups; calls = w.calls + 1 })
    else (none, record w { calls = w.calls + 1 })

unfoldable pub cleanup_manifest : AgentEnv → ExecutionManifest → M (Unit {0})
cleanup_manifest e m = cleanup_dir e m.work_dir

-- The completion of a job whose process was restarted.
unfoldable pub restarted_completion : ExecutionManifest → CompletionJob
restarted_completion m = record {
  status = "errored";
  error = some "agent restarted before durable completion";
  details = record {
    run_id = m.run_id;
    operation = m.phase;
    has_changes = false;
    generated_configuration = false;
    resource_additions = none;
    resource_changes = none;
    resource_destructions = none;
    resource_imports = none;
    action_failures = 1;
    action_invocations = 0;
    state = none;
    json_state = none;
    json_state_outputs = none;
    provenance_digest = none;
    log_incomplete = none;
    state_recovered = false;
    state_recovery_required = false;
    apply_error = none;
    state_recovery_error = none;
    lifecycle = some "agent_restarted";
    state_digest = none;
    state_bytes = none;
    state_artifact = none;
  };
}
