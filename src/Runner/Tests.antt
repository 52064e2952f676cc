-- ===== src/Runner/Tests.antt =====
-- Runs of the models of src/runner.rs, and the properties at these runs.
use terrence_agent.Prelude.{String, ◌≡◌, refl, true, false, Option, none, some, List, [], ◌∷◌, ◌↔◌}
use terrence_agent.Protocol.Job.{
  apply, JobData, JobContainer, AgentJobPayload, no_counts, container,
}
use terrence_agent.Protocol.Json.{null}
use terrence_agent.Runner.Control.{
  reason, ok, RunState, ◌>>=◌, bind_outcome, bail_if, pure, require, lift, at_call, catch,
}
use terrence_agent.Runner.Command.{
  exited, CommandRun, StateCapture, run_streamed, begin_command, wait_streamed, readers_result,
  capture_state_file, wait_state, pull_error,
}
use terrence_agent.Runner.Provenance.{
  Host, Measures, ProvenanceManifest, plan_manifest, verify_plan_manifest, verify_host, verify_tool,
  verify_files, requested_tool, agent_metadata, tool_metadata, sandbox_metadata,
}
use terrence_agent.Runner.Apply.{
  ApplyEnv, marked, StateArtifactMetadata, fresh_control, nothing_committed, execute_phase_apply,
  apply_manifest, apply_once, execute_apply, after_apply, persist_apply_marker, recover_state,
  capture_state, after_pull, commit_state, deliver_state, upload_state, artifact_url, is_recovered,
  apply_result,
}
use terrence_agent.Runner.Plan.{PlanEnv, step}
use terrence_agent.Runner.Inputs.{validate_identifier, validate_payload_identifiers}
use terrence_agent.Runner.Run.{
  RunEnv, run, run_phase, run_supported, run_in, run_inner, run_after, run_stages, prepare,
  prepare_apply, unpack_snapshot, execute_phase,
}
use terrence_agent.Runner.Rules.{applies}
use terrence_agent.Runner.Delivery.{Completes, run-Completes}
use terrence_agent.Runner.Matches.{Matches}
use terrence_agent.Runner.Accepts.{verify_plan_manifest_iff, verify-plan_manifest}
use terrence_agent.Runner.Reports.{
  reported, IsClean, IsSilent, reported-finished, reported-IsSilent,
}
use terrence_agent.Runner.Starts.{Starts}
use terrence_agent.Runner.Verified.{Checked, run-Starts}

abbrev host : Host
host = record {
  display_name = "agent";
  package_version = "1.0.0";
  os = "linux";
  arch = "x86_64";
  process_id = 7;
  sandbox = true;
  probe = some "5";
  max_parallelism = 10;
}

abbrev details : JobData
details = record {
  run_id = "run-1";
  iac_binary = some "tofu";
  working_directory = "";
  state_artifact_url = some "https://host/state";
  token = "";
  timeout = "2h";
  environment = [];
}

abbrev tool : JobContainer
tool = record {
  terraform_version = "1.9.0";
  api_address = none;
  state_artifact_url = none;
  access_token = none;
  destroy = false;
  refresh_only = false;
  target_addrs = [];
  replace_addrs = [];
  parallelism = some 20;
}

abbrev job : AgentJobPayload
job = record {
  phase = apply;
  job_id = "job-1";
  details = details;
  plan_container = some tool;
  apply_container = some tool;
}

abbrev measures : Measures
measures = record {
  binary = "b";
  saved_plan = "p";
  snapshot = "s";
  lock_file = some "l";
  input_state = none;
  providers = ("provider", "d") ∷ [];
}

abbrev names : List String
names = "HOME" ∷ "PATH" ∷ []

abbrev manifest : ProvenanceManifest
manifest = plan_manifest host job tool "/bin/tofu" "c" measures [] names 10 10

abbrev succeeds : CommandRun
succeeds = record {
  start_error = none;
  late = false;
  outcome = exited true;
  reader_error = none;
  stderr_error = none;
  exit_text = "";
  permission_error = none;
  bytes = 40;
  parsed = some "{}";
}

abbrev artifact : StateArtifactMetadata
artifact = record { raw_digest = "r"; raw_bytes = 40; artifact_digest = "a"; artifact_bytes = 20 }

abbrev apply_env : ApplyEnv
apply_env = record {
  control = λ n. fresh_control;
  command = succeeds;
  state_pull = succeeds;
  pulled = succeeds;
  marker_fault = marked;
  state_valid = true;
  artifact = ok artifact;
  upload_error = none;
  inline = ok ("{}", "{}");
  marker_reads = true;
  left_bytes = 0;
  binary_path = "/bin/tofu";
  binary_digest = ok "b";
  source_digest = some "m";
  started = 20;
  completed = 30;
  persisted = λ m. ok "m";
  reference = λ url. url;
}

abbrev plan_env : PlanEnv
plan_env = record {
  control = λ n. fresh_control;
  init = succeeds;
  plan = succeeds;
  show = succeeds;
  schemas = succeeds;
  value_of = λ s. null;
  upload_plan = none;
  upload_schemas = none;
  metadata_write = none;
  measures = ok measures;
  binary_path = "/bin/tofu";
  started = 10;
  completed = 10;
  persisted = λ m. ok "m";
  pack = none;
  upload_snapshot = none;
}

abbrev env : RunEnv
env = record {
  start_control = fresh_control;
  directory = ok "/runs/x";
  timeout = none;
  private_dirs = none;
  exec_dir = none;
  download = none;
  config_digest = ok "c";
  unpack = none;
  config_file = none;
  snapshot_marker = none;
  manifest = ok manifest;
  create_exec_dir = none;
  environment = ok names;
  binary = none;
  counts = no_counts;
  measures = ok measures;
  plan_env = plan_env;
  apply_env = apply_env;
  log_incomplete = false;
  outputs_of = λ s. s;
}

abbrev initial : RunState
initial = record { calls = 0; commands = []; uploads = []; marker = none }

-- A whole run starts one apply, uploads the state and finishes.
run-applies : applies (run host env job initial).1.commands ≡ 1
unfolding run run_phase run_supported validate_payload_identifiers validate_identifier run_in
    run_inner ◌>>=◌ bind_outcome bail_if pure run_after reason run_stages step require container
    prepare prepare_apply unpack_snapshot lift requested_tool execute_phase execute_phase_apply
    verify_plan_manifest verify_host verify_tool verify_files plan_manifest agent_metadata
    tool_metadata sandbox_metadata apply_manifest apply_once execute_apply at_call catch
    run_streamed begin_command wait_streamed readers_result after_apply persist_apply_marker
    recover_state capture_state capture_state_file wait_state pull_error after_pull commit_state
    deliver_state upload_state artifact_url is_recovered apply_result
run-applies = refl

run-uploads : (run host env job initial).1.uploads ≡ "https://host/state" ∷ []
unfolding run run_phase run_supported validate_payload_identifiers validate_identifier run_in
    run_inner ◌>>=◌ bind_outcome bail_if pure run_after reason run_stages step require container
    prepare prepare_apply unpack_snapshot lift requested_tool execute_phase execute_phase_apply
    verify_plan_manifest verify_host verify_tool verify_files plan_manifest agent_metadata
    tool_metadata sandbox_metadata apply_manifest apply_once execute_apply at_call catch
    run_streamed begin_command wait_streamed readers_result after_apply persist_apply_marker
    recover_state capture_state capture_state_file wait_state pull_error after_pull commit_state
    deliver_state upload_state artifact_url is_recovered apply_result
run-uploads = refl

run-Completes_example :
    Completes env.apply_env (run host env job initial).0.completion (run host env job initial).1
run-Completes_example = run-Completes host env job initial refl

run-Starts_example : Starts (Checked host job env) initial (run host env job initial).1
run-Starts_example = run-Starts host env job initial

verify_plan_manifest_iff_example :
    ((verify_plan_manifest host job tool measures names manifest initial).0 ≡ ok tt)
    ↔ Matches host job tool measures names manifest
verify_plan_manifest_iff_example =
    verify_plan_manifest_iff host job tool measures names manifest initial

verify-plan_manifest_example :
    (verify_plan_manifest host job tool measures names manifest initial).0 ≡ ok tt
verify-plan_manifest_example =
    verify-plan_manifest host job job tool tool "/bin/tofu" "c" measures [] names 10 10 initial refl
      refl refl refl refl

abbrev no_text : Option String
no_text = none

abbrev empty_pull : StateCapture
empty_pull = record { command_error = none; bytes = 0 }

reported-finished_example :
    ((reported job no_counts none empty_pull true nothing_committed "m").status ≡ "finished")
    ↔ IsClean none empty_pull true nothing_committed
reported-finished_example =
    reported-finished job no_counts none empty_pull true nothing_committed "m" refl

reported-IsSilent_example :
    IsSilent (reported job no_counts none empty_pull false nothing_committed "m")
    ↔ ((no_text ≡ none) × (no_text ≡ none) × (no_text ≡ none) × (false ≡ false))
reported-IsSilent_example =
    reported-IsSilent job no_counts none empty_pull false nothing_committed "m" refl
