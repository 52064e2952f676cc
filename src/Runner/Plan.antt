-- ===== src/Runner/Plan.antt =====
-- The plan of `execute_phase` in src/runner.rs.

use terrence_agent.Prelude.{
  ℕ, String, Bool, false, not, Option, none, some, List, [], ◌∷◌, ◌++◌, map, min, if◌then◌else◌,
  ◌==◌,
}
use terrence_agent.Protocol.Job.{AgentJobPayload, JobContainer, PlanCounts}
use terrence_agent.Protocol.Json.{Value, from_plan}
use terrence_agent.Runner.Control.{
  ExecutionControl, failed, Result, ok, err, Argument, word, parallelism_of, target_of, replace_of,
  R, ◌>>=◌, ◌>>◌, pure, raise, lift, catch, require, bail_if, at_call,
}
use terrence_agent.Runner.Command.{CommandRun, run_streamed, capture_json}
use terrence_agent.Runner.Provenance.{Host, Measures, ProvenanceManifest, plan_manifest}
use terrence_agent.Runner.Apply.{RunResult}

-- What the calls of a plan do; an error is the text of a failed call. `value_of` is the JSON value
-- that a text encodes, and `persisted` the digest of a manifest that was written.
pub record PlanEnv : Type 0 where
  pub control : ℕ → ExecutionControl
  pub init : CommandRun
  pub plan : CommandRun
  pub show : CommandRun
  pub schemas : CommandRun
  pub value_of : String → Value
  pub upload_plan : Option String
  pub upload_schemas : Option String
  pub metadata_write : Option String
  pub measures : Result Measures
  pub binary_path : String
  pub started : ℕ
  pub completed : ℕ
  pub persisted : ProvenanceManifest → Result String
  pub pack : Option String
  pub upload_snapshot : Option String

abbrev pub init_args : List Argument
init_args = word "init" ∷ word "-reconfigure" ∷ word "-no-color" ∷ word "-input=false" ∷ []

abbrev pub show_args : List Argument
show_args = word "show" ∷ word "-json" ∷ word "tfplan" ∷ []

abbrev pub schema_args : List Argument
schema_args = word "providers" ∷ word "schema" ∷ word "-json" ∷ []

abbrev pub mode_args : JobContainer → List Argument
mode_args c =
    if c.destroy
    then word "-destroy" ∷ []
    else if c.refresh_only
    then word "-refresh-only" ∷ []
    else []

-- The bound on the parallelism; zero is an error.
unfoldable pub parallelism_args : Host → Option ℕ → Result (List Argument)
parallelism_args h none = ok []
parallelism_args h (some n) =
    if n == 0
    then err (failed "parallelism must be greater than zero")
    else ok (parallelism_of (min n h.max_parallelism) ∷ [])

unfoldable pub plan_args : JobContainer → List Argument → List Argument
plan_args c parallelism =
    (word "plan" ∷ word "-no-color" ∷ word "-input=false" ∷ word "-out=tfplan" ∷ [])
    ++ (mode_args c
        ++ (parallelism ++ (map target_of c.target_addrs ++ map replace_of c.replace_addrs)))

-- A call that fails with its text.
unfoldable pub step : Option String → R (Unit {0})
step none = pure tt
step (some m) = raise (failed m)

unfoldable pub run_command : PlanEnv → CommandRun → List Argument → R Bool
run_command e c args = do control ← at_call e.control; run_streamed control c args

-- The schemas are uploaded if they can be captured; no error of this is an error of the run.
unfoldable pub upload_provider_schemas : PlanEnv → R (Unit {0})
upload_provider_schemas e = do
  control ← at_call e.control
  catch (do capture_json control e.schemas schema_args; step e.upload_schemas)
  pure tt

unfoldable pub plan_result : PlanCounts → String → RunResult
plan_result counts digest = record {
  counts = counts;
  state = none;
  json_state = none;
  json_state_outputs = none;
  provenance_digest = some digest;
  log_incomplete = false;
  apply_error = none;
  state_recovered = false;
  state_recovery_required = false;
  state_recovery_error = none;
  state_digest = none;
  state_bytes = none;
  state_artifact = none;
}

-- From the provenance of the plan to the upload of its snapshot.
unfoldable pub publish_plan :
    Host
    → PlanEnv
    → AgentJobPayload
    → JobContainer
    → List String
    → Option String
    → List Argument
    → PlanCounts
    → R RunResult
publish_plan h e p c names config args counts = do
  step e.metadata_write
  measures ← lift e.measures
  config_digest ← require config "plan preparation did not record configuration digest"
  digest ← lift (
      e.persisted
        (plan_manifest h p c e.binary_path config_digest measures args names e.started e.completed))
  step e.pack
  step e.upload_snapshot
  pure (plan_result counts digest)

-- The plan of `execute_phase`; `names` is `safe_environment`, `config` the digest of the
-- configuration.
unfoldable pub execute_phase_plan :
    Host → PlanEnv → AgentJobPayload → JobContainer → List String → Option String → R RunResult
execute_phase_plan h e p c names config = do
  initialized ← run_command e e.init init_args
  bail_if (not initialized) "terraform init failed"
  parallelism ← lift (parallelism_args h c.parallelism)
  let args = plan_args c parallelism
  planned ← run_command e e.plan args
  bail_if (not planned) "terraform plan failed"
  control ← at_call e.control
  plan_json ← capture_json control e.show show_args
  step e.upload_plan
  upload_provider_schemas e
  publish_plan h e p c names config args (from_plan (e.value_of plan_json))
