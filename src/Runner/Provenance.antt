-- ===== src/Runner/Provenance.antt =====
-- The execution manifest of src/provenance.rs, as the plan writes it and `verify_plan_manifest` of
-- src/runner.rs checks it. A digest is a text that other code computes from files.
use terrence_agent.Prelude.{
  ℕ, String, Bool, true, false, not, ◌&&◌, ◌||◌, Option, none, some, List, [], ◌∷◌, if◌then◌else◌,
  str_eq, ◌==◌, max, saturating_add,
}
use terrence_agent.Protocol.Job.{AgentJobPayload, JobContainer}
use terrence_agent.Runner.Control.{Argument, R, ◌>>=◌, ◌>>◌, bail_if, require}

pub record AgentMetadata : Type 0 where
  pub name : String
  pub version : String
  pub os : String
  pub arch : String
  pub process_id : ℕ

pub record ToolMetadata : Type 0 where
  pub name : String
  pub version : String
  pub path : String
  pub digest : String

pub record SandboxMetadata : Type 0 where
  pub enabled : Bool
  pub mode : String
  pub abi : Option String

-- `ExecutionManifest`; `environment` is the list of names of `EnvironmentMetadata`.
pub record ProvenanceManifest : Type 0 where
  pub schema_version : ℕ
  pub run_id : String
  pub job_id : String
  pub phase : String
  pub status : String
  pub agent : AgentMetadata
  pub tool : ToolMetadata
  pub config_digest : String
  pub lock_file_digest : Option String
  pub plan_digest : Option String
  pub snapshot_digest : Option String
  pub provider_digests : List (String × String)
  pub working_directory : String
  pub cli_args : List Argument
  pub environment : List String
  pub sandbox : SandboxMetadata
  pub input_state_digest : Option String
  pub output_state_digest : Option String
  pub source_manifest_digest : Option String
  pub started_at : ℕ
  pub completed_at : ℕ

-- The digests of the files of a run, as they are now.
pub record Measures : Type 0 where
  pub binary : String
  pub saved_plan : String
  pub snapshot : String
  pub lock_file : Option String
  pub input_state : Option String
  pub providers : List (String × String)

-- The agent and its configuration, as far as manifests name it. `probe` is the ABI that the
-- sandbox runner reports.
pub record Host : Type 0 where
  pub display_name : String
  pub package_version : String
  pub os : String
  pub arch : String
  pub process_id : ℕ
  pub sandbox : Bool
  pub probe : Option String
  pub max_parallelism : ℕ

unfoldable pub agent_metadata : Host → AgentMetadata
agent_metadata h = record {
  name = h.display_name;
  version = h.package_version;
  os = h.os;
  arch = h.arch;
  process_id = h.process_id;
}

unfoldable pub sandbox_metadata : Host → SandboxMetadata
sandbox_metadata h = record {
  enabled = h.sandbox;
  mode = if h.sandbox then "landlock" else "none";
  abi = if h.sandbox then h.probe else none;
}

unfoldable pub tool_metadata : String → String → String → String → ToolMetadata
tool_metadata name version path digest = record {
  name = name;
  version = if str_eq version "" then "unknown" else version;
  path = path;
  digest = digest;
}

-- `unwrap_or("terraform")`
unfoldable pub requested_tool : AgentJobPayload → String
requested_tool p = elim p.details.iac_binary [ none ↦ "terraform" | some name ↦ name ]

abbrev pub same_text : Option String → Option String → Bool
same_text none none = true
same_text (some a) (some b) = str_eq a b
same_text _ _ = false

abbrev pub same_pairs : List (String × String) → List (String × String) → Bool
same_pairs [] [] = true
same_pairs ((a, b) ∷ l) ((c, d) ∷ k) = str_eq a c && (str_eq b d && same_pairs l k)
same_pairs _ _ = false

abbrev pub same_names : List String → List String → Bool
same_names [] [] = true
same_names (a ∷ l) (b ∷ k) = str_eq a b && same_names l k
same_names _ _ = false

-- The manifest that `execute_phase` writes after a plan; `names` is `safe_environment`.
unfoldable pub plan_manifest :
    Host
    → AgentJobPayload
    → JobContainer
    → String
    → String
    → Measures
    → List Argument
    → List String
    → ℕ
    → ℕ
    → ProvenanceManifest
plan_manifest h p c path config m args names started now = record {
  schema_version = 2;
  run_id = p.details.run_id;
  job_id = p.job_id;
  phase = "plan";
  status = "finished";
  agent = agent_metadata h;
  tool = tool_metadata (requested_tool p) c.terraform_version path m.binary;
  config_digest = config;
  lock_file_digest = m.lock_file;
  plan_digest = some m.saved_plan;
  snapshot_digest = some m.snapshot;
  provider_digests = m.providers;
  working_directory = p.details.working_directory;
  cli_args = args;
  environment = names;
  sandbox = sandbox_metadata h;
  input_state_digest = m.input_state;
  output_state_digest = none;
  source_manifest_digest = none;
  started_at = started;
  completed_at = max now (saturating_add started 1);
}

-- The checks of `verify_plan_manifest` on the identity of the run and on the host.
unfoldable pub verify_host : Host → AgentJobPayload → ProvenanceManifest → R (Unit {0})
verify_host h p m = do
  bail_if (not (m.schema_version == 2)) "unsupported execution manifest schema"
  bail_if (not (str_eq m.phase "plan")) "execution manifest phase is not plan"
  bail_if (not (str_eq m.run_id p.details.run_id) || not (str_eq m.job_id p.job_id))
      "execution manifest run identity does not match apply job"
  bail_if (not (str_eq m.agent.os h.os)) "execution fingerprint mismatch: OS"
  bail_if (not (str_eq m.agent.arch h.arch)) "execution fingerprint mismatch: architecture"
  bail_if
      ((if m.sandbox.enabled then not h.sandbox else h.sandbox)
        || (not (str_eq m.sandbox.mode (sandbox_metadata h).mode)
            || not (same_text m.sandbox.abi (sandbox_metadata h).abi)))
      "execution fingerprint mismatch: sandbox mode or ABI changed"

-- Those on the tool.
unfoldable pub verify_tool :
    AgentJobPayload → JobContainer → Measures → ProvenanceManifest → R (Unit {0})
verify_tool p c now m = do
  bail_if (not (str_eq m.tool.name (requested_tool p)))
      "execution fingerprint mismatch: IaC tool changed"
  bail_if (not (str_eq m.tool.digest now.binary))
      "execution fingerprint mismatch: IaC executable digest changed"
  bail_if (not (str_eq c.terraform_version "") && not (str_eq m.tool.version c.terraform_version))
      "execution fingerprint mismatch: IaC version changed"

-- Those on the files, the working directory and the environment.
unfoldable pub verify_files :
    AgentJobPayload → Measures → List String → ProvenanceManifest → R (Unit {0})
verify_files p now names m = do
  expected_plan ← require m.plan_digest "execution manifest is missing its saved-plan digest"
  bail_if (not (str_eq expected_plan now.saved_plan))
      "execution fingerprint mismatch: saved plan changed"
  expected_snapshot ← require m.snapshot_digest "execution manifest is missing its snapshot digest"
  bail_if (not (str_eq expected_snapshot now.snapshot))
      "execution fingerprint mismatch: filesystem snapshot changed"
  bail_if (not (same_text m.lock_file_digest now.lock_file))
      "execution fingerprint mismatch: provider lock file changed"
  bail_if (not (same_text m.input_state_digest now.input_state))
      "execution fingerprint mismatch: input state changed"
  bail_if (not (same_pairs m.provider_digests now.providers))
      "execution fingerprint mismatch: provider package changed"
  bail_if (not (str_eq m.working_directory p.details.working_directory))
      "execution fingerprint mismatch: working directory changed"
  bail_if (not (same_names m.environment names))
      "execution fingerprint mismatch: execution environment changed"

-- `verify_plan_manifest`, on files whose digests can be computed.
unfoldable pub verify_plan_manifest :
    Host
    → AgentJobPayload
    → JobContainer
    → Measures
    → List String
    → ProvenanceManifest
    → R (Unit {0})
verify_plan_manifest h p c now names m = do
  verify_host h p m
  verify_tool p c now m
  verify_files p now names m
