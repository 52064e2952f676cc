-- ===== src/Protocol/Job.antt =====
-- `AgentJobPayload` of src/protocol.rs with the fields that the runner reads, and `PlanCounts`.
use terrence_agent.Prelude.{ℕ, ◌+◌, ◌%◌, ◌^◌, String, Bool, true, false, Option, none, List, ltb}

pub data Phase : Type 0 where
  plan apply : Phase
  unsupported : String → Phase

abbrev pub phase_text : Phase → String
phase_text plan = "plan"
phase_text apply = "apply"
phase_text (unsupported value) = value

abbrev pub is_apply : Phase → Bool
is_apply apply = true
is_apply _ = false

pub record JobData : Type 0 where
  pub run_id : String
  pub iac_binary : Option String
  pub working_directory : String
  pub state_artifact_url : Option String
  pub token : String
  pub timeout : String
  pub environment : List (String × String)

pub record JobContainer : Type 0 where
  pub terraform_version : String
  pub api_address : Option String
  pub state_artifact_url : Option String
  pub access_token : Option String
  pub destroy : Bool
  pub refresh_only : Bool
  pub target_addrs : List String
  pub replace_addrs : List String
  pub parallelism : Option ℕ

-- The source's field `data` is `details`, `plan` and `apply` are the containers of the phases.
pub record AgentJobPayload : Type 0 where
  pub phase : Phase
  pub job_id : String
  pub details : JobData
  pub plan_container : Option JobContainer
  pub apply_container : Option JobContainer

unfoldable pub container : AgentJobPayload → Phase → Option JobContainer
container p plan = p.plan_container
container p apply = p.apply_container
container p (unsupported value) = none

pub record PlanCounts : Type 0 where
  pub additions : ℕ
  pub changes : ℕ
  pub destructions : ℕ
  pub imports : ℕ

-- The sum is one of u64.
unfoldable pub has_changes : PlanCounts → Bool
has_changes c = ltb 0 ((c.additions + c.changes + c.destructions + c.imports) % 2 ^ 64)

abbrev pub no_counts : PlanCounts
no_counts = record { additions = 0; changes = 0; destructions = 0; imports = 0 }
