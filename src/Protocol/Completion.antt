-- ===== src/Protocol/Completion.antt =====
-- `CompletionJob`, `CompletionData` and `StateArtifact` of src/protocol.rs.
use terrence_agent.Prelude.{ℕ, String, Bool, Option}

pub record StateArtifact : Type 0 where
  pub reference : String
  pub digest : String
  pub bytes : ℕ

pub record CompletionData : Type 0 where
  pub run_id : String
  pub operation : String
  pub has_changes : Bool
  pub generated_configuration : Bool
  pub resource_additions : Option ℕ
  pub resource_changes : Option ℕ
  pub resource_destructions : Option ℕ
  pub resource_imports : Option ℕ
  pub action_failures : ℕ
  pub action_invocations : ℕ
  pub state : Option String
  pub json_state : Option String
  pub json_state_outputs : Option String
  pub provenance_digest : Option String
  pub log_incomplete : Option Bool
  pub state_recovered : Bool
  pub state_recovery_required : Bool
  pub apply_error : Option String
  pub state_recovery_error : Option String
  pub lifecycle : Option String
  pub state_digest : Option String
  pub state_bytes : Option ℕ
  pub state_artifact : Option StateArtifact

pub record CompletionJob : Type 0 where
  pub status : String
  pub error : Option String
  pub details : CompletionData
