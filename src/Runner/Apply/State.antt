-- ===== src/Runner/Apply/State.antt =====
-- The state after an apply of `execute_phase` in src/runner.rs: its pull and its delivery.
use terrence_agent.Prelude.{
  ℕ, String, Bool, true, false, not, ◌&&◌, ◌||◌, Option, none, some, ◌∷◌, if◌then◌else◌, str_eq,
  ltb, leb,
}
use terrence_agent.Protocol.Completion.{StateArtifact}
use terrence_agent.Protocol.Job.{AgentJobPayload, JobContainer, PlanCounts}
use terrence_agent.Runner.Control.{
  is_force, at_call, RunError, canceled, failed, Result, ok, err, R, ◌>>=◌, pure, raise, catch,
}
use terrence_agent.Runner.Command.{StateCapture, capture_state_file}
use terrence_agent.Runner.Apply.Marker.{
  max_inline_state_bytes, StateArtifactMetadata, ApplyEnv, pull_args, pull_canceled,
}

-- What follows a state pull: a cancellation ends the run, any other error is kept.
unfoldable pub after_pull : ApplyEnv → Result StateCapture → R StateCapture
after_pull e (ok c) = pure c
after_pull e (err (failed m)) = pure (record { command_error = some m; bytes = e.left_bytes })
after_pull e (err (canceled r state)) = do
  pulled ← pull_canceled e (is_force r)
  raise (canceled r pulled)

unfoldable pub capture_state : ApplyEnv → R StateCapture
capture_state e = do
  control ← at_call e.control
  result ← catch (capture_state_file control e.state_pull pull_args)
  after_pull e result

-- What an apply delivers of its state.
pub record StateCommit : Type 0 where
  pub text : Option String
  pub outputs : Option String
  pub digest : Option String
  pub bytes : Option ℕ
  pub artifact : Option StateArtifact
  pub commit_error : Option String

abbrev pub nothing_committed : StateCommit
nothing_committed = record {
  text = none;
  outputs = none;
  digest = none;
  bytes = none;
  artifact = none;
  commit_error = none;
}

-- The URL of the payload, or else that of its container, if it is not empty.
unfoldable pub artifact_url : AgentJobPayload → JobContainer → Option String
artifact_url p c = elim p.details.state_artifact_url [
  | some url ↦ if str_eq url "" then none else some url
  | none ↦ elim c.state_artifact_url [
    | none ↦ none
    | some url ↦ if str_eq url "" then none else some url
  ]
]

abbrev pub measured : StateArtifactMetadata → StateCommit
measured m = record nothing_committed { digest = some m.raw_digest; bytes = some m.raw_bytes }

-- The upload of the compressed state.
unfoldable pub upload_state : ApplyEnv → StateArtifactMetadata → String → R StateCommit
upload_state e m url s = elim e.upload_error [
  | some error ↦ (ok (record (measured m) { commit_error = some error }), s)
  | none ↦ (
    ok (record (measured m) {
      artifact = some (record {
        reference = e.reference url;
        digest = m.artifact_digest;
        bytes = m.artifact_bytes;
      });
    }),
    record s { uploads = url ∷ s.uploads },
  )
]

abbrev error_text : RunError → String
error_text (failed m) = m
error_text (canceled r state) = "canceled"

-- The state within the completion.
unfoldable pub inline_state : Result (String × String) → StateArtifactMetadata → StateCommit
inline_state (ok (state, outputs)) m = record (measured m) {
  text = some state;
  outputs = some outputs;
}
inline_state (err error) m = record (measured m) { commit_error = some (error_text error) }

unfoldable pub deliver_state : ApplyEnv → Option String → StateArtifactMetadata → R StateCommit
deliver_state e (some url) m = upload_state e m url
deliver_state e none m = pure (
    if leb m.raw_bytes max_inline_state_bytes
    then inline_state e.inline m
    else record (measured m) {
      commit_error = some "this server did not provide a dedicated state artifact endpoint";
    })

unfoldable pub commit_state :
    ApplyEnv → Bool → Option String → Result StateArtifactMetadata → R StateCommit
commit_state e false url artifact = pure nothing_committed
commit_state e true url (err error) =
    pure (record nothing_committed { commit_error = some (error_text error) })
commit_state e true url (ok m) = deliver_state e url m

-- `RunResult`
pub record RunResult : Type 0 where
  pub counts : PlanCounts
  pub state : Option String
  pub json_state : Option String
  pub json_state_outputs : Option String
  pub provenance_digest : Option String
  pub log_incomplete : Bool
  pub apply_error : Option String
  pub state_recovered : Bool
  pub state_recovery_required : Bool
  pub state_recovery_error : Option String
  pub state_digest : Option String
  pub state_bytes : Option ℕ
  pub state_artifact : Option StateArtifact

abbrev pub is_error : Option String → Bool
is_error none = false
is_error (some m) = true

abbrev pub or_error : Option String → Option String → Option String
or_error (some a) b = some a
or_error none b = b

unfoldable pub is_recovered : ApplyEnv → StateCapture → Bool
is_recovered e capture = ltb 0 capture.bytes && e.state_valid

unfoldable pub apply_result :
    PlanCounts → Option String → StateCapture → Bool → StateCommit → String → RunResult
apply_result counts apply_error capture recovered commit digest = record {
  counts = counts;
  state = commit.text;
  json_state = commit.text;
  json_state_outputs = commit.outputs;
  provenance_digest = some digest;
  log_incomplete = false;
  apply_error = apply_error;
  state_recovered = recovered;
  state_recovery_required =
      not recovered || (is_error capture.command_error || is_error commit.commit_error);
  state_recovery_error = or_error commit.commit_error capture.command_error;
  state_digest = commit.digest;
  state_bytes = commit.bytes;
  state_artifact = commit.artifact;
}
