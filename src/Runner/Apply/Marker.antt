-- ===== src/Runner/Apply/Marker.antt =====
-- The apply command of `execute_phase` in src/runner.rs, and the marker that it leaves.
use terrence_agent.Prelude.{ℕ, ◌*◌, String, Bool, true, false, Option, none, some, List, [], ◌∷◌}
use terrence_agent.Runner.Control.{
  CancelReason, is_force, reason_text, at_call, ExecutionControl, canceled, failed, Result, ok, err,
  Argument, word, R, ◌>>=◌, ◌>>◌, pure, raise, catch,
}
use terrence_agent.Runner.Command.{CommandRun, run_streamed, capture_json}
use terrence_agent.Runner.Provenance.{ProvenanceManifest}

abbrev pub max_inline_state_bytes : ℕ
max_inline_state_bytes = 8 * 1024 * 1024

-- What `persist_state_artifact` returns.
pub record StateArtifactMetadata : Type 0 where
  pub raw_digest : String
  pub raw_bytes : ℕ
  pub artifact_digest : String
  pub artifact_bytes : ℕ

-- The outcomes of writing the marker: done, no file, or an empty file whose text is lost.
pub data MarkerFault : Type 0 where
  marked unmarked truncated : MarkerFault

-- What the calls of an apply do; `persisted` is the digest of a manifest that was written. `pulled` is the command of the recovery after a cancellation, and
-- `state_valid` whether the state file parses as JSON.
pub record ApplyEnv : Type 0 where
  pub control : ℕ → ExecutionControl
  pub command : CommandRun
  pub state_pull : CommandRun
  pub pulled : CommandRun
  pub marker_fault : MarkerFault
  pub state_valid : Bool
  pub artifact : Result StateArtifactMetadata
  pub upload_error : Option String
  pub inline : Result (String × String)
  pub marker_reads : Bool
  pub left_bytes : ℕ
  pub binary_path : String
  pub binary_digest : Result String
  pub source_digest : Option String
  pub started : ℕ
  pub completed : ℕ
  pub persisted : ProvenanceManifest → Result String
  pub reference : String → String

abbrev pub apply_args : List Argument
apply_args = word "apply" ∷ word "-no-color" ∷ word "-input=false" ∷ word "tfplan" ∷ []

abbrev pub pull_args : List Argument
pull_args = word "state" ∷ word "pull" ∷ []

abbrev pub fresh_control : ExecutionControl
fresh_control = record {
  remote_cancelled = false;
  shutdown_cancelled = false;
  force_cancelled = false;
}

abbrev pub ok_value : Result String → Option String
ok_value (ok v) = some v
ok_value (err e) = none

-- `persist_apply_marker`, whose failure is only logged.
unfoldable pub persist_apply_marker : MarkerFault → Option String → R (Unit {0})
persist_apply_marker marked error s = (ok tt, record s { marker = some error })
persist_apply_marker unmarked error s = (ok tt, s)
persist_apply_marker truncated error s = (ok tt, record s { marker = some none })

-- The state that a cancelled apply still pulls, unless it was forced to stop.
unfoldable pub pull_canceled : ApplyEnv → Bool → R (Option String)
pull_canceled e true = pure none
pull_canceled e false = do
  pulled ← catch (capture_json fresh_control e.pulled pull_args)
  pure (ok_value pulled)

-- The marker of a cancelled apply, if there is none.
unfoldable pub mark_canceled : MarkerFault → CancelReason → R (Unit {0})
mark_canceled fault r s = elim s.marker [
  | some m ↦ (ok tt, s)
  | none ↦ persist_apply_marker fault (some (reason_text r)) s
]

-- What follows an apply command.
unfoldable pub after_apply : ApplyEnv → Result Bool → R (Option String)
after_apply e (ok true) = do persist_apply_marker e.marker_fault none; pure none
after_apply e (ok false) = do
  persist_apply_marker e.marker_fault (some "terraform apply failed")
  pure (some "terraform apply failed")
after_apply e (err (failed m)) = do persist_apply_marker e.marker_fault (some m); pure (some m)
after_apply e (err (canceled r state)) = do
  pulled ← pull_canceled e (is_force r)
  mark_canceled e.marker_fault r
  raise (canceled r pulled)

unfoldable pub execute_apply : ApplyEnv → R (Option String)
execute_apply e = do
  control ← at_call e.control
  result ← catch (run_streamed control e.command apply_args)
  after_apply e result

-- `read_apply_error`: an empty marker is that of a success.
abbrev pub read_apply_error : Bool → Option String → Option String
read_apply_error true error = error
read_apply_error false error = none

-- An apply that has left its marker is not run again.
unfoldable pub apply_once : ApplyEnv → R (Option String)
apply_once e s = elim s.marker [
  | some error ↦ (ok (read_apply_error e.marker_reads error), s)
  | none ↦ execute_apply e s
]
