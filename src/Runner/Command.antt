-- ===== src/Runner/Command.antt =====
-- The three ways in which src/runner.rs runs a command: `run_streamed`, `capture_state_file` and
-- `capture_json`. What a command does is an argument.
use Prim.Native.String.{◌++◌ as append}
use terrence_agent.Prelude.{
  ℕ, String, Bool, true, false, Option, none, some, List, ◌∷◌, if◌then◌else◌,
}
use terrence_agent.Runner.Control.{
  CancelReason, ExecutionControl, reason, canceled, failed, Result, ok, err, Argument, R, ◌>>◌,
  lift,
}

-- Which branch of the `select!` ends the wait.
pub data WaitOutcome : Type 0 where
  exited : Bool → WaitOutcome
  wait_error : String → WaitOutcome
  interrupted : CancelReason → WaitOutcome
  timed_out : WaitOutcome

-- A command: `start_error` is one of the calls up to the spawn, `late` that the deadline is over
-- when the wait begins. `reader_error` and `stderr_error` are those of the tasks that read the
-- output. `parsed` is the output as JSON text, `bytes` the length of the file it was written to.
pub record CommandRun : Type 0 where
  pub start_error : Option String
  pub late : Bool
  pub outcome : WaitOutcome
  pub reader_error : Option String
  pub stderr_error : Option String
  pub exit_text : String
  pub permission_error : Option String
  pub bytes : ℕ
  pub parsed : Option String

pub record StateCapture : Type 0 where
  pub command_error : Option String
  pub bytes : ℕ

-- The test of the tokens before a command, and its spawn.
unfoldable pub begin_command : ExecutionControl → CommandRun → List Argument → R (Unit {0})
begin_command control c args s = elim (reason control) [
  | some r ↦ (err (canceled r none), s)
  | none ↦ elim c.start_error [
    | some m ↦ (err (failed m), s)
    | none ↦ (ok tt, record s { commands = args ∷ s.commands })
  ]
]

unfoldable pub readers_result : {A : Type 0} → Option String → A → Result A
readers_result none a = ok a
readers_result (some m) a = err (failed m)

unfoldable pub wait_streamed : CommandRun → WaitOutcome → Result Bool
wait_streamed c (exited success) = readers_result c.reader_error success
wait_streamed c (wait_error m) = err (failed (append "wait for IaC command: " m))
wait_streamed c (interrupted r) = err (canceled r none)
wait_streamed c timed_out = err (failed "IaC command exceeded the job execution deadline")

unfoldable pub run_streamed : ExecutionControl → CommandRun → List Argument → R Bool
run_streamed control c args = do
  begin_command control c args
  lift (
      if c.late
      then err (failed "job execution deadline exceeded during IaC command")
      else wait_streamed c c.outcome)

-- The error of a state pull so far: that of the wait, then of the output, then of the exit.
unfoldable pub pull_error : CommandRun → WaitOutcome → Option String
pull_error c (exited true) = c.reader_error
pull_error c (exited false) = some (append "terraform state pull failed" c.exit_text)
pull_error c (wait_error m) = elim c.reader_error [
  | some e ↦ some e
  | none ↦ some (append "wait for terraform state pull: " m)
]
pull_error c timed_out = elim c.reader_error [
  | some e ↦ some e
  | none ↦ some "terraform state pull exceeded the job execution deadline"
]
pull_error c (interrupted r) = none

abbrev or_else : Option String → Option String → Option String
or_else none b = b
or_else (some a) b = some a

unfoldable pub wait_state : CommandRun → WaitOutcome → Result StateCapture
wait_state c (interrupted r) = err (canceled r none)
wait_state c w =
    readers_result c.stderr_error
      (record { command_error = or_else (pull_error c w) c.permission_error; bytes = c.bytes })

unfoldable pub capture_state_file : ExecutionControl → CommandRun → List Argument → R StateCapture
capture_state_file control c args = do
  begin_command control c args
  lift (
      if c.late
      then err (failed "job execution deadline exceeded during Terraform state pull")
      else wait_state c c.outcome)

abbrev parse_json : Option String → Result String
parse_json none = err (failed "parse JSON")
parse_json (some value) = ok value

abbrev first_error : Option String → Option String → Option String
first_error none b = b
first_error (some a) b = some a

unfoldable pub wait_json : CommandRun → WaitOutcome → Result String
wait_json c (exited success) = elim (first_error c.reader_error c.stderr_error) [
  | some m ↦ err (failed m)
  | none ↦ if success then parse_json c.parsed else err (failed c.exit_text)
]
wait_json c (wait_error m) = err (failed (append "wait for JSON capture command: " m))
wait_json c (interrupted r) = err (canceled r none)
wait_json c timed_out = err (failed "JSON capture command exceeded the job execution deadline")

unfoldable pub capture_json : ExecutionControl → CommandRun → List Argument → R String
capture_json control c args = do
  begin_command control c args
  lift (
      if c.late
      then err (failed "job execution deadline exceeded during JSON capture command")
      else wait_json c c.outcome)
