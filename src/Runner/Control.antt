-- ===== src/Runner/Control.antt =====
-- Cancellation in src/runner.rs, and the runs of a job as actions that may fail.

use terrence_agent.Prelude.{
  ℕ, ◌+◌, String, Bool, true, false, Option, none, some, List, if◌then◌else◌,
}

pub data CancelReason : Type 0 where
  remote shutdown force_shutdown : CancelReason

-- Which of the tokens are cancelled.
pub record ExecutionControl : Type 0 where
  pub remote_cancelled : Bool
  pub shutdown_cancelled : Bool
  pub force_cancelled : Bool

unfoldable pub reason : ExecutionControl → Option CancelReason
reason c =
    if c.force_cancelled
    then some force_shutdown
    else if c.remote_cancelled
    then some remote
    else if c.shutdown_cancelled
    then some shutdown
    else none

abbrev pub reason_text : CancelReason → String
reason_text remote = "canceled by Terrence"
reason_text shutdown = "canceled during agent shutdown"
reason_text force_shutdown = "force-canceled during agent shutdown"

abbrev pub is_force : CancelReason → Bool
is_force force_shutdown = true
is_force _ = false

-- The errors of a run: `JobCanceled` with the state that was pulled, or any other with its text.
pub data RunError : Type 0 where
  canceled : CancelReason → Option String → RunError
  failed : String → RunError

pub data Result (A : Type 0) : Type 0 where
  ok : A → Result A
  err : RunError → Result A

-- An argument of a command; numbers and addresses are not spelled out.
pub data Argument : Type 0 where
  word : String → Argument
  parallelism_of : ℕ → Argument
  target_of replace_of : String → Argument

-- What a run has done: the commands that it started and the URLs that it uploaded to, the newest
-- first, and the marker file of an apply, which is empty or holds an error.
pub record RunState : Type 0 where
  pub calls : ℕ
  pub commands : List (List Argument)
  pub uploads : List String
  pub marker : Option (Option String)

abbrev pub R : Type 0 → Type 0
R A = RunState → Result A × RunState

abbrev pub tick : RunState → RunState
tick s = record s { calls = s.calls + 1 }

unfoldable pub bind_outcome : {A B : Type 0} → Result A → RunState → (A → R B) → Result B × RunState
bind_outcome (ok a) s f = f a s
bind_outcome (err e) s f = (err e, s)

infixl 5 ◌>>=◌ ◌>>◌
unfoldable pub ◌>>=◌ : {A B : Type 0} → R A → (A → R B) → R B
unfolding bind_outcome
◌>>=◌ m f s = bind_outcome (m s).0 (m s).1 f

abbrev pub ◌>>◌ : {A B : Type 0} → R A → R B → R B
m >> n = m >>= λ _. n

unfoldable pub pure : {A : Type 0} → A → R A
pure a s = (ok a, s)

unfoldable pub raise : {A : Type 0} → RunError → R A
raise e s = (err e, s)

unfoldable pub lift : {A : Type 0} → Result A → R A
lift r s = (r, s)

-- Reads what holds at the next call.
unfoldable pub at_call : {A : Type 0} → (ℕ → A) → R A
at_call f s = (ok (f s.calls), tick s)

-- `Option::context`
unfoldable pub require : {A : Type 0} → Option A → String → R A
require none message = raise (failed message)
require (some a) message = pure a

-- `bail!` under a condition.
unfoldable pub bail_if : Bool → String → R (Unit {0})
bail_if true message = raise (failed message)
bail_if false message = pure tt

-- An error is kept as a value; what was done stays done.
unfoldable pub catch : {A : Type 0} → R A → R (Result A)
catch m s = (ok (m s).0, (m s).1)
