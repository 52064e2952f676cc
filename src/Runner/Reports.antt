-- ===== src/Runner/Reports.antt =====
-- What the completion of an apply of src/runner.rs says of errors.
use terrence_agent.Prelude.{
  String, ◌≡◌, refl, Bool, true, false, not, ◌||◌, Option, none, some, arith, if◌then◌else◌, eq_iff,
  ◌↔◌,
}
use terrence_agent.Protocol.Completion.{CompletionJob}
use terrence_agent.Protocol.Job.{apply, AgentJobPayload, PlanCounts}
use terrence_agent.Runner.Command.{StateCapture}
use terrence_agent.Runner.Apply.{StateCommit, apply_result, is_error, or_error}
use terrence_agent.Runner.Run.{completion_from_result, completion_status, or_message}

-- The run succeeded: no error anywhere, and the state was recovered.
abbrev pub IsClean : Option String → StateCapture → Bool → StateCommit → Type 0
IsClean error c recovered k =
    (error ≡ none) × (c.command_error ≡ none) × (k.commit_error ≡ none) × (recovered ≡ true)

-- An errored completion has no message.
abbrev pub IsSilent : CompletionJob → Type 0
IsSilent j = (j.status ≡ "errored") × (j.error ≡ none)

abbrev status_of : Bool → String
status_of b = if b then "errored" else "finished"

status_of-finished : (b : Bool) → status_of b ≡ "finished" → b ≡ false
status_of-finished true h = ground (arith, (eq_iff "errored" "finished").1 h)
status_of-finished false h = refl

status_of-errored : (b : Bool) → status_of b ≡ "errored" → b ≡ true
status_of-errored true h = refl
status_of-errored false h = ground (arith, (eq_iff "finished" "errored").1 h)

is_error-none : (o : Option String) → is_error o ≡ false → o ≡ none
is_error-none none h = refl
is_error-none (some m) h = ground (arith, h)

IsClean-parts :
    (error : Option String) (c : StateCapture) (recovered : Bool) (k : StateCommit)
    → is_error error || (not recovered || (is_error c.command_error || is_error k.commit_error))
      ≡ false
    → IsClean error c recovered k
IsClean-parts error c recovered k h = (
  is_error-none error (ground (arith, h)),
  is_error-none c.command_error (ground (arith, h)),
  is_error-none k.commit_error (ground (arith, h)),
  ground (arith, h),
)

unrecovered :
    (recovered : Bool) (a b d : Option String)
    → a ≡ none
    → b ≡ none
    → d ≡ none
    → is_error a || (not recovered || (is_error b || is_error d)) ≡ true
    → recovered ≡ false
unrecovered true a b d x y z h = ground (arith, (rw (x, y, z) at h))
unrecovered false a b d x y z h = refl

or_message-none :
    (a b d : Option String)
    → or_message a (or_error b d) ≡ none
    → (a ≡ none) × (d ≡ none) × (b ≡ none)
or_message-none none none none h = (refl, refl, refl)
or_message-none none none (some m) h = ground (arith, h)
or_message-none none (some m) d h = ground (arith, h)
or_message-none (some m) b d h = ground (arith, h)

silent_iff :
    (error : Option String) (c : StateCapture) (recovered : Bool) (k : StateCommit)
    → ((status_of (
            is_error error
            || (not recovered || (is_error c.command_error || is_error k.commit_error)))
          ≡ "errored")
        × (or_message error (or_error k.commit_error c.command_error) ≡ none))
      ↔ ((error ≡ none) × (c.command_error ≡ none) × (k.commit_error ≡ none) × (recovered ≡ false))
silent_iff error c recovered k = (
  λ h.
      (let quiet = or_message-none error k.commit_error c.command_error h.1 in
        (
          quiet.0,
          quiet.1,
          quiet.2,
          unrecovered recovered error c.command_error k.commit_error quiet.0 quiet.1 quiet.2
              (status_of-errored _ h.0),
        )),
  λ lost. rw (lost.0, lost.1, lost.2, lost.3) (refl, refl),
)

IsClean-status_of :
    (error : Option String) (c : StateCapture) (recovered : Bool) (k : StateCommit)
    → (status_of (
          is_error error
          || (not recovered || (is_error c.command_error || is_error k.commit_error)))
        ≡ "finished")
      ↔ IsClean error c recovered k
IsClean-status_of error c recovered k = (
  λ h. IsClean-parts error c recovered k (status_of-finished _ h),
  λ clean. rw (clean.0, clean.1, clean.2, clean.3) refl,
)

module _ (p : AgentJobPayload) (counts : PlanCounts) (error : Option String) (c : StateCapture)
    (recovered : Bool) (k : StateCommit) (digest : String) where
  -- The completion of an apply whose commands ended with these results.
  abbrev pub reported : CompletionJob
  reported = completion_from_result p (apply_result counts error c recovered k digest)

  -- The completion that is made of the results of an apply says "finished" just when the apply, the
  -- pull of the state and its delivery had no error and the state was recovered.
  pub reported-finished :
      p.phase ≡ apply → (reported.status ≡ "finished") ↔ IsClean error c recovered k
  unfolding completion_from_result completion_status apply_result
  reported-finished is_it =
      rw (completion_from_result, is_it) (IsClean-status_of error c recovered k)

  -- The completion that is made of the results of an apply says "errored" without a message just when
  -- nothing failed with a message, and the state was not recovered.
  pub reported-IsSilent :
      p.phase ≡ apply
      → IsSilent reported ↔ (
          (error ≡ none) × (c.command_error ≡ none) × (k.commit_error ≡ none) × (recovered ≡ false))
  unfolding completion_from_result completion_status apply_result
  reported-IsSilent is_it = rw (completion_from_result, is_it) (silent_iff error c recovered k)
