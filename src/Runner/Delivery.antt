-- ===== src/Runner/Delivery.antt =====
-- What the completion of an apply says of its state, in `Runner::run` of src/runner.rs.
use terrence_agent.Prelude.{
  String, ◌≡◌, true, false, Option, none, some, List, arith, inl, inr, Bool-cases,
}
use terrence_agent.Protocol.Completion.{CompletionJob}
use terrence_agent.Protocol.Job.{
  Phase, plan, apply, unsupported, is_apply, AgentJobPayload, JobContainer,
}
use terrence_agent.Runner.Control.{
  CancelReason, reason, failed, canceled, Result, ok, err, RunState, pure, raise,
}
use terrence_agent.Runner.Provenance.{Host}
use terrence_agent.Runner.Apply.{ApplyEnv, RunResult}
use terrence_agent.Runner.Inputs.{validate_payload_identifiers}
use terrence_agent.Runner.Rules.{Ends, bind-Ends, Returns-ok, Returns-weaken, Returns-all}
use terrence_agent.Runner.Run.{
  RunEnv, execute_phase, run_stages, run_after, run_inner, completion_from_result,
  failed_completion, completion_of, run_in, run_supported, run_phase, run, Preparation,
}
use terrence_agent.Runner.Delivered.{IsDelivered, Delivers, execute_phase_apply-Delivers}

abbrev AppliedDelivers : ApplyEnv → Phase → RunResult → RunState → Type 0
AppliedDelivers e ph r s = is_apply ph ≡ true → Delivers e r s

Ends-AppliedDelivers :
    (e : ApplyEnv) (r : Result RunResult × RunState)
    → Ends (Delivers e) r
    → Ends (AppliedDelivers e apply) r
Ends-AppliedDelivers e r =
    Returns-weaken (λ a. Delivers e a r.1) (λ a. AppliedDelivers e apply a r.1) r.0 (λ a d _. d)

Ends-plan : (e : ApplyEnv) (r : Result RunResult × RunState) → Ends (AppliedDelivers e plan) r
Ends-plan e r = Returns-all (λ a. AppliedDelivers e plan a r.1) r.0 (λ a not_apply. ground arith)

execute_phase-Delivers :
    (h : Host) (e : RunEnv) (p : AgentJobPayload) (c : JobContainer) (names : List String)
    (prep : Preparation) (ph : Phase) (s : RunState)
    → Ends (AppliedDelivers e.apply_env ph) (execute_phase h e p c names prep ph s)
unfolding execute_phase raise
execute_phase-Delivers h e p c names prep plan s = Ends-plan e.apply_env _
execute_phase-Delivers h e p c names prep apply s =
    bind-Ends (AppliedDelivers e.apply_env apply) _ _ s λ now _.
      Ends-AppliedDelivers e.apply_env _
        (execute_phase_apply-Delivers h e.apply_env p c e.counts now names prep.manifest _)
execute_phase-Delivers h e p c names prep (unsupported w) s = tt

run_stages-Delivers :
    (h : Host) (e : RunEnv) (p : AgentJobPayload) (s : RunState)
    → Ends (AppliedDelivers e.apply_env p.phase) (run_stages h e p s)
unfolding run_stages pure
run_stages-Delivers h e p s =
    let Q = AppliedDelivers e.apply_env p.phase in
    bind-Ends Q _ _ s λ _ _. bind-Ends Q _ _ _ λ c _. bind-Ends Q _ _ _ λ _ _.
      bind-Ends Q _ _ _ λ _ _. bind-Ends Q _ _ _ λ prep _. bind-Ends Q _ _ _ λ _ _.
        bind-Ends Q _ _ _ λ _ _. bind-Ends Q _ _ _ λ names _. bind-Ends Q _ _ _ λ _ _.
          bind-Ends Q _ _ _
            λ r got. Returns-ok _ _ r got (execute_phase-Delivers h e p c names prep p.phase _)

run_after-Delivers :
    (h : Host) (e : RunEnv) (p : AgentJobPayload) (r : Option CancelReason) (s : RunState)
    → Ends (AppliedDelivers e.apply_env p.phase) (run_after h e p r s)
unfolding run_after raise
run_after-Delivers h e p (some r) s = tt
run_after-Delivers h e p none s = run_stages-Delivers h e p s

run_inner-Delivers :
    (h : Host) (e : RunEnv) (p : AgentJobPayload) (s : RunState)
    → Ends (AppliedDelivers e.apply_env p.phase) (run_inner h e p s)
unfolding run_inner
run_inner-Delivers h e p s =
    bind-Ends (AppliedDelivers e.apply_env p.phase) _ _ s
      λ _ _. run_after-Delivers h e p (reason e.start_control) _

-- The same of a completion.
abbrev pub Completes : ApplyEnv → CompletionJob → RunState → Type 0
Completes e c s =
    c.details.state_recovery_required ≡ false
    → (c.details.state_recovered ≡ true) × IsDelivered e c.details.state_artifact c.details.state s

completion_of-Completes :
    (e : RunEnv) (p : AgentJobPayload) (r : Result RunResult) (s : RunState)
    → is_apply p.phase ≡ true
    → Ends (AppliedDelivers e.apply_env p.phase) (r, s)
    → Completes e.apply_env (completion_of e p r) s
unfolding completion_of completion_from_result failed_completion
completion_of-Completes e p (ok r) s is_it d = d is_it
completion_of-Completes e p (err (failed m)) s is_it d = λ kept. ground arith
completion_of-Completes e p (err (canceled r state)) s is_it d = λ kept. ground arith

run_in-Completes :
    (h : Host) (e : RunEnv) (p : AgentJobPayload) (d : Result String) (s : RunState)
    → is_apply p.phase ≡ true
    → Completes e.apply_env (run_in h e p d s).0.completion (run_in h e p d s).1
unfolding run_in
run_in-Completes h e p (err x) s is_it = completion_of-Completes e p (err x) _ is_it tt
run_in-Completes h e p (ok dir) s is_it =
    completion_of-Completes e p (run_inner h e p s).0 (run_inner h e p s).1 is_it
      (run_inner-Delivers h e p s)

run_supported-Completes :
    (h : Host) (e : RunEnv) (p : AgentJobPayload) (s : RunState)
    → is_apply p.phase ≡ true
    → Completes e.apply_env (run_supported h e p s).0.completion (run_supported h e p s).1
unfolding run_supported
run_supported-Completes h e p s is_it = elim (Bool-cases (validate_payload_identifiers p)) [
  | inl valid ↦ rw (run_supported, valid) (run_in-Completes h e p e.directory s is_it)
  | inr bad ↦ rw (run_supported, bad) (run_in-Completes h e p _ s is_it)
]

run_phase-Completes :
    (h : Host) (e : RunEnv) (p : AgentJobPayload) (ph : Phase) (s : RunState)
    → is_apply p.phase ≡ true
    → Completes e.apply_env (run_phase h e p ph s).0.completion (run_phase h e p ph s).1
unfolding run_phase
run_phase-Completes h e p plan s is_it = run_supported-Completes h e p s is_it
run_phase-Completes h e p apply s is_it = run_supported-Completes h e p s is_it
run_phase-Completes h e p (unsupported w) s is_it = run_in-Completes h e p _ s is_it

-- Whatever the commands, the files and the server do in the run of an apply: a completion that does
-- not ask for a recovery of the state says that it was recovered, and holds the text that was made of
-- it, or names the artifact that was made of it, whose upload was the last one and was accepted.
pub run-Completes :
    (h : Host) (e : RunEnv) (p : AgentJobPayload) (s : RunState)
    → is_apply p.phase ≡ true
    → Completes e.apply_env (run h e p s).0.completion (run h e p s).1
unfolding run
run-Completes h e p s is_it = run_phase-Completes h e p p.phase s is_it
