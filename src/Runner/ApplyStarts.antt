-- ===== src/Runner/ApplyStarts.antt =====
-- The apply commands that the apply of src/runner.rs starts.
use terrence_agent.Prelude.{String, ◌≡◌, refl, Option, none, List, inl, inr, Option-cases}
use terrence_agent.Protocol.Job.{AgentJobPayload, JobContainer, PlanCounts}
use terrence_agent.Runner.Control.{ExecutionControl, reason, ok, RunState, require, catch, at_call}
use terrence_agent.Runner.Command.{CommandRun, begin_command, run_streamed}
use terrence_agent.Runner.Provenance.{Host, Measures, ProvenanceManifest, verify_plan_manifest}
use terrence_agent.Runner.Apply.{
  ApplyEnv, execute_apply, apply_once, execute_phase_apply, apply_args,
}
use terrence_agent.Runner.Rules.{Still-require, Idle-lift, Idle-at_call}
use terrence_agent.Runner.Steps.{after_apply-Idle, recover_state-Idle, verify_plan_manifest-Still}
use terrence_agent.Runner.Starts.{Starts, Idle-then, then-Idle, Still-then}

module _ (V : Type 0) where
  begun :
      (k : ExecutionControl) (c : CommandRun) (s : RunState)
      → V
      → Starts V s (begin_command k c apply_args s).1
  unfolding begin_command
  begun k c s v = elim (Option-cases (reason k)) [
    | inr (r, gone) ↦ rw (begin_command, gone) (inl refl)
    | inl on ↦ elim (Option-cases c.start_error) [
      | inr (m, lost) ↦ rw (begin_command, on, lost) (inl refl)
      | inl fine ↦ rw (begin_command, on, fine) (inr (v, refl))
    ]
  ]

  run_apply-Starts :
      (k : ExecutionControl) (c : CommandRun) (s : RunState)
      → V
      → Starts V s (run_streamed k c apply_args s).1
  unfolding run_streamed
  run_apply-Starts k c s v =
      then-Idle V (begin_command k c apply_args) _ s (begun k c s v) (λ _. Idle-lift _)

  execute_apply-Starts : (e : ApplyEnv) (s : RunState) → V → Starts V s (execute_apply e s).1
  unfolding execute_apply catch
  execute_apply-Starts e s v =
      Idle-then V (at_call e.control) _ s (Idle-at_call _)
        λ k _. then-Idle V _ _ _ (run_apply-Starts k e.command _ v) (after_apply-Idle e)

  apply_once-Starts :
      (e : ApplyEnv) (s : RunState) → (s.marker ≡ none → V) → Starts V s (apply_once e s).1
  unfolding apply_once
  apply_once-Starts e s verified = elim (Option-cases s.marker) [
    | inl none_left ↦ rw (apply_once, none_left) (execute_apply-Starts e s (verified none_left))
    | inr (m, left) ↦ rw (apply_once, left) (inl refl)
  ]

  pub execute_phase_apply-Starts :
      (h : Host) (e : ApplyEnv) (p : AgentJobPayload) (c : JobContainer) (counts : PlanCounts)
      (now : Measures) (names : List String) (m : Option ProvenanceManifest) (s : RunState)
      → ((pm : ProvenanceManifest) (t : RunState)
          → (require m "plan filesystem snapshot is missing its execution manifest" s).0 ≡ ok pm
          → (verify_plan_manifest h p c now names pm t).0 ≡ ok tt
          → s.marker ≡ none
          → V)
      → Starts V s (execute_phase_apply h e p c counts now names m s).1
  unfolding execute_phase_apply
  execute_phase_apply-Starts h e p c counts now names m s verified =
      Still-then V _ _ s (Still-require m _) λ pm is_pm.
        Still-then V _ _ s (verify_plan_manifest-Still h p c now names pm) λ _ accepted.
          then-Idle V _ _ s (apply_once-Starts e s (verified pm s is_pm accepted))
            (λ error. recover_state-Idle h e p c counts pm error)
