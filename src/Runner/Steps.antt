-- ===== src/Runner/Steps.antt =====
-- The actions of src/runner.rs that start no apply.
use terrence_agent.Prelude.{String, ◌≡◌, refl, Bool, true, false, Option, none, some, List, arith}
use terrence_agent.Protocol.Job.{
  Phase, plan, apply, unsupported, AgentJobPayload, JobContainer, PlanCounts,
}
use terrence_agent.Runner.Control.{
  ExecutionControl, CancelReason, failed, canceled, Result, ok, err, Argument, pure, raise,
}
use terrence_agent.Runner.Command.{
  CommandRun, StateCapture, begin_command, run_streamed, capture_json, capture_state_file,
}
use terrence_agent.Runner.Provenance.{
  Host, Measures, ProvenanceManifest, verify_plan_manifest, verify_host, verify_tool, verify_files,
}
use terrence_agent.Runner.Apply.{
  ApplyEnv, StateArtifactMetadata, commit_state, deliver_state, upload_state, MarkerFault,
  persist_apply_marker, marked, unmarked, truncated, pull_canceled, mark_canceled, after_apply,
  after_pull, capture_state, recover_state, pull_args, fresh_control,
}
use terrence_agent.Runner.Plan.{
  PlanEnv, step, run_command, upload_provider_schemas, publish_plan, execute_phase_plan, plan_args,
  init_args, show_args, schema_args,
}
use terrence_agent.Runner.Run.{RunEnv, prepare_plan, unpack_snapshot, prepare_apply, prepare}
use terrence_agent.Runner.Rules.{
  is_apply_command, Idle, Still, still_rules, idle_rules, Idle-bind, Idle-pure, Idle-raise,
  Idle-lift, Idle-at_call, Idle-bail_if, Idle-catch,
}

begin_command-Idle :
    (k : ExecutionControl) (c : CommandRun) (args : List Argument)
    → is_apply_command args ≡ false
    → Idle (begin_command k c args)
unfolding begin_command
begin_command-Idle k c args other = record { at = λ s. ground arith }

pub run_streamed-Idle :
    (k : ExecutionControl) (c : CommandRun) (args : List Argument)
    → is_apply_command args ≡ false
    → Idle (run_streamed k c args)
unfolding run_streamed
run_streamed-Idle k c args other =
    Idle-bind _ _ (begin_command-Idle k c args other) (λ _. Idle-lift _)

pub capture_json-Idle :
    (k : ExecutionControl) (c : CommandRun) (args : List Argument)
    → is_apply_command args ≡ false
    → Idle (capture_json k c args)
unfolding capture_json
capture_json-Idle k c args other =
    Idle-bind _ _ (begin_command-Idle k c args other) (λ _. Idle-lift _)

capture_state_file-Idle :
    (k : ExecutionControl) (c : CommandRun) (args : List Argument)
    → is_apply_command args ≡ false
    → Idle (capture_state_file k c args)
unfolding capture_state_file
capture_state_file-Idle k c args other =
    Idle-bind _ _ (begin_command-Idle k c args other) (λ _. Idle-lift _)

persist_apply_marker-Idle : (f : MarkerFault) (m : Option String) → Idle (persist_apply_marker f m)
unfolding persist_apply_marker
persist_apply_marker-Idle marked m = record { at = λ s. refl }
persist_apply_marker-Idle unmarked m = record { at = λ s. refl }
persist_apply_marker-Idle truncated m = record { at = λ s. refl }

mark_canceled-Idle : (f : MarkerFault) (r : CancelReason) → Idle (mark_canceled f r)
unfolding mark_canceled persist_apply_marker
mark_canceled-Idle f r = record { at = λ s. ground arith }

pull_canceled-Idle : (e : ApplyEnv) (b : Bool) → Idle (pull_canceled e b)
unfolding pull_canceled
pull_canceled-Idle e true = Idle-pure _
pull_canceled-Idle e false =
    Idle-bind _ _ (Idle-catch _ (capture_json-Idle fresh_control e.pulled pull_args refl))
      (λ _. Idle-pure _)

pub after_apply-Idle : (e : ApplyEnv) (r : Result Bool) → Idle (after_apply e r)
unfolding after_apply
after_apply-Idle e (ok true) = search (idle_rules, persist_apply_marker-Idle)
after_apply-Idle e (ok false) = search (idle_rules, persist_apply_marker-Idle)
after_apply-Idle e (err (failed m)) = search (idle_rules, persist_apply_marker-Idle)
after_apply-Idle e (err (canceled r state)) =
    search (idle_rules, pull_canceled-Idle, mark_canceled-Idle)

after_pull-Idle : (e : ApplyEnv) (r : Result StateCapture) → Idle (after_pull e r)
unfolding after_pull
after_pull-Idle e (ok c) = Idle-pure c
after_pull-Idle e (err (failed m)) = Idle-pure _
after_pull-Idle e (err (canceled r state)) = search (idle_rules, pull_canceled-Idle)

capture_state-Idle : (e : ApplyEnv) → Idle (capture_state e)
unfolding capture_state
capture_state-Idle e = Idle-bind _ _ (Idle-at_call _) λ k.
    Idle-bind _ _ (Idle-catch _ (capture_state_file-Idle k e.state_pull pull_args refl))
      (after_pull-Idle e)

upload_state-Idle :
    (e : ApplyEnv) (m : StateArtifactMetadata) (url : String) → Idle (upload_state e m url)
unfolding upload_state
upload_state-Idle e m url = record { at = λ s. ground arith }

commit_state-Idle :
    (e : ApplyEnv) (b : Bool) (url : Option String) (r : Result StateArtifactMetadata)
    → Idle (commit_state e b url r)
unfolding commit_state deliver_state
commit_state-Idle e false url r = Idle-pure _
commit_state-Idle e true url (err x) = Idle-pure _
commit_state-Idle e true none (ok m) = Idle-pure _
commit_state-Idle e true (some url) (ok m) = upload_state-Idle e m url

pub recover_state-Idle :
    (h : Host) (e : ApplyEnv) (p : AgentJobPayload) (c : JobContainer) (counts : PlanCounts)
    (m : ProvenanceManifest) (error : Option String)
    → Idle (recover_state h e p c counts m error)
unfolding recover_state
recover_state-Idle h e p c counts m error =
    search (idle_rules, capture_state-Idle, commit_state-Idle) depth 20 fits 4000

pub verify_plan_manifest-Still :
    (h : Host) (p : AgentJobPayload) (c : JobContainer) (now : Measures) (names : List String)
    (m : ProvenanceManifest)
    → Still (verify_plan_manifest h p c now names m)
unfolding verify_plan_manifest verify_host verify_tool verify_files
verify_plan_manifest-Still h p c now names m = search still_rules depth 20 fits 4000

pub step-Still : (o : Option String) → Still (step o)
unfolding step raise pure
step-Still none = record { at = λ s. refl }
step-Still (some m) = record { at = λ s. refl }

pub step-Idle : (o : Option String) → Idle (step o)
unfolding step
step-Idle none = Idle-pure tt
step-Idle (some m) = Idle-raise (failed m)

run_command-Idle :
    (e : PlanEnv) (c : CommandRun) (args : List Argument)
    → is_apply_command args ≡ false
    → Idle (run_command e c args)
unfolding run_command
run_command-Idle e c args other =
    Idle-bind _ _ (Idle-at_call _) λ k. run_streamed-Idle k c args other

upload_provider_schemas-Idle : (e : PlanEnv) → Idle (upload_provider_schemas e)
unfolding upload_provider_schemas
upload_provider_schemas-Idle e = Idle-bind _ _ (Idle-at_call _) λ k.
    Idle-bind _ _
      (Idle-catch _
        (Idle-bind _ _ (capture_json-Idle k e.schemas schema_args refl) λ _. step-Idle _))
      λ _. Idle-pure tt

publish_plan-Idle :
    (h : Host) (e : PlanEnv) (p : AgentJobPayload) (c : JobContainer) (names : List String)
    (config : Option String) (args : List Argument) (counts : PlanCounts)
    → Idle (publish_plan h e p c names config args counts)
unfolding publish_plan
publish_plan-Idle h e p c names config args counts =
    search (idle_rules, step-Idle) depth 20 fits 4000

plan_args-other : (c : JobContainer) (l : List Argument) → is_apply_command (plan_args c l) ≡ false
unfolding plan_args
plan_args-other c l = refl

pub execute_phase_plan-Idle :
    (h : Host) (e : PlanEnv) (p : AgentJobPayload) (c : JobContainer) (names : List String)
    (config : Option String)
    → Idle (execute_phase_plan h e p c names config)
unfolding execute_phase_plan
execute_phase_plan-Idle h e p c names config =
    Idle-bind _ _ (run_command-Idle e e.init init_args refl) λ initialized.
      Idle-bind _ _ (Idle-bail_if _ _) λ _. Idle-bind _ _ (Idle-lift _) λ parallelism.
        Idle-bind _ _
          (run_command-Idle e e.plan (plan_args c parallelism) (plan_args-other c parallelism))
          λ planned. Idle-bind _ _ (Idle-bail_if _ _) λ _. Idle-bind _ _ (Idle-at_call _) λ k.
            Idle-bind _ _ (capture_json-Idle k e.show show_args refl) λ json.
              Idle-bind _ _ (step-Idle _) λ _.
                Idle-bind _ _ (upload_provider_schemas-Idle e)
                  λ _. publish_plan-Idle h e p c names config _ _

unpack_snapshot-Idle : (e : RunEnv) → Idle (unpack_snapshot e)
unfolding unpack_snapshot
unpack_snapshot-Idle e = record { at = λ s. refl }

pub prepare-Idle : (e : RunEnv) (ph : Phase) → Idle (prepare e ph)
unfolding prepare prepare_plan prepare_apply
prepare-Idle e plan = search (idle_rules, step-Idle) depth 20 fits 4000
prepare-Idle e apply = search (idle_rules, step-Idle, unpack_snapshot-Idle) depth 20 fits 4000
prepare-Idle e (unsupported w) = Idle-raise _
