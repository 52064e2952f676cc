-- ===== src/Runner/Verified.antt =====
-- Which runs of src/runner.rs start an apply.
use terrence_agent.Prelude.{
  String, ◌≡◌, refl, sym, ◌∙◌, true, Option, none, some, List, arith, inl, inr, Bool-cases,
}
use terrence_agent.Protocol.Job.{
  Phase, plan, apply, unsupported, AgentJobPayload, JobContainer, container,
}
use terrence_agent.Runner.Control.{
  CancelReason, reason, Result, ok, err, RunState, R, ◌>>=◌, bind_outcome, pure, raise, lift,
}
use terrence_agent.Runner.Provenance.{Host, Measures, ProvenanceManifest}
use terrence_agent.Runner.Plan.{step}
use terrence_agent.Runner.Run.{
  RunEnv, Preparation, prepare_plan, unpack_snapshot, prepare_apply, prepare, execute_phase,
  run_stages, run_after, run_inner, run_in, run_supported, run_phase, run,
}
use terrence_agent.Runner.Inputs.{validate_payload_identifiers}
use terrence_agent.Runner.Rules.{
  Still, Still-bind, Still-lift, Still-pure, Still-require, Still-bail_if, Idle-pure, Idle-bail_if,
}
use terrence_agent.Runner.Matches.{
  Matches, require-some, bail_if-passes, verify_plan_manifest-Matches,
}
use terrence_agent.Runner.Rules.{Returns, bind-Returns, Returns-ok, Returns-all}
use terrence_agent.Runner.Steps.{step-Still, execute_phase_plan-Idle, prepare-Idle}
use terrence_agent.Runner.Starts.{Starts, Idle-then, then-Idle, Still-then}
use terrence_agent.Runner.ApplyStarts.{execute_phase_apply-Starts}

-- What is true when an apply is started: the manifest of the snapshot is that of a plan of the same
-- run, and its digests are those of the files, as they are now.
pub record Checked (h : Host) (p : AgentJobPayload) (e : RunEnv) : Type 0 where
  pub now : Measures
  pub names : List String
  pub manifest : ProvenanceManifest
  pub is_valid : validate_payload_identifiers p ≡ true
  pub is_unmarked : e.snapshot_marker ≡ none
  pub is_on : reason e.start_control ≡ none
  pub is_apply : p.phase ≡ apply
  pub is_measured : e.measures ≡ ok now
  pub is_environment : e.environment ≡ ok names
  pub is_read : e.manifest ≡ ok manifest
  pub details : JobContainer
  pub is_container : container p apply ≡ some details
  pub matches : Matches h p details now names manifest

-- The preparation of an apply takes the manifest of the snapshot.
abbrev Prepares : RunEnv → Phase → Preparation → Type 0
Prepares e apply prep = (m : ProvenanceManifest) × (e.manifest ≡ ok m) × (prep.manifest ≡ some m)
Prepares e ph prep = Unit

lift-ok : {A : Type 0} (r : Result A) (s : RunState) (a : A) → (lift r s).0 ≡ ok a → r ≡ ok a
unfolding lift
lift-ok r s a h = h

read_again :
    {A : Type 0} {r : Result A} {o : Option A} {a b : A}
    → r ≡ ok a
    → o ≡ some a
    → o ≡ some b
    → r ≡ ok b
read_again e f g = cc

prepare-Prepares :
    (e : RunEnv) (ph : Phase) (s : RunState) → Returns (Prepares e ph) (prepare e ph s).0
unfolding prepare prepare_plan prepare_apply pure
prepare-Prepares e plan s = Returns-all (Prepares e plan) _ (λ a. tt)
prepare-Prepares e apply s =
    let Q = Prepares e apply in
    bind-Returns Q _ _ s λ _ _. bind-Returns Q _ _ _ λ _ _. bind-Returns Q _ _ _ λ _ _.
      bind-Returns Q _ _ _
        λ _ _. bind-Returns Q _ _ _ λ m read. (m, lift-ok e.manifest _ m read, refl)
prepare-Prepares e (unsupported w) s = Returns-all (Prepares e (unsupported w)) _ (λ a. tt)

-- The unpacked snapshot determines the marker.
Unpacks : RunEnv → RunState → Type 0
Unpacks e s = s.marker ≡ e.snapshot_marker

outcome-ends :
    {A B : Type 0} (Q : RunState → Type 0) (r : Result A) (s : RunState) (f : A → R B)
    → ((a : A) → Returns (λ _. Q (f a s).1) (f a s).0)
    → Returns (λ _. Q (bind_outcome r s f).1) (bind_outcome r s f).0
unfolding bind_outcome
outcome-ends Q (ok a) s f h = h a
outcome-ends Q (err e) s f h = tt

ends_then :
    {A B : Type 0} (Q : RunState → Type 0) (m : R A) (f : A → R B) (s : RunState)
    → ((a : A) → Returns (λ _. Q (f a (m s).1).1) (f a (m s).1).0)
    → Returns (λ _. Q ((m >>= f) s).1) ((m >>= f) s).0
unfolding ◌>>=◌
ends_then Q m f s h = outcome-ends Q (m s).0 (m s).1 f h

config_file-Still :
    (e : RunEnv) (f : ProvenanceManifest → Preparation)
    → Still (step e.config_file >>= λ _. (lift e.manifest >>= λ m. pure (f m)))
config_file-Still e f =
    Still-bind _ _ (step-Still _) λ _. Still-bind _ _ (Still-lift _) λ m. Still-pure _

Still-ends :
    {A : Type 0} (Q : RunState → Type 0) (m : R A) (t : RunState)
    → Still m
    → Q t
    → Returns (λ _. Q (m t).1) (m t).0
Still-ends Q m t i q = Returns-all (λ _. Q (m t).1) _ (λ a. rw (i.at t) q)

unpack_snapshot-Unpacks : (e : RunEnv) (s : RunState) → Unpacks e (unpack_snapshot e s).1
unfolding unpack_snapshot Unpacks
unpack_snapshot-Unpacks e s = refl

prepare_apply-Unpacks :
    (e : RunEnv) (s : RunState)
    → Returns (λ _. Unpacks e (prepare_apply e s).1) (prepare_apply e s).0
unfolding prepare_apply
prepare_apply-Unpacks e s = ends_then (Unpacks e) _ _ s λ _. ends_then (Unpacks e) _ _ _ λ _.
    ends_then (Unpacks e) _ _ _
      λ _. Still-ends (Unpacks e) _ _ (config_file-Still e _) (unpack_snapshot-Unpacks e _)

prepare-Unpacks :
    (e : RunEnv) (ph : Phase) (s : RunState) (prep : Preparation)
    → (prepare e ph s).0 ≡ ok prep
    → ph ≡ apply
    → (prepare e ph s).1.marker ≡ e.snapshot_marker
unfolding prepare Unpacks
prepare-Unpacks e plan s prep h is_it = ground (arith, is_it)
prepare-Unpacks e apply s prep h is_it =
    Returns-ok (λ _. Unpacks e (prepare_apply e s).1) _ prep h (prepare_apply-Unpacks e s)
prepare-Unpacks e (unsupported w) s prep h is_it = ground (arith, is_it)

execute_phase-Starts :
    (h : Host) (e : RunEnv) (p : AgentJobPayload) (c : JobContainer) (names : List String)
    (prep : Preparation) (ph : Phase) (s : RunState)
    → validate_payload_identifiers p ≡ true
    → reason e.start_control ≡ none
    → p.phase ≡ ph
    → container p ph ≡ some c
    → e.environment ≡ ok names
    → Prepares e ph prep
    → (ph ≡ apply → s.marker ≡ e.snapshot_marker)
    → Starts (Checked h p e) s (execute_phase h e p c names prep ph s).1
unfolding execute_phase raise
execute_phase-Starts h e p c names prep plan s valid on is_it held environment prepared unpacked =
    inl ((execute_phase_plan-Idle h e.plan_env p c names prep.config_digest).at s)
execute_phase-Starts h e p c names prep (unsupported w) s valid on is_it held environment prepared
      unpacked =
    inl refl
execute_phase-Starts h e p c names prep apply s valid on is_it held environment prepared unpacked =
    Still-then (Checked h p e) (lift e.measures) _ s (Still-lift _) λ now measured.
      execute_phase_apply-Starts (Checked h p e) h e.apply_env p c e.counts now names prep.manifest
        s
        λ pm t read accepted unmarked. record {
          now = now;
          names = names;
          manifest = pm;
          is_valid = valid;
          is_unmarked = sym (unpacked refl) ∙ unmarked;
          is_on = on;
          is_apply = is_it;
          is_measured = lift-ok e.measures _ now measured;
          is_environment = environment;
          is_read = read_again prepared.1 prepared.2 (require-some _ _ _ pm read);
          details = c;
          is_container = held;
          matches = verify_plan_manifest-Matches h p c now names pm t accepted;
        }

run_stages-Starts :
    (h : Host) (e : RunEnv) (p : AgentJobPayload) (s : RunState)
    → validate_payload_identifiers p ≡ true
    → reason e.start_control ≡ none
    → Starts (Checked h p e) s (run_stages h e p s).1
unfolding run_stages
run_stages-Starts h e p s valid on =
    let V = Checked h p e in
    Still-then V _ _ s (step-Still _) λ _ _. Still-then V _ _ s (Still-require _ _) λ c held.
      Still-then V _ _ s (step-Still _) λ _ _. Still-then V _ _ s (step-Still _) λ _ _.
        Idle-then V _ _ s (prepare-Idle e p.phase) λ prep prepared.
          (let t : RunState = (prepare e p.phase s).1 in
            Still-then V _ _ t (step-Still _) λ _ _. Still-then V _ _ t (Still-bail_if _ _) λ _ _.
              Still-then V _ _ t (Still-lift _) λ names environment.
                Still-then V _ _ t (step-Still _) λ _ _.
                  then-Idle V _ _ t
                    (execute_phase-Starts h e p c names prep p.phase t valid on refl
                      (require-some _ _ s c held) (lift-ok e.environment _ names environment)
                      (Returns-ok (Prepares e p.phase) _ prep prepared
                        (prepare-Prepares e p.phase s))
                      (prepare-Unpacks e p.phase s prep prepared))
                    (λ r. Idle-pure _))

run_after-Starts :
    (h : Host) (e : RunEnv) (p : AgentJobPayload) (o : Option CancelReason) (s : RunState)
    → validate_payload_identifiers p ≡ true
    → reason e.start_control ≡ o
    → Starts (Checked h p e) s (run_after h e p o s).1
unfolding run_after raise
run_after-Starts h e p (some r) s valid on = inl refl
run_after-Starts h e p none s valid on = run_stages-Starts h e p s valid on

run_inner-Starts :
    (h : Host) (e : RunEnv) (p : AgentJobPayload) (s : RunState)
    → Starts (Checked h p e) s (run_inner h e p s).1
unfolding run_inner
run_inner-Starts h e p s = Idle-then (Checked h p e) _ _ s (Idle-bail_if _ _) λ a passed.
    run_after-Starts h e p (reason e.start_control) _
      (ground (arith, bail_if-passes _ _ s a passed)) refl

run_in-Starts :
    (h : Host) (e : RunEnv) (p : AgentJobPayload) (d : Result String) (s : RunState)
    → Starts (Checked h p e) s (run_in h e p d s).1
unfolding run_in
run_in-Starts h e p (err x) s = inl refl
run_in-Starts h e p (ok dir) s = run_inner-Starts h e p s

run_supported-Starts :
    (h : Host) (e : RunEnv) (p : AgentJobPayload) (s : RunState)
    → Starts (Checked h p e) s (run_supported h e p s).1
unfolding run_supported
run_supported-Starts h e p s = elim (Bool-cases (validate_payload_identifiers p)) [
  | inl valid ↦ rw (run_supported, valid) (run_in-Starts h e p e.directory s)
  | inr bad ↦ rw (run_supported, bad) (run_in-Starts h e p _ s)
]

run_phase-Starts :
    (h : Host) (e : RunEnv) (p : AgentJobPayload) (ph : Phase) (s : RunState)
    → Starts (Checked h p e) s (run_phase h e p ph s).1
unfolding run_phase
run_phase-Starts h e p plan s = run_supported-Starts h e p s
run_phase-Starts h e p apply s = run_supported-Starts h e p s
run_phase-Starts h e p (unsupported w) s = run_in-Starts h e p _ s

-- Whatever the commands, the files and the server do: a run starts no apply command, or exactly one,
-- and then its identifiers are valid, it was not cancelled before, its phase is the apply, its
-- snapshot holds no marker of an apply, and the manifest of its snapshot is that of a plan of the
-- same run, whose digests are those of the files.
pub run-Starts :
    (h : Host) (e : RunEnv) (p : AgentJobPayload) (s : RunState)
    → Starts (Checked h p e) s (run h e p s).1
unfolding run
run-Starts h e p s = run_phase-Starts h e p p.phase s
