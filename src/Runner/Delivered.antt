-- ===== src/Runner/Delivered.antt =====
-- What `execute_phase` of src/runner.rs delivers of the state of an apply.
use terrence_agent.Prelude.{
  String, ◌≡◌, refl, Bool, true, false, Option, none, some, List, ◌∷◌, arith, leb, ◌⊎◌, inl, inr,
  Bool-cases, Option-cases,
}
use terrence_agent.Protocol.Completion.{StateArtifact}
use terrence_agent.Protocol.Job.{AgentJobPayload, JobContainer, PlanCounts}
use terrence_agent.Runner.Control.{Result, ok, err, RunState, pure, lift}
use terrence_agent.Runner.Command.{StateCapture}
use terrence_agent.Runner.Provenance.{Host, Measures, ProvenanceManifest}
use terrence_agent.Runner.Apply.{
  ApplyEnv, max_inline_state_bytes, StateArtifactMetadata, StateCommit, capture_state, commit_state,
  deliver_state, upload_state, inline_state, RunResult, is_recovered, apply_result, recover_state,
  artifact_url, execute_phase_apply,
}
use terrence_agent.Runner.Rules.{Ends, bind-Ends, Returns-ok}

-- The last upload succeeded and was of the artifact that was made of the state; its reference, digest
-- and size are the ones named.
pub record Uploaded (e : ApplyEnv) (a : StateArtifact) (s : RunState) : Type 0 where
  pub url : String
  pub before : List String
  pub metadata : StateArtifactMetadata
  pub accepted : e.upload_error ≡ none
  pub sent : s.uploads ≡ url ∷ before
  pub made : e.artifact ≡ ok metadata
  pub reference : a.reference ≡ e.reference url
  pub digest : a.digest ≡ metadata.artifact_digest
  pub bytes : a.bytes ≡ metadata.artifact_bytes

-- The state was uploaded, or its text is there.
abbrev pub IsDelivered : ApplyEnv → Option StateArtifact → Option String → RunState → Type 0
IsDelivered e artifact text s =
    ((a : StateArtifact) × (artifact ≡ some a) × Uploaded e a s)
    ⊎ ((t : String) × (outputs : String) × (text ≡ some t) × (e.inline ≡ ok (t, outputs)))

abbrev Commits : ApplyEnv → Bool → StateCommit → RunState → Type 0
Commits e recovered k s =
    recovered ≡ true → k.commit_error ≡ none → IsDelivered e k.artifact k.text s

inline_state-Commits :
    (e : ApplyEnv) (r : Result (String × String)) (m : StateArtifactMetadata) (s : RunState)
    → e.inline ≡ r
    → Commits e true (inline_state r m) s
unfolding inline_state
inline_state-Commits e (ok (state, outputs)) m s is h none_lost = inr (state, outputs, refl, is)
inline_state-Commits e (err x) m s is h none_lost = ground arith

deliver_state-Commits :
    (e : ApplyEnv) (url : Option String) (m : StateArtifactMetadata) (s : RunState)
    → e.artifact ≡ ok m
    → Ends (Commits e true) (deliver_state e url m s)
unfolding deliver_state upload_state pure
deliver_state-Commits e (some url) m s made = elim (Option-cases e.upload_error) [
  | inl fine ↦
      rw (upload_state, fine)
        (λ h none_lost. inl (
          _,
          refl,
          record {
            url = url;
            before = s.uploads;
            metadata = m;
            accepted = refl;
            sent = refl;
            made = made;
            reference = refl;
            digest = refl;
            bytes = refl;
          },
        ))
  | inr (m', lost) ↦ rw (upload_state, lost) (λ h none_lost. ground arith)
]
deliver_state-Commits e none m s made = elim (Bool-cases (leb m.raw_bytes max_inline_state_bytes)) [
  | inl small ↦ rw small (inline_state-Commits e e.inline m s refl)
  | inr big ↦ rw big (λ h none_lost. ground arith)
]

commit_state-Commits :
    (e : ApplyEnv) (recovered : Bool) (url : Option String) (r : Result StateArtifactMetadata)
    (s : RunState)
    → e.artifact ≡ r
    → Ends (Commits e recovered) (commit_state e recovered url r s)
unfolding commit_state pure
commit_state-Commits e false url r s is = λ h none_lost. ground arith
commit_state-Commits e true url (err x) s is = λ h none_lost. ground arith
commit_state-Commits e true url (ok m) s is = deliver_state-Commits e url m s is

-- An apply that does not ask for a recovery has recovered its state and delivered it.
abbrev pub Delivers : ApplyEnv → RunResult → RunState → Type 0
Delivers e r s =
    r.state_recovery_required ≡ false
    → (r.state_recovered ≡ true) × IsDelivered e r.state_artifact r.state s

apply_result-Delivers :
    (e : ApplyEnv) (counts : PlanCounts) (error : Option String) (c : StateCapture)
    (recovered : Bool) (k : StateCommit) (digest : String) (s : RunState)
    → Commits e recovered k s
    → Delivers e (apply_result counts error c recovered k digest) s
unfolding apply_result
apply_result-Delivers e counts error c true k digest s h kept = (
  refl,
  h refl (elim (Option-cases k.commit_error) [
    | inl fine ↦ fine
    | inr (m, lost) ↦ ground (arith, lost, kept)
  ]),
)
apply_result-Delivers e counts error c false k digest s h kept = ground (arith, kept)

recover_state-Delivers :
    (h : Host) (e : ApplyEnv) (p : AgentJobPayload) (c : JobContainer) (counts : PlanCounts)
    (m : ProvenanceManifest) (error : Option String) (s : RunState)
    → Ends (Delivers e) (recover_state h e p c counts m error s)
unfolding recover_state pure lift
recover_state-Delivers h e p c counts m error s =
    let Q = Delivers e in
    bind-Ends Q _ _ s λ capture _. bind-Ends Q _ _ _ λ k committed. bind-Ends Q _ _ _ λ binary _.
      bind-Ends Q _ _ _ λ digest _.
        (let recovered = is_recovered e capture in
          let v =
            (commit_state e recovered (artifact_url p c) e.artifact (capture_state e s).1).1 in
          let got : Commits e recovered k v =
            Returns-ok (λ k'. Commits e recovered k' v) _ k committed
              (commit_state-Commits e recovered (artifact_url p c) e.artifact _ refl) in
          apply_result-Delivers e counts error capture recovered k digest v got)

pub execute_phase_apply-Delivers :
    (h : Host) (e : ApplyEnv) (p : AgentJobPayload) (c : JobContainer) (counts : PlanCounts)
    (now : Measures) (names : List String) (m : Option ProvenanceManifest) (s : RunState)
    → Ends (Delivers e) (execute_phase_apply h e p c counts now names m s)
unfolding execute_phase_apply
execute_phase_apply-Delivers h e p c counts now names m s =
    let Q = Delivers e in
    bind-Ends Q _ _ s λ pm _.
      bind-Ends Q _ _ _
        λ _ _. bind-Ends Q _ _ _ λ error _. recover_state-Delivers h e p c counts pm error _
