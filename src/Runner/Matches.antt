-- ===== src/Runner/Matches.antt =====
-- What a manifest that `verify_plan_manifest` of src/runner.rs accepts says.
use terrence_agent.Prelude.{
  String, ◌≡◌, refl, ap, ◌∙◌, Bool, true, false, not, ◌&&◌, ◌||◌, Option, none, some, List, [], ◌∷◌,
  arith, str_eq, eq_iff, if◌then◌else◌, ◌⊎◌,
}
use terrence_agent.Protocol.Job.{AgentJobPayload, JobContainer}
use terrence_agent.Runner.Control.{ok, RunState, R, bail_if, require, raise, pure, ◌>>=◌}
use terrence_agent.Runner.Provenance.{
  Host, Measures, ProvenanceManifest, verify_plan_manifest, verify_host, verify_tool, verify_files,
  same_text, same_pairs, same_names, sandbox_metadata, requested_tool,
}
use terrence_agent.Runner.Rules.{Returns, bind-Returns, Returns-ok, Returns-weaken}

-- The manifest is that of a plan of this run on a host like this one.
pub record IsOfRun (h : Host) (p : AgentJobPayload) (m : ProvenanceManifest) : Type 0 where
  pub schema : m.schema_version ≡ 2
  pub phase : m.phase ≡ "plan"
  pub run_id : m.run_id ≡ p.details.run_id
  pub job_id : m.job_id ≡ p.job_id
  pub os : m.agent.os ≡ h.os
  pub arch : m.agent.arch ≡ h.arch
  pub enabled : m.sandbox.enabled ≡ h.sandbox
  pub mode : m.sandbox.mode ≡ (sandbox_metadata h).mode
  pub abi : m.sandbox.abi ≡ (sandbox_metadata h).abi

-- The files of the run are those that the manifest names.
pub record NamesFiles (p : AgentJobPayload) (now : Measures) (names : List String)
    (m : ProvenanceManifest) : Type 0 where
  pub saved_plan : m.plan_digest ≡ some now.saved_plan
  pub snapshot : m.snapshot_digest ≡ some now.snapshot
  pub lock_file : m.lock_file_digest ≡ now.lock_file
  pub input_state : m.input_state_digest ≡ now.input_state
  pub providers : m.provider_digests ≡ now.providers
  pub directory : m.working_directory ≡ p.details.working_directory
  pub environment : m.environment ≡ names

-- The tool is the one of the payload, in a version that it allows.
pub record IsTool (p : AgentJobPayload) (c : JobContainer) (now : Measures) (m : ProvenanceManifest)
    : Type 0 where
  pub name : m.tool.name ≡ requested_tool p
  pub binary : m.tool.digest ≡ now.binary
  pub version : (c.terraform_version ≡ "") ⊎ (m.tool.version ≡ c.terraform_version)

pub record Matches (h : Host) (p : AgentJobPayload) (c : JobContainer) (now : Measures)
    (names : List String) (m : ProvenanceManifest) : Type 0 where
  pub of_run : IsOfRun h p m
  pub tool : IsTool p c now m
  pub files : NamesFiles p now names m

pub bail_if-passes :
    (b : Bool) (e : String) (s : RunState) (a : Unit {0}) → (bail_if b e s).0 ≡ ok a → b ≡ false
unfolding bail_if raise
bail_if-passes true e s a h = ground (arith, h)
bail_if-passes false e s a h = refl

pub require-some :
    {A : Type 0} (o : Option A) (e : String) (s : RunState) (a : A)
    → (require o e s).0 ≡ ok a
    → o ≡ some a
unfolding require raise pure
require-some none e s a h = ground (arith, h)
require-some (some b) e s a h = ground (arith, h)

or_left : (a b : Bool) → a || b ≡ false → a ≡ false
or_left a b h = ground (arith, h)

or_right : (a b : Bool) → a || b ≡ false → b ≡ false
or_right a b h = ground (arith, h)

bail_if-Returns :
    (b : Bool) (e : String) (s : RunState) → Returns (λ _. b ≡ false) (bail_if b e s).0
unfolding bail_if raise pure
bail_if-Returns true e s = tt
bail_if-Returns false e s = refl

same_str : (a b : String) → not (str_eq a b) ≡ false → a ≡ b
same_str a b h = ground (arith, eq_iff a b, h)

same_flag : (a b : Bool) → (if a then not b else b) ≡ false → a ≡ b
same_flag true true h = refl
same_flag true false h = ground (arith, h)
same_flag false true h = ground (arith, h)
same_flag false false h = refl

same_text_sound : (a b : Option String) → not (same_text a b) ≡ false → a ≡ b
same_text_sound none none h = refl
same_text_sound none (some b) h = ground (arith, h)
same_text_sound (some a) none h = ground (arith, h)
same_text_sound (some a) (some b) h = ap some (same_str a b h)

same_names_sound : (l k : List String) → same_names l k ≡ true → l ≡ k
same_names_sound [] [] h = refl
same_names_sound [] (b ∷ k) h = ground (arith, h)
same_names_sound (a ∷ l) [] h = ground (arith, h)
same_names_sound (a ∷ l) (b ∷ k) h = grind (arith, eq_iff a b, same_names_sound l k, h)

same_pairs_sound : (l k : List (String × String)) → same_pairs l k ≡ true → l ≡ k
same_pairs_sound [] [] h = refl
same_pairs_sound [] ((c, d) ∷ k) h = ground (arith, h)
same_pairs_sound ((a, b) ∷ l) [] h = ground (arith, h)
same_pairs_sound ((a, b) ∷ l) ((c, d) ∷ k) h =
    grind (arith, eq_iff a c, eq_iff b d, same_pairs_sound l k, h)

same_names-not : (l k : List String) → not (same_names l k) ≡ false → l ≡ k
same_names-not l k h = same_names_sound l k (ground (arith, h))

same_pairs-not : (l k : List (String × String)) → not (same_pairs l k) ≡ false → l ≡ k
same_pairs-not l k h = same_pairs_sound l k (ground (arith, h))

module _ {B : Type 0} (Q : B → Type 0) where
  -- The rest of an action runs only if a check passes.
  checked :
      (b : Bool) (e : String) (f : Unit {0} → R B) (s : RunState)
      → (b ≡ false → (t : RunState) → Returns Q (f tt t).0)
      → Returns Q ((bail_if b e >>= f) s).0
  checked b e f s h = bind-Returns Q _ f s λ a passed. h (bail_if-passes b e s a passed) _

  required :
      {A : Type 0} (o : Option A) (e : String) (f : A → R B) (s : RunState)
      → ((a : A) → o ≡ some a → (t : RunState) → Returns Q (f a t).0)
      → Returns Q ((require o e >>= f) s).0
  required o e f s h = bind-Returns Q _ f s λ a passed. h a (require-some o e s a passed) _

verify_host-Returns :
    (h : Host) (p : AgentJobPayload) (m : ProvenanceManifest) (s : RunState)
    → Returns (λ _. IsOfRun h p m) (verify_host h p m s).0
unfolding verify_host
verify_host-Returns h p m s =
    let Q = λ (u : Unit {0}). IsOfRun h p m in
    checked Q _ _ _ s λ schema _. checked Q _ _ _ _ λ phase _. checked Q _ _ _ _ λ ids _.
      checked Q _ _ _ _ λ os _. checked Q _ _ _ _ λ arch _.
        Returns-weaken _ Q _
          (λ _ sandbox. record {
            schema = ground (arith, schema);
            enabled = same_flag _ _ (or_left _ _ sandbox);
            phase = same_str m.phase "plan" phase;
            run_id = same_str m.run_id p.details.run_id (or_left _ _ ids);
            job_id = same_str m.job_id p.job_id (or_right _ _ ids);
            os = same_str m.agent.os h.os os;
            arch = same_str m.agent.arch h.arch arch;
            mode = same_str _ _ (or_left _ _ (or_right _ _ sandbox));
            abi = same_text_sound _ _ (or_right _ _ (or_right _ _ sandbox));
          })
          (bail_if-Returns _ _ _)

same_version : (v w : String) → not (str_eq v "") && not (str_eq w v) ≡ false → (v ≡ "") ⊎ (w ≡ v)
same_version v w h = ground (arith, eq_iff v "", eq_iff w v, h)

verify_tool-Returns :
    (p : AgentJobPayload) (c : JobContainer) (now : Measures) (m : ProvenanceManifest)
    (s : RunState)
    → Returns (λ _. IsTool p c now m) (verify_tool p c now m s).0
unfolding verify_tool
verify_tool-Returns p c now m s =
    let Q = λ (u : Unit {0}). IsTool p c now m in
    checked Q _ _ _ s λ name _. checked Q _ _ _ _ λ digest _.
      Returns-weaken _ Q _
        (λ _ version. record {
          name = same_str _ _ name;
          binary = same_str _ _ digest;
          version = same_version _ _ version;
        })
        (bail_if-Returns _ _ _)

verify_files-Returns :
    (p : AgentJobPayload) (now : Measures) (names : List String) (m : ProvenanceManifest)
    (s : RunState)
    → Returns (λ _. NamesFiles p now names m) (verify_files p now names m s).0
unfolding verify_files
verify_files-Returns p now names m s =
    let Q = λ (u : Unit {0}). NamesFiles p now names m in
    required Q _ _ _ s λ saved is_saved _. checked Q _ _ _ _ λ same_plan _.
      required Q _ _ _ _ λ shot is_shot _. checked Q _ _ _ _ λ same_shot _.
        checked Q _ _ _ _ λ lock _. checked Q _ _ _ _ λ state _. checked Q _ _ _ _ λ providers _.
          checked Q _ _ _ _ λ directory _.
            Returns-weaken _ Q _
              (λ _ environment. record {
                saved_plan = is_saved ∙ ap some (same_str saved now.saved_plan same_plan);
                snapshot = is_shot ∙ ap some (same_str shot now.snapshot same_shot);
                lock_file = same_text_sound _ _ lock;
                input_state = same_text_sound _ _ state;
                providers = same_pairs-not _ _ providers;
                directory = same_str _ _ directory;
                environment = same_names-not _ _ environment;
              })
              (bail_if-Returns _ _ _)

verify-Returns :
    (h : Host) (p : AgentJobPayload) (c : JobContainer) (now : Measures) (names : List String)
    (m : ProvenanceManifest) (s : RunState)
    → Returns (λ _. Matches h p c now names m) (verify_plan_manifest h p c now names m s).0
unfolding verify_plan_manifest
verify-Returns h p c now names m s =
    let Q = λ (u : Unit {0}). Matches h p c now names m in
    bind-Returns Q _ _ s λ a host. bind-Returns Q _ _ _ λ b tool.
      (let of_run = Returns-ok (λ _. IsOfRun h p m) _ a host (verify_host-Returns h p m s) in
        let tools = Returns-ok (λ _. IsTool p c now m) _ b tool (verify_tool-Returns p c now m _) in
        Returns-weaken (λ _. NamesFiles p now names m) Q _
          (λ d files. record { of_run = of_run; tool = tools; files = files })
          (verify_files-Returns p now names m _))

-- A manifest that is accepted is that of a plan of the same run and job, on a host of the same
-- system, architecture and sandbox, with the same tool; its digests are those of the files now.
pub verify_plan_manifest-Matches :
    (h : Host) (p : AgentJobPayload) (c : JobContainer) (now : Measures) (names : List String)
    (m : ProvenanceManifest) (s : RunState)
    → (verify_plan_manifest h p c now names m s).0 ≡ ok tt
    → Matches h p c now names m
unfolding verify_plan_manifest
verify_plan_manifest-Matches h p c now names m s accepted =
    Returns-ok (λ _. Matches h p c now names m) _ tt accepted (verify-Returns h p c now names m s)
