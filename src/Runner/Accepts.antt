-- ===== src/Runner/Accepts.antt =====
-- Which manifests `verify_plan_manifest` of src/runner.rs accepts.
use terrence_agent.Prelude.{
  ℕ, ◌↔◌, String, ◌≡◌, refl, sym, ap, Bool, true, false, not, ◌&&◌, ◌||◌, Option, none, some, List,
  [], ◌∷◌, arith, str_eq, eq_iff, if◌then◌else◌, ◌⊎◌,
}
use terrence_agent.Protocol.Job.{AgentJobPayload, JobContainer}
use terrence_agent.Runner.Control.{
  Argument, ok, RunState, R, bail_if, require, pure, ◌>>=◌, bind_outcome,
}
use terrence_agent.Runner.Provenance.{
  Host, Measures, ProvenanceManifest, verify_plan_manifest, verify_host, verify_tool, verify_files,
  same_text, same_pairs, same_names, sandbox_metadata, agent_metadata, tool_metadata,
  requested_tool, plan_manifest,
}
use terrence_agent.Runner.Matches.{
  IsOfRun, IsTool, NamesFiles, Matches, verify_plan_manifest-Matches,
}

-- An action has a result.
record Passes (m : R (Unit {0})) : Type 0 where
  at : (s : RunState) → (m s).0 ≡ ok tt

bail_if-Passes : (b : Bool) (e : String) → b ≡ false → Passes (bail_if b e)
unfolding bail_if pure
bail_if-Passes true e h = record { at = λ s. ground (arith, h) }
bail_if-Passes false e h = record { at = λ s. refl }

bail_if_then :
    (b : Bool) (e : String) (f : Unit {0} → R (Unit {0}))
    → b ≡ false
    → Passes (f tt)
    → Passes (bail_if b e >>= f)
unfolding bail_if pure ◌>>=◌ bind_outcome
bail_if_then true e f h k = record { at = λ s. ground (arith, h) }
bail_if_then false e f h k = k

require_then :
    {A : Type 0} (o : Option A) (a : A) (e : String) (f : A → R (Unit {0}))
    → o ≡ some a
    → Passes (f a)
    → Passes (require o e >>= f)
unfolding require pure ◌>>=◌ bind_outcome
require_then o a e f h k = rw h k

Passes-then :
    (m : R (Unit {0})) (f : Unit {0} → R (Unit {0})) → Passes m → Passes (f tt) → Passes (m >>= f)
unfolding ◌>>=◌ bind_outcome
Passes-then m f h k = record { at = λ s. rw (h.at s) (k.at (m s).1) }

same_str_refl : (a b : String) → a ≡ b → not (str_eq a b) ≡ false
same_str_refl a b h = ground (arith, eq_iff a b, h)

same_text_refl : (a b : Option String) → a ≡ b → not (same_text a b) ≡ false
same_text_refl none b h = rw (sym h) refl
same_text_refl (some a) b h = rw (sym h) (same_str_refl a a refl)

same_names_refl : (l : List String) → same_names l l ≡ true
same_names_refl [] = refl
same_names_refl (a ∷ l) = ground (arith, eq_iff a a, same_names_refl l)

same_pairs_refl : (l : List (String × String)) → same_pairs l l ≡ true
same_pairs_refl [] = refl
same_pairs_refl ((a, b) ∷ l) = ground (arith, eq_iff a a, eq_iff b b, same_pairs_refl l)

same_names_no : (l k : List String) → l ≡ k → not (same_names l k) ≡ false
same_names_no l k h = rw (sym h) (ap not (same_names_refl l))

same_pairs_no : (l k : List (String × String)) → l ≡ k → not (same_pairs l k) ≡ false
same_pairs_no l k h = rw (sym h) (ap not (same_pairs_refl l))

or_neither : (a b : Bool) → a ≡ false → b ≡ false → a || b ≡ false
or_neither a b h k = ground (arith, h, k)

same_flag_refl : (a b : Bool) → a ≡ b → (if a then not b else b) ≡ false
same_flag_refl true b h = rw (sym h) refl
same_flag_refl false b h = sym h

verify_host-Passes :
    (h : Host) (p : AgentJobPayload) (m : ProvenanceManifest)
    → IsOfRun h p m
    → Passes (verify_host h p m)
unfolding verify_host
verify_host-Passes h p m r = bail_if_then _ _ _ (ground (arith, r.schema)) (
    bail_if_then _ _ _ (same_str_refl _ _ r.phase) (
      bail_if_then _ _ _ (or_neither _ _ (same_str_refl _ _ r.run_id) (same_str_refl _ _ r.job_id))
        (bail_if_then _ _ _ (same_str_refl _ _ r.os) (
          bail_if_then _ _ _ (same_str_refl _ _ r.arch) (
            bail_if-Passes _ _ (
              or_neither _ _ (same_flag_refl _ _ r.enabled)
                (or_neither _ _ (same_str_refl _ _ r.mode) (same_text_refl _ _ r.abi))))))))

allows_version : (v w : String) → (v ≡ "") ⊎ (w ≡ v) → not (str_eq v "") && not (str_eq w v) ≡ false
allows_version v w h = ground (arith, eq_iff v "", eq_iff w v, h)

verify_tool-Passes :
    (p : AgentJobPayload) (c : JobContainer) (now : Measures) (m : ProvenanceManifest)
    → IsTool p c now m
    → Passes (verify_tool p c now m)
unfolding verify_tool
verify_tool-Passes p c now m r = bail_if_then _ _ _ (same_str_refl _ _ r.name) (
    bail_if_then _ _ _ (same_str_refl _ _ r.binary)
      (bail_if-Passes _ _ (allows_version _ _ r.version)))

verify_files-Passes :
    (p : AgentJobPayload) (now : Measures) (names : List String) (m : ProvenanceManifest)
    → NamesFiles p now names m
    → Passes (verify_files p now names m)
unfolding verify_files
verify_files-Passes p now names m r = require_then _ now.saved_plan _ _ r.saved_plan (
    bail_if_then _ _ _ (same_str_refl now.saved_plan now.saved_plan refl) (
      require_then _ now.snapshot _ _ r.snapshot (
        bail_if_then _ _ _ (same_str_refl now.snapshot now.snapshot refl) (
          bail_if_then _ _ _ (same_text_refl _ _ r.lock_file) (
            bail_if_then _ _ _ (same_text_refl _ _ r.input_state) (
              bail_if_then _ _ _ (same_pairs_no _ _ r.providers) (
                bail_if_then _ _ _ (same_str_refl _ _ r.directory)
                  (bail_if-Passes _ _ (same_names_no _ _ r.environment)))))))))

verify_plan_manifest-Passes :
    (h : Host) (p : AgentJobPayload) (c : JobContainer) (now : Measures) (names : List String)
    (m : ProvenanceManifest)
    → Matches h p c now names m
    → Passes (verify_plan_manifest h p c now names m)
unfolding verify_plan_manifest
verify_plan_manifest-Passes h p c now names m r =
    Passes-then _ _ (verify_host-Passes h p m r.of_run) (
      Passes-then _ _ (verify_tool-Passes p c now m r.tool)
        (verify_files-Passes p now names m r.files))

-- A manifest is accepted just when it is that of a plan of the same run and job, in the known
-- schema, on a host of the same system and architecture with the same sandbox, mode and ABI, with
-- the same tool in a version that the job allows, for the same working directory and names of
-- environment variables, and its digests of the tool, the saved plan, the snapshot, the lock file,
-- the input state and the providers are those of the files now.
pub verify_plan_manifest_iff :
    (h : Host) (p : AgentJobPayload) (c : JobContainer) (now : Measures) (names : List String)
    (m : ProvenanceManifest) (s : RunState)
    → ((verify_plan_manifest h p c now names m s).0 ≡ ok tt) ↔ Matches h p c now names m
verify_plan_manifest_iff h p c now names m s = (
  verify_plan_manifest-Matches h p c now names m s,
  λ r. (verify_plan_manifest-Passes h p c now names m r).at s,
)

known_version : (v w : String) → w ≡ v → (w ≡ "") ⊎ ((if str_eq v "" then "unknown" else v) ≡ w)
known_version v w h = ground (arith, eq_iff v "", h)

-- A manifest that a plan writes is accepted by the apply of the same run and job on the same host,
-- with the same tool, version, working directory and names of environment variables, on files that
-- have not changed.
pub verify-plan_manifest :
    (h : Host) (p q : AgentJobPayload) (c d : JobContainer) (path config : String) (now : Measures)
    (args : List Argument) (names : List String) (started completed : ℕ) (s : RunState)
    → q.details.run_id ≡ p.details.run_id
    → q.job_id ≡ p.job_id
    → requested_tool q ≡ requested_tool p
    → d.terraform_version ≡ c.terraform_version
    → q.details.working_directory ≡ p.details.working_directory
    → (verify_plan_manifest h q d now names
        (plan_manifest h p c path config now args names started completed)
        s).0
      ≡ ok tt
unfolding plan_manifest agent_metadata tool_metadata sandbox_metadata
verify-plan_manifest h p q c d path config now args names started completed s run job tool version
      directory =
    (verify_plan_manifest-Passes h q d now names
        (plan_manifest h p c path config now args names started completed)
        (record {
          of_run = record {
            schema = refl;
            phase = refl;
            run_id = sym run;
            job_id = sym job;
            os = refl;
            arch = refl;
            enabled = refl;
            mode = refl;
            abi = refl;
          };
          tool = record {
            name = sym tool;
            binary = refl;
            version = known_version c.terraform_version d.terraform_version version;
          };
          files = record {
            saved_plan = refl;
            snapshot = refl;
            lock_file = refl;
            input_state = refl;
            providers = refl;
            directory = sym directory;
            environment = refl;
          };
        })).at
      s
