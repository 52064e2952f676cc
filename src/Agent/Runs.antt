-- ===== src/Agent/Runs.antt =====
-- `execute_claimed`, the part of `poll_once` in src/main.rs that runs a job: only for an entry that
-- the journal has just handed out as `claimed`.
use mathlib.Core.Path.{subst}
use terrence_agent.Prelude.{
  All, ℕ, ◌+◌, ◌<◌, String, ◌≡◌, refl, sym, ap, ◌∙◌, inl, inr, Bool, true, false, not, Option, none,
  some, List, [], ◌∷◌, arith, str_eq, Bool-cases,
}
use text.Mathlib.TextPositions.{eq_refl}
use terrence_agent.Journal.Disk.{lookup, lookup-insert}
use terrence_agent.Journal.Record.{
  is_claimed, claimed, executing, ExecutionManifest, JournalFile, JournalEntry, Node,
  journal_retention,
}
use terrence_agent.Journal.Operations.{
  World, Env, M, ◌>>=◌, ◌>>◌, bind_result, pure, fail, lift, read_node, exists_at, start_at,
  path_for_job, mark_executing, update, record_completion,
}
use terrence_agent.Journal.Safe.{
  Vacant, Vacant-RanRecord, Logged, Safe, Keeps, Keeps-pure, Keeps-fail, Keeps-bind, Keeps-lift,
  Keeps-if, WellFiled, FiledFile, IsReliable,
}
use terrence_agent.Journal.Keeps.{
  keeps_rules, write_entry-Safe, decoded-IsPast, mark_executing-Keeps,
}
use terrence_agent.Journal.Entries.{read_node-file, write_entry-some, lookup-FiledFile}
use terrence_agent.Agent.Effects.{Payload, JobOutcome, AgentEnv, run_job}
use terrence_agent.Agent.Poll.{
  finish_journal_entry, PollResult, ran, idle, execute_claimed, continue_claimed,
}
use terrence_agent.Agent.Once.{finish-Keeps, Before, Inv, Safe-Inv, Keeps-Inv}

-- An entry that `start` hands out for a manifest: no run of its file is within the retention time
-- if it is `claimed`, and it lies in the manifest's file.
pub record Started (m : ExecutionManifest) (w : World) (x : JournalEntry) : Type 0 where
  pub filed : w.digest x.manifest.job_id ≡ w.digest m.job_id
  pub fresh :
      is_claimed x.state ≡ true
      → (t : ℕ) → Logged (w.digest m.job_id) t w
      → t + journal_retention < w.now

abbrev new_record : ExecutionManifest → JournalFile
new_record m = record { manifest = m; state = claimed; retain_work_dir = false; completion = none }

-- What the existence test of a journal whose files can be tested finds is there; where it finds
-- nothing, no record lies.
abbrev pub Found : Option Node → Option Node → Type 0
Found none there = Vacant there
Found (some n) there = there ≡ some n

pub exists_at-Found :
    (e : Env) (k : ℕ) (o : Option Node) → IsReliable e → Found (exists_at (e.stats k) o) o
unfolding exists_at
exists_at-Found e k none r = tt
exists_at-Found e k (some n) r = elim (Bool-cases n.is_symlink) [
  | inr file ↦ rw (r.stats k n file) refl
  | inl link ↦ elim (Bool-cases (e.stats k n)) [ inl seen ↦ rw seen refl | inr lost ↦ rw lost link ]
]

pub start_at-Safe :
    (e : Env) (m : ExecutionManifest) (o : Option Node) (b : Bool) (w : World)
    → IsReliable e
    → Found o (lookup (w.digest m.job_id) w.disk)
    → Safe w (start_at e m o b w).1
unfolding start_at
start_at-Safe e m none b w r at = write_entry-Safe e (new_record m) w r (inr at)
start_at-Safe e m (some n) b w r at =
    (Keeps-bind (lift (read_node b n)) _ (Keeps-lift (read_node b n)) (λ x.
        Keeps-if (not (str_eq x.manifest.fingerprint m.fingerprint)) fail (pure x) Keeps-fail
          (Keeps-pure x))).at
      w

start_at-read :
    (e : Env) (m : ExecutionManifest) (n : Node) (b : Bool) (w : World) (x : JournalEntry)
    → (start_at e m (some n) b w).0 ≡ some x
    → read_node b n ≡ some x
unfolding start_at ◌>>=◌ lift fail pure
start_at-read e m n b w x h = ground arith

pub start_at-Started :
    (e : Env) (m : ExecutionManifest) (o : Option Node) (b : Bool) (w : World) (x : JournalEntry)
    → WellFiled w.digest w.disk
    → Found o (lookup (w.digest m.job_id) w.disk)
    → (start_at e m o b w).0 ≡ some x
    → Started m w x
unfolding start_at
start_at-Started e m none b w x filed at h =
    let same = (write_entry-some e (new_record m) w x h).0 in
    record {
      filed = ap (λ (y : ExecutionManifest). w.digest y.job_id) same.manifest;
      fresh = λ c t l. elim l.1 [
        | inl over ↦ over
        | inr logged ↦ absurd (Vacant-RanRecord t _ at logged)
      ];
    }
start_at-Started e m (some n) b w x filed at h =
    let (f, found, same) = read_node-file b n x (start_at-read e m n b w x h) in
    let here : FiledFile w.digest (w.digest m.job_id) (some f) =
      subst (FiledFile w.digest (w.digest m.job_id)) found
        (lookup-FiledFile w.digest (w.digest m.job_id) w.disk n filed at) in
    record {
      filed = ap (λ (y : ExecutionManifest). w.digest y.job_id) same.manifest ∙ here;
      fresh = λ c t l. ground (arith, l, at, found, same.state);
    }

-- What `run_job` and the reports after it need of the world after `mark_executing`.
record Executing (p : String) (w : World) : Type 0 where
  inv : Inv w
  before : Before p w.now w.runs
  here : Logged p w.now w

mark_executing-Executing :
    (e : Env) (x y : JournalEntry) (w : World)
    → IsReliable e
    → Inv w
    → Before (w.digest x.manifest.job_id) w.now w.runs
    → (mark_executing e x w).0 ≡ some y
    → Executing (w.digest x.manifest.job_id) (mark_executing e x w).1
mark_executing-Executing e x y w r i b h =
    let f : JournalFile = record {
      manifest = x.manifest;
      state = executing;
      retain_work_dir = x.retain_work_dir;
      completion = none;
    } in
    let safe = (mark_executing-Keeps e x r).at w in
    unfold mark_executing update in
    let wrote = (write_entry-some e f w y h).1 in
    record {
      inv = Safe-Inv safe i;
      before = rw (safe.same_now, safe.same_runs) b;
      here = rw wrote (
        omega arith,
        inr (
            rw lookup-insert
              (rw eq_refl (refl, omega arith, decoded-IsPast e f (e.decoded f) r refl refl))),
      );
    }

run_job-Inv :
    (e : AgentEnv) (q : Payload) (w : World)
    → Executing (w.digest q.job_id) w
    → Inv (run_job e q w).1
unfolding run_job path_for_job
run_job-Inv e q w x = record {
  filed = x.inv.filed;
  apart = (x.before, x.inv.apart);
  logged = ((x.here.0, x.here.1), x.inv.logged);
}

-- What follows the run: the completion is recorded and reported.
after_run : AgentEnv → Bool → JournalEntry → JobOutcome → M PollResult
after_run e single started outcome = do
  pending ←
      record_completion e.journal started outcome.completion outcome.work_dir
        outcome.completion.details.state_recovery_required
  finish_journal_entry e pending
  pure (ran single)

after_run-Keeps :
    (e : AgentEnv) (single : Bool) (x : JournalEntry) (o : JobOutcome)
    → IsReliable e.journal
    → Keeps (after_run e single x o)
unfolding after_run
after_run-Keeps e single x o r = search (keeps_rules, finish-Keeps)

pub bind-Inv :
    {A B : Type 0} (o : Option A) (w : World) (f : A → M B)
    → Inv w
    → ((a : A) → o ≡ some a → Inv (f a w).1)
    → Inv (bind_result o w f).1
unfolding bind_result
bind-Inv none w f i k = i
bind-Inv (some a) w f i k = k a refl

run_and_report-Inv :
    (e : AgentEnv) (single : Bool) (q : Payload) (x : JournalEntry) (w : World)
    → IsReliable e.journal
    → Executing (w.digest q.job_id) w
    → Inv ((run_job e q >>= after_run e single x) w).1
unfolding ◌>>=◌
run_and_report-Inv e single q x w good ex =
    let r = run_job e q w in
    bind-Inv r.0 r.1 (after_run e single x) (run_job-Inv e q w ex)
      (λ o ok. Keeps-Inv (after_run-Keeps e single x o good) (run_job-Inv e q w ex))

execute_claimed-Inv :
    (e : AgentEnv) (single : Bool) (q : Payload) (x : JournalEntry) (w : World)
    → IsReliable e.journal
    → Inv w
    → w.digest x.manifest.job_id ≡ w.digest q.job_id
    → Before (w.digest q.job_id) w.now w.runs
    → Inv (execute_claimed e single q x w).1
unfolding execute_claimed after_run ◌>>=◌
execute_claimed-Inv e single q x w good i filed before =
    let r = mark_executing e.journal x w in
    let safe = (mark_executing-Keeps e.journal x good).at w in
    bind-Inv r.0 r.1 _ (Safe-Inv safe i) (λ y ok. run_and_report-Inv e single q y r.1 good (
      subst (λ (p : String). Executing p r.1)
        (filed ∙ ap (λ (d : String → String). d q.job_id) (sym safe.same_digest))
        (mark_executing-Executing e.journal x y w good i (rw filed before) ok)))

pub continue_claimed-Inv :
    (e : AgentEnv) (single : Bool) (q : Payload) (x : JournalEntry) (w : World)
    → IsReliable e.journal
    → Inv w
    → (is_claimed x.state ≡ true
        → (w.digest x.manifest.job_id ≡ w.digest q.job_id)
          × Before (w.digest q.job_id) w.now w.runs)
    → Inv (continue_claimed e single q x w).1
unfolding continue_claimed
continue_claimed-Inv e single q x w good i h = elim (Bool-cases (is_claimed x.state)) [
  | inl new ↦
      (let (filed, before) = h new in
        rw (new, continue_claimed) (execute_claimed-Inv e single q x w good i filed before))
  | inr old ↦
      rw (old, continue_claimed)
        (Keeps-Inv (Keeps-bind _ _ (finish-Keeps e x good) (λ u. Keeps-pure idle)) i)
]

-- The runs on record are before the retention time, where the journal shows a claimed entry.
pub Before-Logged :
    (p : String) (w : World) (l : List (String × ℕ))
    → ((t : ℕ) → Logged p t w → t + journal_retention < w.now)
    → All (λ r. Logged r.0 r.1 w) l
    → Before p w.now l
Before-Logged p w [] f h = tt
Before-Logged p w ((q, t) ∷ l) f h =
    ((λ e. f t (subst (λ (r : String). Logged r t w) e h.0)), Before-Logged p w l f h.1)
