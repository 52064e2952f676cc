-- ===== src/Agent/Once.antt =====
-- What the polls of src/main.rs keep true of the runs that they make.

use terrence_agent.Prelude.{
  All, ℕ, ◌+◌, ◌<◌, String, ◌≡◌, refl, inl, inr, Option, none, some, List, [], ◌∷◌, arith,
  Bool-cases,
}
use terrence_agent.Protocol.Completion.{CompletionJob}
use terrence_agent.Journal.Record.{
  JournalState, claimed, executing, completion_pending, completion_acked, cleanup_done,
  ExecutionManifest, JournalEntry, journal_retention,
}
use terrence_agent.Journal.Operations.{World, M}
use terrence_agent.Journal.Safe.{
  Logged, Safe, Safe-refl, Keeps, Keeps-pure, Keeps-bind, WellFiled, IsReliable,
}
use terrence_agent.Journal.Keeps.{keeps_rules}
use terrence_agent.Agent.Effects.{
  AgentEnv, report_completion_details, cleanup_manifest, cleanup_dir,
}
use terrence_agent.Agent.Poll.{
  end_restarted, report_pending, acknowledge_entry, clean_entry, finish_journal_entry,
}

report-Keeps :
    (e : AgentEnv) (r : String) (c : CompletionJob) → Keeps (report_completion_details e r c)
unfolding report_completion_details
report-Keeps e r c = record {
  at = λ w. elim (Bool-cases (e.reports w.calls)) [
    | inl sent ↦ rw sent (record {
      same_digest = refl;
      filed = λ h. h;
      same_now = refl;
      same_runs = refl;
      logged = λ p t h. h;
    })
    | inr lost ↦ rw lost (record {
      same_digest = refl;
      filed = λ h. h;
      same_now = refl;
      same_runs = refl;
      logged = λ p t h. h;
    })
  ];
}

cleanup_dir-Keeps : (e : AgentEnv) (d : Option String) → Keeps (cleanup_dir e d)
unfolding cleanup_dir
cleanup_dir-Keeps e none = record { at = Safe-refl }
cleanup_dir-Keeps e (some d) = record {
  at = λ w. elim (Bool-cases (e.cleans w.calls d)) [
    | inl done ↦ rw done (record {
      same_digest = refl;
      filed = λ h. h;
      same_now = refl;
      same_runs = refl;
      logged = λ p t h. h;
    })
    | inr kept ↦ rw kept (record {
      same_digest = refl;
      filed = λ h. h;
      same_now = refl;
      same_runs = refl;
      logged = λ p t h. h;
    })
  ];
}

cleanup_manifest-Keeps : (e : AgentEnv) (m : ExecutionManifest) → Keeps (cleanup_manifest e m)
unfolding cleanup_manifest
cleanup_manifest-Keeps e m = cleanup_dir-Keeps e m.work_dir

end_restarted-Keeps :
    (e : AgentEnv) (x : JournalEntry) → IsReliable e.journal → Keeps (end_restarted e x)
unfolding end_restarted
end_restarted-Keeps e x r = search (keeps_rules, report-Keeps)

report_pending-Keeps :
    (e : AgentEnv) (x : JournalEntry) → IsReliable e.journal → Keeps (report_pending e x)
unfolding report_pending
report_pending-Keeps e x r = search (keeps_rules, report-Keeps)

acknowledge_entry-Keeps :
    (e : AgentEnv) (x : JournalEntry) (s : JournalState)
    → IsReliable e.journal
    → Keeps (acknowledge_entry e x s)
unfolding acknowledge_entry
acknowledge_entry-Keeps e x claimed r = end_restarted-Keeps e x r
acknowledge_entry-Keeps e x executing r = end_restarted-Keeps e x r
acknowledge_entry-Keeps e x completion_pending r = report_pending-Keeps e x r
acknowledge_entry-Keeps e x completion_acked r = Keeps-pure _
acknowledge_entry-Keeps e x cleanup_done r = Keeps-pure _

clean_entry-Keeps :
    (e : AgentEnv) (x : Option JournalEntry) → IsReliable e.journal → Keeps (clean_entry e x)
unfolding clean_entry
clean_entry-Keeps e none r = Keeps-pure tt
clean_entry-Keeps e (some x) r = search (keeps_rules, cleanup_manifest-Keeps)

pub finish-Keeps :
    (e : AgentEnv) (x : JournalEntry) → IsReliable e.journal → Keeps (finish_journal_entry e x)
unfolding finish_journal_entry
finish-Keeps e x r =
    Keeps-bind _ _ (acknowledge_entry-Keeps e x x.state r) (λ a. clean_entry-Keeps e a r)

-- Any two runs of the jobs of one file are further apart than the retention time.
abbrev pub Before : String → ℕ → List (String × ℕ) → Type 0
Before p t l = All (λ r. r.0 ≡ p → r.1 + journal_retention < t) l

abbrev pub Apart : List (String × ℕ) → Type 0
Apart [] = Unit
Apart ((p, t) ∷ l) = Before p t l × Apart l

pub record Inv (w : World) : Type 0 where
  pub filed : WellFiled w.digest w.disk
  pub apart : Apart w.runs
  pub logged : All (λ r. Logged r.0 r.1 w) w.runs

Logged-All :
    (w v : World) (l : List (String × ℕ))
    → Safe w v
    → All (λ r. Logged r.0 r.1 w) l
    → All (λ r. Logged r.0 r.1 v) l
Logged-All w v [] s h = tt
Logged-All w v ((p, t) ∷ l) s h = (s.logged p t h.0, Logged-All w v l s h.1)

pub Safe-Inv : {w v : World} → Safe w v → Inv w → Inv v
Safe-Inv {w} {v} s i = record {
  filed = s.filed i.filed;
  apart = rw s.same_runs i.apart;
  logged = rw s.same_runs (Logged-All w v w.runs s i.logged);
}

pub Keeps-Inv : {A : Type 0} {m : M A} {w : World} → Keeps m → Inv w → Inv (m w).1
Keeps-Inv {w = w} k i = Safe-Inv (k.at w) i

-- Time passes between the polls.
later-Logged :
    (w : World) (d : ℕ) (l : List (String × ℕ))
    → All (λ r. Logged r.0 r.1 w) l
    → All (λ r. Logged r.0 r.1 (record w { now = w.now + d })) l
later-Logged w d [] h = tt
later-Logged w d ((p, t) ∷ l) h = (
  (omega (arith, h.0.0), (elim h.0.1 [ inl over ↦ inl (omega arith) | inr there ↦ inr there ])),
  later-Logged w d l h.1,
)

pub later-Inv : (w : World) (d : ℕ) → Inv w → Inv (record w { now = w.now + d })
later-Inv w d i = record {
  filed = i.filed;
  apart = i.apart;
  logged = later-Logged w d w.runs i.logged;
}
