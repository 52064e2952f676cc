-- ===== src/Journal/Keeps.antt =====
-- What the writes of the journal of src/journal.rs leave true of the jobs that were executed.
use mathlib.Core.Path.{subst}
use terrence_agent.Prelude.{
  ℕ, ◌≤◌, String, ◌≡◌, refl, sym, ap, ◌⊎◌, inl, inr, Bool, false, Option, none, some, [], ◌∷◌,
  str_eq, eq_iff, Bool-cases,
}
use terrence_agent.Protocol.Completion.{CompletionJob}
use terrence_agent.Journal.Disk.{Files, lookup, insert, lookup-insert}
use terrence_agent.Journal.Record.{
  is_claimed, JournalState, executing, completion_pending, completion_acked, cleanup_done,
  JournalFile, StoredCompletion, JournalEntry, Node, to_entry,
}
use terrence_agent.Journal.Operations.{
  World, Env, ◌>>=◌, lift, write, write_entry, update, path_for_job, node_of, unfinished,
  mark_executing, record_completion, mark_completion_acked, mark_cleanup_done,
}
use terrence_agent.Journal.Safe.{
  IsPast, RanRecord, IsReliable, Vacant, Vacant-RanRecord, Logged, FiledFile, WellFiled, Safe,
  Keeps, Safe-refl, Safe-trans, Keeps-pure, Keeps-fail, Keeps-lift, Keeps-gets, bind_result-Safe,
  Keeps-bind, Keeps-if,
}
use terrence_agent.Journal.Prune.{prune_expired-Keeps}

WellFiled-insert :
    (digest : String → String) (p : String) (n : Node) (d : Files Node)
    → FiledFile digest p n.file
    → WellFiled digest d
    → WellFiled digest (insert p n d)
unfolding insert
WellFiled-insert digest p n [] h k = (h, tt)
WellFiled-insert digest p n ((q, m) ∷ d) h k = elim (Bool-cases (str_eq q p)) [
  | inl same ↦ rw same (h, k.1)
  | inr other ↦ rw other (k.0, WellFiled-insert digest p n d h k.1)
]

decoded-FiledFile :
    (e : Env) (digest : String → String) (f : JournalFile) (o : Option JournalFile)
    → IsReliable e
    → e.decoded f ≡ o
    → FiledFile digest (digest f.manifest.job_id) o
decoded-FiledFile e digest f none r h = tt
decoded-FiledFile e digest f (some g) r h = ap digest (r.decoded f g h).0

pub decoded-IsPast :
    (e : Env) (f : JournalFile) (o : Option JournalFile)
    → IsReliable e
    → e.decoded f ≡ o
    → is_claimed f.state ≡ false
    → IsPast o
decoded-IsPast e f none r h past = tt
decoded-IsPast e f (some g) r h past = rw ((r.decoded f g h).1) past

-- A record may be written past `claimed`, or where there was none.
abbrev pub MayWrite : World → JournalFile → Type 0
MayWrite w f = (is_claimed f.state ≡ false) ⊎ Vacant (lookup (w.digest f.manifest.job_id) w.disk)

node_of-RanRecord :
    (e : Env) (f : JournalFile) (w : World) (t : ℕ)
    → IsReliable e
    → MayWrite w f
    → t ≤ w.now
    → RanRecord t (lookup (w.digest f.manifest.job_id) w.disk)
    → RanRecord t (some (node_of e w f))
node_of-RanRecord e f w t r (inl past) before there =
    (refl, before, decoded-IsPast e f (e.decoded f) r refl past)
node_of-RanRecord e f w t r (inr vacant) before there = absurd (Vacant-RanRecord t _ vacant there)

inserted-RanRecord :
    (e : Env) (f : JournalFile) (w : World) (q : String) (t : ℕ)
    → IsReliable e
    → MayWrite w f
    → t ≤ w.now
    → RanRecord t (lookup q w.disk)
    → RanRecord t (lookup q (insert (w.digest f.manifest.job_id) (node_of e w f) w.disk))
inserted-RanRecord e f w q t r ok before there =
    let p = w.digest f.manifest.job_id in
    elim (Bool-cases (str_eq p q)) [
      | inr other ↦ rw (lookup-insert, other) there
      | inl same ↦
          rw (lookup-insert, same)
            (node_of-RanRecord e f w t r ok before (
              subst (λ (s : String). RanRecord t (lookup s w.disk)) (sym ((eq_iff p q).0 same))
                there))
    ]

pub write-Safe :
    (e : Env) (f : JournalFile) (w : World)
    → IsReliable e
    → MayWrite w f
    → Safe w (write e (w.digest f.manifest.job_id) f w).1
unfolding write
write-Safe e f w r ok = elim (Bool-cases (e.writes w.calls)) [
  | inr fails ↦ rw fails (record {
    same_digest = refl;
    filed = λ h. h;
    same_now = refl;
    same_runs = refl;
    logged = λ q t h. h;
  })
  | inl writes ↦ rw writes (record {
    same_digest = refl;
    filed =
        WellFiled-insert w.digest (w.digest f.manifest.job_id) _ w.disk
          (decoded-FiledFile e w.digest f (e.decoded f) r refl);
    same_now = refl;
    same_runs = refl;
    logged = λ q t h. (
      h.0,
      elim h.1 [
        | inl over ↦ inl over
        | inr there ↦ inr (inserted-RanRecord e f w q t r ok h.0 there)
      ],
    );
  })
]

pub write_entry-Safe :
    (e : Env) (f : JournalFile) (w : World)
    → IsReliable e
    → MayWrite w f
    → Safe w (write_entry e f w).1
unfolding write_entry path_for_job ◌>>=◌
write_entry-Safe e f w r ok =
    let written = write e (w.digest f.manifest.job_id) f w in
    Safe-trans (write-Safe e f w r ok)
      (bind_result-Safe written.0 written.1 (λ a. lift (to_entry f)) (λ a. Keeps-lift (to_entry f)))

pub unfinished-Keeps : (e : Env) → Keeps (unfinished e)
unfolding unfinished
unfinished-Keeps e = record {
  at = λ w. record {
    same_digest = refl;
    filed = λ h. h;
    same_now = refl;
    same_runs = refl;
    logged = λ p t h. h;
  };
}

update-Keeps :
    (e : Env) (x : JournalEntry) (s : JournalState) (c : Option StoredCompletion)
    → IsReliable e
    → is_claimed s ≡ false
    → Keeps (update e x s c)
unfolding update
update-Keeps e x s c r past = record { at = λ w. write_entry-Safe e _ w r (inl past) }

pub mark_executing-Keeps : (e : Env) (x : JournalEntry) → IsReliable e → Keeps (mark_executing e x)
unfolding mark_executing
mark_executing-Keeps e x r = update-Keeps e x executing none r refl

pub record_completion-Keeps :
    (e : Env) (x : JournalEntry) (c : CompletionJob) (d : Option String) (b : Bool)
    → IsReliable e
    → Keeps (record_completion e x c d b)
unfolding record_completion
record_completion-Keeps e x c d b r = update-Keeps e _ completion_pending _ r refl

pub mark_completion_acked-Keeps :
    (e : Env) (x : JournalEntry) → IsReliable e → Keeps (mark_completion_acked e x)
unfolding mark_completion_acked
mark_completion_acked-Keeps e x r = update-Keeps e x completion_acked none r refl

pub mark_cleanup_done-Keeps :
    (e : Env) (x : JournalEntry) → IsReliable e → Keeps (mark_cleanup_done e x)
unfolding mark_cleanup_done
mark_cleanup_done-Keeps e x r =
    Keeps-bind _ _ (update-Keeps e x cleanup_done none r refl)
      (λ a. Keeps-bind _ _ (prune_expired-Keeps e) (λ b. Keeps-pure a))

pub ruleset keeps_rules = (
  Keeps-pure, Keeps-fail, Keeps-lift, Keeps-gets, Keeps-bind, Keeps-if, unfinished-Keeps,
  mark_executing-Keeps, record_completion-Keeps, mark_completion_acked-Keeps,
  mark_cleanup_done-Keeps,
)
