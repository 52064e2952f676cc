-- ===== src/Agent/AtMostOnce.antt =====
-- Sequences of starts and of `poll_once` of src/main.rs, and the times of the executions in them.

use terrence_agent.Prelude.{
  All, Option, none, ℕ, ◌+◌, ◌≡◌, Bool, true, false, some, List, [], ◌∷◌, arith, if◌then◌else◌,
}
use terrence_agent.Journal.Disk.{lookup}
use terrence_agent.Journal.Record.{ExecutionManifest, JournalEntry}
use terrence_agent.Journal.Operations.{
  World, M, gets, ◌>>=◌, bind_result, pure, lift, open_journal, start, exists_at, start_at,
  path_for_job, unfinished,
}
use terrence_agent.Journal.Safe.{Keeps-pure, Keeps-fail, Keeps-bind, WellFiled, IsReliable}
use terrence_agent.Journal.Keeps.{unfinished-Keeps}
use terrence_agent.Journal.Prune.{open_journal-Keeps}
use terrence_agent.Agent.Effects.{
  Payload, Claim, job, empty, retry_after, failed, AgentEnv, from_payload,
}
use terrence_agent.Agent.Poll.{
  idle, shutdown, wait, continue_claimed, handle_claim, claim_job, after_scan, poll_once, polls,
  after_open, Session, sessions,
}
use terrence_agent.Agent.Once.{finish-Keeps, Apart, Inv, Safe-Inv, Keeps-Inv, later-Inv}
use terrence_agent.Agent.Runs.{
  exists_at-Found, start_at-Safe, start_at-Started, continue_claimed-Inv, bind-Inv, Before-Logged,
}

from_payload-job :
    (q : Payload) (m : ExecutionManifest) → from_payload q ≡ some m → m.job_id ≡ q.job_id
unfolding from_payload
from_payload-job q m h = ground arith

started-Inv :
    (e : AgentEnv) (single : Bool) (q : Payload) (m : ExecutionManifest) (w : World)
    → m.job_id ≡ q.job_id
    → IsReliable e.journal
    → Inv w
    → Inv ((start e.journal m >>= continue_claimed e single q) w).1
unfolding ◌>>=◌ start path_for_job
started-Inv e single q m w same good i =
    let p = w.digest m.job_id in
    let v : World = record w { calls = w.calls + 1 } in
    let b = e.journal.opens w.calls p in
    let o = exists_at (e.journal.stats w.calls) (lookup p w.disk) in
    let found = exists_at-Found e.journal w.calls (lookup p w.disk) good in
    let r = start_at e.journal m o b v in
    let safe = start_at-Safe e.journal m o b v good found in
    let opened : Inv v = record { filed = i.filed; apart = i.apart; logged = i.logged } in
    bind-Inv r.0 r.1 (continue_claimed e single q) (Safe-Inv safe opened) (λ x ok.
      let at = start_at-Started e.journal m o b v x i.filed found ok in
      continue_claimed-Inv e single q x r.1 good (Safe-Inv safe opened) (λ new. (
        rw (safe.same_digest, ← same) at.filed,
        rw (safe.same_digest, safe.same_now, safe.same_runs, ← same)
            (Before-Logged p v w.runs (at.fresh new) opened.logged),
      )))

handle_claim-Inv :
    (e : AgentEnv) (single : Bool) (c : Claim) (w : World)
    → IsReliable e.journal
    → Inv w
    → Inv (handle_claim e single c w).1
unfolding handle_claim ◌>>=◌ lift
handle_claim-Inv e single empty w good i = Keeps-Inv (Keeps-pure idle) i
handle_claim-Inv e single (retry_after d) w good i = Keeps-Inv (Keeps-pure (wait d)) i
handle_claim-Inv e single failed w good i = Keeps-Inv Keeps-fail i
handle_claim-Inv e single (job q) w good i =
    bind-Inv (from_payload q) w _ i
      (λ m ok. started-Inv e single q m w (from_payload-job q m ok) good i)

if-Inv :
    {A : Type 0} (b : Bool) (m n : M A) (w : World)
    → Inv (m w).1
    → Inv (n w).1
    → Inv ((if b then m else n) w).1
if-Inv true m n w i j = i
if-Inv false m n w i j = j

claim_job-Inv :
    (e : AgentEnv) (single : Bool) (w : World)
    → IsReliable e.journal
    → Inv w
    → Inv (claim_job e single w).1
unfolding claim_job ◌>>=◌ gets bind_result
claim_job-Inv e single w good i =
    let v : World = record w { calls = w.calls + 1 + 1 } in
    let j : Inv v = record { filed = i.filed; apart = i.apart; logged = i.logged } in
    if-Inv (e.cancelled w.calls) (pure shutdown) (handle_claim e single (e.claims (w.calls + 1))) v
      (Keeps-Inv (Keeps-pure shutdown) j)
      (handle_claim-Inv e single (e.claims (w.calls + 1)) v good j)

after_scan-Inv :
    (e : AgentEnv) (single : Bool) (l : List JournalEntry) (w : World)
    → IsReliable e.journal
    → Inv w
    → Inv (after_scan e single l w).1
unfolding after_scan
after_scan-Inv e single [] w good i = claim_job-Inv e single w good i
after_scan-Inv e single (x ∷ l) w good i =
    Keeps-Inv (Keeps-bind _ _ (finish-Keeps e x good) (λ u. Keeps-pure idle)) i

scanned-Inv :
    (e : AgentEnv) (single : Bool) (w : World)
    → IsReliable e.journal
    → Inv w
    → Inv ((unfinished e.journal >>= after_scan e single) w).1
unfolding ◌>>=◌
scanned-Inv e single w good i =
    let r = unfinished e.journal w in
    let j = Keeps-Inv {w = w} (unfinished-Keeps e.journal) i in
    bind-Inv r.0 r.1 (after_scan e single) j (λ l ok. after_scan-Inv e single l r.1 good j)

poll_once-Inv :
    (e : AgentEnv) (single : Bool) (w : World)
    → IsReliable e.journal
    → Inv w
    → Inv (poll_once e single w).1
unfolding poll_once ◌>>=◌ gets bind_result
poll_once-Inv e single w good i =
    let v : World = record w { calls = w.calls + 1 } in
    let j : Inv v = record { filed = i.filed; apart = i.apart; logged = i.logged } in
    if-Inv (e.cancelled w.calls) (pure shutdown) _ v (Keeps-Inv (Keeps-pure shutdown) j)
      (scanned-Inv e single v good j)

polls-Inv :
    (single : Bool) (es : List (AgentEnv × ℕ)) (w : World)
    → All (λ r. IsReliable r.0.journal) es
    → Inv w
    → Inv (polls single es w)
unfolding polls
polls-Inv single [] w good i = i
polls-Inv single ((e, d) ∷ es) w good i =
    let v : World = record w { now = w.now + d } in
    polls-Inv single es (poll_once e single v).1 good.1
      (poll_once-Inv e single v good.0 (later-Inv w d i))

opened-Inv :
    (single : Bool) (es : List (AgentEnv × ℕ)) (o : Option (Unit {0})) (w : World)
    → All (λ r. IsReliable r.0.journal) es
    → Inv w
    → Inv (after_open single es o w)
unfolding after_open
opened-Inv single es none w good i = i
opened-Inv single es (some u) w good i = polls-Inv single es w good i

sessions-Inv :
    (single : Bool) (ss : List Session) (w : World)
    → All (λ s. All (λ r. IsReliable r.0.journal) s.polls) ss
    → Inv w
    → Inv (sessions single ss w)
unfolding sessions
sessions-Inv single [] w good i = i
sessions-Inv single (s ∷ ss) w good i =
    let v : World = record w { now = w.now + s.later } in
    let r = open_journal s.opening v in
    let opened = Keeps-Inv {w = v} (open_journal-Keeps s.opening) (later-Inv w s.later i) in
    sessions-Inv single ss (after_open single s.polls r.0 r.1) good.1
      (opened-Inv single s.polls r.0 r.1 good.0 opened)

-- In any sequence of starts of the agent, each followed by any polls, at times that do not
-- decrease, with any other failures and whatever the server claims: two executions of jobs with one
-- journal file are more than the retention time apart, if the first start finds a journal whose
-- records lie in their jobs' files and with nothing executed, the existence tests of the polls find
-- every file that is no link, and a record that the polls write decodes, if it does, to one of the
-- same job in the same state.
pub sessions-Apart :
    (single : Bool) (ss : List Session) (w : World)
    → All (λ s. All (λ r. IsReliable r.0.journal) s.polls) ss
    → WellFiled w.digest w.disk
    → w.runs ≡ []
    → Apart (sessions single ss w).runs
sessions-Apart single ss w good filed none' =
    (sessions-Inv single ss w good
      (record { filed = filed; apart = rw none' tt; logged = rw none' tt })).apart
