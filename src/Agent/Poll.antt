-- ===== src/Agent/Poll.antt =====
-- `finish_journal_entry` and `poll_once` of src/main.rs.
use terrence_agent.Prelude.{ℕ, ◌+◌, Bool, false, Option, none, some, List, [], ◌∷◌, if◌then◌else◌}
use terrence_agent.Journal.Record.{
  is_claimed, JournalState, claimed, executing, completion_pending, completion_acked, cleanup_done,
  JournalEntry,
}
use terrence_agent.Journal.Operations.{
  World, Env, open_journal, M, ◌>>=◌, ◌>>◌, pure, fail, lift, gets, start, mark_executing,
  record_completion, mark_completion_acked, mark_cleanup_done, unfinished,
}
use terrence_agent.Agent.Effects.{
  Payload, Claim, job, empty, retry_after, failed, AgentEnv, from_payload,
  report_completion_details, run_job, cleanup_manifest, restarted_completion,
}

-- A record that was left below `completion_pending` is ended, not executed.
unfoldable pub end_restarted : AgentEnv → JournalEntry → M (Option JournalEntry)
end_restarted e entry = do
  let completion = restarted_completion entry.manifest
  pending ← record_completion e.journal entry completion entry.manifest.work_dir false
  report_completion_details e entry.manifest.run_id completion
  acked ← mark_completion_acked e.journal pending
  pure (some acked)

unfoldable pub report_pending : AgentEnv → JournalEntry → M (Option JournalEntry)
report_pending e entry = do
  completion ← lift entry.completion
  report_completion_details e entry.manifest.run_id completion
  acked ← mark_completion_acked e.journal entry
  pure (some acked)

-- The match of `finish_journal_entry` on the state; `none` is its early return.
unfoldable pub acknowledge_entry : AgentEnv → JournalEntry → JournalState → M (Option JournalEntry)
acknowledge_entry e entry completion_pending = report_pending e entry
acknowledge_entry e entry completion_acked = pure (some entry)
acknowledge_entry e entry cleanup_done = pure none
acknowledge_entry e entry claimed = end_restarted e entry
acknowledge_entry e entry executing = end_restarted e entry

unfoldable pub clean_entry : AgentEnv → Option JournalEntry → M (Unit {0})
clean_entry e none = pure tt
clean_entry e (some entry) =
    if entry.retain_work_dir
    then (do mark_cleanup_done e.journal entry; pure tt)
    else (do cleanup_manifest e entry.manifest; mark_cleanup_done e.journal entry; pure tt)

unfoldable pub finish_journal_entry : AgentEnv → JournalEntry → M (Unit {0})
finish_journal_entry e entry = do acked ← acknowledge_entry e entry entry.state; clean_entry e acked

pub data PollResult : Type 0 where
  idle : PollResult
  ran : Bool → PollResult
  wait : ℕ → PollResult
  shutdown : PollResult

-- The part of `poll_once` that executes; the `busy` report before it is allowed to fail.
unfoldable pub execute_claimed : AgentEnv → Bool → Payload → JournalEntry → M PollResult
execute_claimed e single payload entry = do
  started ← mark_executing e.journal entry
  outcome ← run_job e payload
  pending ←
      record_completion e.journal started outcome.completion outcome.work_dir
        outcome.completion.details.state_recovery_required
  finish_journal_entry e pending
  pure (ran single)

unfoldable pub continue_claimed : AgentEnv → Bool → Payload → JournalEntry → M PollResult
continue_claimed e single payload entry =
    if is_claimed entry.state
    then execute_claimed e single payload entry
    else (do finish_journal_entry e entry; pure idle)

unfoldable pub handle_claim : AgentEnv → Bool → Claim → M PollResult
handle_claim e single (job payload) = do
  manifest ← lift (from_payload payload)
  entry ← start e.journal manifest
  continue_claimed e single payload entry
handle_claim e single empty = pure idle
handle_claim e single (retry_after delay) = pure (wait delay)
handle_claim e single failed = fail

unfoldable pub claim_job : AgentEnv → Bool → M PollResult
claim_job e single = do
  stop ← gets (λ w. e.cancelled w.calls)
  claim ← gets (λ w. e.claims w.calls)
  if stop then pure shutdown else handle_claim e single claim

unfoldable pub after_scan : AgentEnv → Bool → List JournalEntry → M PollResult
after_scan e single (entry ∷ l) = do finish_journal_entry e entry; pure idle
after_scan e single [] = claim_job e single

unfoldable pub poll_once : AgentEnv → Bool → M PollResult
poll_once e single = do
  stop ← gets (λ w. e.cancelled w.calls)
  if stop then pure shutdown else (do entries ← unfinished e.journal; after_scan e single entries)

-- Polls in a row, each in an environment of its own and some seconds after the one before; an error
-- only ends its own poll.
unfoldable pub polls : Bool → List (AgentEnv × ℕ) → World → World
polls single [] w = w
polls single ((e, later) ∷ rest) w =
    polls single rest (poll_once e single (record w { now = w.now + later })).1

-- The life of a process, from its start some seconds after the last poll of the one before: the
-- journal is opened, and if that fails the process ends.
pub record Session : Type 0 where
  pub later : ℕ
  pub opening : Env
  pub polls : List (AgentEnv × ℕ)

unfoldable pub after_open : Bool → List (AgentEnv × ℕ) → Option (Unit {0}) → World → World
after_open single rest none w = w
after_open single rest (some u) w = polls single rest w

unfoldable pub sessions : Bool → List Session → World → World
sessions single [] w = w
sessions single (s ∷ rest) w =
    let opened = open_journal s.opening (record w { now = w.now + s.later }) in
    sessions single rest (after_open single s.polls opened.0 opened.1)
