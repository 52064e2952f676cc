-- ===== src/Agent/Tests.antt =====
-- Polls of src/main.rs and records of src/journal.rs at concrete inputs.
use terrence_agent.Prelude.{◌≡◌, refl, true, false, none, some, [], ◌∷◌, arith}
use terrence_agent.Journal.Record.{
  ExecutionManifest, executing, JournalFile, JournalEntry, to_entry,
}
use terrence_agent.Journal.Operations.{
  World, Env, unfinished, write_entry, write, path_for_job, lift, ◌>>=◌,
}
use terrence_agent.Journal.Safe.{IsReliable}
use terrence_agent.Journal.Disk.{lookup}
use terrence_agent.Journal.Record.{Node, cleanup_done}
use terrence_agent.Journal.Operations.{
  open_journal, prune_expired, prune_items, is_pruned, is_finished, read_node, gets, bind_result,
}
use terrence_agent.Journal.Prune.{Prunes, open_journal-Prunes}
use terrence_agent.Journal.Limits.{unfinished-oversize}
use terrence_agent.Agent.Effects.{Payload, job, AgentEnv, restarted_completion}
use terrence_agent.Agent.Poll.{Session, sessions}
use terrence_agent.Agent.Once.{Apart}
use terrence_agent.Agent.AtMostOnce.{sessions-Apart}

abbrev calm : Env
calm = record {
  encoded_size = λ f. 100;
  decoded = λ f. some f;
  creates = λ n. true;
  protects = λ n. true;
  stats = λ n x. true;
  writes = λ n. true;
  lists = λ n. true;
  items = λ n p. true;
  opens = λ n p. true;
  removes = λ n p. true;
}

abbrev payload : Payload
payload = record { job_id = "job-1"; run_id = "run-1"; phase = "plan"; fingerprint = some "f" }

abbrev manifest : ExecutionManifest
manifest = record {
  job_id = "job-1";
  run_id = "run-1";
  phase = "plan";
  fingerprint = "f";
  work_dir = none;
}

abbrev claiming : AgentEnv
claiming = record {
  journal = calm;
  cancelled = λ n. false;
  claims = λ n. job payload;
  runs = λ n p. some (record { completion = restarted_completion manifest; work_dir = none });
  reports = λ n. true;
  cleans = λ n d. true;
}

abbrev started : World
started = record {
  digest = λ s. s;
  disk = [];
  now = 1000;
  calls = 0;
  runs = [];
  reports = [];
  cleanups = [];
}

calm-IsReliable : IsReliable calm
calm-IsReliable = record { stats = λ k n h. refl; decoded = λ f g h. ground arith }

abbrev first_start : Session
first_start = record { later = 0; opening = calm; polls = (claiming, 1) ∷ (claiming, 5) ∷ [] }

abbrev second_start : Session
second_start = record { later = 60; opening = calm; polls = (claiming, 3000000) ∷ [] }

sessions-Apart_example : Apart (sessions false (first_start ∷ second_start ∷ []) started).runs
sessions-Apart_example =
    sessions-Apart false (first_start ∷ second_start ∷ []) started
      ((calm-IsReliable, (calm-IsReliable, tt)), ((calm-IsReliable, tt), tt)) tt refl

abbrev running : JournalFile
running = record {
  manifest = manifest;
  state = executing;
  retain_work_dir = false;
  completion = none;
}

abbrev running_entry : JournalEntry
running_entry = record {
  manifest = manifest;
  state = executing;
  retain_work_dir = false;
  completion = none;
}

abbrev huge : Env
huge = record calm { encoded_size = λ f. 20000000 }

written : (write_entry huge running started).0 ≡ some running_entry
unfolding write_entry write path_for_job lift to_entry ◌>>=◌
written = refl

unfinished-oversize_example : (unfinished calm (write_entry huge running started).1).0 ≡ none
unfinished-oversize_example =
    unfinished-oversize huge calm running started running_entry written (omega arith)

abbrev old_node : Node
old_node = record {
  is_symlink = false;
  size = 100;
  modified = 10;
  file = some (record running { state = cleanup_done });
}

abbrev aged : World
aged = record started { disk = ("job-1", old_node) ∷ []; now = 3000000 }

-- The old record is removed.
opens_journal : lookup "job-1" (open_journal calm aged).1.disk ≡ none
unfolding open_journal prune_expired prune_items is_pruned is_finished read_node to_entry lookup
    gets bind_result ◌>>=◌
opens_journal = refl

open_journal-Prunes_example : Prunes "job-1" aged (open_journal calm aged).1
open_journal-Prunes_example = open_journal-Prunes calm aged "job-1"
