-- ===== src/Journal/Record.antt =====
-- The records of src/journal.rs and the execution manifest of src/manifest.rs.
use terrence_agent.Prelude.{
  ℕ, String, Bool, true, false, ◌||◌, Option, none, some, if◌then◌else◌, str_eq, ◌*◌,
}
use terrence_agent.Protocol.Completion.{CompletionData, CompletionJob}

pub record ExecutionManifest : Type 0 where
  pub job_id : String
  pub run_id : String
  pub phase : String
  pub fingerprint : String
  pub work_dir : Option String

unfoldable pub with_work_dir : ExecutionManifest → Option String → ExecutionManifest
with_work_dir m w = record m { work_dir = w }

pub data JournalState : Type 0 where
  claimed executing completion_pending completion_acked cleanup_done : JournalState

-- `state == JournalState::Claimed`
abbrev pub is_claimed : JournalState → Bool
is_claimed claimed = true
is_claimed executing = false
is_claimed completion_pending = false
is_claimed completion_acked = false
is_claimed cleanup_done = false

pub record StoredCompletion : Type 0 where
  pub status : String
  pub error : Option String
  pub details : CompletionData

pub record JournalFile : Type 0 where
  pub manifest : ExecutionManifest
  pub state : JournalState
  pub retain_work_dir : Bool
  pub completion : Option StoredCompletion

pub record JournalEntry : Type 0 where
  pub manifest : ExecutionManifest
  pub state : JournalState
  pub retain_work_dir : Bool
  pub completion : Option CompletionJob

unfoldable pub from_completion : CompletionJob → StoredCompletion
from_completion c = record { status = c.status; error = c.error; details = c.details }

-- A status that the agent never writes is refused.
unfoldable pub into_completion : StoredCompletion → Option CompletionJob
into_completion s =
    if str_eq s.status "finished" || (str_eq s.status "errored" || str_eq s.status "canceled")
    then some (record { status = s.status; error = s.error; details = s.details })
    else none

abbrev with_completion : JournalFile → Option CompletionJob → JournalEntry
with_completion f c = record {
  manifest = f.manifest;
  state = f.state;
  retain_work_dir = f.retain_work_dir;
  completion = c;
}

-- `to_entry`, over the stored completion by cases.
abbrev entry_of : JournalFile → Option StoredCompletion → Option JournalEntry
entry_of f none = some (with_completion f none)
entry_of f (some s) = elim (into_completion s) [
  | none ↦ none
  | some c ↦ some (with_completion f (some c))
]

unfoldable pub to_entry : JournalFile → Option JournalEntry
to_entry f = entry_of f f.completion

-- What lies under a name: a symbolic link or a file with its size, its time of change in seconds,
-- and the record that it decodes to, if it does.
pub record Node : Type 0 where
  pub is_symlink : Bool
  pub size : ℕ
  pub modified : ℕ
  pub file : Option JournalFile

abbrev pub max_journal_record_bytes : ℕ
max_journal_record_bytes = 16 * 1024 * 1024

abbrev pub journal_retention : ℕ
journal_retention = 30 * 24 * 60 * 60
