-- ===== src/Lib.antt =====
-- terrence-agent: a model of the agent that runs jobs for a Terrence server, and what holds of it.
--
-- The agent polls the server for a job (src/main.rs), keeps a record of each job on disk so that a
-- restart neither repeats nor forgets one (src/journal.rs), runs it (src/runner.rs), sends its
-- output through a spool on disk (src/logs.rs), and fetches and unpacks artifacts (src/client.rs and
-- src/archive.rs). The model follows these parts:
--
--   Protocol    src/protocol.rs: the completion messages that are stored and sent, the payload of a
--               job with its checks, and the counts of a plan's JSON.
--   Logs        src/logs.rs. Spool is the directory of a run's log files with the operations of
--               `Spool` (store, remove, pending, allocate_sequence), Names their names, Recovery
--               `Spool::open`; Upload and Finish are the task `upload_logs`, a fold over what its
--               channel yields. Wire, Later, Flush, Closing and Delivery carry its invariants.
--   Journal     src/journal.rs. Record is what a file holds, Operations each method of `Journal`, with
--               what each of its calls of the operating system answers; Safe, Prune and Keeps follow
--               the records of jobs that ran, Entries and Limits what is read and written.
--   Agent       src/main.rs. Effects is what a poll calls outside the journal, Poll is `poll_once`
--               and `finish_journal_entry`, and a session of the process: `Journal::open`, then polls;
--               Runs, Once and AtMostOnce follow the executions.
--   Net         src/client.rs and src/config.rs. Address is the two address checks, Artifact the
--               URL policy of downloads, Policy and Safety what they decide, Download the retry
--               loop `get_artifact_retry`, Honest and Recovers what it returns; File is
--               `get_artifact_file`, Refines, FileBounds and Misplaced compare the two.
--   Runner      src/runner.rs and the manifest of src/provenance.rs. Control has the actions of a run
--               and their errors, Command the three ways to run a command, Provenance the manifest
--               with `verify_plan_manifest`, Plan and Apply the two phases of `execute_phase`, Inputs
--               and Directory what a job names and where it runs, Environment
--               `execution_environment`, Run `Runner::run`. Rules, Steps, Starts, ApplyStarts and
--               Verified follow the apply commands, Delivered and Delivery the state, Reports what a
--               completion says of errors, Matches and Accepts the manifest's checks, Paths and Limits
--               directories, time limits and identifiers, Given and Parsed the environment.
--   Toolchain   src/toolchain.rs: Versions compares versions and checksums, Resolve is
--               `ToolchainResolver::resolve` with the checks of a cache entry, Checked what it answers.
--   Archive     src/archive.rs: Tree is a file tree, Extract the extraction of an archive's entries
--               (`extract_tar_gz_reader` and `ExtractionState`); Below, Names, Parents and Contained
--               follow where it writes, Content and Limits what.
--   Prelude     Shared names and lemmas.
--
-- Whether a call of the operating system, the server or the runner succeeds, and what it answers,
-- is an environment: a function of the number of calls made so far, or a record of what each call
-- does, so that a theorem holds for every sequence of failures but those that it excludes. A
-- process that dies is one whose calls all fail from then on, until the next session. The clock
-- does not go back. Bytes are numbers, sequences are 64-bit numbers with the source's saturation.
-- The loop that cuts full chunks off the buffer runs on fuel of the buffer's length, which is
-- enough since each round takes a whole chunk off; the loops of attempts count down from three as
-- in the source.
--
-- Not modelled: the SHA-256 names and the JSON form of journal records (parameters); URL parsing and
-- name resolution (arguments); delays, metrics and log lines, which change no result; what the commands
-- of a run, its files and its digests do and are (the environments of Runner); the heartbeat; the
-- URLs and the lock of the toolchain; the provider cache, sandboxing, diagnostics and the metrics
-- endpoint, which are mostly calls of other programs and of the operating system.
pub mod Prelude
pub mod Protocol
pub mod Logs
pub mod Journal
pub mod Agent
pub mod Net
pub mod Archive
pub mod Runner
pub mod Toolchain
