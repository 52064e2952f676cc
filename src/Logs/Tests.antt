-- ===== src/Logs/Tests.antt =====
-- Runs of the log pipeline of src/logs.rs at concrete inputs.

use mathlib.Core.List.Perm
use terrence_agent.Prelude.{
  ◌<◌, ◌≡◌, refl, true, false, none, some, List, [], ◌∷◌, ◌++◌, arith, length, u64_max,
}
use terrence_agent.Logs.Spool.{
  chunk, terminator, final, temporary, Dir, Spool, stored, removed, content, pending, store,
  max_spool_bytes, has, allocate_sequence, remove, is_empty,
}
use terrence_agent.Prelude.{◌≤◌}
use terrence_agent.Logs.Spool.{rename}
use terrence_agent.Logs.Names.{file_name, parse_name, parse_name-file_name}
use terrence_agent.Logs.Recovery.{
  open_spool, scan_opened, recover_temporary_files, recover_file, scan,
}
use terrence_agent.Logs.Listing.{pending-perm}
use terrence_agent.Logs.Opening.{open_spool-fresh, store-le-max}
use terrence_agent.Logs.Upload.{
  Env, Uploader, accepted, drain, flush_chunk, flush_buffer, store_chunk, send_stored, retry_log,
  attempts, confirms, remove_acknowledged, replay_pending, replay_chunks, read_pending,
}
use terrence_agent.Logs.Finish.{
  Event, received, ticked, upload_logs, input, on_event, on_closed, finish_log, finish_pending,
  any_chunk, find_terminator, new_terminator, store_terminator, send_terminator, remove_spool_dir,
}
use terrence_agent.Logs.Delivery.{Delivering}
use terrence_agent.Logs.Complete.{Delivered, upload_logs-Delivered, drain_ends}

-- All calls succeed, and a server that does not acknowledge sequences.
abbrev healthy : Env
healthy = record {
  lists = λ n. true;
  store_fault = λ n. stored;
  remove_fault = λ n. removed;
  reads = λ n. true;
  reply = λ n. accepted;
  removes_dir = λ n. true;
}

abbrev fresh : Uploader
fresh = record {
  spool_open = true;
  spool = record { dir = []; bytes = 0; next_sequence = 1 };
  dir_exists = true;
  buffer = [];
  last_acked = none;
  incomplete = false;
  calls = 0;
  wire = [];
}

abbrev script : List Event
script = received (7 ∷ 8 ∷ []) ∷ ticked ∷ received (9 ∷ []) ∷ []

run_complete : (upload_logs healthy script fresh).incomplete ≡ false
unfolding upload_logs on_event on_closed drain flush_buffer flush_chunk store_chunk send_stored
    retry_log attempts confirms remove_acknowledged replay_pending replay_chunks read_pending
    finish_log finish_pending any_chunk find_terminator new_terminator store_terminator
    send_terminator remove_spool_dir pending store allocate_sequence remove is_empty
run_complete = refl

run_sequence : (upload_logs healthy script fresh).spool.next_sequence ≡ 3
unfolding upload_logs on_event on_closed drain flush_buffer flush_chunk store_chunk send_stored
    retry_log attempts confirms remove_acknowledged replay_pending replay_chunks read_pending
    finish_log finish_pending any_chunk find_terminator new_terminator store_terminator
    send_terminator remove_spool_dir pending store allocate_sequence remove is_empty
run_sequence = refl

fresh-Delivering : Delivering [] [] fresh
fresh-Delivering = record { opened = refl; rising = tt; files = omega arith; bytes = refl }

run_below : (upload_logs healthy script fresh).spool.next_sequence < u64_max
run_below = omega (arith, run_sequence)

upload_logs-Delivered_example : Delivered ([] ++ input script) (upload_logs healthy script fresh)
upload_logs-Delivered_example =
    upload_logs-Delivered healthy script fresh [] fresh-Delivering run_complete run_below

parse_name-file_name_example : parse_name (file_name 42 terminator) ≡ some (42, terminator)
parse_name-file_name_example = parse_name-file_name 42 terminator (omega arith)

abbrev two_chunks : Dir
two_chunks = (final 2 chunk, 5 ∷ []) ∷ (final 1 chunk, 6 ∷ []) ∷ []

abbrev two_listed : Dir
two_listed = (final 1 chunk, 6 ∷ []) ∷ (final 2 chunk, 5 ∷ []) ∷ []

pending-perm_example : pending two_chunks ≡ pending two_listed
pending-perm_example = pending-perm two_chunks two_listed (Perm.swap _ _ _)

abbrev left_over : Dir
left_over = (temporary 4 chunk, 1 ∷ []) ∷ (final 2 chunk, 5 ∷ []) ∷ []

abbrev reopened : Spool
reopened = record {
  dir = (final 2 chunk, 5 ∷ []) ∷ (final 4 chunk, 1 ∷ []) ∷ [];
  bytes = 2;
  next_sequence = 5;
}

open_left_over : open_spool (λ n. true) left_over ≡ some reopened
unfolding open_spool scan_opened recover_temporary_files recover_file rename has scan
open_left_over = refl

open_spool-fresh_example : content reopened.dir (final 5 chunk) ≡ none
open_spool-fresh_example =
    open_spool-fresh (λ n. true) left_over reopened chunk open_left_over (omega arith)

drain_ends_example :
    length (drain healthy 2 5 (record fresh { buffer = 1 ∷ 2 ∷ 3 ∷ 4 ∷ 5 ∷ [] })).buffer < 2
drain_ends_example =
    drain_ends healthy 2 5 (record fresh { buffer = 1 ∷ 2 ∷ 3 ∷ 4 ∷ 5 ∷ [] }) (omega arith)
      (omega arith)

store-le-max_example : (store stored reopened 5 chunk (1 ∷ [])).0.bytes ≤ max_spool_bytes
store-le-max_example = store-le-max stored reopened 5 chunk (1 ∷ []) (omega arith)
