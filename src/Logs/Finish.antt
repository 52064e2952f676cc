-- ===== src/Logs/Finish.antt =====
-- The end of the uploader of src/logs.rs: `finish_log`, and the event loop of `upload_logs`.
use terrence_agent.Prelude.{
  ℕ, ◌+◌, Bool, true, false, not, ◌||◌, ◌&&◌, Option, none, some, List, [], ◌∷◌, ◌++◌, length,
  if◌then◌else◌,
}
use terrence_agent.Logs.Spool.{
  chunk, terminator, PendingChunk, Dir, pending, store, allocate_sequence, is_empty, same_kind,
}
use terrence_agent.Logs.Upload.{
  Env, Uploader, put, mark_incomplete, retry_log, remove_acknowledged, read_pending, replay_pending,
  flush_buffer, drain, log_chunk_bytes,
}

unfoldable pub any_chunk : List PendingChunk → Bool
any_chunk [] = false
any_chunk (p ∷ l) = same_kind p.kind chunk || any_chunk l

unfoldable pub find_terminator : List PendingChunk → Option PendingChunk
find_terminator [] = none
find_terminator (p ∷ l) = if same_kind p.kind terminator then some p else find_terminator l

abbrev is_empty_dir : Dir → Bool
is_empty_dir [] = true
is_empty_dir (f ∷ d) = false

-- `fs::remove_dir` fails where files are left.
unfoldable pub remove_spool_dir : Env → Uploader → Uploader
remove_spool_dir e u =
    if not (is_empty u.spool)
    then u
    else if e.removes_dir u.calls && is_empty_dir u.spool.dir
    then record u { dir_exists = false; calls = u.calls + 1 }
    else record u { incomplete = true; calls = u.calls + 1 }

-- The final request, and what follows its acknowledgement.
unfoldable pub send_terminator : Env → ℕ → List ℕ → Uploader → Uploader
send_terminator e q b u =
    let (u', ok) = retry_log e put q b u in
    elim ok [
      | true ↦
          remove_spool_dir e (remove_acknowledged e (record { sequence = q; kind = terminator }) u')
      | false ↦ mark_incomplete u'
    ]

unfoldable pub store_terminator : Env → ℕ → List ℕ → Uploader → Uploader
store_terminator e q b u =
    let (s, ok) = store (e.store_fault u.calls) u.spool q terminator b in
    let u' = record u { spool = s; calls = u.calls + 1 } in
    elim ok [ true ↦ send_terminator e q b u' | false ↦ mark_incomplete u' ]

-- The terminator carries the last acknowledged chunk, or a new sequence and no bytes.
unfoldable pub new_terminator : Env → Option (ℕ × List ℕ) → Uploader → Uploader
new_terminator e none u =
    let (s, q) = allocate_sequence u.spool in store_terminator e q [] (record u { spool = s })
new_terminator e (some (q, b)) u = store_terminator e q b u

unfoldable pub old_terminator : Env → PendingChunk → Uploader → Uploader
old_terminator e p u =
    let u' = record u { calls = u.calls + 1 } in
    elim (read_pending e p u) [
      | none ↦ mark_incomplete u'
      | some b ↦ send_terminator e p.sequence b u'
    ]

unfoldable pub finish_pending : Env → List PendingChunk → Uploader → Uploader
finish_pending e ps u = if any_chunk ps then mark_incomplete u else (elim (find_terminator ps) [
  | none ↦ new_terminator e u.last_acked u
  | some p ↦ old_terminator e p u
])

unfoldable pub finish_log : Env → Uploader → Uploader
finish_log e u =
    let u' = record u { calls = u.calls + 1 } in
    if not u.spool_open
    then mark_incomplete u
    else if e.lists u.calls
    then finish_pending e (pending u.spool.dir) u'
    else mark_incomplete u'

-- What the select of `upload_logs` yields before the channel closes.
pub data Event : Type 0 where
  received : List ℕ → Event
  ticked : Event

unfoldable pub on_event : Env → Event → Uploader → Uploader
on_event e (received c) u =
    drain e log_chunk_bytes (length (u.buffer ++ c)) (record u { buffer = u.buffer ++ c })
on_event e ticked u = replay_pending e (flush_buffer e u)

-- The closed channel: the rest of the buffer, a last replay, the terminator.
unfoldable pub on_closed : Env → Uploader → Uploader
on_closed e u = finish_log e (replay_pending e (flush_buffer e u))

unfoldable pub upload_logs : Env → List Event → Uploader → Uploader
upload_logs e [] u = on_closed e u
upload_logs e (v ∷ vs) u = upload_logs e vs (on_event e v u)

-- The bytes that a run receives.
unfoldable pub input : List Event → List ℕ
input [] = []
input (received c ∷ vs) = c ++ input vs
input (ticked ∷ vs) = input vs
