-- ===== src/Logs/Upload.antt =====
-- The uploader of src/logs.rs: `retry_log`, `flush_chunk`, `replay_pending`, `finish_log` and the
-- loop of `upload_logs`. What the file system and the server answer is an `Env`, read at a counter
-- that every call advances. `wire` is the requests made so far, the newest first.
use terrence_agent.Prelude.{
  ℕ, zero, suc, ◌+◌, ◌*◌, Bool, true, false, not, ◌||◌, Option, none, some, List, [], ◌∷◌, length,
  take, drop, leb, ◌==◌, if◌then◌else◌,
}
use terrence_agent.Logs.Spool.{
  ChunkKind, chunk, terminator, final, Spool, PendingChunk, StoreFault, RemoveFault, content,
  pending, store, remove, allocate_sequence,
}

abbrev pub log_chunk_bytes : ℕ
log_chunk_bytes = 64 * 1024

pub data Method : Type 0 where
  patch put : Method

-- What a log request answers: `Ok(Some(n))`, `Ok(None)` or an error.
pub data Reply : Type 0 where
  acked : ℕ → Reply
  accepted refused : Reply

pub record Upload : Type 0 where
  pub method : Method
  pub sequence : ℕ
  pub bytes : List ℕ
  pub confirmed : Bool

pub record Env : Type 0 where
  pub lists : ℕ → Bool
  pub store_fault : ℕ → StoreFault
  pub remove_fault : ℕ → RemoveFault
  pub reads : ℕ → Bool
  pub reply : ℕ → Reply
  pub removes_dir : ℕ → Bool

-- `spool_open` is false where `Spool::open` failed, and `spool` is then not used.
pub record Uploader : Type 0 where
  pub spool_open : Bool
  pub spool : Spool
  pub dir_exists : Bool
  pub buffer : List ℕ
  pub last_acked : Option (ℕ × List ℕ)
  pub incomplete : Bool
  pub calls : ℕ
  pub wire : List Upload

abbrev pub mark_incomplete : Uploader → Uploader
mark_incomplete u = record u { incomplete = true }

-- An ACK of another sequence is a failure.
unfoldable pub confirms : ℕ → Reply → Bool
confirms sequence (acked n) = n == sequence
confirms sequence accepted = true
confirms sequence refused = false

abbrev pub sent : Method → ℕ → List ℕ → Bool → Uploader → Uploader
sent m q b r u = record u {
  calls = u.calls + 1;
  wire = record { method = m; sequence = q; bytes = b; confirmed = r } ∷ u.wire;
}

unfoldable pub attempts : Env → ℕ → Method → ℕ → List ℕ → Uploader → Uploader × Bool
attempts e zero m q b u = (u, false)
attempts e (suc n) m q b u = elim (confirms q (e.reply u.calls)) [
  | true ↦ (sent m q b true u, true)
  | false ↦ attempts e n m q b (sent m q b false u)
]

-- Three attempts. (The delays between them change nothing here.)
unfoldable pub retry_log : Env → Method → ℕ → List ℕ → Uploader → Uploader × Bool
retry_log e m q b u = attempts e 3 m q b u

-- `spool.remove` of an acknowledged file; a failure is recorded.
unfoldable pub remove_acknowledged : Env → PendingChunk → Uploader → Uploader
remove_acknowledged e p u =
    let (s, ok) = remove (e.remove_fault u.calls) u.spool p in
    record u { spool = s; calls = u.calls + 1; incomplete = u.incomplete || not ok }

abbrev pub acknowledge : ChunkKind → ℕ → List ℕ → Uploader → Uploader
acknowledge chunk q b u = record u { last_acked = some (q, b) }
acknowledge terminator q b u = u

abbrev pub has_backlog : List PendingChunk → Bool
has_backlog [] = false
has_backlog (p ∷ l) = true

-- The part of `flush_chunk` after the store.
unfoldable pub send_stored : Env → Bool → ℕ → List ℕ → Uploader → Uploader
send_stored e true q b u = u
send_stored e false q b u =
    let (u', ok) = retry_log e patch q b u in
    elim ok [
      | true ↦
          remove_acknowledged e (record { sequence = q; kind = chunk }) (acknowledge chunk q b u')
      | false ↦ u'
    ]

-- The part of `flush_chunk` after the look for a backlog.
unfoldable pub store_chunk : Env → Bool → List ℕ → Uploader → Uploader
store_chunk e backlog b u =
    let (s, q) = allocate_sequence u.spool in
    let (s', ok) = store (e.store_fault u.calls) s q chunk b in
    let u' = record u { spool = s'; calls = u.calls + 1 } in
    elim ok [ true ↦ send_stored e backlog q b u' | false ↦ mark_incomplete u' ]

unfoldable pub flush_chunk : Env → List ℕ → Uploader → Uploader
flush_chunk e b u =
    let u' = record u { calls = u.calls + 1 } in
    if not u.spool_open
    then mark_incomplete u
    else if e.lists u.calls
    then store_chunk e (has_backlog (pending u.spool.dir)) b u'
    else store_chunk e true b (mark_incomplete u')

abbrev pub method_for : ChunkKind → Method
method_for chunk = patch
method_for terminator = put

-- `read_bytes`, at a call that may fail.
unfoldable pub read_pending : Env → PendingChunk → Uploader → Option (List ℕ)
read_pending e p u = if e.reads u.calls then content u.spool.dir (final p.sequence p.kind) else none

-- The loop of `replay_pending` over the chunks that were listed.
unfoldable pub replay_chunks : Env → List PendingChunk → Uploader → Uploader
replay_chunks e [] u = u
replay_chunks e (p ∷ ps) u =
    let read = record u { calls = u.calls + 1 } in
    elim (read_pending e p u) [
      | none ↦ replay_chunks e ps (mark_incomplete read)
      | some b ↦
          (let (u', ok) = retry_log e (method_for p.kind) p.sequence b read in
            elim ok [
              | true ↦
                  replay_chunks e ps (remove_acknowledged e p (acknowledge p.kind p.sequence b u'))
              | false ↦ u'
            ])
    ]

unfoldable pub replay_pending : Env → Uploader → Uploader
replay_pending e u =
    let u' = record u { calls = u.calls + 1 } in
    if not u.spool_open
    then mark_incomplete u
    else if e.lists u.calls
    then replay_chunks e (pending u.spool.dir) u'
    else mark_incomplete u'

unfoldable pub flush_buffer : Env → Uploader → Uploader
flush_buffer e u = elim u.buffer [
  | [] ↦ u
  | x ∷ b ↦ flush_chunk e (x ∷ b) (record u { buffer = [] })
]

-- `while buffer.len() >= LOG_CHUNK_BYTES`, for chunks of `k` bytes and on fuel.
unfoldable pub drain : Env → ℕ → ℕ → Uploader → Uploader
drain e k zero u = u
drain e k (suc n) u =
    let next =
      drain e k n (flush_chunk e (take k u.buffer) (record u { buffer = drop k u.buffer })) in
    if leb k (length u.buffer) then next else u
