-- ===== src/Logs/Later.antt =====
-- The uploader of src/logs.rs never takes back that its log is incomplete, and never hands out
-- sequence numbers again.
use terrence_agent.Prelude.{
  ℕ, ◌∙◌, not, if◌then◌else◌, take, drop, length, leb, zero, suc, ◌+◌, ◌≤◌, ◌≡◌, refl, ◌⊎◌, true,
  false, List, [], ◌∷◌, arith, Bool-cases, inl, inr, u64_max, Option-cases, Bool,
}
use terrence_agent.Logs.Spool.{
  ChunkKind, chunk, terminator, Spool, PendingChunk, StoreFault, RemoveFault, store, remove,
  allocate_sequence, pending,
}
use terrence_agent.Logs.Upload.{
  Env, Method, patch, Uploader, mark_incomplete, retry_log, remove_acknowledged, acknowledge,
  has_backlog, send_stored, store_chunk, flush_chunk, read_pending, replay_chunks, replay_pending,
  flush_buffer, drain, method_for,
}
use terrence_agent.Logs.Wire.{retry_log-SameSpool}

-- The uploader says so, or the sequence numbers are used up.
abbrev pub Lost : Uploader → Type 0
Lost u = (u.incomplete ≡ true) ⊎ (u64_max ≤ u.spool.next_sequence)

pub record Later (u v : Uploader) : Type 0 where
  pub marked : u.incomplete ≡ true → v.incomplete ≡ true
  pub counted : u64_max ≤ u.spool.next_sequence → u64_max ≤ v.spool.next_sequence
  pub kept : v.buffer ≡ u.buffer

pub Later-Lost : {u v : Uploader} → Later u v → Lost u → Lost v
Later-Lost l (inl h) = inl (l.marked h)
Later-Lost l (inr h) = inr (l.counted h)

pub Later-refl : (u : Uploader) → Later u u
Later-refl u = ground arith

pub Later-trans : {u v w : Uploader} → Later u v → Later v w → Later u w
Later-trans a b = record {
  marked = λ h. b.marked (a.marked h);
  counted = λ h. b.counted (a.counted h);
  kept = b.kept ∙ a.kept;
}

pub Later-if : (c : Bool) {u v w : Uploader} → Later u v → Later u w → Later u (if c then v else w)
Later-if true a b = a
Later-if false a b = b

pub Later-mark_incomplete : (u : Uploader) → Later u (mark_incomplete u)
Later-mark_incomplete u = ground arith

pub store-next :
    (f : StoreFault) (s : Spool) (n : ℕ) (k : ChunkKind) (b : List ℕ)
    → (store f s n k b).0.next_sequence ≡ s.next_sequence
unfolding store
store-next f s n k b = ground arith

pub remove-next :
    (f : RemoveFault) (s : Spool) (p : PendingChunk)
    → (remove f s p).0.next_sequence ≡ s.next_sequence
unfolding remove
remove-next f s p = ground arith

pub retry_log-Later :
    (e : Env) (m : Method) (q : ℕ) (b : List ℕ) (u : Uploader) → Later u (retry_log e m q b u).0
retry_log-Later e m q b u =
    let same = retry_log-SameSpool e m q b u in
    record { marked = λ h. same.incomplete ∙ h; counted = λ h. rw same.spool h; kept = same.buffer }

pub remove_acknowledged-Later :
    (e : Env) (p : PendingChunk) (u : Uploader) → Later u (remove_acknowledged e p u)
unfolding remove_acknowledged
remove_acknowledged-Later e p u = record {
  marked = λ h. rw h;
  counted = λ h. rw (remove-next (e.remove_fault u.calls) u.spool p) h;
  kept = refl;
}

pub acknowledged-Later :
    (e : Env) (k : ChunkKind) (q : ℕ) (b : List ℕ) (p : PendingChunk) (u : Uploader)
    → Later u (remove_acknowledged e p (acknowledge k q b u))
acknowledged-Later e chunk q b p u =
    let r = remove_acknowledged-Later e p (acknowledge chunk q b u) in
    record { marked = r.marked; counted = r.counted; kept = r.kept }
acknowledged-Later e terminator q b p u = remove_acknowledged-Later e p u

pub send_stored-Later :
    (e : Env) (backlog : Bool) (q : ℕ) (b : List ℕ) (u : Uploader)
    → Later u (send_stored e backlog q b u)
unfolding send_stored
send_stored-Later e true q b u = Later-refl u
send_stored-Later e false q b u =
    let sent = retry_log-Later e patch q b u in
    elim (Bool-cases (retry_log e patch q b u).1) [
      | inl ok ↦
          rw (ok, send_stored)
            (Later-trans sent (
              acknowledged-Later e chunk q b (record { sequence = q; kind = chunk })
                (retry_log e patch q b u).0))
      | inr failed ↦ rw (failed, send_stored) sent
    ]

-- Storing a chunk takes one sequence number.
pub record Taken (u v : Uploader) : Type 0 where
  pub marked : u.incomplete ≡ true → v.incomplete ≡ true
  pub counted : u64_max ≤ u.spool.next_sequence + 1 → u64_max ≤ v.spool.next_sequence
  pub kept : v.buffer ≡ u.buffer

pub store_chunk-Taken :
    (e : Env) (backlog : Bool) (b : List ℕ) (u : Uploader) → Taken u (store_chunk e backlog b u)
unfolding store_chunk allocate_sequence
store_chunk-Taken e backlog b u =
    let s = (allocate_sequence u.spool).0 in
    let q = u.spool.next_sequence in
    let f = e.store_fault u.calls in
    let next = store-next f s q chunk b in
    let u' : Uploader = record u { spool = (store f s q chunk b).0; calls = u.calls + 1 } in
    let later = send_stored-Later e backlog q b u' in
    elim (Bool-cases (store f s q chunk b).1) [
      | inl ok ↦
          rw (ok, store_chunk)
            (record {
              marked = later.marked;
              counted = λ h. later.counted (omega (arith, next));
              kept = later.kept;
            })
      | inr failed ↦
          rw (failed, store_chunk)
            (record { marked = λ h. refl; counted = λ h. omega (arith, next); kept = refl })
    ]

pub Taken-Later : {u v : Uploader} → Taken u v → Later u v
Taken-Later t = record { marked = t.marked; counted = λ h. t.counted (omega arith); kept = t.kept }

pub flush_chunk-Later : (e : Env) (b : List ℕ) (u : Uploader) → Later u (flush_chunk e b u)
unfolding flush_chunk
flush_chunk-Later e b u =
    let u' : Uploader = record u { calls = u.calls + 1 } in
    let seen = Taken-Later (store_chunk-Taken e (has_backlog (pending u.spool.dir)) b u') in
    let unseen = Taken-Later (store_chunk-Taken e true b (mark_incomplete u')) in
    Later-if (not u.spool_open) (Later-mark_incomplete u) (
      Later-if (e.lists u.calls)
        (record { marked = seen.marked; counted = seen.counted; kept = seen.kept })
        (record { marked = λ h. unseen.marked refl; counted = unseen.counted; kept = unseen.kept }))

pub replay_chunks-Later :
    (e : Env) (ps : List PendingChunk) (u : Uploader) → Later u (replay_chunks e ps u)
unfolding replay_chunks
replay_chunks-Later e [] u = Later-refl u
replay_chunks-Later e (p ∷ ps) u = elim (Option-cases (read_pending e p u)) [
  | inl unread ↦
      (let rest = replay_chunks-Later e ps (mark_incomplete (record u { calls = u.calls + 1 })) in
        rw (unread, replay_chunks)
          (record { marked = λ h. rest.marked refl; counted = rest.counted; kept = rest.kept }))
  | inr (b, read) ↦
      (let v : Uploader = record u { calls = u.calls + 1 } in
        let m = method_for p.kind in
        let w = (retry_log e m p.sequence b v).0 in
        let sent = retry_log-Later e m p.sequence b v in
        let acked = acknowledged-Later e p.kind p.sequence b p w in
        let rest =
          replay_chunks-Later e ps (remove_acknowledged e p (acknowledge p.kind p.sequence b w)) in
        let all = Later-trans sent (Later-trans acked rest) in
        elim (Bool-cases (retry_log e m p.sequence b v).1) [
          | inl ok ↦
              rw (read, replay_chunks, ok)
                (record { marked = all.marked; counted = all.counted; kept = all.kept })
          | inr failed ↦
              rw (read, replay_chunks, failed)
                (record { marked = sent.marked; counted = sent.counted; kept = sent.kept })
        ])
]

pub replay_pending-Later : (e : Env) (u : Uploader) → Later u (replay_pending e u)
unfolding replay_pending
replay_pending-Later e u =
    let u' : Uploader = record u { calls = u.calls + 1 } in
    let seen = replay_chunks-Later e (pending u.spool.dir) u' in
    Later-if (not u.spool_open) (Later-mark_incomplete u) (
      Later-if (e.lists u.calls)
        (record { marked = seen.marked; counted = seen.counted; kept = seen.kept })
        (record { marked = λ h. refl; counted = λ h. h; kept = refl }))

-- These two empty the buffer.
pub flush_buffer-Lost : (e : Env) (u : Uploader) → Lost u → Lost (flush_buffer e u)
unfolding flush_buffer
flush_buffer-Lost e u l = go u.buffer
  where
    go :
        (b : List ℕ)
        → Lost (elim b [ [] ↦ u | x ∷ c ↦ flush_chunk e (x ∷ c) (record u { buffer = [] }) ])
    go [] = l
    go (x ∷ c) = Later-Lost (flush_chunk-Later e (x ∷ c) (record u { buffer = [] })) l

pub drain-Lost : (e : Env) (k n : ℕ) (u : Uploader) → Lost u → Lost (drain e k n u)
unfolding drain
drain-Lost e k zero u l = l
drain-Lost e k (suc n) u l =
    let v : Uploader = record u { buffer = drop k u.buffer } in
    let flushed = flush_chunk-Later e (take k u.buffer) v in
    elim (Bool-cases (leb k (length u.buffer))) [
      | inl more ↦
          rw (more, drain)
            (drain-Lost e k n (flush_chunk e (take k u.buffer) v) (Later-Lost flushed l))
      | inr less ↦ rw (less, drain) l
    ]
