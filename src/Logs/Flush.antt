-- ===== src/Logs/Flush.antt =====
-- `flush_chunk` and `replay_pending` of src/logs.rs keep the invariant of Logs/Delivery.antt.
use mathlib.Core.Path.{subst}
use terrence_agent.Prelude.{
  ℕ, ◌+◌, ◌≡◌, refl, ap, ◌∙◌, ◌⊎◌, inl, inr, Bool, true, false, not, some, none, List, [], ◌∷◌,
  ◌++◌, arith, leb, if◌then◌else◌, Bool-cases, u64_max,
}
use terrence_agent.Logs.Spool.{
  chunk, terminator, final, temporary, foreign, Dir, Spool, PendingChunk, content, pending, store,
  allocate_sequence,
}
use terrence_agent.Logs.Ascending.{Ascending, chunks_of, pending-Ascending}
use terrence_agent.Logs.Upload.{
  Env, Uploader, patch, mark_incomplete, retry_log, remove_acknowledged, acknowledge, has_backlog,
  send_stored, store_chunk, flush_chunk, read_pending, replay_chunks, replay_pending,
}
use terrence_agent.Logs.Later.{
  Later-Lost, store_chunk-Taken, replay_chunks-Later, replay_pending-Later, flush_chunk-Later,
}
use terrence_agent.Logs.Wire.{top}
use terrence_agent.Logs.Delivery.{
  Delivering, Inv, store-Ascending, stored-Delivering, send_stored-Inv, sent_oldest,
}

-- An empty spool has no backlog, and any other has one.
backlog-cases :
    (lo : ℕ) (d : Dir) (hi : ℕ)
    → Ascending lo d hi
    → (has_backlog (pending d) ≡ true) ⊎ (d ≡ []) × (has_backlog (pending d) ≡ false)
backlog-cases lo [] hi h = inr (refl, rw (pending-Ascending lo [] hi h) refl)
backlog-cases lo ((final n chunk, b) ∷ d) hi h =
    inl (rw (pending-Ascending lo ((final n chunk, b) ∷ d) hi h) refl)
backlog-cases lo ((final n terminator, b) ∷ d) hi h = absurd h
backlog-cases lo ((temporary n k, b) ∷ d) hi h = absurd h
backlog-cases lo ((foreign n, b) ∷ d) hi h = absurd h

send_new-Inv :
    (e : Env) (d : Dir) (q lo : ℕ) (b : List ℕ) (u : Uploader) (rest input : List ℕ)
    → Ascending lo d q
    → u.spool.dir ≡ d ++ (final q chunk, b) ∷ []
    → Delivering rest input u
    → Inv rest input (send_stored e (has_backlog (pending d)) q b u)
send_new-Inv e d q lo b u rest input h at del = elim (backlog-cases lo d q h) [
  | inl busy ↦ rw busy (unfold send_stored in inr del)
  | inr (empty, idle) ↦ rw idle (
      send_stored-Inv e q b u rest input del
        (at ∙ ap (λ (x : Dir). x ++ (final q chunk, b) ∷ []) empty))
]

store_chunk-Inv :
    (e : Env) (b : List ℕ) (u : Uploader) (rest input : List ℕ)
    → Delivering (b ++ rest) input u
    → Inv rest input (store_chunk e (has_backlog (pending u.spool.dir)) b u)
unfolding store_chunk allocate_sequence
store_chunk-Inv e b u rest input del =
    let s = u.spool in
    let f = e.store_fault u.calls in
    elim (Bool-cases (leb u64_max (s.next_sequence + 1))) [
      | inl full ↦ inl (
          inr
            ((store_chunk-Taken e (has_backlog (pending u.spool.dir)) b u).counted (ground arith)))
      | inr room ↦ elim (Bool-cases (store f (allocate_sequence s).0 s.next_sequence chunk b).1) [
        | inr failed ↦ rw (failed, store_chunk) (inl (inl refl))
        | inl ok ↦
            (let same = store-Ascending f s (top u.wire) b del.files (ground arith) ok in
              rw (ok, store_chunk)
                (send_new-Inv e s.dir s.next_sequence (top u.wire) b
                  (record u {
                    spool = (store f (allocate_sequence s).0 s.next_sequence chunk b).0;
                    calls = u.calls + 1;
                  })
                  rest input del.files (ap (λ (x : Spool). x.dir) same)
                  (stored-Delivering u (u.calls + 1) b rest input _ del same)))
      ]
    ]

Inv-if :
    (c : Bool) {rest input : List ℕ} {u v : Uploader}
    → (c ≡ true → Inv rest input u)
    → (c ≡ false → Inv rest input v)
    → Inv rest input (if c then u else v)
Inv-if true f g = f refl
Inv-if false f g = g refl

-- A flush moves the given bytes from the buffer to the spool or the server.
pub flush_chunk-Inv :
    (e : Env) (b : List ℕ) (u : Uploader) (rest input : List ℕ)
    → Inv (b ++ rest) input u
    → Inv rest input (flush_chunk e b u)
flush_chunk-Inv e b u rest input (inl l) = inl (Later-Lost (flush_chunk-Later e b u) l)
flush_chunk-Inv e b u rest input (inr del) =
    let u' : Uploader = record u { calls = u.calls + 1 } in
    let moved : Delivering (b ++ rest) input u' = record {
      opened = del.opened;
      rising = del.rising;
      files = del.files;
      bytes = del.bytes;
    } in
    unfold flush_chunk in
    Inv-if (not u.spool_open) (λ closed. inl (inl refl))
      (λ opened.
        Inv-if (e.lists u.calls) (λ listed. store_chunk-Inv e b u' rest input moved)
          (λ unlisted. inl (inl ((store_chunk-Taken e true b (mark_incomplete u')).marked refl))))

read_oldest :
    (e : Env) (n : ℕ) (b : List ℕ) (d : Dir) (u : Uploader)
    → u.spool.dir ≡ (final n chunk, b) ∷ d
    → e.reads u.calls ≡ true
    → read_pending e (record { sequence = n; kind = chunk }) u ≡ some b
unfolding read_pending content
read_oldest e n b d u at reads = rw (reads, at) (ground arith)

read_failed :
    (e : Env) (p : PendingChunk) (u : Uploader)
    → e.reads u.calls ≡ false
    → read_pending e p u ≡ none
unfolding read_pending
read_failed e p u fails = rw fails

-- The replay of the chunks that were listed takes them from the spool one by one.
replay_chunks-Inv :
    (e : Env) (d : Dir) (u : Uploader) (rest input : List ℕ)
    → Delivering rest input u
    → u.spool.dir ≡ d
    → Ascending (top u.wire) d u.spool.next_sequence
    → Inv rest input (replay_chunks e (chunks_of d) u)
unfolding replay_chunks
replay_chunks-Inv e [] u rest input del at h = inr del
replay_chunks-Inv e ((final n terminator, b) ∷ d) u rest input del at h = absurd h
replay_chunks-Inv e ((temporary n k, b) ∷ d) u rest input del at h = absurd h
replay_chunks-Inv e ((foreign n, b) ∷ d) u rest input del at h = absurd h
replay_chunks-Inv e ((final n chunk, b) ∷ d) u rest input del at h =
    let p : PendingChunk = record { sequence = n; kind = chunk } in
    let v : Uploader = record u { calls = u.calls + 1 } in
    let w = (retry_log e patch n b v).0 in
    let next = remove_acknowledged e p (acknowledge chunk n b w) in
    let moved : Delivering rest input v = record {
      opened = del.opened;
      rising = del.rising;
      files = del.files;
      bytes = del.bytes;
    } in
    let step = sent_oldest e n b d v rest input moved at in
    elim (Bool-cases (e.reads u.calls)) [
      | inr fails ↦
          rw (read_failed e p u fails, replay_chunks)
            (inl (inl ((replay_chunks-Later e (chunks_of d) (mark_incomplete v)).marked refl)))
      | inl reads ↦ elim (Bool-cases (retry_log e patch n b v).1) [
        | inr failed ↦
            rw (read_oldest e n b d u at reads, replay_chunks, failed) (inr (step.1 failed))
        | inl ok ↦
            rw (read_oldest e n b d u at reads, replay_chunks, ok)
              (elim (step.0 ok) [
                | inl l ↦ inl (Later-Lost (replay_chunks-Later e (chunks_of d) next) l)
                | inr (good, left) ↦ replay_chunks-Inv e d next rest input good left (
                    subst (λ (x : Dir). Ascending (top next.wire) x next.spool.next_sequence) left
                      good.files)
              ])
      ]
    ]

pub replay_pending-Inv :
    (e : Env) (u : Uploader) (rest input : List ℕ)
    → Inv rest input u
    → Inv rest input (replay_pending e u)
replay_pending-Inv e u rest input (inl l) = inl (Later-Lost (replay_pending-Later e u) l)
replay_pending-Inv e u rest input (inr del) =
    let u' : Uploader = record u { calls = u.calls + 1 } in
    let moved : Delivering rest input u' = record {
      opened = del.opened;
      rising = del.rising;
      files = del.files;
      bytes = del.bytes;
    } in
    unfold replay_pending in
    Inv-if (not u.spool_open) (λ closed. inl (inl refl))
      (λ opened.
        Inv-if (e.lists u.calls)
          (λ listed.
            rw (pending-Ascending (top u.wire) u.spool.dir u.spool.next_sequence del.files)
              (replay_chunks-Inv e u.spool.dir u' rest input moved refl del.files))
          (λ unlisted. inl (inl refl)))
