-- ===== src/Logs/Closing.antt =====
-- `finish_log` of src/logs.rs: what it leaves marked, what it delivers, and its last request.
use terrence_agent.Prelude.{
  ℕ, ◌+◌, ◌≡◌, refl, ◌∙◌, inl, inr, true, false, not, Option, some, none, List, [], ◌∷◌, arith,
  Bool-cases, Option-cases,
}
use terrence_agent.Logs.Spool.{
  chunk, terminator, final, temporary, foreign, Dir, PendingChunk, pending, store,
  allocate_sequence,
}
use terrence_agent.Logs.Ascending.{Ascending, chunks_of}
use terrence_agent.Logs.Upload.{
  Env, Upload, Uploader, put, retry_log, attempts, remove_acknowledged, read_pending,
}
use terrence_agent.Logs.Later.{
  Later, Later-trans, Later-if, Later-mark_incomplete, store-next, retry_log-Later,
  remove_acknowledged-Later,
}
use terrence_agent.Logs.Wire.{Rising, PutSent, retry_log-PutSent, attempts-Confirmed}
use terrence_agent.Logs.Finish.{
  any_chunk, find_terminator, remove_spool_dir, send_terminator, store_terminator, new_terminator,
  old_terminator, finish_pending, finish_log,
}

-- The last request is an acknowledged terminator.
abbrev pub EndsWithTerminator : List Upload → Type 0
EndsWithTerminator [] = ⊥
EndsWithTerminator (x ∷ w) = (x.method ≡ put) × (x.confirmed ≡ true)

remove_spool_dir-Later : (e : Env) (u : Uploader) → Later u (remove_spool_dir e u)
unfolding remove_spool_dir
remove_spool_dir-Later e u = ground arith

wire-remove_spool_dir : (e : Env) (u : Uploader) → (remove_spool_dir e u).wire ≡ u.wire
unfolding remove_spool_dir
wire-remove_spool_dir e u = ground arith

wire-remove_acknowledged :
    (e : Env) (p : PendingChunk) (u : Uploader) → (remove_acknowledged e p u).wire ≡ u.wire
unfolding remove_acknowledged
wire-remove_acknowledged e p u = refl

module _ (e : Env) (q : ℕ) (b : List ℕ) (u : Uploader) where
  abbrev p : PendingChunk
  p = record { sequence = q; kind = terminator }

  abbrev tried : Uploader
  tried = (retry_log e put q b u).0

  send_terminator-Later : Later u (send_terminator e q b u)
  unfolding send_terminator
  send_terminator-Later = elim (Bool-cases (retry_log e put q b u).1) [
    | inl ok ↦
        rw (ok, send_terminator)
          (Later-trans (retry_log-Later e put q b u) (
            Later-trans (remove_acknowledged-Later e p tried)
              (remove_spool_dir-Later e (remove_acknowledged e p tried))))
    | inr failed ↦
        rw (failed, send_terminator)
          (Later-trans (retry_log-Later e put q b u) (Later-mark_incomplete tried))
  ]

  -- The terminator's request leaves the delivered bytes alone; unless it was acknowledged, the log
  -- is marked.
  send_terminator-Sent :
      Rising u.wire
      → PutSent u.wire (send_terminator e q b u).wire
        × ((send_terminator e q b u).incomplete ≡ false
            → EndsWithTerminator (send_terminator e q b u).wire)
  unfolding send_terminator retry_log
  send_terminator-Sent r =
      let w = retry_log-PutSent e q b u r in
      elim (Bool-cases (attempts e 3 put q b u).1) [
        | inr failed ↦
            rw (failed, send_terminator, retry_log)
              (record { rising = w.rising; bytes = w.bytes; last = w.last }, λ h. cc)
        | inl ok ↦
            (let same =
                wire-remove_spool_dir e (remove_acknowledged e p tried)
                ∙ wire-remove_acknowledged e p tried in
              let (rest, last) = attempts-Confirmed e 3 put q b u ok in
              rw (ok, send_terminator, retry_log, same)
                (
                  record { rising = w.rising; bytes = w.bytes; last = w.last },
                  λ h. rw last (refl, refl),
                ))
      ]

store_terminator-Later :
    (e : Env) (q : ℕ) (b : List ℕ) (u : Uploader) → Later u (store_terminator e q b u)
unfolding store_terminator
store_terminator-Later e q b u =
    let f = e.store_fault u.calls in
    let next = store-next f u.spool q terminator b in
    let u' : Uploader = record u {
      spool = (store f u.spool q terminator b).0;
      calls = u.calls + 1;
    } in
    let stored : Later u u' = record { marked = λ h. h; counted = λ h. rw next h; kept = refl } in
    elim (Bool-cases (store f u.spool q terminator b).1) [
      | inl ok ↦ rw (ok, store_terminator) (Later-trans stored (send_terminator-Later e q b u'))
      | inr failed ↦ rw (failed, store_terminator) (Later-trans stored (Later-mark_incomplete u'))
    ]

new_terminator-Later :
    (e : Env) (last : Option (ℕ × List ℕ)) (u : Uploader) → Later u (new_terminator e last u)
unfolding new_terminator allocate_sequence
new_terminator-Later e (some (q, b)) u = store_terminator-Later e q b u
new_terminator-Later e none u =
    let u' : Uploader = record u { spool = (allocate_sequence u.spool).0 } in
    let taken : Later u u' = record { marked = λ h. h; counted = λ h. omega arith; kept = refl } in
    Later-trans taken (store_terminator-Later e u.spool.next_sequence [] u')

old_terminator-Later : (e : Env) (p : PendingChunk) (u : Uploader) → Later u (old_terminator e p u)
unfolding old_terminator
old_terminator-Later e p u =
    let u' : Uploader = record u { calls = u.calls + 1 } in
    let read : Later u u' = record { marked = λ h. h; counted = λ h. h; kept = refl } in
    elim (Option-cases (read_pending e p u)) [
      | inl unread ↦ rw (unread, old_terminator) (Later-trans read (Later-mark_incomplete u'))
      | inr (b, found) ↦
          rw (found, old_terminator) (Later-trans read (send_terminator-Later e p.sequence b u'))
    ]

finish_pending-Later :
    (e : Env) (ps : List PendingChunk) (u : Uploader) → Later u (finish_pending e ps u)
unfolding finish_pending
finish_pending-Later e ps u =
    Later-if (any_chunk ps) (Later-mark_incomplete u) (elim (Option-cases (find_terminator ps)) [
      | inl missing ↦ rw missing (new_terminator-Later e u.last_acked u)
      | inr (p, found) ↦ rw found (old_terminator-Later e p u)
    ])

pub finish_log-Later : (e : Env) (u : Uploader) → Later u (finish_log e u)
unfolding finish_log
finish_log-Later e u =
    let u' : Uploader = record u { calls = u.calls + 1 } in
    let read : Later u u' = record { marked = λ h. h; counted = λ h. h; kept = refl } in
    Later-if (not u.spool_open) (Later-mark_incomplete u) (
      Later-if (e.lists u.calls)
        (Later-trans read (finish_pending-Later e (pending u.spool.dir) u'))
        (Later-trans read (Later-mark_incomplete u')))

-- What is known of the uploader's requests after the close.
abbrev Closed : Uploader → Uploader → Type 0
Closed u v = PutSent u.wire v.wire × (v.incomplete ≡ false → EndsWithTerminator v.wire)

store_terminator-Closed :
    (e : Env) (q : ℕ) (b : List ℕ) (u : Uploader)
    → Rising u.wire
    → Closed u (store_terminator e q b u)
unfolding store_terminator
store_terminator-Closed e q b u r =
    let f = e.store_fault u.calls in
    let u' : Uploader = record u {
      spool = (store f u.spool q terminator b).0;
      calls = u.calls + 1;
    } in
    elim (Bool-cases (store f u.spool q terminator b).1) [
      | inl ok ↦ rw (ok, store_terminator) (send_terminator-Sent e q b u' r)
      | inr failed ↦
          rw (failed, store_terminator) (record { rising = r; bytes = refl; last = refl }, λ h. cc)
    ]

new_terminator-Closed :
    (e : Env) (last : Option (ℕ × List ℕ)) (u : Uploader)
    → Rising u.wire
    → Closed u (new_terminator e last u)
unfolding new_terminator
new_terminator-Closed e (some (q, b)) u r = store_terminator-Closed e q b u r
new_terminator-Closed e none u r =
    store_terminator-Closed e (allocate_sequence u.spool).1 []
      (record u { spool = (allocate_sequence u.spool).0 }) r

-- A chunk that is still in the spool marks the log.
pub finish_pending-Closed :
    (e : Env) (lo hi : ℕ) (d : Dir) (u : Uploader)
    → Ascending lo d hi
    → Rising u.wire
    → (finish_pending e (chunks_of d) u).incomplete ≡ false
    → (d ≡ [])
      × PutSent u.wire (finish_pending e (chunks_of d) u).wire
      × EndsWithTerminator (finish_pending e (chunks_of d) u).wire
unfolding finish_pending any_chunk find_terminator
finish_pending-Closed e lo hi [] u h r c =
    let closed = new_terminator-Closed e u.last_acked u r in (refl, closed.0, closed.1 c)
finish_pending-Closed e lo hi ((final n chunk, b) ∷ d) u h r c = absurd (cc)
finish_pending-Closed e lo hi ((final n terminator, b) ∷ d) u h r c = absurd h
finish_pending-Closed e lo hi ((temporary n k, b) ∷ d) u h r c = absurd h
finish_pending-Closed e lo hi ((foreign n, b) ∷ d) u h r c = absurd h
