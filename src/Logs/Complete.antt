-- ===== src/Logs/Complete.antt =====
-- The whole run of `upload_logs` in src/logs.rs.
use terrence_agent.Prelude.{
  ℕ, zero, suc, ◌+◌, ◌≤◌, ◌<◌, ◌≡◌, refl, sym, ◌∙◌, inl, inr, Bool, true, false, not, List, [], ◌∷◌,
  ◌++◌, arith, length, take, drop, leb, if◌then◌else◌, Bool-cases, u64_max, append_assoc,
  append-nil, take-append-drop, length-drop,
}
use mathlib.Core.Path.{subst}
use terrence_agent.Logs.Spool.{Dir, pending}
use terrence_agent.Logs.Ascending.{pending-Ascending, all_bytes}
use terrence_agent.Logs.Upload.{
  Env, Uploader, flush_chunk, replay_pending, flush_buffer, drain, log_chunk_bytes,
}
use terrence_agent.Logs.Later.{Later-Lost, flush_chunk-Later, replay_pending-Later}
use terrence_agent.Logs.Wire.{delivered, top, Rising}
use terrence_agent.Logs.Delivery.{Delivering, Inv}
use terrence_agent.Logs.Flush.{flush_chunk-Inv, replay_pending-Inv}
use terrence_agent.Logs.Finish.{
  Event, received, ticked, finish_pending, finish_log, on_event, on_closed, upload_logs, input,
}
use terrence_agent.Logs.Closing.{EndsWithTerminator, finish_log-Later, finish_pending-Closed}

-- The loop `while buffer.len() >= k` ends with fewer than `k` bytes in the buffer, for every fuel
-- that is at least the buffer's length.
pub drain_ends :
    (e : Env) (k n : ℕ) (u : Uploader)
    → 0 < k
    → length u.buffer ≤ n
    → length (drain e k n u).buffer < k
unfolding drain
drain_ends e k zero u p h = omega arith
drain_ends e k (suc n) u p h =
    let v : Uploader = record u { buffer = drop k u.buffer } in
    let f = flush_chunk e (take k u.buffer) v in
    elim (Bool-cases (leb k (length u.buffer))) [
      | inl more ↦
          (let kept = (flush_chunk-Later e (take k u.buffer) v).kept in
            let less : length f.buffer ≤ n = rw kept (ground (arith, length-drop k u.buffer)) in
            rw (more, drain) (drain_ends e k n f p less))
      | inr less ↦ rw (less, drain) (ground arith)
    ]

-- The invariant, where the buffer is all that is still to come.
abbrev pub Sound : List ℕ → Uploader → Type 0
Sound input u = Inv u.buffer input u

Inv-rest :
    {rest rest' input : List ℕ} {u : Uploader} → rest ≡ rest' → Inv rest input u → Inv rest' input u
Inv-rest {input = input} {u = u} e h = subst (λ (x : List ℕ). Inv x input u) e h

-- The buffer itself is no part of the invariant.
Inv-buffer :
    {rest input : List ℕ} {u : Uploader} (b : List ℕ)
    → Inv rest input u
    → Inv rest input (record u { buffer = b })
Inv-buffer b (inl l) = inl l
Inv-buffer b (inr d) =
    inr (record { opened = d.opened; rising = d.rising; files = d.files; bytes = d.bytes })

drain-Sound :
    (e : Env) (k n : ℕ) (u : Uploader) (input : List ℕ)
    → Sound input u
    → Sound input (drain e k n u)
unfolding drain
drain-Sound e k zero u input h = h
drain-Sound e k (suc n) u input h =
    let front = take k u.buffer in
    let back = drop k u.buffer in
    let v : Uploader = record u { buffer = back } in
    let f = flush_chunk e front v in
    elim (Bool-cases (leb k (length u.buffer))) [
      | inr less ↦ rw (less, drain) h
      | inl more ↦
          (let cut : Inv (front ++ back) input v =
              Inv-buffer back (Inv-rest (sym (take-append-drop k u.buffer)) h) in
            rw (more, drain)
              (drain-Sound e k n f input (
                Inv-rest (sym (flush_chunk-Later e front v).kept)
                  (flush_chunk-Inv e front v back input cut))))
    ]

-- The whole buffer is flushed.
flushed-Sound :
    (e : Env) (u : Uploader) (b input : List ℕ)
    → u.buffer ≡ b
    → Sound input u
    → ((flush_buffer e u).buffer ≡ []) × Sound input (flush_buffer e u)
unfolding flush_buffer
flushed-Sound e u [] input at h = rw (at, flush_buffer) (at, h)
flushed-Sound e u (x ∷ b) input at h =
    let v : Uploader = record u { buffer = [] } in
    let kept : (flush_chunk e (x ∷ b) v).buffer ≡ [] = (flush_chunk-Later e (x ∷ b) v).kept in
    let full : Inv ((x ∷ b) ++ []) input u = Inv-rest (at ∙ sym (append-nil (x ∷ b))) h in
    rw (at, flush_buffer)
      (kept, Inv-rest (sym kept) (flush_chunk-Inv e (x ∷ b) v [] input (Inv-buffer [] full)))

replayed-Sound :
    (e : Env) (u : Uploader) (input : List ℕ) → Sound input u → Sound input (replay_pending e u)
replayed-Sound e u input h =
    Inv-rest (sym (replay_pending-Later e u).kept) (replay_pending-Inv e u u.buffer input h)

received-Sound :
    (u : Uploader) (c input : List ℕ)
    → Sound input u
    → Sound (input ++ c) (record u { buffer = u.buffer ++ c })
received-Sound u c input (inl l) = inl l
received-Sound u c input (inr d) = inr (record {
  opened = d.opened;
  rising = d.rising;
  files = d.files;
  bytes = rw (← d.bytes) (simp append_assoc);
})

on_event-Sound :
    (e : Env) (v : Event) (u : Uploader) (before : List ℕ)
    → Sound before u
    → Sound (before ++ input (v ∷ [])) (on_event e v u)
unfolding on_event input
on_event-Sound e (received c) u before h = rw (append-nil c) (
    drain-Sound e log_chunk_bytes (length (u.buffer ++ c)) (record u { buffer = u.buffer ++ c })
      (before ++ c) (received-Sound u c before h))
on_event-Sound e ticked u before h =
    rw (append-nil before)
      (replayed-Sound e (flush_buffer e u) before (flushed-Sound e u u.buffer before refl h).1)

-- Nothing was delivered twice or out of order, and the terminator was acknowledged last.
pub record Delivered (bytes : List ℕ) (u : Uploader) : Type 0 where
  pub all : delivered u.wire ≡ bytes
  pub rising : Rising u.wire
  pub ended : EndsWithTerminator u.wire

-- What holds of a finished uploader that is not marked.
abbrev Finished : List ℕ → Uploader → Type 0
Finished bytes v = v.incomplete ≡ false → v.spool.next_sequence < u64_max → Delivered bytes v

Finished-if :
    (c : Bool) {bytes : List ℕ} {u v : Uploader}
    → Finished bytes u
    → Finished bytes v
    → Finished bytes (if c then u else v)
Finished-if true a b = a
Finished-if false a b = b

finish_pending-Finished :
    (e : Env) (u : Uploader) (bytes : List ℕ)
    → Delivering [] bytes u
    → Finished bytes (finish_pending e (pending u.spool.dir) (record u { calls = u.calls + 1 }))
finish_pending-Finished e u bytes d =
    let u' : Uploader = record u { calls = u.calls + 1 } in
    rw (pending-Ascending (top u.wire) u.spool.dir u.spool.next_sequence d.files) (λ c n.
      let (empty, same, ended) =
        finish_pending-Closed e (top u.wire) u.spool.next_sequence u.spool.dir u' d.files d.rising
          c in
      let left : delivered u.wire ++ [] ≡ bytes =
        subst (λ (x : Dir). delivered u.wire ++ (all_bytes x ++ []) ≡ bytes) empty d.bytes in
      record {
        all = same.bytes ∙ sym (append-nil (delivered u.wire)) ∙ left;
        rising = same.rising;
        ended = ended;
      })

finish_log-Finished :
    (e : Env) (u : Uploader) (bytes : List ℕ)
    → Delivering [] bytes u
    → Finished bytes (finish_log e u)
unfolding finish_log
finish_log-Finished e u bytes d =
    Finished-if (not u.spool_open) (λ c n. cc)
      (Finished-if (e.lists u.calls) (finish_pending-Finished e u bytes d) (λ c n. cc))

finish_log-Delivered :
    (e : Env) (u : Uploader) (bytes : List ℕ)
    → Inv [] bytes u
    → (finish_log e u).incomplete ≡ false
    → (finish_log e u).spool.next_sequence < u64_max
    → Delivered bytes (finish_log e u)
finish_log-Delivered e u bytes (inl l) c n = elim (Later-Lost (finish_log-Later e u) l) [
  | inl marked ↦ cc
  | inr used ↦ absurd (omega arith)
]
finish_log-Delivered e u bytes (inr d) c n = finish_log-Finished e u bytes d c n

on_closed-Delivered :
    (e : Env) (u : Uploader) (bytes : List ℕ)
    → Sound bytes u
    → (on_closed e u).incomplete ≡ false
    → (on_closed e u).spool.next_sequence < u64_max
    → Delivered bytes (on_closed e u)
unfolding on_closed
on_closed-Delivered e u bytes h c n =
    let flushed = flushed-Sound e u u.buffer bytes refl h in
    let replayed = replayed-Sound e (flush_buffer e u) bytes flushed.1 in
    let empty = (replay_pending-Later e (flush_buffer e u)).kept ∙ flushed.0 in
    finish_log-Delivered e (replay_pending e (flush_buffer e u)) bytes (Inv-rest empty replayed) c n

run-Delivered :
    (e : Env) (vs : List Event) (u : Uploader) (before : List ℕ)
    → Sound before u
    → (upload_logs e vs u).incomplete ≡ false
    → (upload_logs e vs u).spool.next_sequence < u64_max
    → Delivered (before ++ input vs) (upload_logs e vs u)
unfolding upload_logs input
run-Delivered e [] u before h c n = rw (append-nil before) (on_closed-Delivered e u before h c n)
run-Delivered e (received b ∷ vs) u before h c n =
    let next =
      run-Delivered e vs (on_event e (received b) u) (before ++ (b ++ []))
        (on_event-Sound e (received b) u before h) c n in
    subst (λ (x : List ℕ). Delivered x (upload_logs e vs (on_event e (received b) u)))
      (simp (append-nil, append_assoc)) next
run-Delivered e (ticked ∷ vs) u before h c n =
    let next =
      run-Delivered e vs (on_event e ticked u) (before ++ []) (on_event-Sound e ticked u before h) c
        n in
    subst (λ (x : List ℕ). Delivered x (upload_logs e vs (on_event e ticked u))) (simp (append-nil))
      next

-- From an uploader whose delivered bytes, spool and buffer are `before`, whatever the file system
-- and the server do: if the run ends unmarked, with sequence numbers left, then the acknowledged
-- chunks are exactly `before` and all that was received, each once and in order, and the last
-- request is the acknowledged terminator.
pub upload_logs-Delivered :
    (e : Env) (vs : List Event) (u : Uploader) (before : List ℕ)
    → Delivering u.buffer before u
    → (upload_logs e vs u).incomplete ≡ false
    → (upload_logs e vs u).spool.next_sequence < u64_max
    → Delivered (before ++ input vs) (upload_logs e vs u)
upload_logs-Delivered e vs u before d = run-Delivered e vs u before (inr d)
