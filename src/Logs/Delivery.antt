-- ===== src/Logs/Delivery.antt =====
-- The invariant of the uploader of src/logs.rs: unless it has said that its log is incomplete, or
-- has used up the sequence numbers, what was acknowledged, the spool and the buffer together are
-- the input, and the spool waits above everything that was acknowledged.
use mathlib.Core.Path.{subst}
use terrence_agent.Prelude.{
  ℕ, suc, ◌+◌, ◌≤◌, ◌≡◌, ap, ◌∙◌, ◌⊎◌, inl, inr, true, false, List, [], ◌∷◌, ◌++◌, arith, length,
  Bool-cases, append_assoc, u64_max, saturating_add,
}
use terrence_agent.Logs.Spool.{
  chunk, final, Dir, Spool, PendingChunk, StoreFault, RemoveFault, store, remove, allocate_sequence,
}
use terrence_agent.Logs.Ascending.{
  Ascending, all_bytes, Ascending-append, all_bytes-append, without-Ascending_above,
  has_temporary-Ascending,
}
use terrence_agent.Logs.Upload.{
  Env, Uploader, patch, retry_log, remove_acknowledged, acknowledge, send_stored,
}
use terrence_agent.Logs.Later.{Lost, remove-next}
use terrence_agent.Logs.Wire.{delivered, top, Rising, retry_log-SameSpool, retry_log-PatchSent}

-- `rest` is what is still to come from the buffer or the caller.
pub record Delivering (rest input : List ℕ) (u : Uploader) : Type 0 where
  pub opened : u.spool_open ≡ true
  pub rising : Rising u.wire
  pub files : Ascending (top u.wire) u.spool.dir u.spool.next_sequence
  pub bytes : delivered u.wire ++ (all_bytes u.spool.dir ++ rest) ≡ input

abbrev pub Inv : List ℕ → List ℕ → Uploader → Type 0
Inv rest input u = Lost u ⊎ Delivering rest input u

-- `Spool::store` of a new chunk at the top.
pub store-Ascending :
    (f : StoreFault) (s : Spool) (lo : ℕ) (b : List ℕ)
    → Ascending lo s.dir s.next_sequence
    → s.next_sequence + 1 ≤ u64_max
    → (store f (allocate_sequence s).0 s.next_sequence chunk b).1 ≡ true
    → (store f (allocate_sequence s).0 s.next_sequence chunk b).0 ≡ record s {
      dir = s.dir ++ (final s.next_sequence chunk, b) ∷ [];
      bytes = saturating_add s.bytes (length b);
      next_sequence = suc s.next_sequence;
    }
unfolding store allocate_sequence
store-Ascending f s lo b h l ok = ground (
  arith,
  has_temporary-Ascending lo s.dir s.next_sequence s.next_sequence chunk h,
  without-Ascending_above lo s.dir s.next_sequence chunk h,
)

-- `Spool::remove` of the oldest chunk.
pub remove-Ascending :
    (f : RemoveFault) (s : Spool) (n : ℕ) (b : List ℕ) (d : Dir)
    → s.dir ≡ (final n chunk, b) ∷ d
    → (remove f s (record { sequence = n; kind = chunk })).1 ≡ true
    → (remove f s (record { sequence = n; kind = chunk })).0.dir ≡ d
unfolding remove
remove-Ascending f s n b d e ok = ground arith

-- The oldest chunk leaves the spool after its acknowledgement, or the log is marked.
acknowledged-Inv :
    (e : Env) (n : ℕ) (b : List ℕ) (d : Dir) (u : Uploader) (rest input : List ℕ)
    → u.spool_open ≡ true
    → Rising u.wire
    → u.spool.dir ≡ (final n chunk, b) ∷ d
    → Ascending (top u.wire) d u.spool.next_sequence
    → delivered u.wire ++ (all_bytes d ++ rest) ≡ input
    → Lost (remove_acknowledged e (record { sequence = n; kind = chunk }) u)
      ⊎ (Delivering rest input (remove_acknowledged e (record { sequence = n; kind = chunk }) u)
          × ((remove_acknowledged e (record { sequence = n; kind = chunk }) u).spool.dir ≡ d))
unfolding remove_acknowledged
acknowledged-Inv e n b d u rest input o r at a i =
    let f = e.remove_fault u.calls in
    let p : PendingChunk = record { sequence = n; kind = chunk } in
    elim (Bool-cases (remove f u.spool p).1) [
      | inr failed ↦ inl (inl (ground arith))
      | inl ok ↦
          (let gone = remove-Ascending f u.spool n b d at ok in
            inr (
              record {
                opened = o;
                rising = r;
                files = rw (gone, remove-next f u.spool p) a;
                bytes = rw gone i;
              },
              gone,
            ))
    ]

module _ (e : Env) (q : ℕ) (b : List ℕ) (d : Dir) (u : Uploader) (rest input : List ℕ) where
  abbrev pub tried : Uploader
  tried = (retry_log e patch q b u).0

  -- The oldest chunk is sent: a failure leaves all as it was, a success moves its bytes.
  pub sent_oldest :
      Delivering rest input u
      → u.spool.dir ≡ (final q chunk, b) ∷ d
      → ((retry_log e patch q b u).1 ≡ true
          → Lost (
              remove_acknowledged e
                (record { sequence = q; kind = chunk })
                (acknowledge chunk q b tried))
            ⊎ (Delivering rest input (
                  remove_acknowledged e
                    (record { sequence = q; kind = chunk })
                    (acknowledge chunk q b tried))
                × ((remove_acknowledged e
                      (record { sequence = q; kind = chunk })
                      (acknowledge chunk q b tried)).spool.dir
                    ≡ d)))
        × ((retry_log e patch q b u).1 ≡ false → Delivering rest input tried)
  sent_oldest del at =
      let same = retry_log-SameSpool e patch q b u in
      let files : Ascending (top u.wire) ((final q chunk, b) ∷ d) u.spool.next_sequence =
        subst (λ (x : Dir). Ascending (top u.wire) x u.spool.next_sequence) at del.files in
      let bytes : delivered u.wire ++ ((b ++ all_bytes d) ++ rest) ≡ input =
        subst (λ (x : Dir). delivered u.wire ++ (all_bytes x ++ rest) ≡ input) at del.bytes in
      let w = retry_log-PatchSent e q b u del.rising files.0 in
      (
        (λ ok.
            acknowledged-Inv e q b d (acknowledge chunk q b tried) rest input
              (same.opened ∙ del.opened) w.rising (ap (λ (s : Spool). s.dir) same.spool ∙ at)
              (rw (rw ok at w.last, same.spool) files.1)
              (rw (rw ok at w.bytes) (simp append_assoc (simp append_assoc at bytes)))),
        (λ ok. record {
          opened = same.opened ∙ del.opened;
          rising = w.rising;
          files = rw (rw ok at w.last, same.spool) del.files;
          bytes = rw (rw ok at w.bytes, same.spool) del.bytes;
        }),
      )

-- `flush_chunk` after the store: the new chunk is sent at once if it is the only one.
pub send_stored-Inv :
    (e : Env) (q : ℕ) (b : List ℕ) (u : Uploader) (rest input : List ℕ)
    → Delivering rest input u
    → u.spool.dir ≡ (final q chunk, b) ∷ []
    → Inv rest input (send_stored e false q b u)
unfolding send_stored
send_stored-Inv e q b u rest input del at =
    let step = sent_oldest e q b [] u rest input del at in
    elim (Bool-cases (retry_log e patch q b u).1) [
      | inl ok ↦ rw (ok, send_stored) (elim (step.0 ok) [ inl l ↦ inl l | inr g ↦ inr g.0 ])
      | inr failed ↦ rw (failed, send_stored) (inr (step.1 failed))
    ]

-- The stored chunk lies at the top of the spool.
pub stored-Delivering :
    (u : Uploader) (c : ℕ) (b rest input : List ℕ) (s : Spool)
    → Delivering (b ++ rest) input u
    → s ≡ record (u.spool) {
      dir = u.spool.dir ++ (final u.spool.next_sequence chunk, b) ∷ [];
      bytes = saturating_add u.spool.bytes (length b);
      next_sequence = suc u.spool.next_sequence;
    }
    → Delivering rest input (record u { spool = s; calls = c })
stored-Delivering u c b rest input s del e = record {
  opened = del.opened;
  rising = del.rising;
  files = rw e (Ascending-append (top u.wire) u.spool.dir u.spool.next_sequence b del.files);
  bytes =
      rw (e, all_bytes-append u.spool.dir (final u.spool.next_sequence chunk) b)
        (simp append_assoc del.bytes);
}
