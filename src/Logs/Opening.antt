-- ===== src/Logs/Opening.antt =====
-- What `Spool::open` and the quota of src/logs.rs give to a restarted uploader.
use mathlib.Core.Path.{subst}
use terrence_agent.Prelude.{
  ℕ, ◌≤◌, ◌<◌, ◌≡◌, refl, Bool, true, false, Option, some, none, List, [], ◌∷◌, arith, length,
  if◌then◌else◌, u64_max, saturating_add, max,
}
use terrence_agent.Logs.Spool.{
  ChunkKind, final, temporary, foreign, Dir, Spool, StoreFault, content, store, max_spool_bytes,
}
use terrence_agent.Logs.Recovery.{scan, scan_opened, open_spool, recover_temporary_files}

-- Every chunk of the directory has a sequence below `hi`, unless `hi` is the largest u64.
abbrev Below : ℕ → Dir → Type 0
Below hi [] = Unit
Below hi ((final n k, b) ∷ d) = (saturating_add n 1 ≤ hi) × Below hi d
Below hi ((temporary n k, b) ∷ d) = Below hi d
Below hi ((foreign n, b) ∷ d) = Below hi d

scan-Below :
    (d : Dir) (bytes next : ℕ) → Below (scan d bytes next).1 d × (next ≤ (scan d bytes next).1)
unfolding scan
scan-Below [] bytes next = (tt, omega arith)
scan-Below ((final n k, b) ∷ d) bytes next =
    let ih = scan-Below d (saturating_add bytes (length b)) (max next (saturating_add n 1)) in
    ((omega (arith, ih.1), ih.0), omega (arith, ih.1))
scan-Below ((temporary n k, b) ∷ d) bytes next = scan-Below d bytes next
scan-Below ((foreign n, b) ∷ d) bytes next = scan-Below d bytes next

content-Below :
    (d : Dir) (q : ℕ) (k : ChunkKind) → Below q d → q < u64_max → content d (final q k) ≡ none
unfolding content
content-Below [] q k h l = refl
content-Below ((final n j, b) ∷ d) q k h l = ground (arith, content-Below d q k h.1 l)
content-Below ((temporary n j, b) ∷ d) q k h l = content-Below d q k h l
content-Below ((foreign n, b) ∷ d) q k h l = content-Below d q k h l

scan_opened-fresh :
    (o : Option Dir) (s : Spool) (k : ChunkKind)
    → scan_opened o ≡ some s
    → s.next_sequence < u64_max
    → content s.dir (final s.next_sequence k) ≡ none
unfolding scan_opened
scan_opened-fresh none s k h l = cc
scan_opened-fresh (some r) s k h l =
    let scanned : Spool = record {
      dir = r;
      bytes = (scan r 0 1).0;
      next_sequence = (scan r 0 1).1;
    } in
    let same : scanned ≡ s = cc in
    subst
      (λ (t : Spool). t.next_sequence < u64_max → content t.dir (final t.next_sequence k) ≡ none)
      same (content-Below r (scan r 0 1).1 k (scan-Below r 0 1).0) l

-- Whatever a former process left in the directory: the first sequence that a reopened spool hands
-- out names no chunk and no terminator in it, unless the sequence numbers are used up. So a new
-- chunk replaces nothing that still waits for its acknowledgement.
pub open_spool-fresh :
    (io : ℕ → Bool) (d : Dir) (s : Spool) (k : ChunkKind)
    → open_spool io d ≡ some s
    → s.next_sequence < u64_max
    → content s.dir (final s.next_sequence k) ≡ none
unfolding open_spool
open_spool-fresh io d s k h l = go (io 0) h
  where
    go :
        (b : Bool)
        → (if b then scan_opened (recover_temporary_files io 1 d d) else none) ≡ some s
        → content s.dir (final s.next_sequence k) ≡ none
    go false e = cc
    go true e = scan_opened-fresh (recover_temporary_files io 1 d d) s k e l

-- The quota: a store, whatever its outcome, leaves at most `max_spool_bytes` accounted for, if
-- there was no more before.
pub store-le-max :
    (f : StoreFault) (s : Spool) (n : ℕ) (k : ChunkKind) (b : List ℕ)
    → s.bytes ≤ max_spool_bytes
    → (store f s n k b).0.bytes ≤ max_spool_bytes
unfolding store
store-le-max f s n k b h = ground arith
