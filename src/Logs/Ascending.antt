-- ===== src/Logs/Ascending.antt =====
-- Directories that hold chunks in the order of their sequences, as the uploader of src/logs.rs
-- leaves them, and what the spool's operations do to them.
use terrence_agent.Prelude.{
  ℕ, suc, ◌≤◌, ◌<◌, ◌≡◌, refl, false, List, [], ◌∷◌, ◌++◌, arith, append-nil, append_assoc,
}
use terrence_agent.Logs.Spool.{
  ChunkKind, chunk, terminator, Name, final, temporary, foreign, Dir, PendingChunk, content, has,
  without, insert, pending,
}

-- Only chunks, their sequences strictly rising from `lo` and below `hi`.
abbrev pub Ascending : ℕ → Dir → ℕ → Type 0
Ascending lo [] hi = lo ≤ hi
Ascending lo ((final n chunk, b) ∷ d) hi = (lo ≤ n) × Ascending (suc n) d hi
Ascending lo ((final n terminator, b) ∷ d) hi = ⊥
Ascending lo ((temporary n k, b) ∷ d) hi = ⊥
Ascending lo ((foreign n, b) ∷ d) hi = ⊥

-- The bytes of all files, in the directory's order.
abbrev pub all_bytes : Dir → List ℕ
all_bytes [] = []
all_bytes ((n, b) ∷ d) = b ++ all_bytes d

pub le-Ascending : (lo : ℕ) (d : Dir) (hi : ℕ) → Ascending lo d hi → lo ≤ hi
le-Ascending lo [] hi h = h
le-Ascending lo ((final n chunk, b) ∷ d) hi h = omega (arith, le-Ascending (suc n) d hi h.1)
le-Ascending lo ((final n terminator, b) ∷ d) hi h = absurd h
le-Ascending lo ((temporary n k, b) ∷ d) hi h = absurd h
le-Ascending lo ((foreign n, b) ∷ d) hi h = absurd h

pub Ascending-weaken :
    (lo lo' : ℕ) (d : Dir) (hi : ℕ) → lo' ≤ lo → Ascending lo d hi → Ascending lo' d hi
Ascending-weaken lo lo' [] hi l h = omega arith
Ascending-weaken lo lo' ((final n chunk, b) ∷ d) hi l h = (omega arith, h.1)
Ascending-weaken lo lo' ((final n terminator, b) ∷ d) hi l h = h
Ascending-weaken lo lo' ((temporary n k, b) ∷ d) hi l h = h
Ascending-weaken lo lo' ((foreign n, b) ∷ d) hi l h = h

-- A new chunk at the top.
pub Ascending-append :
    (lo : ℕ) (d : Dir) (hi : ℕ) (b : List ℕ)
    → Ascending lo d hi
    → Ascending lo (d ++ (final hi chunk, b) ∷ []) (suc hi)
Ascending-append lo [] hi b h = (h, omega arith)
Ascending-append lo ((final n chunk, c) ∷ d) hi b h = (h.0, Ascending-append (suc n) d hi b h.1)
Ascending-append lo ((final n terminator, c) ∷ d) hi b h = h
Ascending-append lo ((temporary n k, c) ∷ d) hi b h = h
Ascending-append lo ((foreign n, c) ∷ d) hi b h = h

pub all_bytes-append :
    (d : Dir) (n : Name) (b : List ℕ) → all_bytes (d ++ (n, b) ∷ []) ≡ all_bytes d ++ b
all_bytes-append [] n b = append-nil b
all_bytes-append ((m, c) ∷ d) n b = rw (all_bytes-append d n b, append_assoc)

-- What lies above the top is not there.
pub without-Ascending_above :
    (lo : ℕ) (d : Dir) (hi : ℕ) (k : ChunkKind) → Ascending lo d hi → without d (final hi k) ≡ d
unfolding without
without-Ascending_above lo [] hi k h = refl
without-Ascending_above lo ((final n chunk, c) ∷ d) hi k h =
    ground (arith, le-Ascending (suc n) d hi h.1, without-Ascending_above (suc n) d hi k h.1)
without-Ascending_above lo ((final n terminator, c) ∷ d) hi k h = absurd h
without-Ascending_above lo ((temporary n j, c) ∷ d) hi k h = absurd h
without-Ascending_above lo ((foreign n, c) ∷ d) hi k h = absurd h

pub has_temporary-Ascending :
    (lo : ℕ) (d : Dir) (hi n : ℕ) (k : ChunkKind)
    → Ascending lo d hi
    → has d (temporary n k) ≡ false
unfolding has content
has_temporary-Ascending lo [] hi n k h = refl
has_temporary-Ascending lo ((final m chunk, c) ∷ d) hi n k h =
    has_temporary-Ascending (suc m) d hi n k h.1
has_temporary-Ascending lo ((final m terminator, c) ∷ d) hi n k h = absurd h
has_temporary-Ascending lo ((temporary m j, c) ∷ d) hi n k h = absurd h
has_temporary-Ascending lo ((foreign m, c) ∷ d) hi n k h = absurd h

-- The chunks of such a directory, the oldest first.
abbrev pub chunks_of : Dir → List PendingChunk
chunks_of [] = []
chunks_of ((final n k, b) ∷ d) = record { sequence = n; kind = k } ∷ chunks_of d
chunks_of ((temporary n k, b) ∷ d) = chunks_of d
chunks_of ((foreign n, b) ∷ d) = chunks_of d

insert-below :
    (lo : ℕ) (d : Dir) (hi n : ℕ)
    → n < lo
    → Ascending lo d hi
    → insert (record { sequence = n; kind = chunk }) (chunks_of d)
      ≡ record { sequence = n; kind = chunk } ∷ chunks_of d
unfolding insert
insert-below lo [] hi n l h = refl
insert-below lo ((final m chunk, b) ∷ d) hi n l h = ground arith
insert-below lo ((final m terminator, b) ∷ d) hi n l h = absurd h
insert-below lo ((temporary m k, b) ∷ d) hi n l h = absurd h
insert-below lo ((foreign m, b) ∷ d) hi n l h = absurd h

pub pending-Ascending : (lo : ℕ) (d : Dir) (hi : ℕ) → Ascending lo d hi → pending d ≡ chunks_of d
unfolding pending
pending-Ascending lo [] hi h = refl
pending-Ascending lo ((final n chunk, b) ∷ d) hi h =
    rw (pending-Ascending (suc n) d hi h.1) (insert-below (suc n) d hi n (omega arith) h.1)
pending-Ascending lo ((final n terminator, b) ∷ d) hi h = absurd h
pending-Ascending lo ((temporary n k, b) ∷ d) hi h = absurd h
pending-Ascending lo ((foreign n, b) ∷ d) hi h = absurd h
