-- ===== src/Logs/Listing.antt =====
-- `Spool::pending` of src/logs.rs and the order in which `read_dir` lists the files.
use mathlib.Core.HLevel.{hedberg}
use mathlib.Core.Logic.{∥∥₁_elim}
use mathlib.Core.List.{Perm, Permᴰ}
use native.Mathlib.Decide.{ℕ_discrete}
use terrence_agent.Prelude.{
  ℕ, ◌≡◌, refl, ◌∙◌, true, not, ◌&&◌, List, [], ◌∷◌, arith, ltb, ◌==◌, if◌then◌else◌,
}
use terrence_agent.Logs.Spool.{
  ChunkKind, chunk, terminator, final, temporary, foreign, File, Dir, PendingChunk, chunk_leb,
  insert, pending, same_kind,
}

same_chunk : (p q : PendingChunk) → chunk_leb p q ≡ true → chunk_leb q p ≡ true → p ≡ q
unfolding chunk_leb
same_chunk p q a b = go p.sequence q.sequence p.kind q.kind a b
  where
    go :
        (m n : ℕ) (j k : ChunkKind)
        → (if ltb m n then true else (m == n && not (same_kind j terminator && same_kind k chunk)))
          ≡ true
        → (if ltb n m then true else (n == m && not (same_kind k terminator && same_kind j chunk)))
          ≡ true
        → ◌≡◌ {A = PendingChunk}
            (record { sequence = m; kind = j })
            (record { sequence = n; kind = k })
    go m n j k h l = ground arith

insert_comm :
    (p q : PendingChunk) (l : List PendingChunk) → insert p (insert q l) ≡ insert q (insert p l)
unfolding insert
insert_comm p q [] = ground (arith, same_chunk p q)
insert_comm p q (r ∷ l) = ground (arith, same_chunk p q, insert_comm p q l)

-- One more listed file.
listed : File → List PendingChunk → List PendingChunk
listed (final n k, b) l = insert (record { sequence = n; kind = k }) l
listed (temporary n k, b) l = l
listed (foreign n, b) l = l

pending-cons : (f : File) (d : Dir) → pending (f ∷ d) ≡ listed f (pending d)
unfolding pending listed
pending-cons (final n k, b) d = refl
pending-cons (temporary n k, b) d = refl
pending-cons (foreign n, b) d = refl

listed_comm : (f g : File) (l : List PendingChunk) → listed f (listed g l) ≡ listed g (listed f l)
unfolding listed
listed_comm (final n k, b) (final m j, c) l = insert_comm _ _ l
listed_comm (final n k, b) (temporary m j, c) l = refl
listed_comm (final n k, b) (foreign m, c) l = refl
listed_comm (temporary n k, b) g l = refl
listed_comm (foreign n, b) g l = refl

pending-permᴰ : {d d' : Dir} → Permᴰ d d' → pending d ≡ pending d'
pending-permᴰ Permᴰ.nil = refl
pending-permᴰ (Permᴰ.cons {a = f} {b = g} {l₁ = d} {l₂ = d'} e p) =
    rw (pending-cons, pending-cons, pending-permᴰ p, e)
pending-permᴰ (Permᴰ.swap {a = f} {b = g} {a' = g'} {b' = f'} {l = d} e h) =
    simp pending-cons (rw (e, h) (listed_comm f' g' (pending d)))
pending-permᴰ (Permᴰ.trans p q) = pending-permᴰ p ∙ pending-permᴰ q

PendingChunk-discrete : Discrete (List PendingChunk)
PendingChunk-discrete = hlevel ℕ_discrete

-- `read_dir` lists a directory in any order: the pending chunks come out the same, sorted.
pub pending-perm : (d d' : Dir) → Perm d d' → pending d ≡ pending d'
pending-perm d d' p =
    ∥∥₁_elim p (hedberg PendingChunk-discrete (pending d) (pending d')) pending-permᴰ
