-- ===== src/Logs/Spool.antt =====
-- The durable spool of src/logs.rs: a directory of log chunks that wait for an acknowledgement.
-- A file name that `parse_name` reads is a `Name`; Logs/Names.antt has the text of such names.
-- The outcome of a file-system call is an argument (`StoreFault`, `RemoveFault`, `Bool`).
use terrence_agent.Prelude.{
  ℕ, Bool, true, false, not, ◌&&◌, Option, none, some, List, [], ◌∷◌, ◌++◌, length, take, ltb, ◌==◌,
  if◌then◌else◌, saturating_add, saturating_sub, ◌*◌,
}

pub data ChunkKind : Type 0 where
  chunk terminator : ChunkKind

-- `{sequence:020}.{suffix}`, `.{sequence:020}.{suffix}.tmp`, and every other name.
pub data Name : Type 0 where
  final : ℕ → ChunkKind → Name
  temporary : ℕ → ChunkKind → Name
  foreign : ℕ → Name

-- A file's name and its bytes.
abbrev pub File : Type 0
File = Name × List ℕ

abbrev pub Dir : Type 0
Dir = List File

pub record PendingChunk : Type 0 where
  pub sequence : ℕ
  pub kind : ChunkKind

pub record Spool : Type 0 where
  pub dir : Dir
  pub bytes : ℕ
  pub next_sequence : ℕ

abbrev pub max_spool_bytes : ℕ
max_spool_bytes = 64 * 1024 * 1024

abbrev pub same_kind : ChunkKind → ChunkKind → Bool
same_kind chunk chunk = true
same_kind chunk terminator = false
same_kind terminator chunk = false
same_kind terminator terminator = true

abbrev pub same_name : Name → Name → Bool
same_name (final a j) (final b k) = a == b && same_kind j k
same_name (temporary a j) (temporary b k) = a == b && same_kind j k
same_name (foreign a) (foreign b) = a == b
same_name _ _ = false

-- The directory's operations: names are unique in it, so the first file that fits is the file.
unfoldable pub content : Dir → Name → Option (List ℕ)
content [] n = none
content ((m, b) ∷ d) n = if same_name m n then some b else content d n

unfoldable pub has : Dir → Name → Bool
unfolding content
has d n = elim (content d n) [ none ↦ false | some b ↦ true ]

unfoldable pub without : Dir → Name → Dir
without [] n = []
without ((m, b) ∷ d) n = if same_name m n then d else (m, b) ∷ without d n

-- A rename onto an existing file replaces it.
unfoldable pub rename : Dir → Name → Name → Dir
unfolding without content
rename d old new = elim (content d old) [
  | none ↦ d
  | some b ↦ without (without d old) new ++ (new, b) ∷ []
]

-- The derived order of `PendingChunk`: the sequence, then the kind. The path is a function of both.
unfoldable pub chunk_leb : PendingChunk → PendingChunk → Bool
chunk_leb p q =
    if ltb p.sequence q.sequence
    then true
    else p.sequence == q.sequence && not (same_kind p.kind terminator && same_kind q.kind chunk)

unfoldable pub insert : PendingChunk → List PendingChunk → List PendingChunk
unfolding chunk_leb
insert p [] = p ∷ []
insert p (q ∷ l) = if chunk_leb p q then p ∷ q ∷ l else q ∷ insert p l

unfoldable pub sort : List PendingChunk → List PendingChunk
unfolding insert
sort [] = []
sort (p ∷ l) = insert p (sort l)

unfoldable pub pending_files : Dir → List PendingChunk
pending_files [] = []
pending_files ((final n k, b) ∷ d) = record { sequence = n; kind = k } ∷ pending_files d
pending_files ((temporary n k, b) ∷ d) = pending_files d
pending_files ((foreign n, b) ∷ d) = pending_files d

-- `Spool::pending`, where the directory can be read.
unfoldable pub pending : Dir → List PendingChunk
unfolding pending_files sort
pending d = sort (pending_files d)

-- Where `Spool::store` stops: a write that fails leaves part of the temporary file.
pub data StoreFault : Type 0 where
  stored not_created not_renamed : StoreFault
  not_written : ℕ → StoreFault

abbrev pub with_file : Spool → Name → List ℕ → Spool
with_file s n b = record s { dir = s.dir ++ (n, b) ∷ [] }

unfoldable pub write_file : StoreFault → Spool → ℕ → ChunkKind → List ℕ → Spool × Bool
unfolding without
write_file not_created s n k b = (s, false)
write_file (not_written w) s n k b = (with_file s (temporary n k) (take w b), false)
write_file not_renamed s n k b = (with_file s (temporary n k) b, false)
write_file stored s n k b = (
  record s {
    dir = without s.dir (final n k) ++ (final n k, b) ∷ [];
    bytes = saturating_add s.bytes (length b);
  },
  true,
)

-- `Spool::store`: the quota, `create_new` on the temporary file, the write and the rename.
unfoldable pub store : StoreFault → Spool → ℕ → ChunkKind → List ℕ → Spool × Bool
unfolding has write_file
store f s n k b =
    if ltb max_spool_bytes (saturating_add s.bytes (length b))
    then (s, false)
    else if has s.dir (temporary n k)
    then (s, false)
    else write_file f s n k b

-- `removed_unsized`: the size could not be read, and counts as 0.
pub data RemoveFault : Type 0 where
  removed removed_unsized not_removed : RemoveFault

abbrev pub size_of : Option (List ℕ) → ℕ
size_of none = 0
size_of (some b) = length b

-- `Spool::remove`: a file that is not there is no error.
unfoldable pub remove : RemoveFault → Spool → PendingChunk → Spool × Bool
unfolding content without
remove not_removed s p = elim (content s.dir (final p.sequence p.kind)) [
  | none ↦ (s, true)
  | some b ↦ (s, false)
]
remove removed_unsized s p = (record s { dir = without s.dir (final p.sequence p.kind) }, true)
remove removed s p = (
  record s {
    dir = without s.dir (final p.sequence p.kind);
    bytes = saturating_sub s.bytes (size_of (content s.dir (final p.sequence p.kind)));
  },
  true,
)

-- `Spool::allocate_sequence`
unfoldable pub allocate_sequence : Spool → Spool × ℕ
allocate_sequence s =
    (record s { next_sequence = saturating_add s.next_sequence 1 }, s.next_sequence)

-- `Spool::is_empty`
unfoldable pub is_empty : Spool → Bool
is_empty s = s.bytes == 0
