-- ===== src/Logs/Recovery.antt =====
-- `Spool::open` and `recover_temporary_files` of src/logs.rs.
use terrence_agent.Prelude.{
  ℕ, suc, max, Bool, Option, none, some, List, [], ◌∷◌, length, if◌then◌else◌, saturating_add,
}
use terrence_agent.Logs.Spool.{
  ChunkKind, final, temporary, foreign, File, Dir, Spool, has, without, rename,
}

-- A temporary file beside its final file is removed; alone it becomes the final file.
unfoldable pub recover_file : ℕ → ChunkKind → Dir → Dir
unfolding has without rename
recover_file n k d =
    if has d (final n k) then without d (temporary n k) else rename d (temporary n k) (final n k)

-- The walk over the entries that `read_dir` listed; `io` says which calls succeed.
unfoldable pub recover_temporary_files : (ℕ → Bool) → ℕ → List File → Dir → Option Dir
unfolding recover_file
recover_temporary_files io i [] d = some d
recover_temporary_files io i ((final n k, b) ∷ fs) d = recover_temporary_files io (suc i) fs d
recover_temporary_files io i ((foreign n, b) ∷ fs) d = recover_temporary_files io (suc i) fs d
recover_temporary_files io i ((temporary n k, b) ∷ fs) d =
    let rest = recover_temporary_files io (suc i) fs (recover_file n k d) in
    if io i then rest else none

-- The scan over the recovered directory: the bytes on disk, and the first free sequence.
unfoldable pub scan : Dir → ℕ → ℕ → ℕ × ℕ
scan [] bytes next = (bytes, next)
scan ((final n k, b) ∷ d) bytes next =
    scan d (saturating_add bytes (length b)) (max next (saturating_add n 1))
scan ((temporary n k, b) ∷ d) bytes next = scan d bytes next
scan ((foreign n, b) ∷ d) bytes next = scan d bytes next

abbrev spool_of : Dir → ℕ × ℕ → Spool
spool_of d (bytes, next) = record { dir = d; bytes = bytes; next_sequence = next }

unfoldable pub scan_opened : Option Dir → Option Spool
scan_opened none = none
scan_opened (some d) = some (spool_of d (scan d 0 1))

-- `Spool::open`; `io 0` is the creation of the directory and the first listing.
unfoldable pub open_spool : (ℕ → Bool) → Dir → Option Spool
open_spool io d = if io 0 then scan_opened (recover_temporary_files io 1 d d) else none
