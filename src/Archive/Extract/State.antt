-- ===== src/Archive/Extract/State.antt =====
-- What the extraction of src/archive.rs reads and keeps: its limits, the entries of an archive, the
-- outcomes of system calls, and `ExtractionState`.
use terrence_agent.Prelude.{ℕ, ◌*◌, String, Bool, true, false, List}
use terrence_agent.Archive.Tree.{FilePath, Tree}

abbrev pub max_extracted_bytes : ℕ
max_extracted_bytes = 512 * 1024 * 1024

abbrev pub max_archive_entries : ℕ
max_archive_entries = 100000

abbrev pub max_archive_directories : ℕ
max_archive_directories = 50000

abbrev pub max_archive_path_depth : ℕ
max_archive_path_depth = 64

abbrev pub max_archive_path_bytes : ℕ
max_archive_path_bytes = 4 * 1024

abbrev pub max_archive_file_bytes : ℕ
max_archive_file_bytes = 256 * 1024 * 1024

abbrev pub max_gzip_expansion_ratio : ℕ
max_gzip_expansion_ratio = 1000

-- `std::path::Component`
pub data Component : Type 0 where
  normal : String → Component
  cur_dir root_dir prefix_dir parent_dir : Component

-- `extension` stands for the four types of header that are skipped.
pub data EntryType : Type 0 where
  dir_entry regular extension unsupported : EntryType

-- An entry that is read: `path_bytes` is the length of its path, `executable` whether its mode has
-- an execute bit, `reads` what reading it yields, and `complete` whether no read or write fails then.
pub record Entry : Type 0 where
  pub kind : EntryType
  pub path_bytes : ℕ
  pub components : List Component
  pub size : ℕ
  pub executable : Bool
  pub reads : List (List ℕ)
  pub complete : Bool

-- An entry whose header, path or size cannot be read.
pub data Item : Type 0 where
  entry : Entry → Item
  unreadable : Item

pub data CreateFault : Type 0 where
  created not_created not_private : CreateFault

pub record Env : Type 0 where
  pub stats : ℕ → Bool
  pub creates_dir : ℕ → CreateFault
  pub creates_file : ℕ → Bool
  pub syncs : ℕ → Bool

-- `ExtractionState`, with the tree that it works on.
pub record ExtractionState : Type 0 where
  pub destination : FilePath
  pub entries : ℕ
  pub extracted_bytes : ℕ
  pub directories : List FilePath
  pub seen_entries : List FilePath
  pub tree : Tree
  pub calls : ℕ

-- Whether a step succeeded, and the state that it leaves.
abbrev pub Step : Type 0
Step = Bool × ExtractionState

unfoldable pub and_then : Step → (ExtractionState → Step) → Step
and_then (true, s) f = f s
and_then (false, s) f = (false, s)
