-- ===== src/Archive/Extract.antt =====
-- `extract_tar_gz_reader`, `validate_entry_path`, `copy_limited` and `ExtractionState` of
-- src/archive.rs. The decoders are other code: their entries are arguments. Which calls of the
-- operating system succeed is an `Env`, read at a counter.
mod State
unfoldable pub use State.*
use terrence_agent.Prelude.{
  ℕ, ◌+◌, ◌-◌, ◌*◌, String, Bool, true, false, not, ◌&&◌, Option, none, some, List, [], ◌∷◌, ◌++◌,
  length, ltb, leb, if◌then◌else◌, saturating_add, min, u64_max,
}
use terrence_agent.Archive.Tree.{
  FilePath, starts_with, directory, symlink, file, Tree, node_at, contains_path,
}

-- The components below a depth.
unfoldable pub clean_components : ℕ → List Component → Option FilePath
clean_components depth [] = some []
clean_components depth (normal value ∷ l) =
    let rest = clean_components (depth + 1) l in
    if ltb max_archive_path_depth (depth + 1)
    then none
    else (elim rest [ none ↦ none | some clean ↦ some (value ∷ clean) ])
clean_components depth (cur_dir ∷ l) = clean_components depth l
clean_components depth (root_dir ∷ l) = none
clean_components depth (prefix_dir ∷ l) = none
clean_components depth (parent_dir ∷ l) = none

unfoldable pub validate_entry_path : ℕ → List Component → Option FilePath
validate_entry_path path_bytes components =
    if ltb max_archive_path_bytes path_bytes then none else clean_components 0 components

unfoldable pub output_path : ExtractionState → FilePath → Option FilePath
output_path s relative =
    if starts_with (s.destination ++ relative) s.destination
    then some (s.destination ++ relative)
    else none

-- `directories.insert`, with the limit.
unfoldable pub insert_directory : FilePath → ExtractionState → Step
insert_directory relative s = if contains_path s.directories relative then (true, s) else (
  leb (length (relative ∷ s.directories)) max_archive_directories,
  record s { directories = relative ∷ s.directories },
)

unfoldable pub create_directory : Env → FilePath → FilePath → ExtractionState → Step
create_directory e relative output s =
    let made = record s { tree = (output, directory) ∷ s.tree; calls = s.calls + 1 } in
    elim (e.creates_dir s.calls) [
      | created ↦ insert_directory relative made
      | not_created ↦ (false, record s { calls = s.calls + 1 })
      | not_private ↦ (false, made)
    ]

unfoldable pub ensure_directory_path : Env → FilePath → FilePath → ExtractionState → Step
ensure_directory_path e relative output s =
    let s' = record s { calls = s.calls + 1 } in
    if not (e.stats s.calls) then (false, s') else (elim (node_at output s.tree) [
      | some symlink ↦ (false, s')
      | some (file b x) ↦ (false, s')
      | some directory ↦ insert_directory relative s'
      | none ↦ create_directory e relative output s'
    ])

unfoldable pub ensure_path : Env → FilePath → ExtractionState → Step
ensure_path e current s = elim (output_path s current) [
  | none ↦ (false, s)
  | some output ↦ ensure_directory_path e current output s
]

-- The loop of `ensure_parents`, below `current`; the last component is no parent.
unfoldable pub ensure_below : Env → FilePath → FilePath → ExtractionState → Step
ensure_below e current [] s = (true, s)
ensure_below e current (c ∷ []) s = (true, s)
ensure_below e current (c ∷ d ∷ l) s =
    and_then (ensure_path e (current ++ (c ∷ [])) s) (ensure_below e (current ++ (c ∷ [])) (d ∷ l))

unfoldable pub ensure_parents : Env → FilePath → ExtractionState → Step
ensure_parents e relative s = ensure_below e [] relative s

unfoldable pub ensure_directory : Env → FilePath → FilePath → ExtractionState → Step
ensure_directory e relative output s =
    and_then (ensure_parents e relative s) (ensure_directory_path e relative output)

-- `seen_entries.insert`, and the error on a path that was there.
unfoldable pub insert_seen : FilePath → ExtractionState → Step
insert_seen relative s =
    if contains_path s.seen_entries relative
    then (false, s)
    else (true, record s { seen_entries = relative ∷ s.seen_entries })

-- How many bytes were copied, if no error ends the loop, and all that was written.
unfoldable pub copy_limited : ℕ → Bool → List (List ℕ) → ℕ → List ℕ → Option ℕ × List ℕ
copy_limited remaining complete [] total out = (if complete then some total else none, out)
copy_limited remaining complete ([] ∷ cs) total out = (some total, out)
copy_limited remaining complete ((x ∷ c) ∷ cs) total out =
    let rest = copy_limited remaining complete cs (total + length (x ∷ c)) (out ++ (x ∷ c)) in
    if ltb remaining (saturating_add total (length (x ∷ c))) then (none, out) else rest

-- After the copy: the count, and the calls that sync the file and set its mode.
unfoldable pub finish_file : Env → Option ℕ → ExtractionState → Step
finish_file e none s = (false, s)
finish_file e (some written) s = (
  e.syncs s.calls,
  record s { extracted_bytes = saturating_add s.extracted_bytes written; calls = s.calls + 1 },
)

unfoldable pub write_file : Env → Entry → FilePath → ExtractionState → Step
write_file e x output s =
    let (written, bytes) =
      copy_limited (max_extracted_bytes - s.extracted_bytes) x.complete x.reads 0 [] in
    finish_file e written
      (record s { tree = (output, file bytes x.executable) ∷ s.tree; calls = s.calls + 1 })

-- `private_file` creates, and fails on a path that is there.
unfoldable pub create_file : Env → Entry → FilePath → ExtractionState → Step
create_file e x output s = elim (node_at output s.tree) [
  | some n ↦ (false, record s { calls = s.calls + 1 })
  | none ↦
      if e.creates_file s.calls
      then write_file e x output s
      else (false, record s { calls = s.calls + 1 })
]

unfoldable pub extract_file : Env → Entry → FilePath → FilePath → ExtractionState → Step
extract_file e x relative output s =
    if ltb max_extracted_bytes (saturating_add s.extracted_bytes x.size)
    then (false, s)
    else and_then (and_then (ensure_parents e relative s) (insert_seen relative))
        (create_file e x output)

unfoldable pub extract_at : Env → Entry → FilePath → FilePath → ExtractionState → Step
extract_at e x relative output s = elim x.kind [
  | dir_entry ↦ and_then (ensure_directory e relative output s) (insert_seen relative)
  | regular ↦ extract_file e x relative output s
  | extension ↦ (true, s)
  | unsupported ↦ (false, s)
]

unfoldable pub is_extension : EntryType → Bool
is_extension extension = true
is_extension _ = false

unfoldable pub extract_relative : Env → Entry → FilePath → ExtractionState → Step
extract_relative e x [] s = (true, s)
extract_relative e x (c ∷ l) s = elim (output_path s (c ∷ l)) [
  | none ↦ (false, s)
  | some output ↦ extract_at e x (c ∷ l) output s
]

unfoldable pub extract_entry : Env → Entry → ExtractionState → Step
extract_entry e x s =
    let s' = record s { entries = s.entries + 1 } in
    if ltb max_archive_entries s'.entries
    then (false, s')
    else (elim (validate_entry_path x.path_bytes x.components) [
      | none ↦ (false, s')
      | some relative ↦
          if ltb max_archive_file_bytes x.size
          then (false, s')
          else if is_extension x.kind
          then (true, s')
          else extract_relative e x relative s'
    ])

unfoldable pub extract_entries : Env → List Item → ExtractionState → Step
extract_entries e [] s = (true, s)
extract_entries e (unreadable ∷ l) s = (false, s)
extract_entries e (entry x ∷ l) s = and_then (extract_entry e x s) (extract_entries e l)

-- The check after the loop, on the bytes read before and after decompression.
unfoldable pub check_ratio : ℕ → ℕ → ExtractionState → Step
check_ratio compressed decompressed s = (
  not (ltb 0 compressed && ltb (min (compressed * max_gzip_expansion_ratio) u64_max) decompressed),
  s,
)

abbrev pub new_state : FilePath → Tree → ExtractionState
new_state destination tree = record {
  destination = destination;
  entries = 0;
  extracted_bytes = 0;
  directories = [];
  seen_entries = [];
  tree = tree;
  calls = 0;
}

-- `extract_tar_gz_reader`, into a directory that is there.
unfoldable pub extract_tar_gz_reader : Env → List Item → ℕ → ℕ → FilePath → Tree → Step
extract_tar_gz_reader e items compressed decompressed destination tree =
    and_then (extract_entries e items (new_state destination tree))
      (check_ratio compressed decompressed)
