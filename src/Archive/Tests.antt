-- ===== src/Archive/Tests.antt =====
-- An extraction by src/archive.rs at a concrete input.
use terrence_agent.Prelude.{some, ◌+◌, ◌≤◌, ◌≡◌, refl, true, false, [], ◌∷◌}
use terrence_agent.Archive.Tree.{
  directory, file, Tree, node_at, same_path, starts_with, tree_bytes, contains_path,
}
use terrence_agent.Archive.Extract.{
  normal, cur_dir, regular, Entry, entry, Env, created, max_extracted_bytes, extract_tar_gz_reader,
  extract_entries, extract_entry, validate_entry_path, clean_components, extract_relative,
  extract_at, is_extension, extract_file, ensure_directory, ensure_parents, ensure_below,
  ensure_path, ensure_directory_path, create_directory, insert_directory, insert_seen, create_file,
  write_file, finish_file, copy_limited, check_ratio, and_then, output_path,
}
use terrence_agent.Archive.Below.{IsKept}
use terrence_agent.Archive.Names.{ProperName}
use terrence_agent.Archive.Contained.{extract_tar_gz_reader-kept}
use terrence_agent.Archive.Content.{extract_tar_gz_reader-content}
use terrence_agent.Archive.Limits.{extract_tar_gz_reader-le-max}

abbrev healthy : Env
healthy = record {
  stats = λ n. true;
  creates_dir = λ n. created;
  creates_file = λ n. true;
  syncs = λ n. true;
}

abbrev readme : Entry
readme = record {
  kind = regular;
  path_bytes = 11;
  components = cur_dir ∷ normal "doc" ∷ normal "a.txt" ∷ [];
  size = 3;
  executable = false;
  reads = (1 ∷ 2 ∷ 3 ∷ []) ∷ [];
  complete = true;
}

abbrev before : Tree
before = ("work" ∷ [], directory) ∷ ("etc" ∷ [], file (7 ∷ []) false) ∷ []

abbrev after : Tree
after =
    ("work" ∷ "doc" ∷ "a.txt" ∷ [], file (1 ∷ 2 ∷ 3 ∷ []) false)
    ∷ ("work" ∷ "doc" ∷ [], directory)
    ∷ before

extracts :
    (extract_tar_gz_reader healthy (entry readme ∷ []) 10 20 ("work" ∷ []) before).1.tree ≡ after
unfolding extract_tar_gz_reader extract_entries extract_entry validate_entry_path clean_components
    extract_relative extract_at is_extension extract_file ensure_directory ensure_parents
    ensure_below ensure_path ensure_directory_path create_directory insert_directory insert_seen
    create_file write_file finish_file copy_limited check_ratio and_then output_path node_at
    same_path starts_with contains_path
extracts = refl

extract_tar_gz_reader-kept_example :
    IsKept ProperName
      ("work" ∷ [])
      before
      (extract_tar_gz_reader healthy (entry readme ∷ []) 10 20 ("work" ∷ []) before).1.tree
      ("work" ∷ "doc" ∷ "a.txt" ∷ [])
extract_tar_gz_reader-kept_example =
    extract_tar_gz_reader-kept healthy (entry readme ∷ []) 10 20 ("work" ∷ []) before
      ("work" ∷ "doc" ∷ "a.txt" ∷ []) ((tt, (refl, (refl, tt))), tt)

extract_tar_gz_reader-le-max_example :
    tree_bytes (extract_tar_gz_reader healthy (entry readme ∷ []) 10 20 ("work" ∷ []) before).1.tree
    ≤ tree_bytes before + max_extracted_bytes
extract_tar_gz_reader-le-max_example =
    extract_tar_gz_reader-le-max healthy (entry readme ∷ []) 10 20 ("work" ∷ []) before

succeeds : (extract_tar_gz_reader healthy (entry readme ∷ []) 10 20 ("work" ∷ []) before).0 ≡ true
unfolding extract_tar_gz_reader extract_entries extract_entry validate_entry_path clean_components
    extract_relative extract_at is_extension extract_file ensure_directory ensure_parents
    ensure_below ensure_path ensure_directory_path create_directory insert_directory insert_seen
    create_file write_file finish_file copy_limited check_ratio and_then output_path node_at
    same_path starts_with contains_path
succeeds = refl

readme_path : validate_entry_path readme.path_bytes readme.components ≡ some ("doc" ∷ "a.txt" ∷ [])
unfolding validate_entry_path clean_components
readme_path = refl

extract_tar_gz_reader-content_example :
    node_at
      ("work" ∷ "doc" ∷ "a.txt" ∷ [])
      (extract_tar_gz_reader healthy (entry readme ∷ []) 10 20 ("work" ∷ []) before).1.tree
    ≡ some (file (1 ∷ 2 ∷ 3 ∷ []) false)
extract_tar_gz_reader-content_example =
    extract_tar_gz_reader-content healthy [] [] readme "doc" ("a.txt" ∷ []) 10 20 ("work" ∷ [])
      before refl readme_path succeeds
