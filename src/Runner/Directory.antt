-- ===== src/Runner/Directory.antt =====
-- `RunDirectory` of src/runner.rs, and `assert_cleanup_target`.
use terrence_agent.Prelude.{
  ℕ, zero, suc, ◌+◌, String, Bool, true, false, not, Option, none, some, [], ◌∷◌, ◌++◌,
  if◌then◌else◌, str_eq,
}
use terrence_agent.Archive.Tree.{FilePath}

-- The outcomes of `create_dir` and the permissions of the new directory.
pub data CreateOutcome : Type 0 where
  made exists refused : CreateOutcome

-- The loop of `RunDirectory::create` over the attempts that are left; `name` is the random name of
-- an attempt.
unfoldable pub create : (ℕ → String) → (ℕ → CreateOutcome) → FilePath → ℕ → ℕ → Option FilePath
create name outcome root attempt zero = none
create name outcome root attempt (suc left) = elim (outcome attempt) [
  | made ↦ some (root ++ (name attempt ∷ []))
  | exists ↦ create name outcome root (attempt + 1) left
  | refused ↦ none
]

-- `strip_prefix`
unfoldable pub strip_prefix : FilePath → FilePath → Option FilePath
strip_prefix [] target = some target
strip_prefix (c ∷ root) [] = none
strip_prefix (c ∷ root) (d ∷ target) = if str_eq c d then strip_prefix root target else none

-- What is left of a path within another is one component, and no `..`.
abbrev pub is_one : Option FilePath → Bool
is_one (some (name ∷ [])) = not (str_eq name "..")
is_one _ = false

-- Whether `assert_cleanup_target` succeeds, on paths by their components: below a prefix these are
-- names and `..`.
unfoldable pub assert_cleanup_target : FilePath → FilePath → Bool
assert_cleanup_target root target = is_one (strip_prefix root target)

pub data RootStat : Type 0 where
  is_symlink is_there is_missing no_stat : RootStat

-- What the calls of a cleanup answer: `root` and `canonical` are the resolved paths of the runs
-- directory and of the run's, `none` where that fails, and `missing` where it fails because there is
-- no run directory.
pub record CleanupEnv : Type 0 where
  pub runs : RootStat
  pub root : Option FilePath
  pub missing : Bool
  pub canonical : Option FilePath
  pub is_link : Option Bool
  pub removes : Bool

pub data CleanupResult : Type 0 where
  nothing_there : CleanupResult
  removed : FilePath → CleanupResult
  refused_cleanup : CleanupResult

unfoldable pub remove_dir : CleanupEnv → FilePath → CleanupResult
remove_dir e path = if e.removes then removed path else refused_cleanup

unfoldable pub remove_checked : CleanupEnv → FilePath → Option Bool → CleanupResult
remove_checked e path none = refused_cleanup
remove_checked e path (some true) = refused_cleanup
remove_checked e path (some false) = remove_dir e path

unfoldable pub cleanup : CleanupEnv → FilePath → FilePath → CleanupResult
cleanup e root path =
    if not (assert_cleanup_target root path) then refused_cleanup else (elim e.canonical [
      | none ↦ if e.missing then nothing_there else refused_cleanup
      | some canonical ↦
          if not (assert_cleanup_target root canonical)
          then refused_cleanup
          else remove_checked e path e.is_link
    ])

unfoldable pub cleanup_root : CleanupEnv → FilePath → CleanupResult
cleanup_root e path = elim e.root [ none ↦ refused_cleanup | some root ↦ cleanup e root path ]

unfoldable pub cleanup_path : CleanupEnv → FilePath → CleanupResult
cleanup_path e path = elim e.runs [
  | is_symlink ↦ refused_cleanup
  | is_missing ↦ nothing_there
  | no_stat ↦ refused_cleanup
  | is_there ↦ cleanup_root e path
]
