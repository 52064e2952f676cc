-- ===== src/Runner/Inputs.antt =====
-- What src/runner.rs reads from a payload: `validate_identifier`, `parse_job_timeout` and
-- `working_directory`. Texts are code points; an identifier or a number of others is refused.
use terrence_agent.Prelude.{
  ℕ, ◌*◌, Bool, true, false, not, ◌&&◌, ◌||◌, Option, none, some, List, [], ◌∷◌, ◌++◌, length,
  if◌then◌else◌, ◌==◌, ltb, min, max, u64_max, codes, is_alphanumeric, all_of,
}
use terrence_agent.Logs.Names.{parse_u64}
use terrence_agent.Protocol.Job.{AgentJobPayload}
use terrence_agent.Archive.Tree.{FilePath}
use terrence_agent.Archive.Extract.{Component, normal, cur_dir, root_dir, prefix_dir, parent_dir}

abbrev pub is_dot : ℕ → Bool
is_dot c = c == b'.'

abbrev pub is_identifier_byte : ℕ → Bool
is_identifier_byte c = is_alphanumeric c || (c == b'-' || (c == b'_' || c == b'.'))

abbrev pub is_empty_text : List ℕ → Bool
is_empty_text [] = true
is_empty_text (c ∷ s) = false

-- Whether `validate_identifier` succeeds.
unfoldable pub validate_identifier : List ℕ → Bool
validate_identifier s = not (
    is_empty_text s
    || (ltb 200 (length s) || (all_of is_dot s || not (all_of is_identifier_byte s))))

unfoldable pub validate_payload_identifiers : AgentJobPayload → Bool
validate_payload_identifiers p =
    validate_identifier (codes p.job_id) && validate_identifier (codes p.details.run_id)

abbrev pub default_job_timeout : ℕ
default_job_timeout = 60 * 60

abbrev pub min_job_timeout : ℕ
min_job_timeout = 1

abbrev pub max_job_timeout : ℕ
max_job_timeout = 7 * 24 * 60 * 60

-- The number before the last byte, and that byte.
unfoldable pub split_last : List ℕ → Option (List ℕ × ℕ)
split_last [] = none
split_last (c ∷ []) = some ([], c)
split_last (c ∷ d ∷ s) = elim (split_last (d ∷ s)) [ none ↦ none | some (a, b) ↦ some (c ∷ a, b) ]

abbrev pub multiplier : ℕ → Option ℕ
multiplier c =
    if c == b'h'
    then some 3600
    else if c == b'm'
    then some 60
    else if c == b's'
    then some 1
    else none

abbrev pub clamp_timeout : ℕ → ℕ
clamp_timeout seconds = min (max seconds min_job_timeout) max_job_timeout

abbrev pub scale_timeout : Option ℕ → ℕ → Option ℕ
scale_timeout none m = none
scale_timeout (some n) m = some (clamp_timeout (min (n * m) u64_max))

-- `parse_job_timeout` on a trimmed text; the result is in seconds.
unfoldable pub parse_job_timeout : List ℕ → Option ℕ
parse_job_timeout [] = some default_job_timeout
parse_job_timeout (c ∷ s) = elim (split_last (c ∷ s)) [
  | none ↦ none
  | some (number, suffix) ↦ elim (multiplier suffix) [
    | none ↦ none
    | some m ↦ scale_timeout (parse_u64 number) m
  ]
]

-- The loop of `working_directory` below `result`.
unfoldable pub push_components : FilePath → List Component → Option FilePath
push_components result [] = some result
push_components result (normal c ∷ l) = push_components (result ++ (c ∷ [])) l
push_components result (cur_dir ∷ l) = push_components result l
push_components result (root_dir ∷ l) = none
push_components result (prefix_dir ∷ l) = none
push_components result (parent_dir ∷ l) = none

-- `working_directory`; an absolute path begins with a root or a prefix.
unfoldable pub working_directory : FilePath → List Component → Option FilePath
working_directory work_dir components = push_components work_dir components
