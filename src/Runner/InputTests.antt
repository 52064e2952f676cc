-- ===== src/Runner/InputTests.antt =====
-- Runs of the models of what src/runner.rs and src/protocol.rs read, and the properties at these runs.
use terrence_agent.Prelude.{
  ℕ, String, arith, ◌≡◌, ◌≢◌, ◌≤◌, ◌==◌, length, refl, true, false, some, List, [], ◌∷◌, ◌↔◌, codes,
  if◌then◌else◌,
}
use terrence_agent.Protocol.Job.{has_changes}
use terrence_agent.Protocol.Json.{
  Value, object, array, text, value, no_values, field, no_fields, from_plan, get, as_array,
}
use terrence_agent.Protocol.Counts.{
  tallies, is_changed, any_of_all, from_plan-tallies, has_changes-from_plan,
}
use terrence_agent.Logs.Names.{parse_u64, parse_digits}
use terrence_agent.Runner.Inputs.{
  validate_identifier, split_last, parse_job_timeout, working_directory,
}
use terrence_agent.Runner.Directory.{
  CreateOutcome, made, exists, create, CleanupEnv, is_there, cleanup_path, cleanup_root, cleanup,
  assert_cleanup_target, strip_prefix, remove_checked, remove_dir,
}
use terrence_agent.Runner.Limits.{
  IsLimit, IsPlain, Holds, parse_job_timeout-IsLimit, validate_identifier-IsPlain,
}
use terrence_agent.Runner.Paths.{
  IsNew, create_iff, Removes, cleanup_path-Removes, working_directory_lem,
}
use terrence_agent.Archive.Extract.{normal, cur_dir}

parse_job_timeout-IsLimit_example : IsLimit 7200
unfolding parse_job_timeout split_last parse_u64 parse_digits
parse_job_timeout-IsLimit_example = parse_job_timeout-IsLimit (codes "2h") 7200 refl

validate_identifier-IsPlain_example :
    (codes "run-1" ≢ [])
    × (length (codes "run-1") ≤ 200)
    × (codes "run-1" ≢ b'.' ∷ [])
    × (codes "run-1" ≢ b'.' ∷ b'.' ∷ [])
    × Holds IsPlain (codes "run-1")
unfolding validate_identifier
validate_identifier-IsPlain_example = validate_identifier-IsPlain (codes "run-1") refl

abbrev taken_once : ℕ → CreateOutcome
taken_once n = if n == 0 then exists else made

abbrev name_of : ℕ → String
name_of n = if n == 0 then "first" else "second"

create_iff_example :
    (create name_of taken_once ("runs" ∷ []) 0 8 ≡ some ("runs" ∷ "second" ∷ []))
    ↔ IsNew name_of taken_once ("runs" ∷ []) 0 8 ("runs" ∷ "second" ∷ [])
create_iff_example = create_iff name_of taken_once ("runs" ∷ []) ("runs" ∷ "second" ∷ []) 0 8

create-second : create name_of taken_once ("runs" ∷ []) 0 8 ≡ some ("runs" ∷ "second" ∷ [])
unfolding create
create-second = refl

abbrev run_path : List String
run_path = "runs" ∷ "second" ∷ []

abbrev cleanup_env : CleanupEnv
cleanup_env = record {
  runs = is_there;
  root = some ("runs" ∷ []);
  missing = false;
  canonical = some run_path;
  is_link = some false;
  removes = true;
}

cleanup_path-Removes_example : Removes cleanup_env run_path run_path
unfolding cleanup_path cleanup_root cleanup assert_cleanup_target strip_prefix remove_checked
    remove_dir
cleanup_path-Removes_example = cleanup_path-Removes cleanup_env run_path run_path refl

working_directory_example :
    working_directory ("runs" ∷ []) (normal "app" ∷ cur_dir ∷ normal "net" ∷ [])
    ≡ some ("runs" ∷ "app" ∷ "net" ∷ [])
working_directory_example =
    working_directory_lem ("runs" ∷ []) (normal "app" ∷ cur_dir ∷ normal "net" ∷ [])

abbrev created : Value
created = object (
    field "mode" (text "managed") (
      field "change"
        (object (
          field "actions" (array (value (text "delete") (value (text "create") no_values)))
            no_fields))
        no_fields))

abbrev plan_json : Value
plan_json = object (field "resource_changes" (array (value created no_values)) no_fields)

from_plan-tallies_example :
    from_plan plan_json ≡ tallies (as_array (get "resource_changes" plan_json))
from_plan-tallies_example = from_plan-tallies plan_json

has_changes-from_plan_example :
    has_changes (from_plan plan_json)
    ≡ any_of_all is_changed (as_array (get "resource_changes" plan_json))
unfolding get as_array
has_changes-from_plan_example = has_changes-from_plan plan_json (omega arith)
