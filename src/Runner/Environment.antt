-- ===== src/Runner/Environment.antt =====
-- The environment of a job's commands: `execution_environment` of src/runner.rs, with
-- `validate_environment_entry` and `is_loader_variable` of src/config.rs.
use Prim.Native.String.{len, compare}
use text.Mathlib.Text.{starts_with, is_le}
use terrence_agent.Prelude.{
  ℕ, ◌+◌, ◌*◌, String, Bool, false, not, ◌&&◌, ◌||◌, Option, none, some, List, [], ◌∷◌,
  if◌then◌else◌, str_eq, ltb, ◌==◌, codes, is_alphabetic, is_alphanumeric, all_of, length,
  saturating_add,
}
use terrence_agent.Runner.Control.{failed, Result, ok, err}

abbrev pub Variable : Type 0
Variable = String × String

abbrev pub is_loader_variable : String → Bool
is_loader_variable key =
    starts_with key "LD_"
    || (starts_with key "DYLD_"
        || (starts_with key "MALLOC_"
            || (str_eq key "GLIBC_TUNABLES" || (str_eq key "GCONV_PATH" || str_eq key "LOCPATH"))))

abbrev pub is_name_byte : ℕ → Bool
is_name_byte c = c == b'_' || is_alphanumeric c

abbrev pub is_name : List ℕ → Bool
is_name [] = false
is_name (c ∷ s) = (c == b'_' || is_alphabetic c) && all_of is_name_byte s

abbrev pub is_not_zero : ℕ → Bool
is_not_zero c = not (c == 0)

-- Whether `validate_environment_entry` succeeds; the lengths are in bytes.
unfoldable pub validate_environment_entry : Variable → Bool
validate_environment_entry (key, value) =
    not (ltb 256 (len key))
    && (is_name (codes key)
        && (not (ltb (64 * 1024) (len value)) && all_of is_not_zero (codes value)))

-- The names that a job does not set.
unfoldable pub is_reserved : String → Bool
is_reserved key =
    is_loader_variable key
    || (str_eq key "PATH"
        || (str_eq key "HOME"
            || (str_eq key "TMPDIR"
                || (str_eq key "TF_CLI_CONFIG_FILE"
                    || (str_eq key "TF_IN_AUTOMATION" || str_eq key "TERRENCE_ADDRESS")))))

-- `HashMap::insert`, on a list with one entry for each key.
unfoldable pub put : Variable → List Variable → List Variable
put e [] = e ∷ []
put e (d ∷ l) = if str_eq d.0 e.0 then e ∷ l else d ∷ put e l

-- `entry` and `or_insert_with`
unfoldable pub put_new : Variable → List Variable → List Variable
put_new e [] = e ∷ []
put_new e (d ∷ l) = if str_eq d.0 e.0 then d ∷ l else d ∷ put_new e l

unfoldable pub delete : String → List Variable → List Variable
delete key [] = []
delete key (d ∷ l) = if str_eq d.0 key then delete key l else d ∷ delete key l

-- The loop over the variables of the job.
unfoldable pub copy_variables : List Variable → List Variable → Result (List Variable)
copy_variables [] env = ok env
copy_variables (e ∷ l) env =
    let rest = copy_variables l (if is_reserved e.0 then env else put e env) in
    if validate_environment_entry e then rest else err (failed "invalid job environment")

unfoldable pub add_address : Option String → List Variable → Result (List Variable)
add_address none env = ok env
add_address (some address) env =
    if validate_environment_entry ("TERRENCE_ADDRESS", address)
    then ok (put_new ("TERRENCE_ADDRESS", address) env)
    else err (failed "invalid job environment")

-- The provider cache; `cache` is what `ProviderCache::from_env` returns, with the path of a cache.
unfoldable pub apply_cache : Bool → Result (Option String) → List Variable → Result (List Variable)
apply_cache sandbox (err e) env = err e
apply_cache sandbox (ok none) env = ok (delete "TF_PLUGIN_CACHE_DIR" env)
apply_cache sandbox (ok (some root)) env =
    if sandbox
    then ok (put ("TF_PLUGIN_CACHE_DIR", root) (delete "TF_PLUGIN_CACHE_DIR" env))
    else err (failed "Terraform provider cache requires the Landlock sandbox")

unfoldable pub place : Variable → List Variable → List Variable
place e [] = e ∷ []
place e (d ∷ l) = if is_le (compare e.0 d.0) then e ∷ d ∷ l else d ∷ place e l

unfoldable pub sort_values : List Variable → List Variable
sort_values [] = []
sort_values (e ∷ l) = place e (sort_values l)

unfoldable pub total_bytes : List Variable → ℕ
total_bytes [] = 0
total_bytes (e ∷ l) = len e.0 + 1 + len e.1 + 1 + total_bytes l

abbrev pub exceeds_arg_max : Option ℕ → ℕ → Bool
exceeds_arg_max none total = false
exceeds_arg_max (some m) total = ltb 0 m && ltb m (saturating_add total (8 * 1024))

unfoldable pub check_size : Option ℕ → List Variable → Result (List Variable)
check_size arg_max values =
    if ltb 260 (length values) || ltb (512 * 1024) (total_bytes values)
    then err (failed "job environment exceeds the configured size limit")
    else if exceeds_arg_max arg_max (total_bytes values)
    then err (failed "job environment exceeds the host ARG_MAX limit")
    else ok values

abbrev pub then_ok : {A B : Type 0} → Result A → (A → Result B) → Result B
then_ok (ok a) f = f a
then_ok (err e) f = err e

-- `config_file` is the path of the CLI configuration, `arg_max` the host's limit.
unfoldable pub execution_environment :
    List Variable
    → Option String
    → String
    → Bool
    → Result (Option String)
    → Option ℕ
    → Result (List Variable)
execution_environment variables address config_file sandbox cache arg_max =
    if ltb 256 (length variables)
    then err (failed "job environment contains too many variables")
    else then_ok (copy_variables variables []) λ env.
      then_ok (add_address address (put ("TF_CLI_CONFIG_FILE", config_file) env)) λ with_address.
        then_ok (apply_cache sandbox cache with_address)
          λ with_cache. check_size arg_max (sort_values with_cache)
