-- ===== src/Runner/GivenTests.antt =====
-- Environments of jobs: one that src/protocol.rs reads, and one that src/runner.rs builds.
use terrence_agent.Prelude.{All, ◌*◌, ◌≤◌, ◌≡◌, refl, true, none, some, List, [], ◌∷◌, length}
use terrence_agent.Runner.Control.{ok}
use terrence_agent.Runner.Environment.{
  Variable, validate_environment_entry, is_reserved, put, put_new, delete, copy_variables,
  add_address, apply_cache, place, sort_values, total_bytes, check_size, execution_environment,
}
use terrence_agent.Protocol.Checks.{
  deserialize_environment, deserialize_string_map, visit_map, is_entry, validate_text,
}
use terrence_agent.Protocol.Accepted.{IsAccepted, deserialize_string_map-IsAccepted}
use terrence_agent.Runner.Given.{IsGiven, execution_environment-IsGiven}

abbrev variables : List Variable
variables =
    ("TF_VAR_a", "1")
    ∷ ("LD_PRELOAD", "x.so")
    ∷ ("PATH", "/tmp")
    ∷ ("TF_PLUGIN_CACHE_DIR", "/tmp")
    ∷ []

abbrev values : List Variable
values =
    ("TERRENCE_ADDRESS", "https://host")
    ∷ ("TF_CLI_CONFIG_FILE", "/run/rc")
    ∷ ("TF_PLUGIN_CACHE_DIR", "/cache")
    ∷ ("TF_VAR_a", "1")
    ∷ []

builds :
    execution_environment variables (some "https://host") "/run/rc" true (ok (some "/cache")) none
    ≡ ok values
unfolding execution_environment copy_variables validate_environment_entry is_reserved put
    add_address put_new apply_cache delete check_size sort_values place total_bytes
builds = refl

execution_environment-IsGiven_example :
    All (IsGiven variables (some "https://host") "/run/rc" (ok (some "/cache"))) values
    × (length values ≤ 260)
    × (total_bytes values ≤ 512 * 1024)
execution_environment-IsGiven_example =
    execution_environment-IsGiven variables (some "https://host") "/run/rc" true
      (ok (some "/cache")) none values builds

abbrev sent : List Variable
sent = ("TF_VAR_a", "1") ∷ ("TF_VAR_b", "") ∷ []

parses : deserialize_environment sent ≡ some sent
unfolding deserialize_environment deserialize_string_map visit_map is_entry validate_text
parses = refl

deserialize_string_map-IsAccepted_example :
    (sent ≡ sent) × IsAccepted (record { max_count = 256; environment = true }) sent
unfolding deserialize_environment
deserialize_string_map-IsAccepted_example =
    deserialize_string_map-IsAccepted sent sent 256 true parses
