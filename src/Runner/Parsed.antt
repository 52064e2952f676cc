-- ===== src/Runner/Parsed.antt =====
-- The environment of a payload that src/protocol.rs accepts, in src/runner.rs.
use terrence_agent.Prelude.{String, true}
use terrence_agent.Protocol.Checks.{Strings, max_environment_count}

abbrev settings : Strings
settings = record { max_count = max_environment_count; environment = true }
