-- ===== src/Toolchain/Tests.antt =====
-- Runs of the models of src/toolchain.rs, and the properties at these runs.
use terrence_agent.Prelude.{ℕ, String, ◌≡◌, refl, true, false, none, some, List, codes}
use terrence_agent.Toolchain.Versions.{
  versions_match, version_matches, normalize_checksum, trim_start, trim_end,
}
use terrence_agent.Toolchain.Resolve.{
  Platform, CacheMetadata, CacheEntry, absent, sound, ResolveEnv, published, resolve,
  resolve_checksum, look_up, look_again, download, publish_archive, finish, cached_binary,
  check_entry, check_metadata, is_requested,
}
use terrence_agent.Toolchain.Checked.{IsResolved, resolve-IsResolved}

versions : versions_match (codes " v1.9.0") (codes "1.9.0\n") ≡ true
unfolding versions_match trim_start trim_end
versions = refl

abbrev platform : Platform
platform = record { os = "linux"; arch = "amd64" }

abbrev sixteen : String
sixteen = "0123456789abcdef"

abbrev checksum : List ℕ
checksum = codes "0123456789abcdef0123456789abcdef0123456789abcdef0123456789abcdef"

abbrev metadata : CacheMetadata
metadata = record {
  product = "terraform";
  version = codes "1.9.0";
  os = "linux";
  arch = "amd64";
  archive_sha256 = checksum;
  executable_sha256 = codes sixteen;
}

abbrev nothing : CacheEntry
nothing = record {
  directory = absent;
  executable = absent;
  metadata_file = absent;
  metadata = none;
  digest = none;
  version = none;
}

abbrev entry : CacheEntry
entry = record {
  directory = sound;
  executable = sound;
  metadata_file = sound;
  metadata = some metadata;
  digest = some (codes sixteen);
  version = some (codes "1.9.0");
}

-- Nothing is cached, and the archive is downloaded and put there.
abbrev env : ResolveEnv
env = record {
  valid_installed = true;
  installed_version = none;
  release = some (codes " 0123456789ABCDEF0123456789abcdef0123456789abcdef0123456789abcdef");
  directories = true;
  first = nothing;
  locks = true;
  second = nothing;
  archive = some checksum;
  unpacked = some (codes "1.9.0");
  writes_metadata = true;
  appeared = false;
  renames = true;
  third = entry;
}

publishes : resolve platform env true "terraform" (codes "1.9.0") ≡ published entry
unfolding resolve version_matches versions_match trim_start trim_end normalize_checksum
    resolve_checksum look_up look_again download publish_archive finish cached_binary check_entry
    check_metadata is_requested
publishes = refl

resolve-IsResolved_example :
    IsResolved platform env true "terraform"
      (codes "1.9.0")
      (resolve platform env true "terraform" (codes "1.9.0"))
resolve-IsResolved_example = resolve-IsResolved platform env true "terraform" (codes "1.9.0")
