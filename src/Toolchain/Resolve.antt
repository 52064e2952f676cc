-- ===== src/Toolchain/Resolve.antt =====
-- `ToolchainResolver::resolve` of src/toolchain.rs, with `cached_binary` and `publish_archive`. What
-- the files, the server and the binaries answer is an argument.
use terrence_agent.Prelude.{
  ℕ, String, Bool, true, false, not, ◌&&◌, ◌||◌, Option, none, some, List, if◌then◌else◌, str_eq,
}
use terrence_agent.Toolchain.Versions.{
  same_codes, versions_match, version_matches, normalize_checksum,
}

pub record Platform : Type 0 where
  pub os : String
  pub arch : String

pub record CacheMetadata : Type 0 where
  pub product : String
  pub version : List ℕ
  pub os : String
  pub arch : String
  pub archive_sha256 : List ℕ
  pub executable_sha256 : List ℕ

-- What `secure_metadata` and the checks on its result find; `insecure` is any of their errors, and
-- `unfit` a node of another kind, or a file that is not executable where that is asked.
pub data CacheNode : Type 0 where
  absent insecure unfit sound : CacheNode

-- An entry of the cache at one inspection: its nodes, its metadata if they can be read, the digest of
-- its executable and the version that this reports.
pub record CacheEntry : Type 0 where
  pub directory : CacheNode
  pub executable : CacheNode
  pub metadata_file : CacheNode
  pub metadata : Option CacheMetadata
  pub digest : Option (List ℕ)
  pub version : Option (List ℕ)

pub data Cached : Type 0 where
  not_cached bad_entry : Cached
  cached : CacheEntry → Cached

abbrev pub is_sound : CacheNode → Bool
is_sound sound = true
is_sound _ = false

abbrev pub has_digest : Option (List ℕ) → List ℕ → Bool
has_digest none expected = false
has_digest (some digest) expected = same_codes digest expected

unfoldable pub is_requested : Platform → String → List ℕ → CacheMetadata → Bool
is_requested platform product checksum m =
    str_eq m.product product
    && (str_eq m.os platform.os
        && (str_eq m.arch platform.arch && same_codes m.archive_sha256 checksum))

unfoldable pub check_metadata :
    Platform → String → List ℕ → List ℕ → CacheEntry → Option CacheMetadata → Cached
check_metadata platform product requested checksum e none = bad_entry
check_metadata platform product requested checksum e (some m) =
    if not (is_requested platform product checksum m)
    then bad_entry
    else if not (has_digest e.digest m.executable_sha256)
    then bad_entry
    else if not (version_matches requested e.version)
    then bad_entry
    else cached e

unfoldable pub check_entry : Platform → String → List ℕ → List ℕ → CacheEntry → Cached
check_entry platform product requested checksum e =
    if is_sound e.executable && is_sound e.metadata_file
    then check_metadata platform product requested checksum e e.metadata
    else bad_entry

unfoldable pub cached_binary : Platform → String → List ℕ → List ℕ → CacheEntry → Cached
cached_binary platform product requested checksum e = elim e.directory [
  | absent ↦ not_cached
  | insecure ↦ bad_entry
  | unfit ↦ bad_entry
  | sound ↦ check_entry platform product requested checksum e
]

-- The calls of a resolution. `release` is what `release_details` returns, `first`, `second` and
-- `third` the cache entry when it is looked at, `archive` the digest of the downloaded archive, and
-- `unpacked` the version that its executable reports, if it could be extracted.
pub record ResolveEnv : Type 0 where
  pub valid_installed : Bool
  pub installed_version : Option (List ℕ)
  pub release : Option (List ℕ)
  pub directories : Bool
  pub first : CacheEntry
  pub locks : Bool
  pub second : CacheEntry
  pub archive : Option (List ℕ)
  pub unpacked : Option (List ℕ)
  pub writes_metadata : Bool
  pub appeared : Bool
  pub renames : Bool
  pub third : CacheEntry

pub data Resolved : Type 0 where
  installed_binary : Resolved
  cache_entry published : CacheEntry → Resolved
  unresolved : Resolved

-- Whether `publish_archive` succeeds.
unfoldable pub publish_archive : List ℕ → Option (List ℕ) → Bool → Bool
publish_archive requested none writes = false
publish_archive requested (some actual) writes = versions_match requested actual && writes

unfoldable pub finish : Cached → Resolved
finish not_cached = unresolved
finish bad_entry = unresolved
finish (cached e) = published e

-- From the download on, under the lock.
unfoldable pub download : Platform → ResolveEnv → String → List ℕ → List ℕ → Resolved
download platform v product requested checksum =
    if not (has_digest v.archive checksum)
    then unresolved
    else if not (publish_archive requested v.unpacked v.writes_metadata)
    then unresolved
    else if v.appeared || not v.renames
    then unresolved
    else finish (cached_binary platform product requested checksum v.third)

unfoldable pub look_again : Platform → ResolveEnv → String → List ℕ → List ℕ → Cached → Resolved
look_again platform v product requested checksum bad_entry = unresolved
look_again platform v product requested checksum (cached e) = cache_entry e
look_again platform v product requested checksum not_cached =
    download platform v product requested checksum

unfoldable pub look_up : Platform → ResolveEnv → String → List ℕ → List ℕ → Cached → Resolved
look_up platform v product requested checksum bad_entry = unresolved
look_up platform v product requested checksum (cached e) = cache_entry e
look_up platform v product requested checksum not_cached =
    if not v.locks
    then unresolved
    else look_again platform v product requested checksum
        (cached_binary platform product requested checksum v.second)

abbrev pub checksum_of : Option (List ℕ) → Option (List ℕ)
checksum_of none = none
checksum_of (some text) = normalize_checksum text

unfoldable pub resolve_checksum :
    Platform → ResolveEnv → String → List ℕ → Option (List ℕ) → Resolved
resolve_checksum platform v product requested none = unresolved
resolve_checksum platform v product requested (some checksum) =
    if not v.directories
    then unresolved
    else look_up platform v product requested checksum
        (cached_binary platform product requested checksum v.first)

-- `resolve`; `installed` tells whether there is an installed binary.
unfoldable pub resolve : Platform → ResolveEnv → Bool → String → List ℕ → Resolved
resolve platform v installed product requested =
    if installed && not v.valid_installed
    then unresolved
    else if installed && version_matches requested v.installed_version
    then installed_binary
    else resolve_checksum platform v product requested (checksum_of v.release)
