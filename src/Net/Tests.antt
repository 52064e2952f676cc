-- ===== src/Net/Tests.antt =====
-- The address checks, the URL policy and the downloads of src/client.rs and src/config.rs at
-- concrete inputs.
use terrence_agent.Prelude.{
  String, ◌≡◌, ◌↔◌, ◌⊎◌, refl, true, false, none, some, [], ◌∷◌, arith, str_eq,
}
use terrence_agent.Net.Address.{
  Ipv4, v4, v6, is_metadata_ip, private_v4_reason, private_ip_reason, config_ip_reason, mapped,
  is_aws_v4,
}
use terrence_agent.Net.Policy.{config_ip_reason-v4, mapped-reasons}
use terrence_agent.Net.Artifact.{
  Url, ok, Policy, same_origin, any_metadata, validate_resolved, validate_dns, is_trusted,
  validate_host, validate_artifact_url, literal_private_host_reason,
}
use terrence_agent.Prelude.{
  ◌≤◌, zero, suc, drop, length, append-nil, inl, inr, List, ℕ, [], ◌∷◌, arith, true, false, none,
  some, refl,
}
use terrence_agent.Net.Download.{
  Response, response, Server, downloaded, max_artifact_bytes, range_of, kept, is_bad_range, receive,
  finish_body, read_body, on_response, on_exchange, attempt_download, get_artifact_retry,
}
use terrence_agent.Net.Honest.{IsHonest, get_artifact_retry-honest, get_artifact_retry-le-max}
use terrence_agent.Net.Recovers.{IsReliable, IsWhole, get_artifact_retry-recovers}
use terrence_agent.Prelude.{Option}
use terrence_agent.Net.File.{Disk, saved, get_artifact_file}
use terrence_agent.Net.Refines.{IsHealthy, get_artifact_file-get_artifact_retry}
use terrence_agent.Net.FileBounds.{Fits, left_bytes, get_artifact_file-Fits}
use terrence_agent.Net.Misplaced.{broken_off, part_from}
use terrence_agent.Net.Safety.{validate_artifact_url-safe}

abbrev ten : Ipv4
ten = record { a = 10; b = 0; c = 0; d = 1 }

abbrev aws : Ipv4
aws = record { a = 169; b = 254; c = 169; d = 254 }

mapped-reasons_example :
    (private_ip_reason (v6 (mapped ten)) ≡ private_v4_reason ten)
    × (is_aws_v4 ten ≡ false → config_ip_reason (v6 (mapped ten)) ≡ none)
mapped-reasons_example = mapped-reasons ten (omega arith, omega arith, omega arith, omega arith)

config_ip_reason-v4_example :
    (config_ip_reason (v4 ten) ≡ none) ↔ (private_ip_reason (v4 ten) ≡ none)
config_ip_reason-v4_example = config_ip_reason-v4 ten

abbrev server : Url
server = record {
  scheme = "https";
  has_userinfo = false;
  raw_host = some "terrence.example";
  host = some "terrence.example";
  host_has_percent = false;
  ip = none;
  port = some 443;
}

abbrev store_url : Url
store_url = record server { raw_host = some "objects.example"; host = some "objects.example" }

abbrev trusting : Policy
trusting = record {
  base_url = server;
  artifact_hosts = "objects.example" ∷ [];
  allow_private_artifacts = false;
  allow_insecure_http = false;
}

accepts : validate_artifact_url trusting (some (v4 ten ∷ [])) store_url ≡ ok (v4 ten)
unfolding validate_artifact_url validate_host is_trusted same_origin literal_private_host_reason
    validate_dns validate_resolved any_metadata is_metadata_ip
accepts = refl

validate_artifact_url-safe_example :
    (host : String) × (some "objects.example" ≡ some host)
    × (is_trusted trusting store_url host ≡ true)
    × (is_metadata_ip (v4 ten) ≡ false)
    × ((str_eq "https" "https" ≡ true) ⊎ ((false ≡ true) × (same_origin store_url server ≡ true)))
validate_artifact_url-safe_example =
    validate_artifact_url-safe trusting (some (v4 ten ∷ [])) store_url (v4 ten) accepts

abbrev artifact : List ℕ
artifact = 1 ∷ 2 ∷ 3 ∷ []

abbrev whole : Response
whole = record {
  status = 200;
  range_start = none;
  content_length = none;
  chunks = artifact ∷ [];
  complete = true;
}

-- The first body breaks off, and the rest is fetched by its range.
abbrev flaky : Server
flaky zero asked = response (record whole { chunks = (1 ∷ 2 ∷ []) ∷ []; complete = false })
flaky (suc a) none = response whole
flaky (suc a) (some n) =
    response (record whole { status = 206; range_start = some n; chunks = drop n artifact ∷ [] })

flaky-IsHonest : IsHonest artifact flaky
flaky-IsHonest zero asked = λ fine. (inl (refl, (3 ∷ [], refl, λ h. ground arith)), λ h. refl)
flaky-IsHonest (suc a) none = λ fine. (inl (refl, ([], refl, λ h. refl)), λ h. refl)
flaky-IsHonest (suc a) (some n) = λ fine.
    (inr (n, refl, refl, ([], rw (append-nil, append-nil) refl, λ h. refl)), λ h. ground arith)

resumes : get_artifact_retry flaky ≡ downloaded artifact
unfolding get_artifact_retry attempt_download on_exchange on_response read_body finish_body receive
    kept is_bad_range range_of
resumes = refl

get_artifact_retry-honest_example : artifact ≡ artifact
get_artifact_retry-honest_example =
    get_artifact_retry-honest artifact flaky artifact flaky-IsHonest resumes

get_artifact_retry-le-max_example : length artifact ≤ max_artifact_bytes
get_artifact_retry-le-max_example = get_artifact_retry-le-max flaky artifact resumes

flaky-IsReliable : IsReliable artifact flaky
flaky-IsReliable zero asked =
    inr (refl, inl (refl, (3 ∷ [], refl, λ h. ground arith), λ m h. ground arith))
flaky-IsReliable (suc a) none = inr (refl, inl (refl, ([], refl, λ h. refl), λ m h. ground arith))
flaky-IsReliable (suc a) (some n) = inr (
  refl,
  inr (n, refl, refl, refl, ([], rw (append-nil, append-nil) refl, λ h. refl), λ m h. ground arith),
)

flaky-IsWhole : (asked : Option ℕ) → IsWhole (flaky 2 asked)
flaky-IsWhole none = (refl, refl)
flaky-IsWhole (some n) = (refl, refl)

get_artifact_retry-recovers_example : get_artifact_retry flaky ≡ downloaded artifact
get_artifact_retry-recovers_example =
    get_artifact_retry-recovers artifact flaky (omega arith) flaky-IsReliable flaky-IsWhole

abbrev disk : Disk
disk = record { opens = λ a. true; syncs = λ a. true; torn = λ a i. none }

disk-IsHealthy : IsHealthy disk
disk-IsHealthy = record { opens = λ a. refl; syncs = λ a. refl; whole = λ a i. refl }

get_artifact_file-get_artifact_retry_example : get_artifact_file flaky disk none ≡ saved artifact
get_artifact_file-get_artifact_retry_example =
    get_artifact_file-get_artifact_retry flaky disk none artifact disk-IsHealthy refl resumes

get_artifact_file-Fits_example : Fits (left_bytes (get_artifact_file flaky disk (some artifact)))
get_artifact_file-Fits_example = get_artifact_file-Fits flaky disk (some artifact) (omega arith)

-- The second answer starts at the first byte again.
abbrev careless : Server
careless zero asked = response (broken_off (1 ∷ 2 ∷ []))
careless (suc a) asked = response (part_from 0 artifact)
