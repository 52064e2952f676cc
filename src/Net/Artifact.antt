-- ===== src/Net/Artifact.antt =====
-- The URL policy of src/client.rs: `resolve_url`, `validate_artifact_url` and `validate_dns`. URL
-- parsing, address parsing and name resolution are other code: their results are arguments.
use terrence_agent.Prelude.{
  ℕ, String, Bool, true, false, not, ◌&&◌, ◌||◌, Option, none, some, List, [], ◌∷◌, ◌==◌,
  if◌then◌else◌, str_eq,
}
use terrence_agent.Net.Address.{
  IpAddr, Reason, metadata, loopback, is_metadata_ip, private_ip_reason,
}

-- What the accessors of a parsed `Url` return. `raw_host` is `host`, `host` is `normalized_host`,
-- without final dots and in lower case, `ip` the address that it parses as, and `port` is
-- `port_or_known_default`.
pub record Url : Type 0 where
  pub scheme : String
  pub has_userinfo : Bool
  pub raw_host : Option String
  pub host : Option String
  pub host_has_percent : Bool
  pub ip : Option IpAddr
  pub port : Option ℕ

pub data ClientError : Type 0 where
  unsafe_url dns : ClientError

pub data Result (A : Type 0) : Type 0 where
  ok : A → Result A
  err : ClientError → Result A

-- The fields of `Client` that the policy reads.
pub record Policy : Type 0 where
  pub base_url : Url
  pub artifact_hosts : List String
  pub allow_private_artifacts : Bool
  pub allow_insecure_http : Bool

abbrev is_some : Option String → Bool
is_some none = false
is_some (some a) = true

-- `resolve_url`, on the result of joining the value to the base URL.
unfoldable pub resolve_url : Option Url → Result Url
resolve_url none = err unsafe_url
resolve_url (some url) =
    if url.has_userinfo
    then err unsafe_url
    else if not (str_eq url.scheme "http" || str_eq url.scheme "https")
    then err unsafe_url
    else if not (is_some url.raw_host)
    then err unsafe_url
    else if url.host_has_percent
    then err unsafe_url
    else ok url

abbrev same_host : Option String → Option String → Bool
same_host none none = true
same_host (some a) (some b) = str_eq a b
same_host _ _ = false

abbrev same_port : Option ℕ → Option ℕ → Bool
same_port none none = true
same_port (some a) (some b) = a == b
same_port _ _ = false

unfoldable pub same_origin : Url → Url → Bool
same_origin left right =
    str_eq left.scheme right.scheme
    && (same_host left.raw_host right.raw_host && same_port left.port right.port)

abbrev pub contains : List String → String → Bool
contains [] host = false
contains (h ∷ l) host = str_eq h host || contains l host

unfoldable pub any_metadata : List IpAddr → Bool
any_metadata [] = false
any_metadata (ip ∷ l) = is_metadata_ip ip || any_metadata l

unfoldable pub find_private : List IpAddr → Option Reason
find_private [] = none
find_private (ip ∷ l) = elim (private_ip_reason ip) [ some r ↦ some r | none ↦ find_private l ]

-- `validate_dns` on a host that is an address.
unfoldable pub validate_literal : Bool → IpAddr → Result (List IpAddr)
validate_literal true ip = if is_metadata_ip ip then err unsafe_url else ok (ip ∷ [])
validate_literal false ip = elim (private_ip_reason ip) [
  | some r ↦ err unsafe_url
  | none ↦ ok (ip ∷ [])
]

-- `validate_dns` on the addresses that a name resolves to.
unfoldable pub validate_resolved : Bool → List IpAddr → Result (List IpAddr)
validate_resolved allow_private [] = err dns
validate_resolved allow_private (ip ∷ l) =
    if any_metadata (ip ∷ l)
    then err unsafe_url
    else if allow_private
    then ok (ip ∷ l)
    else (elim (find_private (ip ∷ l)) [ some r ↦ err unsafe_url | none ↦ ok (ip ∷ l) ])

abbrev pub resolved : Bool → Option (List IpAddr) → Result (List IpAddr)
resolved allow_private none = err dns
resolved allow_private (some l) = validate_resolved allow_private l

-- `validate_dns`; `lookup` is what the resolver answers in time, if it does.
unfoldable pub validate_dns : Option (List IpAddr) → Url → Bool → Result (List IpAddr)
validate_dns lookup url allow_private = elim url.raw_host [
  | none ↦ err unsafe_url
  | some host ↦ elim url.ip [
    | some ip ↦ validate_literal allow_private ip
    | none ↦ elim url.port [ none ↦ err dns | some port ↦ resolved allow_private lookup ]
  ]
]

-- `addresses[0]`
abbrev pub first_address : Result (List IpAddr) → Result IpAddr
first_address (err e) = err e
first_address (ok []) = err dns
first_address (ok (ip ∷ l)) = ok ip

-- `literal_private_host_reason`
unfoldable pub literal_private_host_reason : String → Option IpAddr → Option Reason
literal_private_host_reason host ip =
    if str_eq host "localhost"
    then some loopback
    else (elim ip [ none ↦ none | some a ↦ private_ip_reason a ])

abbrev pub is_metadata_reason : Option Reason → Bool
is_metadata_reason (some metadata) = true
is_metadata_reason _ = false

abbrev pub has_reason : Option Reason → Bool
has_reason none = false
has_reason (some r) = true

-- The hosts that the operator trusts: the Terrence origin, and those that were allowed.
unfoldable pub is_trusted : Policy → Url → String → Bool
is_trusted p url host =
    same_origin url p.base_url || (contains p.artifact_hosts host || p.allow_private_artifacts)

unfoldable pub validate_host : Policy → Option (List IpAddr) → Url → String → Result IpAddr
validate_host p lookup url host =
    if not (is_trusted p url host)
    then err unsafe_url
    else if not (str_eq url.scheme "https" || (p.allow_insecure_http && same_origin url p.base_url))
    then err unsafe_url
    else if is_metadata_reason (literal_private_host_reason host url.ip)
        || (has_reason (literal_private_host_reason host url.ip) && not (is_trusted p url host))
    then err unsafe_url
    else first_address (validate_dns lookup url (is_trusted p url host))

unfoldable pub validate_artifact_url : Policy → Option (List IpAddr) → Url → Result IpAddr
validate_artifact_url p lookup url = elim url.host [
  | none ↦ err unsafe_url
  | some host ↦ validate_host p lookup url host
]
