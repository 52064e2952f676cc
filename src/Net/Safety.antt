-- ===== src/Net/Safety.antt =====
-- What an accepted artifact URL guarantees, for the URL policy of src/client.rs.
use terrence_agent.Prelude.{
  String, ◌≡◌, ◌⊎◌, inl, inr, Bool, true, false, Option, none, some, List, [], ◌∷◌, arith, str_eq,
  Bool-cases, Option-cases,
}
use terrence_agent.Net.Address.{IpAddr, is_metadata_ip, private_ip_reason}
use terrence_agent.Net.Policy.{private_ip_reason-metadata}
use terrence_agent.Net.Artifact.{
  Url, ok, Policy, same_origin, any_metadata, validate_literal, validate_resolved, validate_dns,
  is_trusted, validate_host, validate_artifact_url, resolved, first_address,
}

public-metadata : (ip : IpAddr) → private_ip_reason ip ≡ none → is_metadata_ip ip ≡ false
public-metadata ip h = elim (Bool-cases (is_metadata_ip ip)) [
  | inl is_meta ↦ (let r = private_ip_reason-metadata ip is_meta in ground arith)
  | inr other ↦ other
]

literal-metadata :
    (b : Bool) (a ip : IpAddr)
    → first_address (validate_literal b a) ≡ ok ip
    → is_metadata_ip ip ≡ false
unfolding validate_literal
literal-metadata true a ip h = ground arith
literal-metadata false a ip h = let p = public-metadata a in ground arith

resolved-metadata :
    (b : Bool) (l : Option (List IpAddr)) (ip : IpAddr)
    → first_address (resolved b l) ≡ ok ip
    → is_metadata_ip ip ≡ false
unfolding validate_resolved any_metadata
resolved-metadata b none ip h = ground arith
resolved-metadata b (some []) ip h = ground arith
resolved-metadata b (some (a ∷ l)) ip h = ground arith

dns-metadata :
    (lookup : Option (List IpAddr)) (url : Url) (b : Bool) (ip : IpAddr)
    → first_address (validate_dns lookup url b) ≡ ok ip
    → is_metadata_ip ip ≡ false
unfolding validate_dns
dns-metadata lookup url b ip h =
    let res = resolved-metadata b lookup ip in
    elim (Option-cases url.ip) [
      | inl name ↦ ground (arith, res)
      | inr found ↦ (let lit = literal-metadata b found.0 ip in ground (arith, lit, found.1))
    ]

-- An accepted artifact URL names a trusted host, is fetched from an address that is no cloud
-- metadata address, and is HTTPS or, if insecure HTTP is allowed, of the server's origin.
pub validate_artifact_url-safe :
    (p : Policy) (lookup : Option (List IpAddr)) (url : Url) (ip : IpAddr)
    → validate_artifact_url p lookup url ≡ ok ip
    → (host : String) × (url.host ≡ some host)
      × (is_trusted p url host ≡ true)
      × (is_metadata_ip ip ≡ false)
      × ((str_eq url.scheme "https" ≡ true)
          ⊎ ((p.allow_insecure_http ≡ true) × (same_origin url p.base_url ≡ true)))
unfolding validate_artifact_url validate_host
validate_artifact_url-safe p lookup url ip h = elim (Option-cases url.host) [
  | inl missing ↦ ground arith
  | inr found ↦
      (let public = dns-metadata lookup url (is_trusted p url found.0) ip in
        (found.0, found.1, ground arith, ground (arith, public), ground arith))
]
