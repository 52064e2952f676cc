-- ===== src/Net/Policy.antt =====
-- How the two address checks, of src/client.rs and src/config.rs, agree and differ.
use terrence_agent.Prelude.{◌≡◌, ◌↔◌, true, false, none, some, arith}
use terrence_agent.Net.Address.{
  Ipv4, IpAddr, v4, v6, metadata, to_ipv4, is_metadata_ip, private_v4_reason, private_ip_reason,
  config_ip_reason, mapped, IsOctets, is_aws_v4,
}

-- A metadata address of any form is refused as such wherever private addresses are.
pub private_ip_reason-metadata :
    (ip : IpAddr) → is_metadata_ip ip ≡ true → private_ip_reason ip ≡ some metadata
unfolding private_ip_reason private_v4_reason is_metadata_ip
private_ip_reason-metadata (v4 i) h = ground arith
private_ip_reason-metadata (v6 i) h = ground arith

-- An IPv4 address passes the check of the configuration exactly if it passes the client's.
pub config_ip_reason-v4 :
    (i : Ipv4) → (config_ip_reason (v4 i) ≡ none) ↔ (private_ip_reason (v4 i) ≡ none)
unfolding config_ip_reason private_ip_reason private_v4_reason
config_ip_reason-v4 i = ((λ h. ground arith), (λ h. ground arith))

to_ipv4-mapped : (i : Ipv4) → IsOctets i → to_ipv4 (mapped i) ≡ some i
unfolding to_ipv4
to_ipv4-mapped i h = ground arith

-- The client judges an IPv4-mapped address as the IPv4 address that it stands for; the check of
-- the configuration lets every IPv4-mapped address but 169.254.169.254 pass, those of private and
-- loopback addresses among them.
pub mapped-reasons :
    (i : Ipv4)
    → IsOctets i
    → (private_ip_reason (v6 (mapped i)) ≡ private_v4_reason i)
      × (is_aws_v4 i ≡ false → config_ip_reason (v6 (mapped i)) ≡ none)
unfolding private_ip_reason config_ip_reason is_metadata_ip private_v4_reason
mapped-reasons i h = (ground (arith, to_ipv4-mapped i h), λ aws. ground (arith, to_ipv4-mapped i h))
