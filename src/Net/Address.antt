-- ===== src/Net/Address.antt =====
-- Addresses: `is_metadata_ip` and `private_ip_reason` of src/client.rs, and the address part of
-- `private_address_reason` of src/config.rs, with what they use of `std::net`. An octet is below
-- 256 and a segment below 65536; a mask is written as a division.
use terrence_agent.Prelude.{
  ℕ, ◌+◌, ◌*◌, ◌/◌, ◌%◌, ◌<◌, Bool, false, not, ◌&&◌, ◌||◌, Option, none, some, leb, ◌==◌,
  if◌then◌else◌, String, str_eq,
}

pub record Ipv4 : Type 0 where
  pub a : ℕ
  pub b : ℕ
  pub c : ℕ
  pub d : ℕ

pub record Ipv6 : Type 0 where
  pub s0 : ℕ
  pub s1 : ℕ
  pub s2 : ℕ
  pub s3 : ℕ
  pub s4 : ℕ
  pub s5 : ℕ
  pub s6 : ℕ
  pub s7 : ℕ

pub data IpAddr : Type 0 where
  v4 : Ipv4 → IpAddr
  v6 : Ipv6 → IpAddr

-- The reasons, which the source spells as texts.
pub data Reason : Type 0 where
  metadata loopback link_local reserved : Reason

-- `std::net::Ipv4Addr`
abbrev pub is_private : Ipv4 → Bool
is_private i =
    i.a == 10 || ((i.a == 172 && (leb 16 i.b && leb i.b 31)) || (i.a == 192 && i.b == 168))

abbrev pub is_loopback : Ipv4 → Bool
is_loopback i = i.a == 127

abbrev pub is_link_local : Ipv4 → Bool
is_link_local i = i.a == 169 && i.b == 254

abbrev pub is_unspecified : Ipv4 → Bool
is_unspecified i = i.a == 0 && (i.b == 0 && (i.c == 0 && i.d == 0))

abbrev pub is_multicast : Ipv4 → Bool
is_multicast i = leb 224 i.a && leb i.a 239

-- `std::net::Ipv6Addr`; `to_ipv4` reads compatible and mapped addresses.
abbrev pub first_four_zero : Ipv6 → Bool
first_four_zero i = i.s0 == 0 && (i.s1 == 0 && (i.s2 == 0 && i.s3 == 0))

abbrev pub is_unspecified_v6 : Ipv6 → Bool
is_unspecified_v6 i = first_four_zero i && (i.s4 == 0 && (i.s5 == 0 && (i.s6 == 0 && i.s7 == 0)))

abbrev pub is_loopback_v6 : Ipv6 → Bool
is_loopback_v6 i = first_four_zero i && (i.s4 == 0 && (i.s5 == 0 && (i.s6 == 0 && i.s7 == 1)))

abbrev pub is_multicast_v6 : Ipv6 → Bool
is_multicast_v6 i = i.s0 / 256 * 256 == 0xff00

abbrev pub low_v4 : Ipv6 → Ipv4
low_v4 i = record { a = i.s6 / 256; b = i.s6 % 256; c = i.s7 / 256; d = i.s7 % 256 }

unfoldable pub to_ipv4 : Ipv6 → Option Ipv4
to_ipv4 i =
    if first_four_zero i && (i.s4 == 0 && (i.s5 == 0 || i.s5 == 0xffff))
    then some (low_v4 i)
    else none

-- 169.254.169.254 and 100.100.100.200
abbrev pub is_metadata_v4 : Ipv4 → Bool
is_metadata_v4 i =
    (i.a == 169 && (i.b == 254 && (i.c == 169 && i.d == 254)))
    || (i.a == 100 && (i.b == 100 && (i.c == 100 && i.d == 200)))

-- fd00:ec2::254
abbrev is_imds_v6 : Ipv6 → Bool
is_imds_v6 i =
    i.s0 == 0xfd00
    && (i.s1 == 0x0ec2
        && (i.s2 == 0
            && (i.s3 == 0 && (i.s4 == 0 && (i.s5 == 0 && (i.s6 == 0 && i.s7 == 0x0254))))))

abbrev metadata_octets : Option Ipv4 → Bool
metadata_octets none = false
metadata_octets (some i) = is_metadata_v4 i

unfoldable pub is_metadata_ip : IpAddr → Bool
is_metadata_ip (v4 i) = is_metadata_v4 i
is_metadata_ip (v6 i) = metadata_octets (to_ipv4 i) || is_imds_v6 i

abbrev shared_v4 : Ipv4 → Bool
shared_v4 i =
    (i.a == 100 && (leb 64 i.b && leb i.b 127))
    || ((i.a == 192 && (i.b == 0 && i.c == 0)) || leb 240 i.a)

unfoldable pub private_v4_reason : Ipv4 → Option Reason
private_v4_reason i =
    if is_metadata_v4 i
    then some metadata
    else if not (
        is_private i
        || (is_loopback i
            || (is_link_local i || (is_unspecified i || (is_multicast i || shared_v4 i)))))
    then none
    else if is_loopback i
    then some loopback
    else if is_link_local i
    then some link_local
    else some reserved

abbrev reserved_v6 : Ipv6 → Bool
reserved_v6 i =
    is_unspecified_v6 i
    || (is_multicast_v6 i || (i.s0 / 512 * 512 == 0xfc00 || i.s0 / 64 * 64 == 0xfe80))

-- `private_ip_reason`; the call on a mapped address is the case of an IPv4 address.
unfoldable pub private_ip_reason : IpAddr → Option Reason
private_ip_reason (v4 i) = private_v4_reason i
private_ip_reason (v6 i) =
    if is_metadata_ip (v6 i)
    then some metadata
    else if is_loopback_v6 i
    then some loopback
    else (elim (to_ipv4 i) [
      | some m ↦ private_v4_reason m
      | none ↦ if reserved_v6 i then some reserved else none
    ])

abbrev pub is_aws_v4 : Ipv4 → Bool
is_aws_v4 i = i.a == 169 && (i.b == 254 && (i.c == 169 && i.d == 254))

abbrev aws_octets : Option Ipv4 → Bool
aws_octets none = false
aws_octets (some i) = is_aws_v4 i

-- The part of `private_address_reason` of src/config.rs on a host that parses as an address.
unfoldable pub config_ip_reason : IpAddr → Option Reason
config_ip_reason (v4 i) =
    if is_aws_v4 i
    then some metadata
    else if is_loopback i
    then some loopback
    else if is_private i
        || (is_link_local i || (is_unspecified i || (is_multicast i || shared_v4 i)))
    then some reserved
    else none
config_ip_reason (v6 i) =
    if aws_octets (to_ipv4 i)
    then some metadata
    else if is_loopback_v6 i || reserved_v6 i
    then some reserved
    else none

-- `private_address_reason`, on the host in lower case without its final dots, and on the address
-- that the host parses as, if it does.
unfoldable pub private_address_reason : String → Option IpAddr → Option Reason
private_address_reason normalized ip =
    if str_eq normalized "localhost"
    then some loopback
    else if str_eq normalized "metadata.google.internal"
        || str_eq normalized "instance-data.ec2.internal"
    then some metadata
    else (elim ip [ none ↦ none | some a ↦ config_ip_reason a ])

-- The IPv4-mapped form ::ffff:a.b.c.d.
abbrev pub mapped : Ipv4 → Ipv6
mapped i = record {
  s0 = 0;
  s1 = 0;
  s2 = 0;
  s3 = 0;
  s4 = 0;
  s5 = 0xffff;
  s6 = i.a * 256 + i.b;
  s7 = i.c * 256 + i.d;
}

abbrev pub IsOctets : Ipv4 → Type 0
IsOctets i = (i.a < 256) × (i.b < 256) × (i.c < 256) × (i.d < 256)
