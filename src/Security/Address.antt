-- ===== src/Security/Address.antt =====
-- src/security.rs: which addresses count as public. An octet is below 2^8 and a segment below 2^16;
-- a test of a segment's upper bits by a mask is written as a division.
pub mod Blocks
use skyport.Prelude.{
  ℕ, ◌/◌, ◌%◌, Bool, not, ◌&&◌, ◌||◌, Option, none, some, leb, ◌==◌, if◌then◌else◌, tests, between,
}

pub record Ipv4 : Type 0 where
  pub a : ℕ
  pub b : ℕ
  pub c : ℕ
  pub d : ℕ

pub record Ipv6 : Type 0 where
  pub s0 : ℕ
  pub s1 : ℕ
  pub s2 : ℕ
  pub s3 : ℕ
  pub s4 : ℕ
  pub s5 : ℕ
  pub s6 : ℕ
  pub s7 : ℕ

pub data IpAddr : Type 0 where
  v4 : Ipv4 → IpAddr
  v6 : Ipv6 → IpAddr

unfoldable pub is_public_ipv4 : Ipv4 → Bool
is_public_ipv4 ip = not (
    a == 0
    || a == 10
    || a == 127
    || (a == 100 && between 64 127 b)
    || (a == 169 && b == 254)
    || (a == 172 && between 16 31 b)
    || (a == 192 && b == 0 && c == 0)
    || (a == 192 && b == 0 && c == 2)
    || (a == 192 && b == 168)
    || (a == 198 && (b == 18 || b == 19))
    || (a == 198 && b == 51 && c == 100)
    || (a == 203 && b == 0 && c == 113)
    || leb 224 a)
  where
    open ip use {a, b, c}

-- the IPv4 address in two segments
abbrev pub embedded : ℕ → ℕ → Ipv4
embedded hi lo = record { a = hi / 256; b = hi % 256; c = lo / 256; d = lo % 256 }

-- `Ipv6Addr::to_ipv4_mapped`: ::ffff:a.b.c.d
unfoldable pub to_ipv4_mapped : Ipv6 → Option Ipv4
to_ipv4_mapped ip =
    if s0 == 0 && s1 == 0 && s2 == 0 && s3 == 0 && s4 == 0 && s5 == 0xffff
    then some (embedded s6 s7)
    else none
  where
    open ip use {s0, s1, s2, s3, s4, s5, s6, s7}

-- `Ipv6Addr::to_ipv4`: ::a.b.c.d and ::ffff:a.b.c.d
unfoldable pub to_ipv4 : Ipv6 → Option Ipv4
to_ipv4 ip =
    if s0 == 0 && s1 == 0 && s2 == 0 && s3 == 0 && s4 == 0 && (s5 == 0 || s5 == 0xffff)
    then some (embedded s6 s7)
    else none
  where
    open ip use {s0, s1, s2, s3, s4, s5, s6, s7}

abbrev pub is_unspecified_v6 : Ipv6 → Bool
is_unspecified_v6 ip =
    ip.s0 == 0
    && ip.s1 == 0
    && ip.s2 == 0
    && ip.s3 == 0
    && ip.s4 == 0
    && ip.s5 == 0
    && ip.s6 == 0
    && ip.s7 == 0

abbrev pub is_loopback_v6 : Ipv6 → Bool
is_loopback_v6 ip =
    ip.s0 == 0
    && ip.s1 == 0
    && ip.s2 == 0
    && ip.s3 == 0
    && ip.s4 == 0
    && ip.s5 == 0
    && ip.s6 == 0
    && ip.s7 == 1

abbrev pub is_loopback_v4 : Ipv4 → Bool
is_loopback_v4 ip = ip.a == 127

-- the tests of `is_public_ipv6` on an address with no IPv4 address at its end
unfoldable pub is_public_native : Ipv6 → Bool
unfolding is_public_ipv4
is_public_native ip =
    if s0 == 0x0064 && s1 == 0xff9b && s2 == 0 && s3 == 0 && s4 == 0 && s5 == 0
    then is_public_ipv4 (embedded s6 s7)
    else if s0 == 0x2002
    then is_public_ipv4 (embedded s1 s2)
    else not (
        is_unspecified_v6 ip
        || is_loopback_v6 ip
        || s0 / 0x100 == 0xff
        || s0 / 0x200 == 0xfc00 / 0x200
        || s0 / 0x40 == 0xfe80 / 0x40
        || (s0 == 0x2001 && s1 == 0x0db8)
        || (s0 == 0x2001 && s1 == 0)
        || (s0 == 0x0100 && s1 / 0x10 == 0))
  where
    open ip use {s0, s1, s2, s3, s4, s5, s6, s7}

unfoldable pub is_public_ipv6 : Ipv6 → Bool
unfolding to_ipv4_mapped to_ipv4 is_public_native
is_public_ipv6 ip = elim (to_ipv4_mapped ip) [
  | some mapped ↦ is_public_ipv4 mapped
  | none ↦ elim (to_ipv4 ip) [
    | some compatible ↦ is_public_ipv4 compatible
    | none ↦ is_public_native ip
  ]
]

unfoldable pub is_public_ip : IpAddr → Bool
unfolding is_public_ipv6
is_public_ip (v4 ip) = is_public_ipv4 ip
is_public_ip (v6 ip) = is_public_ipv6 ip
