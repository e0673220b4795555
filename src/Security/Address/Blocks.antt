-- ===== src/Security/Address/Blocks.antt =====
-- src/security.rs: the octet tests against the address blocks that they stand for.
use skyport.Prelude.{
  ℕ, ◌+◌, ◌-◌, ◌*◌, ◌/◌, ◌^◌, ◌<◌, ◌≡◌, refl, Bool, not, ◌&&◌, ◌||◌, arith, leb, ◌==◌, between,
}
use skyport.Security.Address.{Ipv4, is_public_ipv4, is_public_ipv6, embedded}

-- An address as a 32-bit number, and a block by its base and the number of its fixed bits.
abbrev pub to_u32 : Ipv4 → ℕ
to_u32 ip = ((ip.a * 256 + ip.b) * 256 + ip.c) * 256 + ip.d

abbrev pub ipv4 : ℕ → ℕ → ℕ → ℕ → Ipv4
ipv4 a b c d = record { a = a; b = b; c = c; d = d }

abbrev pub in_block : Ipv4 → ℕ → Ipv4 → Bool
in_block base bits ip = to_u32 ip / 2 ^ (32 - bits) == to_u32 base / 2 ^ (32 - bits)

-- The blocks of the IANA special-purpose registry that the source keeps out, with multicast and
-- the reserved class E as one.
abbrev pub is_reserved : Ipv4 → Bool
is_reserved ip =
    in_block (ipv4 0 0 0 0) 8 ip
    || in_block (ipv4 10 0 0 0) 8 ip
    || in_block (ipv4 127 0 0 0) 8 ip
    || in_block (ipv4 100 64 0 0) 10 ip
    || in_block (ipv4 169 254 0 0) 16 ip
    || in_block (ipv4 172 16 0 0) 12 ip
    || in_block (ipv4 192 0 0 0) 24 ip
    || in_block (ipv4 192 0 2 0) 24 ip
    || in_block (ipv4 192 168 0 0) 16 ip
    || in_block (ipv4 198 18 0 0) 15 ip
    || in_block (ipv4 198 51 100 0) 24 ip
    || in_block (ipv4 203 0 113 0) 24 ip
    || in_block (ipv4 224 0 0 0) 3 ip

pub record IsIpv4 (ip : Ipv4) : Type 0 where
  pub a : ip.a < 256
  pub b : ip.b < 256
  pub c : ip.c < 256
  pub d : ip.d < 256

module _ (ip : Ipv4) (h : IsIpv4 ip) where
  upper-8 : to_u32 ip / 2 ^ 24 ≡ ip.a
  upper-8 = omega (arith, h)

  upper-16 : to_u32 ip / 2 ^ 16 ≡ ip.a * 256 + ip.b
  upper-16 = omega (arith, h)

  upper-24 : to_u32 ip / 2 ^ 8 ≡ (ip.a * 256 + ip.b) * 256 + ip.c
  upper-24 = omega (arith, h)

  block-8 : (n : ℕ) → in_block (ipv4 n 0 0 0) 8 ip ≡ (ip.a == n)
  block-8 n = ground (arith, h, upper-8)

  block-16 : (m n : ℕ) → n < 256 → in_block (ipv4 m n 0 0) 16 ip ≡ (ip.a == m && ip.b == n)
  block-16 m n fits = ground (arith, h, upper-16)

  block-24 :
      (l m n : ℕ)
      → m < 256
      → n < 256
      → in_block (ipv4 l m n 0) 24 ip ≡ (ip.a == l && ip.b == m && ip.c == n)
  block-24 l m n fits fits' = ground (arith, h, upper-24)

  block-shared : in_block (ipv4 100 64 0 0) 10 ip ≡ (ip.a == 100 && between 64 127 ip.b)
  block-shared = ground (arith, h)

  block-private : in_block (ipv4 172 16 0 0) 12 ip ≡ (ip.a == 172 && between 16 31 ip.b)
  block-private = ground (arith, h)

  block-benchmark : in_block (ipv4 198 18 0 0) 15 ip ≡ (ip.a == 198 && (ip.b == 18 || ip.b == 19))
  block-benchmark = ground (arith, h)

  block-upper : in_block (ipv4 224 0 0 0) 3 ip ≡ leb 224 ip.a
  block-upper = ground (arith, h)

  -- An IPv4 address counts as public exactly when it lies in none of the reserved blocks.
  pub is_public_ipv4-is_reserved : is_public_ipv4 ip ≡ not (is_reserved ip)
  unfolding is_public_ipv4
  is_public_ipv4-is_reserved = rw (
    block-8 0,
    block-8 10,
    block-8 127,
    block-shared,
    block-16 169 254 (omega arith),
    block-private,
    block-24 192 0 0 (omega arith) (omega arith),
    block-24 192 0 2 (omega arith) (omega arith),
    block-16 192 168 (omega arith),
    block-benchmark,
    block-24 198 51 100 (omega arith) (omega arith),
    block-24 203 0 113 (omega arith) (omega arith),
    block-upper,
  )

-- The IPv6 forms that carry an IPv4 address are judged by that address: mapped, compatible, the
-- NAT64 prefix 64:ff9b::/96 and the 6to4 prefix 2002::/16.
pub is_public_ipv6-embedded :
    (hi lo r3 r4 r5 r6 r7 : ℕ)
    → let v6 = λ (a b c d e f g k : ℕ).
      is_public_ipv6 (record { s0 = a; s1 = b; s2 = c; s3 = d; s4 = e; s5 = f; s6 = g; s7 = k }) in
      let judged = is_public_ipv4 (embedded hi lo) in
      (v6 0 0 0 0 0 0xffff hi lo ≡ judged)
      × (v6 0 0 0 0 0 0 hi lo ≡ judged)
      × (v6 0x64 0xff9b 0 0 0 0 hi lo ≡ judged)
      × (v6 0x2002 hi lo r3 r4 r5 r6 r7 ≡ judged)
unfolding is_public_ipv6
is_public_ipv6-embedded hi lo r3 r4 r5 r6 r7 = (refl, refl, refl, refl)
