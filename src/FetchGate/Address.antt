-- ===== src/FetchGate/Address.antt =====
-- src/fetch_gate.rs, the address check, with the `std::net` methods that it calls.
use Prim.Native.Nat.{bit_and}
use hellohq_wasm_runtime.Prelude.{
  ℕ, ◌/◌, ◌%◌, Bool, true, false, ◌&&◌, ◌||◌, Option, none, some, ◌==◌, within, if◌then◌else◌,
}

-- `Ipv4Addr`, by its octets.
pub record Ipv4Addr : Type 0 where
  pub b0 : ℕ
  pub b1 : ℕ
  pub b2 : ℕ
  pub b3 : ℕ

-- `Ipv6Addr`, by its segments.
pub record Ipv6Addr : Type 0 where
  pub s0 : ℕ
  pub s1 : ℕ
  pub s2 : ℕ
  pub s3 : ℕ
  pub s4 : ℕ
  pub s5 : ℕ
  pub s6 : ℕ
  pub s7 : ℕ

pub data IpAddr : Type 0 where
  v4 : Ipv4Addr → IpAddr
  v6 : Ipv6Addr → IpAddr

-- `std::net::Ipv4Addr`: 127.0.0.0/8, 169.254.0.0/16, 224.0.0.0/4, 0.0.0.0 and 255.255.255.255.
abbrev pub is_loopback_v4 : Ipv4Addr → Bool
is_loopback_v4 a = a.b0 == 127

abbrev pub is_link_local_v4 : Ipv4Addr → Bool
is_link_local_v4 a = a.b0 == 169 && a.b1 == 254

abbrev pub is_multicast_v4 : Ipv4Addr → Bool
is_multicast_v4 a = within 224 239 a.b0

abbrev pub is_unspecified_v4 : Ipv4Addr → Bool
is_unspecified_v4 a = a.b0 == 0 && a.b1 == 0 && a.b2 == 0 && a.b3 == 0

abbrev pub is_broadcast_v4 : Ipv4Addr → Bool
is_broadcast_v4 a = a.b0 == 255 && a.b1 == 255 && a.b2 == 255 && a.b3 == 255

unfoldable pub is_blocked_v4 : Ipv4Addr → Bool
is_blocked_v4 a =
    if is_loopback_v4 a
      || is_link_local_v4 a
      || is_multicast_v4 a
      || is_unspecified_v4 a
      || is_broadcast_v4 a
    then true
    else if a.b0 == 0
    then true
    else if a.b0 == 10
    then true
    else if a.b0 == 100 && within 64 127 a.b1
    then true
    else if a.b0 == 127
    then true
    else if a.b0 == 169 && a.b1 == 254
    then true
    else if a.b0 == 172 && within 16 31 a.b1
    then true
    else if a.b0 == 192 && a.b1 == 168
    then true
    else false

-- The first seven segments are zero.
abbrev pub leading_zero : Ipv6Addr → Bool
leading_zero a =
    a.s0 == 0 && a.s1 == 0 && a.s2 == 0 && a.s3 == 0 && a.s4 == 0 && a.s5 == 0 && a.s6 == 0

-- `std::net::Ipv6Addr`: `::`, `::1` and ff00::/8.
abbrev pub is_unspecified_v6 : Ipv6Addr → Bool
is_unspecified_v6 a = leading_zero a && a.s7 == 0

abbrev pub is_loopback_v6 : Ipv6Addr → Bool
is_loopback_v6 a = leading_zero a && a.s7 == 1

abbrev pub is_multicast_v6 : Ipv6Addr → Bool
is_multicast_v6 a = bit_and a.s0 0xff00 == 0xff00

-- `Ipv6Addr::to_ipv4_mapped`
abbrev pub is_mapped : Ipv6Addr → Bool
is_mapped a = a.s0 == 0 && a.s1 == 0 && a.s2 == 0 && a.s3 == 0 && a.s4 == 0 && a.s5 == 0xffff

abbrev pub embedded : Ipv6Addr → Ipv4Addr
embedded a = record { b0 = a.s6 / 256; b1 = a.s6 % 256; b2 = a.s7 / 256; b3 = a.s7 % 256 }

unfoldable pub to_ipv4_mapped : Ipv6Addr → Option Ipv4Addr
to_ipv4_mapped a = if is_mapped a then some (embedded a) else none

-- The tests on the first segment, behind the `if let`.
unfoldable pub is_blocked_segment : ℕ → Bool
is_blocked_segment seg0 =
    if bit_and seg0 0xfe00 == 0xfc00
    then true
    else if bit_and seg0 0xffc0 == 0xfe80
    then true
    else false

unfoldable pub is_blocked_v6 : Ipv6Addr → Bool
is_blocked_v6 a =
    if is_unspecified_v6 a || is_loopback_v6 a || is_multicast_v6 a
    then true
    else elim (to_ipv4_mapped a) [ some m ↦ is_blocked_v4 m | none ↦ is_blocked_segment a.s0 ]

unfoldable pub is_blocked_address : IpAddr → Bool
is_blocked_address (v4 a) = is_blocked_v4 a
is_blocked_address (v6 a) = is_blocked_v6 a
