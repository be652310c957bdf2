-- ===== src/FetchGate/Mapped.antt =====
-- The blocked IPv6 addresses as CIDR ranges over the 128-bit value of an address; the blocked IPv4
-- ranges stand among them at `::ffff:a.b.c.d`.
use hellohq_wasm_runtime.Prelude.{
  ℕ, ◌+◌, ◌*◌, ◌^◌, ◌<◌, Bool, true, false, ◌&&◌, ◌||◌, List, ◌∷◌, any, map, ◌≡◌, ◌↔◌, ◌∙◌, sym, ap,
  arith, ◌==◌, Bool-eq_of_iff, Bool-cases, within, inl, inr,
}
use hellohq_wasm_runtime.FetchGate.Address.{
  Ipv6Addr, is_mapped, embedded, leading_zero, is_unspecified_v6, is_loopback_v6, is_multicast_v6,
  is_blocked_v4, is_blocked_v6, is_blocked_segment, to_ipv4_mapped,
}
use hellohq_wasm_runtime.FetchGate.Ranges.{
  Cidr, v4_value, covers, blocked_v4_ranges, IsOctets, is_blocked_v4-eq-ranges,
}
use hellohq_wasm_runtime.FetchGate.Masks.{multicast_range, segment_range}

-- The first six segments and the last two.
abbrev pub high : Ipv6Addr → ℕ
high a = 2 ^ 80 * a.s0 + (2 ^ 64 * a.s1 + (2 ^ 48 * a.s2 + (2 ^ 32 * a.s3 + (65536 * a.s4 + a.s5))))

abbrev pub low : Ipv6Addr → ℕ
low a = 65536 * a.s6 + a.s7

abbrev pub v6_value : Ipv6Addr → ℕ
v6_value a = 2 ^ 32 * high a + low a

-- `::ffff:net/(96 + len)`
abbrev pub mapped_range : Cidr → Cidr
mapped_range c = record { net = 2 ^ 32 * 0xffff + c.net; len = 96 + c.len }

abbrev pub blocked_v6_ranges : List Cidr
blocked_v6_ranges =
    record { net = 0; len = 128 }
    ∷ record { net = 1; len = 128 }
    ∷ record { net = 2 ^ 112 * 0xff00; len = 8 }
    ∷ record { net = 2 ^ 112 * 0xfc00; len = 7 }
    ∷ record { net = 2 ^ 112 * 0xfe80; len = 10 }
    ∷ map mapped_range blocked_v4_ranges

pub record IsSegments (a : Ipv6Addr) : Type 0 where
  pub s0_fits : a.s0 < 65536
  pub s1_fits : a.s1 < 65536
  pub s2_fits : a.s2 < 65536
  pub s3_fits : a.s3 < 65536
  pub s4_fits : a.s4 < 65536
  pub s5_fits : a.s5 < 65536
  pub s6_fits : a.s6 < 65536
  pub s7_fits : a.s7 < 65536

-- The high part alone decides which of the two kinds of range an address can be in.
module _ (hi lo : ℕ) (lo_fits : lo < 4294967296) where
  mapped_8 :
      (n : ℕ)
      → n < 4294967296
      → covers 128 (2 ^ 32 * hi + lo) (mapped_range (record { net = n; len = 8 }))
        ≡ (hi == 0xffff && covers 32 lo (record { net = n; len = 8 }))
  mapped_8 n k = Bool-eq_of_iff _ _ (λ e. ground arith) (λ e. ground arith)

  mapped_10 :
      (n : ℕ)
      → n < 4294967296
      → covers 128 (2 ^ 32 * hi + lo) (mapped_range (record { net = n; len = 10 }))
        ≡ (hi == 0xffff && covers 32 lo (record { net = n; len = 10 }))
  mapped_10 n k = Bool-eq_of_iff _ _ (λ e. ground arith) (λ e. ground arith)

  mapped_12 :
      (n : ℕ)
      → n < 4294967296
      → covers 128 (2 ^ 32 * hi + lo) (mapped_range (record { net = n; len = 12 }))
        ≡ (hi == 0xffff && covers 32 lo (record { net = n; len = 12 }))
  mapped_12 n k = Bool-eq_of_iff _ _ (λ e. ground arith) (λ e. ground arith)

  mapped_16 :
      (n : ℕ)
      → n < 4294967296
      → covers 128 (2 ^ 32 * hi + lo) (mapped_range (record { net = n; len = 16 }))
        ≡ (hi == 0xffff && covers 32 lo (record { net = n; len = 16 }))
  mapped_16 n k = Bool-eq_of_iff _ _ (λ e. ground arith) (λ e. ground arith)

  mapped_4 :
      (n : ℕ)
      → n < 4294967296
      → covers 128 (2 ^ 32 * hi + lo) (mapped_range (record { net = n; len = 4 }))
        ≡ (hi == 0xffff && covers 32 lo (record { net = n; len = 4 }))
  mapped_4 n k = Bool-eq_of_iff _ _ (λ e. ground arith) (λ e. ground arith)

  mapped_32 :
      (n : ℕ)
      → n < 4294967296
      → covers 128 (2 ^ 32 * hi + lo) (mapped_range (record { net = n; len = 32 }))
        ≡ (hi == 0xffff && covers 32 lo (record { net = n; len = 32 }))
  mapped_32 n k = Bool-eq_of_iff _ _ (λ e. ground arith) (λ e. ground arith)

  any_mapped :
      any (covers 128 (2 ^ 32 * hi + lo)) (map mapped_range blocked_v4_ranges)
      ≡ (hi == 0xffff && any (covers 32 lo) blocked_v4_ranges)
  any_mapped =
      rw
        (
          mapped_8 0 (omega arith),
          mapped_8 167772160 (omega arith),
          mapped_10 1681915904 (omega arith),
          mapped_8 2130706432 (omega arith),
          mapped_16 2851995648 (omega arith),
          mapped_12 2886729728 (omega arith),
          mapped_16 3232235520 (omega arith),
          mapped_4 3758096384 (omega arith),
          mapped_32 4294967295 (omega arith),
        )
        (elim (Bool-cases (hi == 0xffff)) [ inl e ↦ rw e | inr e ↦ rw e ])

or_regroup :
    (a b c d e f : Bool) → (a || (b || (c || (d || (e || f))))) ≡ ((a || b || c || d || e) || f)
or_regroup a b c d e f = ground arith

or_false : (b : Bool) → (b || false) ≡ b
or_false b = ground arith

-- The segments of a small value.
record Single (a : Ipv6Addr) (n : ℕ) : Type 0 where
  s0_zero : a.s0 ≡ 0
  s1_zero : a.s1 ≡ 0
  s2_zero : a.s2 ≡ 0
  s3_zero : a.s3 ≡ 0
  s4_zero : a.s4 ≡ 0
  s5_zero : a.s5 ≡ 0
  s6_zero : a.s6 ≡ 0
  s7_is : a.s7 ≡ n

value-Single : (a : Ipv6Addr) (n : ℕ) → n < 2 → v6_value a ≡ n → Single a n
value-Single a n h e = omega arith

Single-value : (a : Ipv6Addr) (n : ℕ) → Single a n → v6_value a ≡ n
Single-value a n s = omega arith

Single-test : (a : Ipv6Addr) (n : ℕ) → Single a n → (leading_zero a && a.s7 == n) ≡ true
Single-test a n s = ground arith

test-Single : (a : Ipv6Addr) (n : ℕ) → (leading_zero a && a.s7 == n) ≡ true → Single a n
test-Single a n e = ground arith

covers_whole : (x n : ℕ) → (covers 128 x (record { net = n; len = 128 }) ≡ true) ↔ (x ≡ n)
covers_whole x n = ground arith

-- Membership in each range of its own, as a test on segments.
module _ (a : Ipv6Addr) (h : IsSegments a) where
  low_fits : low a < 4294967296
  low_fits = omega arith

  covers_single :
      (n : ℕ)
      → n < 2
      → covers 128 (v6_value a) (record { net = n; len = 128 }) ≡ (leading_zero a && a.s7 == n)
  covers_single n small =
      Bool-eq_of_iff _ _
        (λ e. Single-test a n (value-Single a n small ((covers_whole (v6_value a) n).0 e)))
        (λ e. (covers_whole (v6_value a) n).1 (Single-value a n (test-Single a n e)))

  covers_unspecified : covers 128 (v6_value a) (record { net = 0; len = 128 }) ≡ is_unspecified_v6 a
  covers_unspecified = covers_single 0 (omega arith)

  covers_loopback : covers 128 (v6_value a) (record { net = 1; len = 128 }) ≡ is_loopback_v6 a
  covers_loopback = covers_single 1 (omega arith)

  covers_multicast :
      covers 128 (v6_value a) (record { net = 2 ^ 112 * 0xff00; len = 8 })
      ≡ within 0xff00 0xffff a.s0
  covers_multicast = Bool-eq_of_iff _ _ (λ e. ground arith) (λ e. ground arith)

  covers_unique_local :
      covers 128 (v6_value a) (record { net = 2 ^ 112 * 0xfc00; len = 7 })
      ≡ within 0xfc00 0xfdff a.s0
  covers_unique_local = Bool-eq_of_iff _ _ (λ e. ground arith) (λ e. ground arith)

  covers_link_local :
      covers 128 (v6_value a) (record { net = 2 ^ 112 * 0xfe80; len = 10 })
      ≡ within 0xfe80 0xfebf a.s0
  covers_link_local = Bool-eq_of_iff _ _ (λ e. ground arith) (λ e. ground arith)

  high-is_mapped : (high a == 0xffff) ≡ is_mapped a
  high-is_mapped = Bool-eq_of_iff _ _ (λ e. ground arith) (λ e. ground arith)

  embedded-IsOctets : IsOctets (embedded a)
  embedded-IsOctets = omega arith

  v4_value-embedded : v4_value (embedded a) ≡ low a
  v4_value-embedded = omega arith

  is_blocked_v4-embedded : is_blocked_v4 (embedded a) ≡ any (covers 32 (low a)) blocked_v4_ranges
  is_blocked_v4-embedded =
      is_blocked_v4-eq-ranges (embedded a) embedded-IsOctets
      ∙ ap (λ (x : ℕ). any (covers 32 x) blocked_v4_ranges) v4_value-embedded

  multicast_test : is_multicast_v6 a ≡ within 0xff00 0xffff a.s0
  multicast_test = multicast_range a.s0 h.s0_fits

  segment_test : is_blocked_segment a.s0 ≡ (within 0xfc00 0xfdff a.s0 || within 0xfe80 0xfebf a.s0)
  segment_test = segment_range a.s0 h.s0_fits

  -- The ranges of its own, as tests.
  own_ranges : Bool
  own_ranges =
      is_unspecified_v6 a
      || is_loopback_v6 a
      || within 0xff00 0xffff a.s0
      || within 0xfc00 0xfdff a.s0
      || within 0xfe80 0xfebf a.s0

  -- `is_blocked_v6` on an address that maps no IPv4 address, and on one that does.
  unmapped : is_mapped a ≡ false → is_blocked_v6 a ≡ own_ranges
  unfolding is_blocked_v6 to_ipv4_mapped own_ranges
  unmapped m = rw (m, multicast_test, segment_test) (ground arith)

  mapped : is_mapped a ≡ true → is_blocked_v6 a ≡ is_blocked_v4 (embedded a)
  unfolding is_blocked_v6 to_ipv4_mapped
  mapped m = rw (m, multicast_test) (ground arith)

  mapped_own : is_mapped a ≡ true → own_ranges ≡ false
  unfolding own_ranges
  mapped_own m = ground arith

  ranges_split :
      any (covers 128 (v6_value a)) blocked_v6_ranges
      ≡ (own_ranges || (is_mapped a && is_blocked_v4 (embedded a)))
  unfolding own_ranges
  ranges_split =
      rw
        (
          covers_unspecified,
          covers_loopback,
          covers_multicast,
          covers_unique_local,
          covers_link_local,
          any_mapped (high a) (low a) low_fits,
          high-is_mapped,
          ← is_blocked_v4-embedded,
        )
        (or_regroup (is_unspecified_v6 a) (is_loopback_v6 a) (within 0xff00 0xffff a.s0)
          (within 0xfc00 0xfdff a.s0) (within 0xfe80 0xfebf a.s0)
          (is_mapped a && is_blocked_v4 (embedded a)))

  -- The IPv6 address is blocked exactly if its value lies in a blocked range.
  pub is_blocked_v6-eq-ranges : is_blocked_v6 a ≡ any (covers 128 (v6_value a)) blocked_v6_ranges
  is_blocked_v6-eq-ranges = elim (Bool-cases (is_mapped a)) [
    | inl m ↦ mapped m ∙ sym (ranges_split ∙ rw (m, mapped_own m))
    | inr m ↦ unmapped m ∙ sym (ranges_split ∙ rw m (or_false own_ranges))
  ]
