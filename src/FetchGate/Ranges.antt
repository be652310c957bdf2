-- ===== src/FetchGate/Ranges.antt =====
-- The blocked addresses as CIDR ranges over the 32-bit and 128-bit values of addresses.
use hellohq_wasm_runtime.Prelude.{
  ℕ, ◌+◌, ◌-◌, ◌*◌, ◌/◌, ◌^◌, ◌<◌, Bool, ◌&&◌, List, [], ◌∷◌, any, ◌≡◌, arith, ◌==◌, Bool-eq_of_iff,
  within,
}
use hellohq_wasm_runtime.FetchGate.Address.{Ipv4Addr, is_blocked_v4}

-- `net/len`: the addresses that agree with `net` in the first `len` bits.
pub record Cidr : Type 0 where
  pub net : ℕ
  pub len : ℕ

abbrev pub v4_value : Ipv4Addr → ℕ
v4_value a = 16777216 * a.b0 + (65536 * a.b1 + (256 * a.b2 + a.b3))

abbrev dotted : ℕ → ℕ → ℕ → ℕ → ℕ
dotted b0 b1 b2 b3 = v4_value (record { b0 = b0; b1 = b1; b2 = b2; b3 = b3 })

-- Membership by the width of the address.
abbrev pub covers : ℕ → ℕ → Cidr → Bool
covers width x c = x / 2 ^ (width - c.len) == c.net / 2 ^ (width - c.len)

abbrev pub blocked_v4_ranges : List Cidr
blocked_v4_ranges =
    record { net = dotted 0 0 0 0; len = 8 }
    ∷ record { net = dotted 10 0 0 0; len = 8 }
    ∷ record { net = dotted 100 64 0 0; len = 10 }
    ∷ record { net = dotted 127 0 0 0; len = 8 }
    ∷ record { net = dotted 169 254 0 0; len = 16 }
    ∷ record { net = dotted 172 16 0 0; len = 12 }
    ∷ record { net = dotted 192 168 0 0; len = 16 }
    ∷ record { net = dotted 224 0 0 0; len = 4 }
    ∷ record { net = dotted 255 255 255 255; len = 32 }
    ∷ []

pub record IsOctets (a : Ipv4Addr) : Type 0 where
  pub b0_fits : a.b0 < 256
  pub b1_fits : a.b1 < 256
  pub b2_fits : a.b2 < 256
  pub b3_fits : a.b3 < 256

-- Membership in each kind of range, as a test on octets.
module _ (a : Ipv4Addr) (h : IsOctets a) where
  covers_8 :
      (n : ℕ) → covers 32 (v4_value a) (record { net = dotted n 0 0 0; len = 8 }) ≡ (a.b0 == n)
  covers_8 n = Bool-eq_of_iff _ _ (λ e. ground arith) (λ e. ground arith)

  covers_16 :
      (n m : ℕ)
      → m < 256
      → covers 32 (v4_value a) (record { net = dotted n m 0 0; len = 16 })
        ≡ (a.b0 == n && a.b1 == m)
  covers_16 n m k = Bool-eq_of_iff _ _ (λ e. ground arith) (λ e. ground arith)

  covers_cgnat :
      covers 32 (v4_value a) (record { net = dotted 100 64 0 0; len = 10 })
      ≡ (a.b0 == 100 && within 64 127 a.b1)
  covers_cgnat = Bool-eq_of_iff _ _ (λ e. ground arith) (λ e. ground arith)

  covers_172 :
      covers 32 (v4_value a) (record { net = dotted 172 16 0 0; len = 12 })
      ≡ (a.b0 == 172 && within 16 31 a.b1)
  covers_172 = Bool-eq_of_iff _ _ (λ e. ground arith) (λ e. ground arith)

  covers_multicast :
      covers 32 (v4_value a) (record { net = dotted 224 0 0 0; len = 4 }) ≡ within 224 239 a.b0
  covers_multicast = Bool-eq_of_iff _ _ (λ e. ground arith) (λ e. ground arith)

  covers_broadcast :
      covers 32 (v4_value a) (record { net = dotted 255 255 255 255; len = 32 })
      ≡ (a.b0 == 255 && a.b1 == 255 && a.b2 == 255 && a.b3 == 255)
  covers_broadcast = Bool-eq_of_iff _ _ (λ e. ground arith) (λ e. ground arith)

  pub is_blocked_v4-eq-ranges : is_blocked_v4 a ≡ any (covers 32 (v4_value a)) blocked_v4_ranges
  unfolding is_blocked_v4
  is_blocked_v4-eq-ranges =
      rw
        (
          covers_8 0,
          covers_8 10,
          covers_cgnat,
          covers_8 127,
          covers_16 169 254 (omega arith),
          covers_172,
          covers_16 192 168 (omega arith),
          covers_multicast,
          covers_broadcast,
        )
        (Bool-eq_of_iff _ _ (λ e. ground arith) (λ e. ground arith))
