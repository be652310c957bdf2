-- ===== src/FetchGate/Masks.antt =====
-- The bit masks of the IPv6 tests, as ranges of the first segment: every 16-bit value is checked.
use Prim.Native.Nat.{bit_and}
use hellohq_wasm_runtime.Prelude.{
  ℕ, ◌<◌, Bool, true, false, ◌||◌, ◌≡◌, refl, arith, ◌==◌, within, not, checked, checked-at,
}
use hellohq_wasm_runtime.FetchGate.Address.{is_blocked_segment}

abbrev same : Bool → Bool → Bool
same true b = b
same false b = not b

same-eq : (a b : Bool) → same a b ≡ true → a ≡ b
same-eq a b h = ground arith

multicast_table :
    checked (λ x. same (bit_and x 0xff00 == 0xff00) (within 0xff00 0xffff x)) 65536 ≡ true
unfolding checked
multicast_table = refl

segment_table :
    checked
      (λ x. same (is_blocked_segment x) (within 0xfc00 0xfdff x || within 0xfe80 0xfebf x))
      65536
    ≡ true
unfolding checked is_blocked_segment
segment_table = refl

-- ff00::/8
pub multicast_range : (x : ℕ) → x < 65536 → (bit_and x 0xff00 == 0xff00) ≡ within 0xff00 0xffff x
multicast_range x h = same-eq _ _ (checked-at _ 65536 h multicast_table)

-- fc00::/7 and fe80::/10
pub segment_range :
    (x : ℕ) → x < 65536 → is_blocked_segment x ≡ (within 0xfc00 0xfdff x || within 0xfe80 0xfebf x)
segment_range x h = same-eq _ _ (checked-at _ 65536 h segment_table)
