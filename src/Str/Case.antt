-- ===== src/Str/Case.antt =====
-- ASCII case: lower-casing is idempotent, keeps appends, and decides equality up to case.
use hellohq_wasm_runtime.Prelude.{ℕ, true, [], ◌∷◌, ◌++◌, ◌↔◌, ◌≡◌, refl, arith}
use mathlib.Core.List.{map-append}
use hellohq_wasm_runtime.Str.{Text, lower, to_ascii_lowercase, eq_ignore_ascii_case, is_whitespace}
use hellohq_wasm_runtime.Str.Affix.{equal_iff}

lower_idem : (c : ℕ) → lower (lower c) ≡ lower c
unfolding lower
lower_idem c = ground arith

pub to_ascii_lowercase_idem :
    (s : Text) → to_ascii_lowercase (to_ascii_lowercase s) ≡ to_ascii_lowercase s
unfolding to_ascii_lowercase
to_ascii_lowercase_idem [] = refl
to_ascii_lowercase_idem (c ∷ s) = cc (lower_idem c, to_ascii_lowercase_idem s)

pub to_ascii_lowercase-append :
    (s t : Text) → to_ascii_lowercase (s ++ t) ≡ to_ascii_lowercase s ++ to_ascii_lowercase t
unfolding to_ascii_lowercase
to_ascii_lowercase-append s t = map-append lower s t

pub eq_ignore_ascii_case_iff :
    (a b : Text) → (eq_ignore_ascii_case a b ≡ true) ↔ (to_ascii_lowercase a ≡ to_ascii_lowercase b)
unfolding eq_ignore_ascii_case
eq_ignore_ascii_case_iff a b = equal_iff (to_ascii_lowercase a) (to_ascii_lowercase b)

-- Whether a character is white space does not depend on its case.
pub is_whitespace-lower : (c : ℕ) → is_whitespace (lower c) ≡ is_whitespace c
unfolding is_whitespace lower
is_whitespace-lower c = ground arith
