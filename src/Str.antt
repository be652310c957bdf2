-- ===== src/Str.antt =====
-- The operations of Rust's `str` that the runtime uses, over lists of Unicode scalar values.
pub mod Affix
pub mod Case
pub mod Trim
pub mod Split
pub mod Join
pub mod Utf8
pub mod Decimal
use hellohq_wasm_runtime.Prelude.{
  ℕ, ◌+◌, Bool, true, false, ◌&&◌, ◌||◌, List, [], ◌∷◌, map, Option, none, some, String, ◌==◌,
  within, if◌then◌else◌,
}
use Prim.Native.Char.{code}

-- A `str`: its characters, each a Unicode scalar value.
abbrev pub Text : Type 0
Text = List ℕ

-- A literal of the source.
abbrev pub lit : String → Text
lit String.[] = []
lit (String.◌∷◌ c s) = code c ∷ lit s

-- `==`
unfoldable pub equal : Text → Text → Bool
equal [] [] = true
equal [] (d ∷ t) = false
equal (c ∷ s) [] = false
equal (c ∷ s) (d ∷ t) = if c == d then equal s t else false

abbrev pub is_empty {ℓ} : {A : Type ℓ} → List A → Bool
is_empty [] = true
is_empty (x ∷ xs) = false

-- `char::to_ascii_lowercase`
unfoldable pub lower : ℕ → ℕ
lower c = if within b'A' b'Z' c then c + 32 else c

unfoldable pub to_ascii_lowercase : Text → Text
unfolding lower
to_ascii_lowercase = map lower

unfoldable pub eq_ignore_ascii_case : Text → Text → Bool
unfolding to_ascii_lowercase equal
eq_ignore_ascii_case a b = equal (to_ascii_lowercase a) (to_ascii_lowercase b)

-- `char::is_whitespace`: the characters with the Unicode property White_Space.
unfoldable pub is_whitespace : ℕ → Bool
is_whitespace c =
    within 0x09 0x0d c
    || c == 0x20
    || c == 0x85
    || c == 0xa0
    || c == 0x1680
    || within 0x2000 0x200a c
    || within 0x2028 0x2029 c
    || c == 0x202f
    || c == 0x205f
    || c == 0x3000

-- `char::is_control`: the general category Cc.
unfoldable pub is_control : ℕ → Bool
is_control c = within 0 0x1f c || within 0x7f 0x9f c

unfoldable pub trim_start : Text → Text
trim_start [] = []
trim_start (c ∷ s) = if is_whitespace c then trim_start s else c ∷ s

unfoldable pub trim_end : Text → Text
trim_end [] = []
trim_end (c ∷ s) =
    let rest = trim_end s in if is_whitespace c && is_empty rest then [] else c ∷ rest

unfoldable pub trim : Text → Text
unfolding trim_start trim_end
trim s = trim_end (trim_start s)

unfoldable pub strip_prefix : Text → Text → Option Text
strip_prefix s [] = some s
strip_prefix [] (p ∷ ps) = none
strip_prefix (c ∷ s) (p ∷ ps) = if c == p then strip_prefix s ps else none

abbrev pub is_some {ℓ} : {A : Type ℓ} → Option A → Bool
is_some none = false
is_some (some a) = true

unfoldable pub starts_with : Text → Text → Bool
unfolding strip_prefix
starts_with s p = is_some (strip_prefix s p)

unfoldable pub ends_with : Text → Text → Bool
unfolding equal
ends_with [] p = equal [] p
ends_with (c ∷ s) p = equal (c ∷ s) p || ends_with s p

-- `str::contains` of a `str`
unfoldable pub contains : Text → Text → Bool
unfolding starts_with
contains [] p = starts_with [] p
contains (c ∷ s) p = starts_with (c ∷ s) p || contains s p

cons_first : ℕ → List Text → List Text
cons_first c [] = (c ∷ []) ∷ []
cons_first c (s ∷ rest) = (c ∷ s) ∷ rest

-- `split` at a character: always at least one part.
unfoldable pub split : Text → ℕ → List Text
unfolding cons_first
split [] d = [] ∷ []
split (c ∷ s) d = if c == d then [] ∷ split s d else cons_first c (split s d)

cons_left : ℕ → Option (Text × Text) → Option (Text × Text)
cons_left c none = none
cons_left c (some (a, b)) = some (c ∷ a, b)

-- `split_once` at a character
unfoldable pub split_once : Text → ℕ → Option (Text × Text)
unfolding cons_left
split_once [] d = none
split_once (c ∷ s) d = if c == d then some ([], s) else cons_left c (split_once s d)
