-- ===== src/Base64.antt =====
-- src/plugin_host_bytes.rs: base64 for byte fields in JSON. A shift is a product or a quotient, and the
-- bits of the two sides of each `|` are apart.
pub mod RoundTrip
use hellohq_wasm_runtime.Prelude.{
  ℕ, ◌+◌, ◌-◌, ◌*◌, ◌/◌, ◌%◌, Bool, true, false, not, ◌&&◌, ◌||◌, List, [], ◌∷◌, ◌++◌, keep, get_or,
  Option, none, some, ◌==◌, within, if◌then◌else◌,
}
use hellohq_wasm_runtime.Str.{Text, lit}
use hellohq_wasm_runtime.Str.Utf8.{into_bytes}

abbrev pub alphabet : Text
alphabet = lit "ABCDEFGHIJKLMNOPQRSTUVWXYZabcdefghijklmnopqrstuvwxyz0123456789+/"

-- `ALPHABET[i]`; every index is below 64.
unfoldable pub symbol : ℕ → ℕ
symbol i = get_or alphabet i 0

-- The loop over chunks of three bytes.
unfoldable pub b64_encode : List ℕ → Text
unfolding symbol
b64_encode [] = []
b64_encode (b0 ∷ []) = symbol (b0 / 4) ∷ symbol (b0 % 4 * 16) ∷ b'=' ∷ b'=' ∷ []
b64_encode (b0 ∷ b1 ∷ []) =
    symbol (b0 / 4) ∷ symbol (b0 % 4 * 16 + b1 / 16) ∷ symbol (b1 % 16 * 4) ∷ b'=' ∷ []
b64_encode (b0 ∷ b1 ∷ b2 ∷ input) =
    symbol (b0 / 4)
    ∷ symbol (b0 % 4 * 16 + b1 / 16)
    ∷ symbol (b1 % 16 * 4 + b2 / 64)
    ∷ symbol (b2 % 64)
    ∷ b64_encode input

unfoldable pub val : ℕ → Option ℕ
val c =
    if within b'A' b'Z' c
    then some (c - b'A')
    else if within b'a' b'z' c
    then some (c - b'a' + 26)
    else if within b'0' b'9' c
    then some (c - b'0' + 52)
    else if c == b'+'
    then some 62
    else if c == b'/'
    then some 63
    else none

-- `u8::is_ascii_whitespace`
abbrev pub is_ascii_whitespace : ℕ → Bool
is_ascii_whitespace c = c == 0x20 || c == 0x09 || c == 0x0a || c == 0x0c || c == 0x0d

unfoldable pub symbols : Text → List ℕ
unfolding into_bytes
symbols input = keep (λ c. not (c == b'=') && not (is_ascii_whitespace c)) (into_bytes input)

-- The bytes of two, three or four values, before those of the rest.
two : Option ℕ → Option ℕ → Option (List ℕ)
two (some v0) (some v1) = some ((v0 * 4 % 256 + v1 / 16) ∷ [])
two _ _ = none

three : Option ℕ → Option ℕ → Option ℕ → Option (List ℕ)
three (some v0) (some v1) (some v2) = some ((v0 * 4 % 256 + v1 / 16) ∷ (v1 % 16 * 16 + v2 / 4) ∷ [])
three _ _ _ = none

four : Option ℕ → Option ℕ → Option ℕ → Option ℕ → Option (List ℕ) → Option (List ℕ)
four (some v0) (some v1) (some v2) (some v3) (some out) =
    some ((v0 * 4 % 256 + v1 / 16) ∷ (v1 % 16 * 16 + v2 / 4) ∷ (v2 % 4 * 64 + v3) ∷ out)
four _ _ _ _ _ = none

-- The loop over chunks of four symbols.
unfoldable pub decode_chunks : List ℕ → Option (List ℕ)
unfolding val two three four
decode_chunks [] = some []
decode_chunks (c0 ∷ []) = none
decode_chunks (c0 ∷ c1 ∷ []) = two (val c0) (val c1)
decode_chunks (c0 ∷ c1 ∷ c2 ∷ []) = three (val c0) (val c1) (val c2)
decode_chunks (c0 ∷ c1 ∷ c2 ∷ c3 ∷ cs) = four (val c0) (val c1) (val c2) (val c3) (decode_chunks cs)

unfoldable pub b64_decode : Text → Option (List ℕ)
unfolding symbols decode_chunks
b64_decode input = decode_chunks (symbols input)
