-- ===== src/Base64/RoundTrip.antt =====
-- src/plugin_host_bytes.rs: decoding what was encoded.
use hellohq_wasm_runtime.Prelude.{
  ℕ, ◌+◌, ◌*◌, ◌/◌, ◌%◌, ◌<◌, Bool, true, false, not, ◌&&◌, List, [], ◌∷◌, all, Option, none, some,
  ◌==◌, ==_iff, ltb, ◌≡◌, refl, ap, arith, checked, checked-at,
}
use hellohq_wasm_runtime.Str.{Text}
use hellohq_wasm_runtime.Str.Utf8.{into_bytes, char_bytes}
use hellohq_wasm_runtime.Base64.{
  symbol, b64_encode, val, is_ascii_whitespace, symbols, two, three, four, decode_chunks,
  b64_decode,
}

abbrev pub is_byte : ℕ → Bool
is_byte b = ltb b 256

-- The decoder's filter.
abbrev is_kept : ℕ → Bool
is_kept c = not (c == b'=') && not (is_ascii_whitespace c)

is_value : Option ℕ → ℕ → Bool
is_value none d = false
is_value (some v) d = v == d

is_sound : ℕ → Bool
is_sound d = is_value (val (symbol d)) d && is_kept (symbol d) && ltb (symbol d) 0x80

sound_table : checked is_sound 64 ≡ true
unfolding checked is_sound is_value val symbol
sound_table = refl

is_value-eq : (o : Option ℕ) (d : ℕ) → is_value o d ≡ true → o ≡ some d
unfolding is_value
is_value-eq none d h = ground (arith, h)
is_value-eq (some v) d h = ap some ((==_iff v d).0 h)

sound : (d : ℕ) → d < 64 → is_sound d ≡ true
sound d l = checked-at is_sound 64 l sound_table

val-symbol : (d : ℕ) → d < 64 → val (symbol d) ≡ some d
unfolding is_sound
val-symbol d l = is_value-eq (val (symbol d)) d (ground (arith, sound d l))

-- A symbol goes through the filter as one byte.
symbols-symbol : (d : ℕ) (s : Text) → d < 64 → symbols (symbol d ∷ s) ≡ symbol d ∷ symbols s
unfolding is_sound symbols into_bytes char_bytes
symbols-symbol d s l = ground (arith, sound d l)

padding_one : symbols (b'=' ∷ []) ≡ []
unfolding symbols into_bytes
padding_one = refl

padding_two : symbols (b'=' ∷ b'=' ∷ []) ≡ []
unfolding symbols into_bytes
padding_two = refl

symbols_empty : symbols [] ≡ []
unfolding symbols into_bytes
symbols_empty = refl

first_two :
    (b0 b1 : ℕ)
    → b0 < 256
    → b1 < 256
    → some (
        (b0 / 4 * 4 % 256 + (b0 % 4 * 16 + b1 / 16) / 16)
        ∷ ((b0 % 4 * 16 + b1 / 16) % 16 * 16 + b1 % 16 * 4 / 4)
        ∷ [])
      ≡ some (b0 ∷ b1 ∷ [])
first_two b0 b1 l0 l1 =
    let e0 : b0 / 4 * 4 % 256 + (b0 % 4 * 16 + b1 / 16) / 16 ≡ b0 = omega (arith, l0, l1) in
    let e1 : (b0 % 4 * 16 + b1 / 16) % 16 * 16 + b1 % 16 * 4 / 4 ≡ b1 = omega (arith, l0, l1) in
    rw (e0, e1) refl

three_bytes :
    (b0 b1 b2 : ℕ) (input : List ℕ)
    → b0 < 256
    → b1 < 256
    → b2 < 256
    → (b0 / 4 * 4 % 256 + (b0 % 4 * 16 + b1 / 16) / 16)
        ∷ ((b0 % 4 * 16 + b1 / 16) % 16 * 16 + (b1 % 16 * 4 + b2 / 64) / 4)
        ∷ ((b1 % 16 * 4 + b2 / 64) % 4 * 64 + b2 % 64)
        ∷ input
      ≡ b0 ∷ b1 ∷ b2 ∷ input
three_bytes b0 b1 b2 input l0 l1 l2 =
    let e0 : b0 / 4 * 4 % 256 + (b0 % 4 * 16 + b1 / 16) / 16 ≡ b0 = omega (arith, l0, l1) in
    let e1 : (b0 % 4 * 16 + b1 / 16) % 16 * 16 + (b1 % 16 * 4 + b2 / 64) / 4 ≡ b1 =
      omega (arith, l1, l2) in
    let e2 : (b1 % 16 * 4 + b2 / 64) % 4 * 64 + b2 % 64 ≡ b2 = omega (arith, l2) in
    rw (e0, e1, e2) refl

-- Bytes decode from their encoding.
pub b64_decode-b64_encode :
    (input : List ℕ) → all is_byte input ≡ true → b64_decode (b64_encode input) ≡ some input
unfolding b64_decode b64_encode decode_chunks two three four
b64_decode-b64_encode [] h = rw symbols_empty refl
b64_decode-b64_encode (b0 ∷ []) h =
    let l0 : b0 < 256 = ground (arith, h) in
    let d0 : b0 / 4 < 64 = omega (arith, l0) in
    let d1 : b0 % 4 * 16 < 64 = omega arith in
    rw
      (
        symbols-symbol (b0 / 4) _ d0,
        symbols-symbol (b0 % 4 * 16) _ d1,
        padding_two,
        val-symbol _ d0,
        val-symbol _ d1,
      )
      (ap (λ b. some (b ∷ [])) (omega (arith, l0)))
b64_decode-b64_encode (b0 ∷ b1 ∷ []) h =
    let l0 : b0 < 256 = ground (arith, h) in
    let l1 : b1 < 256 = ground (arith, h) in
    let d0 : b0 / 4 < 64 = omega (arith, l0) in
    let d1 : b0 % 4 * 16 + b1 / 16 < 64 = omega (arith, l1) in
    let d2 : b1 % 16 * 4 < 64 = omega arith in
    rw
      (
        symbols-symbol (b0 / 4) _ d0,
        symbols-symbol (b0 % 4 * 16 + b1 / 16) _ d1,
        symbols-symbol (b1 % 16 * 4) _ d2,
        padding_one,
        val-symbol _ d0,
        val-symbol _ d1,
        val-symbol _ d2,
      )
      (first_two b0 b1 l0 l1)
b64_decode-b64_encode (b0 ∷ b1 ∷ b2 ∷ input) h =
    let l0 : b0 < 256 = ground (arith, h) in
    let l1 : b1 < 256 = ground (arith, h) in
    let l2 : b2 < 256 = ground (arith, h) in
    let d0 : b0 / 4 < 64 = omega (arith, l0) in
    let d1 : b0 % 4 * 16 + b1 / 16 < 64 = omega (arith, l1) in
    let d2 : b1 % 16 * 4 + b2 / 64 < 64 = omega (arith, l2) in
    let d3 : b2 % 64 < 64 = omega arith in
    let rest : decode_chunks (symbols (b64_encode input)) ≡ some input =
      b64_decode-b64_encode input (ground (arith, h)) in
    rw
      (
        symbols-symbol (b0 / 4) _ d0,
        symbols-symbol (b0 % 4 * 16 + b1 / 16) _ d1,
        symbols-symbol (b1 % 16 * 4 + b2 / 64) _ d2,
        symbols-symbol (b2 % 64) _ d3,
        val-symbol _ d0,
        val-symbol _ d1,
        val-symbol _ d2,
        val-symbol _ d3,
        rest,
      )
      (ap some (three_bytes b0 b1 b2 input l0 l1 l2))
