-- ===== src/Http/Hex.antt =====
-- src/wasi_http.rs, `hex_encode` and `hex_decode`.
use hellohq_wasm_runtime.Prelude.{
  ℕ, ◌+◌, ◌-◌, ◌*◌, ◌/◌, ◌%◌, ◌<◌, Bool, true, false, not, List, [], ◌∷◌, Option, none, some, ◌==◌,
  ltb, within, if◌then◌else◌, length, all, all_imp, ◌≡◌, ◌↔◌, refl, sym, ap, ◌∙◌, arith, Bool-cases,
  inl, inr,
}
use hellohq_wasm_runtime.Str.{Text, lower, to_ascii_lowercase}
use hellohq_wasm_runtime.Str.Utf8.{into_bytes, char_bytes, all-into_bytes}

-- A hexadecimal digit of `{:02x}`.
unfoldable pub hex_digit : ℕ → ℕ
hex_digit d = if ltb d 10 then b'0' + d else b'a' + (d - 10)

unfoldable pub hex_encode : List ℕ → Text
unfolding hex_digit
hex_encode [] = []
hex_encode (b ∷ bytes) = hex_digit (b / 16) ∷ hex_digit (b % 16) ∷ hex_encode bytes

-- `char::to_digit(16)`
unfoldable pub to_digit : ℕ → Option ℕ
to_digit c =
    if within b'0' b'9' c
    then some (c - b'0')
    else if within b'a' b'f' c
    then some (c - b'a' + 10)
    else if within b'A' b'F' c
    then some (c - b'A' + 10)
    else none

push_byte : Option ℕ → Option ℕ → Option (List ℕ) → Option (List ℕ)
push_byte (some hi) (some lo) (some out) = some ((hi * 16 + lo) % 256 ∷ out)
push_byte _ _ _ = none

-- The loop over pairs of bytes.
unfoldable pub decode_pairs : List ℕ → Option (List ℕ)
unfolding to_digit push_byte
decode_pairs [] = some []
decode_pairs (h ∷ []) = none
decode_pairs (h ∷ l ∷ bs) = push_byte (to_digit h) (to_digit l) (decode_pairs bs)

unfoldable pub hex_decode : Text → Option (List ℕ)
unfolding decode_pairs into_bytes
hex_decode s = let b = into_bytes s in if not (length b % 2 == 0) then none else decode_pairs b

abbrev pub is_byte : ℕ → Bool
is_byte b = ltb b 256

to_digit-hex_digit : (d : ℕ) → d < 16 → to_digit (hex_digit d) ≡ some d
unfolding to_digit hex_digit
to_digit-hex_digit d h = ground (arith, h)

to_digit-Digit : (c d : ℕ) → to_digit c ≡ some d → (lower c ≡ hex_digit d) × (d < 16)
unfolding to_digit hex_digit lower
to_digit-Digit c d h = ground (arith, h)

to_digit-lower : (c : ℕ) → to_digit (lower c) ≡ to_digit c
unfolding to_digit lower
to_digit-lower c = ground arith

decode_pairs-hex_encode :
    (bs : List ℕ) → all is_byte bs ≡ true → decode_pairs (hex_encode bs) ≡ some bs
unfolding decode_pairs hex_encode push_byte
decode_pairs-hex_encode [] h = refl
decode_pairs-hex_encode (b ∷ bs) h =
    let small : b < 256 = ground (arith, h) in
    rw
      (
        to_digit-hex_digit (b / 16) (omega (arith, small)),
        to_digit-hex_digit (b % 16) (omega arith),
        decode_pairs-hex_encode bs (ground (arith, h)),
      )
      (ap (λ c. some (c ∷ bs)) (omega (arith, small)))

decode_pairs-lower : (s : Text) → decode_pairs (to_ascii_lowercase s) ≡ decode_pairs s
unfolding decode_pairs to_ascii_lowercase
decode_pairs-lower [] = refl
decode_pairs-lower (h ∷ []) = refl
decode_pairs-lower (h ∷ l ∷ s) = rw (to_digit-lower h, to_digit-lower l, decode_pairs-lower s) refl

push_byte-Parts :
    (a b : Option ℕ) (c : Option (List ℕ)) (bs : List ℕ)
    → push_byte a b c ≡ some bs
    → (hi : ℕ) × (lo : ℕ) × (out : List ℕ) × (a ≡ some hi)
      × (b ≡ some lo)
      × (c ≡ some out)
      × (bs ≡ (hi * 16 + lo) % 256 ∷ out)
unfolding push_byte
push_byte-Parts none b c bs e = ground (arith, e)
push_byte-Parts (some hi) none c bs e = ground (arith, e)
push_byte-Parts (some hi) (some lo) none bs e = ground (arith, e)
push_byte-Parts (some hi) (some lo) (some out) bs e =
    (hi, lo, out, refl, refl, refl, ground (arith, e))

digits_of_pair :
    (hi lo : ℕ)
    → hi < 16
    → lo < 16
    → (((hi * 16 + lo) % 256 / 16 ≡ hi) × ((hi * 16 + lo) % 256 % 16 ≡ lo))
      × (is_byte ((hi * 16 + lo) % 256) ≡ true)
digits_of_pair hi lo h l = ((omega (arith, h, l), omega (arith, h, l)), ground arith)

decode_pairs-Encoded :
    (cs bs : List ℕ)
    → decode_pairs cs ≡ some bs
    → (to_ascii_lowercase cs ≡ hex_encode bs) × (all is_byte bs ≡ true)
unfolding decode_pairs hex_encode to_ascii_lowercase push_byte
decode_pairs-Encoded [] bs e = ground (arith, e)
decode_pairs-Encoded (h ∷ []) bs e = ground (arith, e)
decode_pairs-Encoded (h ∷ l ∷ cs) bs e =
    let (hi, lo, out, eh, el, er, eb) =
      push_byte-Parts (to_digit h) (to_digit l) (decode_pairs cs) bs e in
    let (dh, bh) = to_digit-Digit h hi eh in
    let (dl, bl) = to_digit-Digit l lo el in
    let (rest, bytes) = decode_pairs-Encoded cs out er in
    let ((qh, ql), small) = digits_of_pair hi lo bh bl in
    rw eb (rw (qh, ql, dh, dl, rest, small) (refl, bytes))

push_byte-none : (a b : Option ℕ) → push_byte a b none ≡ none
unfolding push_byte
push_byte-none none b = refl
push_byte-none (some hi) none = refl
push_byte-none (some hi) (some lo) = refl

decode_pairs_odd : (cs : List ℕ) → not (length cs % 2 == 0) ≡ true → decode_pairs cs ≡ none
unfolding decode_pairs push_byte
decode_pairs_odd [] h = ground (arith, h)
decode_pairs_odd (c ∷ []) h = refl
decode_pairs_odd (c ∷ d ∷ cs) h =
    rw (decode_pairs_odd cs (ground (arith, h))) (push_byte-none (to_digit c) (to_digit d))

hex_decode-decode_pairs : (s : Text) → hex_decode s ≡ decode_pairs (into_bytes s)
unfolding hex_decode
hex_decode-decode_pairs s = elim (Bool-cases (not (length (into_bytes s) % 2 == 0))) [
  | inl odd ↦ rw odd (sym (decode_pairs_odd (into_bytes s) odd))
  | inr even ↦ rw even refl
]

abbrev is_ascii : ℕ → Bool
is_ascii c = ltb c 0x80

into_bytes_ascii : (s : Text) → all is_ascii s ≡ true → into_bytes s ≡ s
unfolding into_bytes char_bytes
into_bytes_ascii [] h = refl
into_bytes_ascii (c ∷ s) h = ground (arith, h, into_bytes_ascii s)

hex_encode-ascii : (bs : List ℕ) → all is_byte bs ≡ true → all is_ascii (hex_encode bs) ≡ true
unfolding hex_encode hex_digit
hex_encode-ascii [] h = refl
hex_encode-ascii (b ∷ bs) h = ground (arith, h, hex_encode-ascii bs)

to_ascii_lowercase-ascii : (s : Text) → all is_ascii (to_ascii_lowercase s) ≡ all is_ascii s
unfolding to_ascii_lowercase lower
to_ascii_lowercase-ascii [] = refl
to_ascii_lowercase-ascii (c ∷ s) = ground (arith, to_ascii_lowercase-ascii s)

decoded_ascii :
    (s : Text) → all is_ascii (to_ascii_lowercase (into_bytes s)) ≡ true → into_bytes s ≡ s
decoded_ascii s h = into_bytes_ascii s (
    all_imp _ is_ascii (λ c. ground arith) s
      (sym (all-into_bytes is_ascii false (λ b l. ground (arith, l)) s)
        ∙ sym (to_ascii_lowercase-ascii (into_bytes s))
        ∙ h))

-- A text decodes to `bs` exactly if it is the encoding of `bs` up to case and `bs` are bytes.
pub hex_decode_iff :
    (s : Text) (bs : List ℕ)
    → (hex_decode s ≡ some bs) ↔ ((to_ascii_lowercase s ≡ hex_encode bs) × (all is_byte bs ≡ true))
hex_decode_iff s bs = (
  λ e.
      let (enc, bytes) =
        decode_pairs-Encoded (into_bytes s) bs (sym (hex_decode-decode_pairs s) ∙ e) in
      let plain : into_bytes s ≡ s = decoded_ascii s (rw enc (hex_encode-ascii bs bytes)) in
      (ap to_ascii_lowercase (sym plain) ∙ enc, bytes),
  λ (enc, bytes).
      let plain : all is_ascii s ≡ true =
        sym (to_ascii_lowercase-ascii s) ∙ ap (all is_ascii) enc ∙ hex_encode-ascii bs bytes in
      hex_decode-decode_pairs s
      ∙ ap decode_pairs (into_bytes_ascii s plain)
      ∙ sym (decode_pairs-lower s)
      ∙ ap decode_pairs enc
      ∙ decode_pairs-hex_encode bs bytes,
)
