-- ===== src/Str/Utf8.antt =====
-- UTF-8: `String::into_bytes` and `String::from_utf8_lossy`.
use hellohq_wasm_runtime.Prelude.{
  ℕ, zero, suc, ◌+◌, ◌-◌, ◌*◌, ◌/◌, ◌%◌, ◌<◌, ◌≤◌, Bool, true, not, ◌||◌, List, [], ◌∷◌, ◌++◌, ◌==◌,
  ltb, leb, within, if◌then◌else◌, ◌≡◌, refl, ap, ◌∙◌, arith, all, all-append, append_assoc,
}
use hellohq_wasm_runtime.Str.{Text}
use hellohq_wasm_runtime.Str.Split.{IsFree}

-- The bytes of a character.
unfoldable pub char_bytes : ℕ → List ℕ
char_bytes c =
    if ltb c 0x80
    then c ∷ []
    else if ltb c 0x800
    then (0xc0 + c / 64) ∷ (0x80 + c % 64) ∷ []
    else if ltb c 0x10000
    then (0xe0 + c / 4096) ∷ (0x80 + c / 64 % 64) ∷ (0x80 + c % 64) ∷ []
    else (0xf0 + c / 262144) ∷ (0x80 + c / 4096 % 64) ∷ (0x80 + c / 64 % 64) ∷ (0x80 + c % 64) ∷ []

unfoldable pub into_bytes : Text → List ℕ
unfolding char_bytes
into_bytes [] = []
into_bytes (c ∷ s) = char_bytes c ++ into_bytes s

pub into_bytes-append : (s t : Text) → into_bytes (s ++ t) ≡ into_bytes s ++ into_bytes t
unfolding into_bytes
into_bytes-append [] t = refl
into_bytes-append (c ∷ s) t = simp (into_bytes-append s t, append_assoc)

-- A test that is the same, `v`, on all bytes from 0x80 on, holds of a character's bytes if it holds
-- of the character as a byte, or if it is `v`.
module _ (p : ℕ → Bool) (v : Bool) (high : (b : ℕ) → 0x80 ≤ b → p b ≡ v) where
  all-char_bytes : (c : ℕ) → all p (char_bytes c) ≡ (if ltb c 0x80 then p c else v)
  unfolding char_bytes
  all-char_bytes c = ground (
    arith,
    high (0xc0 + c / 64) (omega arith),
    high (0x80 + c % 64) (omega arith),
    high (0xe0 + c / 4096) (omega arith),
    high (0x80 + c / 64 % 64) (omega arith),
    high (0xf0 + c / 262144) (omega arith),
    high (0x80 + c / 4096 % 64) (omega arith),
  )

  pub all-into_bytes :
      (s : Text) → all p (into_bytes s) ≡ all (λ c. if ltb c 0x80 then p c else v) s
  unfolding into_bytes
  all-into_bytes [] = refl
  all-into_bytes (c ∷ s) =
      rw (all-append p (char_bytes c) (into_bytes s), all-char_bytes c, all-into_bytes s)

-- The decoder: between characters, or within one, of which `n + 1` bytes are missing, the next from
-- `lo` to `hi`.
pub data Decoder : Type 0 where
  between : Decoder
  within_char : ℕ → ℕ → ℕ → ℕ → Decoder

-- U+FFFD
abbrev pub replacement : ℕ
replacement = 0xfffd

-- The first byte of a character.
begin : ℕ → Text × Decoder
begin b =
    if ltb b 0x80
    then (b ∷ [], between)
    else if within 0xc2 0xdf b
    then ([], within_char 0 0x80 0xbf (b - 0xc0))
    else if b == 0xe0
    then ([], within_char 1 0xa0 0xbf 0)
    else if b == 0xed
    then ([], within_char 1 0x80 0x9f 0xd)
    else if within 0xe1 0xef b
    then ([], within_char 1 0x80 0xbf (b - 0xe0))
    else if b == 0xf0
    then ([], within_char 2 0x90 0xbf 0)
    else if b == 0xf4
    then ([], within_char 2 0x80 0x8f 4)
    else if within 0xf1 0xf3 b
    then ([], within_char 2 0x80 0xbf (b - 0xf0))
    else (replacement ∷ [], between)

-- A further byte of a character.
advance : ℕ → ℕ → Text × Decoder
advance zero c = (c ∷ [], between)
advance (suc n) c = ([], within_char n 0x80 0xbf c)

-- A byte that cannot go on ends the character as a replacement, and is read again.
restart : Text × Decoder → Text × Decoder
restart (s, d) = (replacement ∷ s, d)

feed : Decoder → ℕ → Text × Decoder
unfolding begin advance restart
feed between b = begin b
feed (within_char n lo hi c) b =
    if within lo hi b then advance n (c * 64 + (b - 0x80)) else restart (begin b)

decode_from : Decoder → List ℕ → Text
unfolding feed
decode_from between [] = []
decode_from (within_char n lo hi c) [] = replacement ∷ []
decode_from d (b ∷ bs) = let (s, d') = feed d b in s ++ decode_from d' bs

unfoldable pub from_utf8_lossy : List ℕ → Text
unfolding decode_from
from_utf8_lossy bs = decode_from between bs

-- A decoder that is within a character has no ASCII character to give.
is_wide : Decoder → Bool
is_wide between = true
is_wide (within_char zero lo hi c) = leb 0x80 (c * 64 + (lo - 0x80))
is_wide (within_char (suc n) lo hi c) = leb 2 (c * 64 + (lo - 0x80))

module _ (x : ℕ) (ascii : x < 0x80) where
  begin-IsFree : (b : ℕ) → not (b == x) ≡ true → IsFree x (begin b).0
  unfolding begin
  begin-IsFree b h = ground (arith, ascii, h)

  feed-IsFree :
      (d : Decoder) (b : ℕ) → is_wide d ≡ true → not (b == x) ≡ true → IsFree x (feed d b).0
  unfolding feed is_wide advance restart begin
  feed-IsFree between b w h = begin-IsFree b h
  feed-IsFree (within_char zero lo hi c) b w h = ground (arith, ascii, h, w)
  feed-IsFree (within_char (suc n) lo hi c) b w h = ground (arith, ascii, h, w)

begin-wide : (b : ℕ) → is_wide (begin b).1 ≡ true
unfolding begin is_wide
begin-wide b = ground arith

feed-wide : (d : Decoder) (b : ℕ) → is_wide d ≡ true → is_wide (feed d b).1 ≡ true
unfolding feed is_wide advance restart
feed-wide between b w = begin-wide b
feed-wide (within_char zero lo hi c) b w = ground (arith, begin-wide b)
feed-wide (within_char (suc zero) lo hi c) b w = ground (arith, begin-wide b, w)
feed-wide (within_char (suc (suc n)) lo hi c) b w = ground (arith, begin-wide b, w)

decode_from-IsFree :
    (x : ℕ) (d : Decoder) (bs : List ℕ)
    → x < 0x80
    → is_wide d ≡ true
    → IsFree x bs
    → IsFree x (decode_from d bs)
unfolding decode_from
decode_from-IsFree x between [] l w h = refl
decode_from-IsFree x (within_char n lo hi c) [] l w h = ground arith
decode_from-IsFree x d (b ∷ bs) l w h = rw (all-append (λ c. not (c == x)) (feed d b).0 _) (
    ground (arith, feed-IsFree x l d b w, decode_from-IsFree x (feed d b).1 bs l (feed-wide d b w)))

pub from_utf8_lossy-IsFree :
    (x : ℕ) (bs : List ℕ) → x < 0x80 → IsFree x bs → IsFree x (from_utf8_lossy bs)
unfolding from_utf8_lossy is_wide
from_utf8_lossy-IsFree x bs l h = decode_from-IsFree x between bs l refl h

-- A Unicode scalar value.
abbrev pub is_scalar : ℕ → Bool
is_scalar c = ltb c 0xd800 || within 0xe000 0x10ffff c

decode_from-char :
    (c : ℕ) (bs : List ℕ)
    → is_scalar c ≡ true
    → decode_from between (char_bytes c ++ bs) ≡ c ∷ decode_from between bs
unfolding decode_from char_bytes feed begin advance
decode_from-char c bs h = ground (arith, h)

decode_from-into_bytes :
    (s : Text) → all is_scalar s ≡ true → decode_from between (into_bytes s) ≡ s
unfolding decode_from into_bytes
decode_from-into_bytes [] h = refl
decode_from-into_bytes (c ∷ s) h =
    decode_from-char c (into_bytes s) (ground (arith, h))
    ∙ ap (◌∷◌ c) (decode_from-into_bytes s (ground (arith, h)))

pub from_utf8_lossy-into_bytes :
    (s : Text) → all is_scalar s ≡ true → from_utf8_lossy (into_bytes s) ≡ s
unfolding from_utf8_lossy
from_utf8_lossy-into_bytes s h = decode_from-into_bytes s h
