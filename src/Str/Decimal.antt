-- ===== src/Str/Decimal.antt =====
-- Decimal numbers: `to_string` of an unsigned integer, and its `from_str`.
use hellohq_wasm_runtime.Prelude.{
  ℕ, zero, suc, ◌+◌, ◌-◌, ◌*◌, ◌/◌, ◌%◌, ◌<◌, ◌≤◌, Bool, true, ◌&&◌, [], ◌∷◌, ◌++◌, Option, none,
  some, ◌==◌, ltb, within, if◌then◌else◌, ◌≡◌, refl, ap, ◌∙◌, arith, all, all-append, append_assoc,
  append-nil, sym, Bool-cases, inl, inr,
}
use hellohq_wasm_runtime.Str.{Text, is_empty}

-- The digits of `n`, most significant first; `n + 1` rounds are enough.
digits : ℕ → ℕ → Text
digits zero n = []
digits (suc fuel) n =
    let more = digits fuel (n / 10) ++ (b'0' + n % 10) ∷ [] in
    if ltb n 10 then (b'0' + n) ∷ [] else more

unfoldable pub to_decimal : ℕ → Text
unfolding digits
to_decimal n = digits (suc n) n

abbrev pub is_digit : ℕ → Bool
is_digit c = within b'0' b'9' c

-- The loop of `from_str`, for a type of the numbers below `limit`.
parse_digits : ℕ → ℕ → Text → Option ℕ
parse_digits limit acc [] = some acc
parse_digits limit acc (c ∷ s) =
    let v = acc * 10 + (c - b'0') in
    let rest = parse_digits limit v s in if is_digit c && ltb v limit then rest else none

skip_plus : Text → Text
skip_plus [] = []
skip_plus (c ∷ s) = if c == b'+' then s else c ∷ s

unfoldable pub parse_unsigned : ℕ → Text → Option ℕ
unfolding parse_digits skip_plus
parse_unsigned limit s = if is_empty (skip_plus s) then none else parse_digits limit 0 (skip_plus s)

digits-all : (fuel n : ℕ) → all is_digit (digits fuel n) ≡ true
unfolding digits
digits-all zero n = refl
digits-all (suc fuel) n = ground (
  arith,
  all-append is_digit (digits fuel (n / 10)) ((b'0' + n % 10) ∷ []),
  digits-all fuel (n / 10),
)

pub to_decimal-all : (n : ℕ) → all is_digit (to_decimal n) ≡ true
unfolding to_decimal
to_decimal-all n = digits-all (suc n) n

-- Reading the last digit of `n` after the others.
read_back :
    (limit n : ℕ) (s : Text)
    → n < limit
    → parse_digits limit (n / 10) ((b'0' + n % 10) ∷ s) ≡ parse_digits limit n s
unfolding parse_digits
read_back limit n s l =
    let e : n / 10 * 10 + (b'0' + n % 10 - b'0') ≡ n = omega arith in rw e (ground (arith, l))

digits_start : (fuel n : ℕ) → (c : ℕ) × (s : Text) × (digits (suc fuel) n ≡ c ∷ s)
unfolding digits
digits_start zero n = elim (Bool-cases (ltb n 10)) [
  | inl small ↦ (b'0' + n, [], rw small refl)
  | inr large ↦ (b'0' + n % 10, [], rw large refl)
]
digits_start (suc fuel) n = elim (Bool-cases (ltb n 10)) [
  | inl small ↦ (b'0' + n, [], rw small refl)
  | inr large ↦
      let (c, s, e) = digits_start fuel (n / 10) in
      (c, s ++ (b'0' + n % 10) ∷ [], rw large (ap (λ t. t ++ (b'0' + n % 10) ∷ []) e))
]

skip_plus-digit : (c : ℕ) (s : Text) → is_digit c ≡ true → skip_plus (c ∷ s) ≡ c ∷ s
unfolding skip_plus
skip_plus-digit c s h = ground (arith, h)

parse_digits-digits :
    (limit fuel n : ℕ) (s : Text)
    → n < fuel
    → n < limit
    → parse_digits limit 0 (digits fuel n ++ s) ≡ parse_digits limit n s
unfolding digits parse_digits
parse_digits-digits limit zero n s f l = elim f [ ]
parse_digits-digits limit (suc fuel) n s f l = elim (Bool-cases (ltb n 10)) [
  | inl small ↦ rw small (ground (arith, small, l))
  | inr large ↦
      let big : 10 ≤ n = ground (arith, large) in
      rw large (
        ap (parse_digits limit 0) (append_assoc (digits fuel (n / 10)) ((b'0' + n % 10) ∷ []) s)
        ∙ parse_digits-digits limit fuel (n / 10) ((b'0' + n % 10) ∷ s) (omega (arith, big, f))
            (omega (arith, l))
        ∙ read_back limit n s l)
]

pub parse_unsigned-to_decimal :
    (limit n : ℕ) → n < limit → parse_unsigned limit (to_decimal n) ≡ some n
unfolding parse_unsigned to_decimal parse_digits
parse_unsigned-to_decimal limit n l =
    let (c, s, e) = digits_start n n in
    let plain : skip_plus (c ∷ s) ≡ c ∷ s =
      skip_plus-digit c s (ground (arith, digits-all (suc n) n, ap (all is_digit) e)) in
    let back : parse_digits limit 0 (digits (suc n) n) ≡ some n =
      ap (parse_digits limit 0) (sym (append-nil (digits (suc n) n)))
      ∙ parse_digits-digits limit (suc n) n [] (omega arith) l in
    rw (e, plain) (ap (parse_digits limit 0) (sym e) ∙ back)
