-- ===== src/Str/Trim.antt =====
-- `trim` is idempotent, commutes with lower-casing and leaves a text with no white space alone.
use hellohq_wasm_runtime.Prelude.{
  ℕ, true, false, [], ◌∷◌, ◌⊎◌, inl, inr, ◌≡◌, refl, ap, ◌∙◌, arith, all, Bool-cases, not,
}
use hellohq_wasm_runtime.Str.{Text, to_ascii_lowercase, is_whitespace, trim_start, trim_end, trim}
use hellohq_wasm_runtime.Str.Case.{is_whitespace-lower}

abbrev pub IsSolid : Text → Type 0
IsSolid s = all (λ c. not (is_whitespace c)) s ≡ true

pub trim_start-IsSolid : (s : Text) → IsSolid s → trim_start s ≡ s
unfolding trim_start
trim_start-IsSolid [] h = refl
trim_start-IsSolid (c ∷ s) h = ground arith

trim_end-IsSolid : (s : Text) → IsSolid s → trim_end s ≡ s
unfolding trim_end
trim_end-IsSolid [] h = refl
trim_end-IsSolid (c ∷ s) h = ground (arith, trim_end-IsSolid s)

pub trim-IsSolid : (s : Text) → IsSolid s → trim s ≡ s
unfolding trim
trim-IsSolid s h = rw (trim_start-IsSolid s h) (trim_end-IsSolid s h)

trim_start-shape :
    (s : Text)
    → (trim_start s ≡ [])
      ⊎ ((c : ℕ) × (r : Text) × (trim_start s ≡ c ∷ r) × (is_whitespace c ≡ false))
unfolding trim_start
trim_start-shape [] = inl refl
trim_start-shape (c ∷ s) = elim (Bool-cases (is_whitespace c)) [
  | inl e ↦ rw e (trim_start-shape s)
  | inr e ↦ inr (c, s, rw e, e)
]

trim_end_idem : (s : Text) → trim_end (trim_end s) ≡ trim_end s
unfolding trim_end
trim_end_idem [] = refl
trim_end_idem (c ∷ s) = ground (arith, trim_end_idem s)

trim_start-solid : (c : ℕ) (r : Text) → is_whitespace c ≡ false → trim_start (c ∷ r) ≡ c ∷ r
unfolding trim_start
trim_start-solid c r h = rw h

trim_end-solid : (c : ℕ) (r : Text) → is_whitespace c ≡ false → trim_end (c ∷ r) ≡ c ∷ trim_end r
unfolding trim_end
trim_end-solid c r h = rw h

-- Trimming twice is trimming once.
pub trim_idem : (s : Text) → trim (trim s) ≡ trim s
unfolding trim
trim_idem s = elim (trim_start-shape s) [
  | inl e ↦ rw e
  | inr (c, r, e, solid) ↦
      rw (e, trim_end-solid c r solid, trim_start-solid c (trim_end r) solid)
        (trim_end-solid c (trim_end r) solid ∙ ap (◌∷◌ c) (trim_end_idem r))
]

trim_start-to_ascii_lowercase :
    (s : Text) → trim_start (to_ascii_lowercase s) ≡ to_ascii_lowercase (trim_start s)
unfolding trim_start to_ascii_lowercase
trim_start-to_ascii_lowercase [] = refl
trim_start-to_ascii_lowercase (c ∷ s) =
    ground (arith, is_whitespace-lower c, trim_start-to_ascii_lowercase s)

trim_end-to_ascii_lowercase :
    (s : Text) → trim_end (to_ascii_lowercase s) ≡ to_ascii_lowercase (trim_end s)
unfolding trim_end to_ascii_lowercase
trim_end-to_ascii_lowercase [] = refl
trim_end-to_ascii_lowercase (c ∷ s) =
    ground (arith, is_whitespace-lower c, trim_end-to_ascii_lowercase s)

-- Trimming and lower-casing commute.
pub trim-to_ascii_lowercase : (s : Text) → trim (to_ascii_lowercase s) ≡ to_ascii_lowercase (trim s)
unfolding trim
trim-to_ascii_lowercase s =
    ap trim_end (trim_start-to_ascii_lowercase s) ∙ trim_end-to_ascii_lowercase (trim_start s)
