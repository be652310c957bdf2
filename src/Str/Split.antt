-- ===== src/Str/Split.antt =====
-- `split` and `split_once` at a character that does not occur in the first part.
use hellohq_wasm_runtime.Prelude.{ℕ, true, not, [], ◌∷◌, ◌++◌, ◌≡◌, refl, arith, all, ◌==◌, some}
use hellohq_wasm_runtime.Str.{Text, split, split_once}

-- The character `d` does not occur in `s`.
abbrev pub IsFree : ℕ → Text → Type 0
IsFree d s = all (λ c. not (c == d)) s ≡ true

pub split_free : (d : ℕ) (s : Text) → IsFree d s → split s d ≡ s ∷ []
unfolding split
split_free d [] h = refl
split_free d (c ∷ s) h = ground (arith, split_free d s)

pub split-append : (d : ℕ) (s t : Text) → IsFree d s → split (s ++ d ∷ t) d ≡ s ∷ split t d
unfolding split
split-append d [] t h = ground arith
split-append d (c ∷ s) t h = ground (arith, split-append d s t)

pub split_once-append : (d : ℕ) (s t : Text) → IsFree d s → split_once (s ++ d ∷ t) d ≡ some (s, t)
unfolding split_once
split_once-append d [] t h = ground arith
split_once-append d (c ∷ s) t h = ground (arith, split_once-append d s t)
