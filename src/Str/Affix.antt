-- ===== src/Str/Affix.antt =====
-- Equality, prefixes, suffixes and substrings of texts, as equations.
use hellohq_wasm_runtime.Prelude.{
  true, [], ◌∷◌, ◌++◌, ◌↔◌, inl, inr, ◌≡◌, refl, ap, Option, none, some, arith, Bool-cases,
}
use hellohq_wasm_runtime.Str.{Text, equal, strip_prefix, is_some, starts_with, ends_with, contains}

-- The comparison decides equality.
pub equal_iff : (s t : Text) → (equal s t ≡ true) ↔ (s ≡ t)
unfolding equal
equal_iff [] [] = ground arith
equal_iff [] (d ∷ t) = ground arith
equal_iff (c ∷ s) [] = ground arith
equal_iff (c ∷ s) (d ∷ t) = ground (arith, equal_iff s t)

pub equal_refl : (a : Text) → equal a a ≡ true
equal_refl a = (equal_iff a a).1 refl

pub strip_prefix_iff : (s p r : Text) → (strip_prefix s p ≡ some r) ↔ (s ≡ p ++ r)
unfolding strip_prefix
strip_prefix_iff s [] r = ground arith
strip_prefix_iff [] (p ∷ ps) r = ground arith
strip_prefix_iff (c ∷ s) (p ∷ ps) r = ground (arith, strip_prefix_iff s ps r)

pub strip_prefix-append : (p r : Text) → strip_prefix (p ++ r) p ≡ some r
strip_prefix-append p r = (strip_prefix_iff (p ++ r) p r).1 refl

is_some_witness : (o : Option Text) → is_some o ≡ true → (r : Text) × (o ≡ some r)
is_some_witness none h = cc
is_some_witness (some r) h = (r, refl)

pub starts_with-append : (p r : Text) → starts_with (p ++ r) p ≡ true
unfolding starts_with
starts_with-append p r = rw (strip_prefix-append p r)

pub starts_with_iff : (s p : Text) → (starts_with s p ≡ true) ↔ ((r : Text) × (s ≡ p ++ r))
unfolding starts_with
starts_with_iff s p = (
  λ h. let (r, e) = is_some_witness (strip_prefix s p) h in (r, (strip_prefix_iff s p r).0 e),
  λ (r, e). rw e (starts_with-append p r),
)

ends_with-suffix : (s p : Text) → ends_with s p ≡ true → (q : Text) × (s ≡ q ++ p)
unfolding ends_with
ends_with-suffix [] p h = ([], (equal_iff [] p).0 h)
ends_with-suffix (c ∷ s) p h = elim (Bool-cases (equal (c ∷ s) p)) [
  | inl e ↦ ([], (equal_iff (c ∷ s) p).0 e)
  | inr e ↦ let (q, w) = ends_with-suffix s p (ground arith) in (c ∷ q, ap (◌∷◌ c) w)
]

pub ends_with-append : (q p : Text) → ends_with (q ++ p) p ≡ true
unfolding ends_with
ends_with-append [] [] = equal_refl []
ends_with-append [] (c ∷ p) = ground (arith, equal_refl (c ∷ p))
ends_with-append (c ∷ q) p = ground (arith, ends_with-append q p)

pub ends_with_iff : (s p : Text) → (ends_with s p ≡ true) ↔ ((q : Text) × (s ≡ q ++ p))
ends_with_iff s p = (ends_with-suffix s p, λ (q, e). rw e (ends_with-append q p))

contains-infix : (s p : Text) → contains s p ≡ true → (a : Text) × (b : Text) × (s ≡ a ++ (p ++ b))
unfolding contains
contains-infix [] p h = let (r, e) = (starts_with_iff [] p).0 h in ([], r, e)
contains-infix (c ∷ s) p h = elim (Bool-cases (starts_with (c ∷ s) p)) [
  | inl t ↦ let (r, e) = (starts_with_iff (c ∷ s) p).0 t in ([], r, e)
  | inr t ↦ let (a, b, e) = contains-infix s p (ground arith) in (c ∷ a, b, ap (◌∷◌ c) e)
]

contains-append : (a p b : Text) → contains (a ++ (p ++ b)) p ≡ true
unfolding contains
contains-append [] [] [] = starts_with-append [] []
contains-append [] [] (c ∷ b) = ground (arith, starts_with-append [] (c ∷ b))
contains-append [] (c ∷ p) b = ground (arith, starts_with-append (c ∷ p) b)
contains-append (c ∷ a) p b = ground (arith, contains-append a p b)

-- `p` occurs in `s` exactly if `s` is `p` with something before and something behind it.
pub contains_iff :
    (s p : Text) → (contains s p ≡ true) ↔ ((a : Text) × (b : Text) × (s ≡ a ++ (p ++ b)))
contains_iff s p = (contains-infix s p, λ (a, b, e). rw e (contains-append a p b))
