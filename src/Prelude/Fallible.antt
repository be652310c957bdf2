-- ===== src/Prelude/Fallible.antt =====
-- `Result<A, E>` of the source, its `?`, and how a successful or failed chain is taken apart.
use mathlib.Core.Path.{◌≡◌, refl}
use mathlib.Core.Logic.{◌⊎◌, inl, inr}
use mathlib.Core.Option.{Option, none, some}

pub data Result {ℓ κ} (A : Type ℓ) (E : Type κ) : Type (ℓ ⊔ κ) where
  ok : A → Result A E
  err : E → Result A E

module _ {ℓ κ μ} {A : Type ℓ} {B : Type κ} {E : Type μ} where
  infixl 5 ◌>>=◌
  abbrev pub ◌>>=◌ : Result A E → (A → Result B E) → Result B E
  ok a >>= f = f a
  err e >>= f = err e

  -- A chain fails in its second part or in its first.
  pub err_of_chain :
      {failure : E} (f : A → Result B E) (m : Result A E)
      → (m >>= f) ≡ err failure
      → ((a : A) × (f a ≡ err failure) × (m ≡ ok a)) ⊎ (m ≡ err failure)
  err_of_chain f (err _) h = inr cc
  err_of_chain f (ok a) h = inl (a, h, refl)

  -- A chain succeeds through a value of its first part.
  pub ok_of_chain :
      {b : B} (f : A → Result B E) (m : Result A E)
      → (m >>= f) ≡ ok b
      → (a : A) × (f a ≡ ok b) × (m ≡ ok a)
  ok_of_chain f (err _) h = cc
  ok_of_chain f (ok a) h = (a, h, refl)

pub Result-cases {ℓ κ} :
    {A : Type ℓ} {E : Type κ} (r : Result A E) → ((a : A) × (r ≡ ok a)) ⊎ ((e : E) × (r ≡ err e))
Result-cases (ok a) = inl (a, refl)
Result-cases (err e) = inr (e, refl)

-- `Option::ok_or`
abbrev pub ok_or {ℓ κ} : {A : Type ℓ} {E : Type κ} → Option A → E → Result A E
ok_or none e = err e
ok_or (some a) e = ok a
