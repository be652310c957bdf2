-- ===== src/Http/Table.antt =====
-- `Table<T>` of src/wasi_http.rs: values under `u32` ids, with a counter that allocates the next id.
-- The hash map is an association list that clients see only through `table_laws`.
use hellohq_wasm_runtime.Prelude.{
  ℕ, ◌+◌, ◌%◌, ◌^◌, List, [], ◌∷◌, Option, none, some, ◌≡◌, refl, arith, ◌==◌, if◌then◌else◌,
}

module _ {ℓ} {T : Type ℓ} where
  lookup : ℕ → List (ℕ × T) → Option T
  lookup r [] = none
  lookup r ((k, v) ∷ items) = if k == r then some v else lookup r items

  without : ℕ → List (ℕ × T) → List (ℕ × T)
  without r [] = []
  without r ((k, v) ∷ items) = let rest = without r items in if k == r then rest else (k, v) ∷ rest

  lookup-without :
      (r j : ℕ) (items : List (ℕ × T))
      → lookup j (without r items) ≡ (if r == j then none else lookup j items)
  unfolding lookup without
  lookup-without r j [] = ground arith
  lookup-without r j ((k, v) ∷ items) = ground (arith, lookup-without r j items)

pub record Table {ℓ} (T : Type ℓ) : Type ℓ where
  items : List (ℕ × T)
  pub next : ℕ

-- `u32` arithmetic wraps in a release build.
abbrev pub u32_mod : ℕ
u32_mod = 2 ^ 32

module _ {ℓ} {T : Type ℓ} where
  -- `Table::default`; id 0 is never given out first.
  pub default : Table T
  default = record { items = []; next = 1 }

  pub get : Table T → ℕ → Option T
  get t rep = lookup rep t.items

  -- The id given out, and the table with the value under it.
  pub insert : Table T → T → ℕ × Table T
  insert t value = (
    t.next,
    record { items = (t.next, value) ∷ without t.next t.items; next = (t.next + 1) % u32_mod },
  )

  -- A write through `get_mut`, where the entry is there.
  pub put : Table T → ℕ → T → Table T
  put t rep value = record t { items = (rep, value) ∷ without rep t.items }

  pub remove : Table T → ℕ → Table T
  remove t rep = record t { items = without rep t.items }

  pub get-default : (r : ℕ) → get default r ≡ none
  unfolding get default lookup
  get-default r = refl

  pub get-insert :
      (t : Table T) (v : T) (r : ℕ)
      → get (insert t v).1 r ≡ (if t.next == r then some v else get t r)
  unfolding get insert lookup
  get-insert t v r = ground (arith, lookup-without t.next r t.items)

  pub get-put :
      (t : Table T) (k : ℕ) (v : T) (r : ℕ)
      → get (put t k v) r ≡ (if k == r then some v else get t r)
  unfolding get put lookup
  get-put t k v r = ground (arith, lookup-without k r t.items)

  pub get-remove : (t : Table T) (k r : ℕ) → get (remove t k) r ≡ (if k == r then none else get t r)
  unfolding get remove
  get-remove t k r = lookup-without k r t.items

  pub insert-next : (t : Table T) (v : T) → (insert t v).0 ≡ t.next
  unfolding insert
  insert-next t v = refl

  pub next-insert : (t : Table T) (v : T) → (insert t v).1.next ≡ (t.next + 1) % u32_mod
  unfolding insert
  next-insert t v = refl

  pub next-put : (t : Table T) (k : ℕ) (v : T) → (put t k v).next ≡ t.next
  unfolding put
  next-put t k v = refl

  pub next-remove : (t : Table T) (k : ℕ) → (remove t k).next ≡ t.next
  unfolding remove
  next-remove t k = refl

pub next-default {ℓ} : (T : Type ℓ) → (default {T = T}).next ≡ 1
unfolding default
next-default T = refl

pub ruleset table_laws = (
  get-default, get-insert, get-put, get-remove, insert-next, next-default, next-insert, next-put,
  next-remove,
)
