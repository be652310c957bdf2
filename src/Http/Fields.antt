-- ===== src/Http/Fields.antt =====
-- src/wasi_http.rs, `impl HostFields for WasiHttpHost`. A method returns the host and its result; a
-- `Resource` is its id.
use hellohq_wasm_runtime.Prelude.{
  ℕ, Bool, false, List, [], none, some, Result, ok, err, if◌then◌else◌,
}
use hellohq_wasm_runtime.Str.{Text}
use hellohq_wasm_runtime.Http.Table
use hellohq_wasm_runtime.Http.Entries
use hellohq_wasm_runtime.Http.Entries.{FieldValue, FieldsData}
use hellohq_wasm_runtime.Http.Data.{Host}

pub data HeaderError : Type 0 where
  invalid_syntax forbidden immutable : HeaderError

-- What a shared read of `rep` yields, or the default.
abbrev pub read {ℓ} : {A : Type ℓ} → Host → ℕ → A → (FieldsData → A) → A
read h rep missing f = elim (Table.get h.fields rep) [ none ↦ missing | some d ↦ f d ]

insert_fields : Host → FieldsData → Host × ℕ
insert_fields h d = (record h { fields = (Table.insert h.fields d).1 }, (Table.insert h.fields d).0)

unfoldable pub new : Host → Host × ℕ
unfolding insert_fields
new h = insert_fields h (record { entries = []; immutable = false })

unfoldable pub from_list : Host → List (Text × FieldValue) → Host × Result ℕ HeaderError
unfolding insert_fields
from_list h entries =
    let (h', rep) = insert_fields h (record { entries = entries; immutable = false }) in
    (h', ok rep)

unfoldable pub get : Host → ℕ → Text → List FieldValue
get h rep name = read h rep [] (λ f. Entries.get f name)

unfoldable pub has : Host → ℕ → Text → Bool
has h rep name = read h rep false (λ f. Entries.has f name)

-- The opening of every mutating method: a missing or an immutable `fields` is refused, and `f`
-- writes the entry otherwise.
unfoldable pub edit {ℓ} :
    {B : Type ℓ} → Host → ℕ → (FieldsData → FieldsData × B) → Host × Result B HeaderError
edit h rep f = elim (Table.get h.fields rep) [
  | none ↦ (h, err immutable)
  | some d ↦
      if d.immutable
      then (h, err immutable)
      else (record h { fields = Table.put h.fields rep (f d).0 }, ok (f d).1)
]

unfoldable pub set : Host → ℕ → Text → List FieldValue → Host × Result (Unit {0}) HeaderError
unfolding edit
set h rep name value = edit h rep (λ f. (Entries.set f name value, tt))

unfoldable pub delete : Host → ℕ → Text → Host × Result (Unit {0}) HeaderError
unfolding edit
delete h rep name = edit h rep (λ f. (Entries.delete f name, tt))

unfoldable pub get_and_delete : Host → ℕ → Text → Host × Result (List FieldValue) HeaderError
unfolding edit
get_and_delete h rep name = edit h rep (λ f. Entries.get_and_delete f name)

unfoldable pub append : Host → ℕ → Text → FieldValue → Host × Result (Unit {0}) HeaderError
unfolding edit
append h rep name value = edit h rep (λ f. (Entries.append f name value, tt))

unfoldable pub copy_all : Host → ℕ → List (Text × FieldValue)
copy_all h rep = read h rep [] (λ f. f.entries)

unfoldable pub clone : Host → ℕ → Host × ℕ
unfolding insert_fields copy_all
clone h rep = insert_fields h (record { entries = copy_all h rep; immutable = false })

unfoldable pub drop : Host → ℕ → Host
drop h rep = record h { fields = Table.remove h.fields rep }
