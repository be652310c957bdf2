-- ===== src/Http/Entries.antt =====
-- src/wasi_http.rs, `FieldsData`: an ordered list of header entries, whose names compare up to case.
use hellohq_wasm_runtime.Prelude.{ℕ, Bool, not, List, [], ◌∷◌, ◌++◌, map, keep, any}
use hellohq_wasm_runtime.Str.{Text, eq_ignore_ascii_case}

-- A header's value: raw bytes.
abbrev pub FieldValue : Type 0
FieldValue = List ℕ

pub record FieldsData : Type 0 where
  pub entries : List (Text × FieldValue)
  pub immutable : Bool

abbrev pub matches : Text → Text → Bool
matches name candidate = eq_ignore_ascii_case name candidate

-- The entries with another name.
abbrev pub others : Text → List (Text × FieldValue) → List (Text × FieldValue)
others name entries = keep (λ e. not (matches name e.0)) entries

unfoldable pub values : Text → List (Text × FieldValue) → List FieldValue
values name entries = map (λ e. e.1) (keep (λ e. matches name e.0) entries)

unfoldable pub get : FieldsData → Text → List FieldValue
unfolding values
get f name = values name f.entries

unfoldable pub has : FieldsData → Text → Bool
has f name = any (λ e. matches name e.0) f.entries

unfoldable pub set : FieldsData → Text → List FieldValue → FieldsData
set f name vs = record f { entries = others name f.entries ++ map (λ v. (name, v)) vs }

unfoldable pub delete : FieldsData → Text → FieldsData
delete f name = record f { entries = others name f.entries }

unfoldable pub get_and_delete : FieldsData → Text → FieldsData × List FieldValue
unfolding get delete
get_and_delete f name = (delete f name, get f name)

unfoldable pub append : FieldsData → Text → FieldValue → FieldsData
append f name value = record f { entries = f.entries ++ (name, value) ∷ [] }
