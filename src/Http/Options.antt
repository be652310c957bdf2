-- ===== src/Http/Options.antt =====
-- src/wasi_http.rs, `impl HostRequestOptions for WasiHttpHost`.
use hellohq_wasm_runtime.Prelude.{ℕ, false, Option, none, some, Result, ok, err, if◌then◌else◌}
use hellohq_wasm_runtime.Http.Table
use hellohq_wasm_runtime.Http.Data.{RequestOptionsData, no_options, Host}

pub data RequestOptionsError : Type 0 where
  not_supported immutable : RequestOptionsError

insert_options : Host → RequestOptionsData → Host × ℕ
insert_options h d =
    (record h { options = (Table.insert h.options d).1 }, (Table.insert h.options d).0)

unfoldable pub new : Host → Host × ℕ
unfolding insert_options
new h = insert_options h no_options

-- A getter of one timeout.
abbrev read : Host → ℕ → (RequestOptionsData → Option ℕ) → Option ℕ
read h rep f = elim (Table.get h.options rep) [ none ↦ none | some o ↦ f o ]

unfoldable pub get_connect_timeout : Host → ℕ → Option ℕ
get_connect_timeout h rep = read h rep (λ o. o.connect_timeout)

unfoldable pub get_first_byte_timeout : Host → ℕ → Option ℕ
get_first_byte_timeout h rep = read h rep (λ o. o.first_byte_timeout)

unfoldable pub get_between_bytes_timeout : Host → ℕ → Option ℕ
get_between_bytes_timeout h rep = read h rep (λ o. o.between_bytes_timeout)

-- The opening of every setter, as for `fields`.
unfoldable pub edit :
    Host
    → ℕ
    → (RequestOptionsData → RequestOptionsData)
    → Host × Result (Unit {0}) RequestOptionsError
edit h rep f = elim (Table.get h.options rep) [
  | none ↦ (h, err immutable)
  | some o ↦
      if o.immutable
      then (h, err immutable)
      else (record h { options = Table.put h.options rep (f o) }, ok tt)
]

unfoldable pub set_connect_timeout :
    Host → ℕ → Option ℕ → Host × Result (Unit {0}) RequestOptionsError
unfolding edit
set_connect_timeout h rep duration = edit h rep (λ o. record o { connect_timeout = duration })

unfoldable pub set_first_byte_timeout :
    Host → ℕ → Option ℕ → Host × Result (Unit {0}) RequestOptionsError
unfolding edit
set_first_byte_timeout h rep duration = edit h rep (λ o. record o { first_byte_timeout = duration })

unfoldable pub set_between_bytes_timeout :
    Host → ℕ → Option ℕ → Host × Result (Unit {0}) RequestOptionsError
unfolding edit
set_between_bytes_timeout h rep duration =
    edit h rep (λ o. record o { between_bytes_timeout = duration })

abbrev or_default : Option RequestOptionsData → RequestOptionsData
or_default none = no_options
or_default (some o) = o

unfoldable pub clone : Host → ℕ → Host × ℕ
unfolding insert_options
clone h rep = insert_options h (record (or_default (Table.get h.options rep)) { immutable = false })

unfoldable pub drop : Host → ℕ → Host
drop h rep = record h { options = Table.remove h.options rep }
