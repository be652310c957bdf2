-- ===== src/Http/Message.antt =====
-- src/wasi_http.rs, the methods on `request` and `response`. A minted stream or future is an argument:
-- Wasmtime makes it.
use hellohq_wasm_runtime.Prelude.{
  ℕ, true, not, Option, none, some, Result, ok, err, if◌then◌else◌, within,
}
use hellohq_wasm_runtime.Str.{Text}
use hellohq_wasm_runtime.Http.Table
use hellohq_wasm_runtime.Http.Table.{Table}
use hellohq_wasm_runtime.Http.Data.{
  Method, MethodOwned, to_owned, from_owned, Scheme, scheme_to_owned, scheme_from_owned,
  StreamReader, TrailersFuture, RequestData, ResponseData, Host,
}

module _ {ℓ κ} {A : Type ℓ} {B : Type κ} where
  -- `Option::map`
  abbrev pub option_map : (A → B) → Option A → Option B
  option_map f none = none
  option_map f (some a) = some (f a)

  -- `Option::map(..).unwrap_or(..)`
  abbrev pub map_or : B → (A → B) → Option A → B
  map_or d f none = d
  map_or d f (some a) = f a

abbrev pub unwrap_or {ℓ} : {A : Type ℓ} → A → Option A → A
unwrap_or d none = d
unwrap_or d (some a) = a

unfoldable pub get_method : Host → ℕ → Method
get_method h rep = map_or Method.get (λ r. from_owned r.method) (Table.get h.requests rep)

-- A setter through `requests.get_mut(rep)`.
unfoldable pub edit_request :
    Host → ℕ → (RequestData → RequestData) → Host × Result (Unit {0}) (Unit {0})
edit_request h rep f = elim (Table.get h.requests rep) [
  | some r ↦ (record h { requests = Table.put h.requests rep (f r) }, ok tt)
  | none ↦ (h, err tt)
]

unfoldable pub set_method : Host → ℕ → Method → Host × Result (Unit {0}) (Unit {0})
unfolding edit_request
set_method h rep method = edit_request h rep (λ r. record r { method = to_owned method })

unfoldable pub get_path_with_query : Host → ℕ → Option Text
get_path_with_query h rep = map_or none (λ r. r.path_with_query) (Table.get h.requests rep)

unfoldable pub set_path_with_query : Host → ℕ → Option Text → Host × Result (Unit {0}) (Unit {0})
unfolding edit_request
set_path_with_query h rep path = edit_request h rep (λ r. record r { path_with_query = path })

unfoldable pub get_scheme : Host → ℕ → Option Scheme
get_scheme h rep =
    map_or none (λ r. option_map scheme_from_owned r.scheme) (Table.get h.requests rep)

unfoldable pub set_scheme : Host → ℕ → Option Scheme → Host × Result (Unit {0}) (Unit {0})
unfolding edit_request
set_scheme h rep scheme =
    edit_request h rep (λ r. record r { scheme = option_map scheme_to_owned scheme })

unfoldable pub get_authority : Host → ℕ → Option Text
get_authority h rep = map_or none (λ r. r.authority) (Table.get h.requests rep)

unfoldable pub set_authority : Host → ℕ → Option Text → Host × Result (Unit {0}) (Unit {0})
unfolding edit_request
set_authority h rep authority = edit_request h rep (λ r. record r { authority = authority })

-- Marks the options at `rep` immutable, where they are there.
freeze_options : Host → ℕ → Host
freeze_options h rep = elim (Table.get h.options rep) [
  | none ↦ h
  | some o ↦ record h { options = Table.put h.options rep (record o { immutable = true }) }
]

unfoldable pub get_options : Host → ℕ → Host × Option ℕ
unfolding freeze_options
get_options h rep = elim (map_or none (λ r. r.options) (Table.get h.requests rep)) [
  | some o ↦ (freeze_options h o, some o)
  | none ↦ (h, none)
]

-- Marks the fields at `rep` immutable, where they are there.
unfoldable pub freeze_fields : Host → ℕ → Host
freeze_fields h rep = elim (Table.get h.fields rep) [
  | none ↦ h
  | some f ↦ record h { fields = Table.put h.fields rep (record f { immutable = true }) }
]

-- `request.get-headers`
unfoldable pub get_headers : Host → ℕ → Host × ℕ
unfolding freeze_fields
get_headers h rep =
    let headers = map_or 0 (λ r. r.headers) (Table.get h.requests rep) in
    (freeze_fields h headers, headers)

unfoldable pub drop_request : Host → ℕ → Host
drop_request h rep = record h { requests = Table.remove h.requests rep }

-- `request.new`
unfoldable pub new_request : Host → ℕ → Option StreamReader → TrailersFuture → Option ℕ → Host × ℕ
new_request h headers contents trailers options =
    let r : RequestData = record {
      method = MethodOwned.get;
      path_with_query = none;
      scheme = none;
      authority = none;
      headers = headers;
      options = options;
      body = contents;
      trailers = some trailers;
    } in
    (record h { requests = (Table.insert h.requests r).1 }, (Table.insert h.requests r).0)

-- `request.consume-body`, with the streams minted for a request that carries none.
unfoldable pub consume_request_body :
    Host → ℕ → StreamReader → TrailersFuture → Host × StreamReader × TrailersFuture
consume_request_body h rep empty_body no_trailers = elim (Table.get h.requests rep) [
  | some r ↦ (
    record h { requests = Table.put h.requests rep (record r { body = none; trailers = none }) },
    unwrap_or empty_body r.body,
    unwrap_or no_trailers r.trailers,
  )
  | none ↦ (h, empty_body, no_trailers)
]

unfoldable pub get_status_code : Host → ℕ → ℕ
get_status_code h rep = map_or 200 (λ r. r.status_code) (Table.get h.responses rep)

unfoldable pub set_status_code : Host → ℕ → ℕ → Host × Result (Unit {0}) (Unit {0})
set_status_code h rep status_code =
    if not (within 100 599 status_code) then (h, err tt) else elim (Table.get h.responses rep) [
      | some r ↦ (
        record h { responses = Table.put h.responses rep (record r { status_code = status_code }) },
        ok tt,
      )
      | none ↦ (h, err tt)
    ]

-- `response.get-headers`
unfoldable pub get_response_headers : Host → ℕ → Host × ℕ
unfolding freeze_fields
get_response_headers h rep =
    let headers = map_or 0 (λ r. r.headers) (Table.get h.responses rep) in
    (freeze_fields h headers, headers)

unfoldable pub drop_response : Host → ℕ → Host
drop_response h rep = record h { responses = Table.remove h.responses rep }

-- `response.new`
unfoldable pub new_response : Host → ℕ → Option StreamReader → TrailersFuture → Host × ℕ
new_response h headers contents trailers =
    let r : ResponseData = record {
      status_code = 200;
      headers = headers;
      body = contents;
      trailers = some trailers;
    } in
    (record h { responses = (Table.insert h.responses r).1 }, (Table.insert h.responses r).0)

-- `response.consume-body`
unfoldable pub consume_response_body :
    Host → ℕ → StreamReader → TrailersFuture → Host × StreamReader × TrailersFuture
consume_response_body h rep empty_body no_trailers = elim (Table.get h.responses rep) [
  | some r ↦ (
    record h { responses = Table.put h.responses rep (record r { body = none; trailers = none }) },
    unwrap_or empty_body r.body,
    unwrap_or no_trailers r.trailers,
  )
  | none ↦ (h, empty_body, no_trailers)
]
