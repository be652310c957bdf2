-- ===== src/Http/Data.antt =====
-- src/wasi_http.rs: the backing state of each resource kind, and the host state.
use hellohq_wasm_runtime.Prelude.{ℕ, Bool, false, Option, none}
use hellohq_wasm_runtime.Str.{Text}
use hellohq_wasm_runtime.Http.Entries.{FieldsData}
use hellohq_wasm_runtime.Http.Table
use hellohq_wasm_runtime.Http.Table.{Table}

-- The bindings' `method` and `scheme`, and the owned mirrors that the host stores.
pub data Method : Type 0 where
  get head post put delete connect options trace patch : Method
  other : Text → Method

pub data MethodOwned : Type 0 where
  get head post put delete connect options trace patch : MethodOwned
  other : Text → MethodOwned

unfoldable pub to_owned : Method → MethodOwned
to_owned Method.get = MethodOwned.get
to_owned Method.head = MethodOwned.head
to_owned Method.post = MethodOwned.post
to_owned Method.put = MethodOwned.put
to_owned Method.delete = MethodOwned.delete
to_owned Method.connect = MethodOwned.connect
to_owned Method.options = MethodOwned.options
to_owned Method.trace = MethodOwned.trace
to_owned Method.patch = MethodOwned.patch
to_owned (Method.other s) = MethodOwned.other s

unfoldable pub from_owned : MethodOwned → Method
from_owned MethodOwned.get = Method.get
from_owned MethodOwned.head = Method.head
from_owned MethodOwned.post = Method.post
from_owned MethodOwned.put = Method.put
from_owned MethodOwned.delete = Method.delete
from_owned MethodOwned.connect = Method.connect
from_owned MethodOwned.options = Method.options
from_owned MethodOwned.trace = Method.trace
from_owned MethodOwned.patch = Method.patch
from_owned (MethodOwned.other s) = Method.other s

pub data Scheme : Type 0 where
  http https : Scheme
  other : Text → Scheme

pub data SchemeOwned : Type 0 where
  http https : SchemeOwned
  other : Text → SchemeOwned

unfoldable pub scheme_to_owned : Scheme → SchemeOwned
scheme_to_owned Scheme.http = SchemeOwned.http
scheme_to_owned Scheme.https = SchemeOwned.https
scheme_to_owned (Scheme.other s) = SchemeOwned.other s

unfoldable pub scheme_from_owned : SchemeOwned → Scheme
scheme_from_owned SchemeOwned.http = Scheme.http
scheme_from_owned SchemeOwned.https = Scheme.https
scheme_from_owned (SchemeOwned.other s) = Scheme.other s

-- A handle of a Wasmtime stream or future; the host only stores it and hands it on.
pub record StreamReader : Type 0 where
  pub stream : ℕ

pub record TrailersFuture : Type 0 where
  pub future : ℕ

pub record RequestData : Type 0 where
  pub method : MethodOwned
  pub path_with_query : Option Text
  pub scheme : Option SchemeOwned
  pub authority : Option Text
  pub headers : ℕ
  pub options : Option ℕ
  pub body : Option StreamReader
  pub trailers : Option TrailersFuture

pub record ResponseData : Type 0 where
  pub status_code : ℕ
  pub headers : ℕ
  pub body : Option StreamReader
  pub trailers : Option TrailersFuture

pub record RequestOptionsData : Type 0 where
  pub connect_timeout : Option ℕ
  pub first_byte_timeout : Option ℕ
  pub between_bytes_timeout : Option ℕ
  pub immutable : Bool

abbrev pub no_options : RequestOptionsData
no_options = record {
  connect_timeout = none;
  first_byte_timeout = none;
  between_bytes_timeout = none;
  immutable = false;
}

-- The resource tables of `WasiHttpHost`.
pub record Host : Type 0 where
  pub fields : Table FieldsData
  pub requests : Table RequestData
  pub responses : Table ResponseData
  pub options : Table RequestOptionsData

abbrev pub new_host : Host
new_host = record {
  fields = Table.default;
  requests = Table.default;
  responses = Table.default;
  options = Table.default;
}
