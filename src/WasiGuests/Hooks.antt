-- ===== src/WasiGuests/Hooks.antt =====
-- src/wasi_guests.rs: `GatedHttpHooks`, over any header map, any sender and the rest of the error type.
use hellohq_wasm_runtime.Prelude.{
  ℕ, ◌+◌, Bool, not, ◌||◌, List, [], ◌∷◌, map, any, keep, length, Option, none, some, Result, ok,
  err, if◌then◌else◌,
}
use hellohq_wasm_runtime.Str.{Text, lit, starts_with}
use hellohq_wasm_runtime.FetchGate.Gate.{
  FetchDenial, credential_unsupported_transport, check_request,
}
use hellohq_wasm_runtime.RequestPolicy.{
  stripped_response_headers, listed, is_allowed_request_header, is_stripped_response_header,
  is_reserved_credential_header,
}
use hellohq_wasm_runtime.WasiGuests.Headers.{HeaderMap}

abbrev pub Bytes : Type 0
Bytes = List ℕ

-- What `hyper::Uri` yields of its parts.
pub record Uri : Type 0 where
  pub scheme_str : Option Text
  pub host : Option Text
  pub authority : Option Text

-- `std::io::Error`: whether its kind is `AddrNotAvailable`, and its text.
pub record IoError : Type 0 where
  pub addr_not_available : Bool
  pub message : Text

-- The errors that the hooks tell apart; `E` is every other one.
pub data HttpError (E : Type 0) : Type 0 where
  http_request_denied : HttpError E
  internal_error : Option Text → HttpError E
  dns_error : Option Text → Option ℕ → HttpError E
  tls_alert_received : Option ℕ → Option Text → HttpError E
  connect : IoError → HttpError E
  other : E → HttpError E

abbrev pub unwrap_or_empty : Option Text → Text
unwrap_or_empty none = []
unwrap_or_empty (some s) = s

-- `denial_to_error`: every denial is the same to a guest.
unfoldable pub denial_to_error : {E : Type 0} → FetchDenial → HttpError E
denial_to_error denial = http_request_denied

unfoldable pub is_dns_like_connect_error : IoError → Bool
is_dns_like_connect_error e =
    e.addr_not_available || starts_with e.message (lit "failed to lookup address information")

unfoldable pub scrub_error : {E : Type 0} → HttpError E → HttpError E
unfolding is_dns_like_connect_error
scrub_error http_request_denied = http_request_denied
scrub_error (internal_error text) = internal_error none
scrub_error (dns_error rcode info_code) = dns_error none info_code
scrub_error (tls_alert_received alert_id message) = tls_alert_received alert_id none
scrub_error (connect e) = if is_dns_like_connect_error e then dns_error none none else connect e
scrub_error (other e) = other e

-- `map_err`
abbrev pub map_err : {A E F : Type 0} → (E → F) → Result A E → Result A F
map_err f (ok a) = ok a
map_err f (err e) = err (f e)

-- `p2_error_from_dns`, as the payload of a `DnsError`
unfoldable pub p2_error_from_dns : Option Text × Option ℕ
p2_error_from_dns = (none, none)

-- `DEFAULT_FORBIDDEN_HEADERS` is an argument.
unfoldable pub is_forbidden : List Text → Text → Bool
unfolding is_stripped_response_header
is_forbidden default_forbidden name =
    listed name default_forbidden || is_stripped_response_header name

-- A request with a header map `M`; its method and body, `B`, are of no concern to the hooks.
pub record Request (M B : Type 0) : Type 0 where
  pub uri : Uri
  pub headers : M
  pub rest : B

-- `http_body::Frame`: bytes, or trailers.
pub data Frame (M : Type 0) : Type 0 where
  bytes : Bytes → Frame M
  trailers : M → Frame M

-- A response, with the frames of its body. Trailers are not stripped here: the runtime filters them by
-- `forbidden_header_filter`, which is `is_forbidden`.
pub record Response (M E : Type 0) : Type 0 where
  pub status : ℕ
  pub headers : M
  pub body : List (Result (Frame M) (HttpError E))

-- What a send resolves to: the response, and how the connection ends.
pub record Sent (M E : Type 0) : Type 0 where
  pub response : Response M E
  pub io : Result (Unit {0}) (HttpError E)

-- A sender is a closure with a state `S`, called with options `O`.
abbrev pub Sender : (M B E O S : Type 0) → Type 0
Sender M B E O S = S → Request M B → O → S × Result (Sent M E) (HttpError E)

-- The hooks' fields; the sender is the closure's state.
pub record GatedHttpHooks (S : Type 0) : Type 0 where
  pub allowlist : List Text
  pub send : S
  pub dropped_request_headers : ℕ

unfoldable pub with_sender : {S : Type 0} → List Text → S → GatedHttpHooks S
with_sender allowlist send = record {
  allowlist = allowlist;
  send = send;
  dropped_request_headers = 0;
}

module _ {V : Type 0} (hm : HeaderMap V) where
  open hm use {Map, keys, get_all, contains_key, insert, remove}

  -- The loop over the disallowed names, on the map and the count.
  unfoldable pub drop_names : Map → ℕ → List Text → Map × ℕ
  drop_names headers dropped [] = (headers, dropped)
  drop_names headers dropped (name ∷ names) =
      drop_names (remove headers name) (dropped + length (get_all headers name)) names

  unfoldable pub retain_allowed_request_headers : Map → Map × ℕ
  unfolding drop_names is_allowed_request_header
  retain_allowed_request_headers headers =
      drop_names headers 0 (keep (λ name. not (is_allowed_request_header name)) (keys headers))

  unfoldable pub remove_names : Map → List Text → Map
  remove_names headers [] = headers
  remove_names headers (name ∷ names) = remove_names (remove headers name) names

  unfoldable pub strip_response_headers : Map → Map
  unfolding remove_names
  strip_response_headers headers = remove_names headers stripped_response_headers

  module _ {E : Type 0} where
    -- `sanitize_send`, on what the send resolves to.
    unfoldable pub sanitize_send :
        Result (Sent Map E) (HttpError E) → Result (Sent Map E) (HttpError E)
    unfolding strip_response_headers scrub_error
    sanitize_send (err e) = err (scrub_error e)
    sanitize_send (ok s) = ok (record {
      response = record {
        status = s.response.status;
        headers = strip_response_headers s.response.headers;
        body = map (map_err scrub_error) s.response.body;
      };
      io = map_err scrub_error s.io;
    })

    module _ {B : Type 0} where
      -- `gate`
      unfoldable pub gate : List Text → Request Map B → Result (Unit {0}) (HttpError E)
      unfolding check_request is_reserved_credential_header denial_to_error
      gate allowlist request =
          elim (check_request (unwrap_or_empty request.uri.scheme_str)
            (unwrap_or_empty request.uri.host) allowlist) [
              | err denial ↦ err (denial_to_error denial)
              | ok _ ↦
                  if any is_reserved_credential_header (keys request.headers)
                  then err (denial_to_error credential_unsupported_transport)
                  else ok tt
            ]

      module _ {O S : Type 0} (send : Sender Map B E O S) where
        -- `send_sanitized`
        unfoldable pub send_sanitized :
            GatedHttpHooks S
            → Request Map B
            → O
            → GatedHttpHooks S × Result (Sent Map E) (HttpError E)
        unfolding retain_allowed_request_headers sanitize_send
        send_sanitized hooks request options =
            let (headers, dropped) = retain_allowed_request_headers request.headers in
            let (state, result) = send hooks.send (record request { headers = headers }) options in
            (
              record hooks {
                send = state;
                dropped_request_headers = hooks.dropped_request_headers + dropped;
              },
              sanitize_send result,
            )

        unfoldable pub send_request :
            GatedHttpHooks S
            → Request Map B
            → O
            → GatedHttpHooks S × Result (Sent Map E) (HttpError E)
        unfolding gate send_sanitized
        send_request hooks request options = elim (gate hooks.allowlist request) [
          | err denied ↦ (hooks, err denied)
          | ok _ ↦ send_sanitized hooks request options
        ]

  -- `default_sender`, with `HeaderValue::from_str`: the request's headers with a `host`.
  unfoldable pub host_header : {B : Type 0} → (Text → Option V) → Request Map B → Map
  host_header from_str request =
      if contains_key request.headers (lit "host")
      then request.headers
      else elim request.uri.authority [
        | none ↦ request.headers
        | some authority ↦ elim (from_str authority) [
          | none ↦ request.headers
          | some value ↦ insert request.headers (lit "host") value
        ]
      ]

  -- The turnkey sender has no state here.
  unfoldable pub default_sender :
      {B E O : Type 0}
      → (Text → Option V)
      → (Request Map B → O → Result (Sent Map E) (HttpError E))
      → Sender Map B E O (Unit {0})
  unfolding host_header
  default_sender from_str default_send_request s request options =
      (s, default_send_request (record request { headers = host_header from_str request }) options)
