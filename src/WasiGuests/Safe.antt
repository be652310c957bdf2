-- ===== src/WasiGuests/Safe.antt =====
-- src/wasi_guests.rs: what the hooks let out to the sender, and what they let back to the guest.
use hellohq_wasm_runtime.Prelude.{
  true, false, List, [], any, Every, none, Result, ok, err, if◌then◌else◌, ◌≡◌, refl, ap, arith,
  Result-cases, inl, inr,
}
use hellohq_wasm_runtime.Str.{Text}
use hellohq_wasm_runtime.FetchGate.Gate.{check_request}
use hellohq_wasm_runtime.FetchGate.Permit.{Permitted, check_request_iff}
use hellohq_wasm_runtime.RequestPolicy.{
  stripped_response_headers, listed, is_allowed_request_header, is_reserved_credential_header,
}
use hellohq_wasm_runtime.WasiGuests.Headers.{HeaderMap}
use hellohq_wasm_runtime.WasiGuests.Hooks.{
  HttpError, http_request_denied, internal_error, dns_error, tls_alert_received, connect, other,
  is_dns_like_connect_error, Request, Sent, Sender, GatedHttpHooks, unwrap_or_empty,
  denial_to_error, retain_allowed_request_headers, sanitize_send, gate, send_sanitized,
  send_request,
}
use hellohq_wasm_runtime.WasiGuests.Retained.{get_all-retain}

-- The error carries no free-form text of the sender's, but for the I/O error of a failed connection that
-- is no failed name lookup.
abbrev pub IsScrubbed : {E : Type 0} → HttpError E → Type 0
IsScrubbed http_request_denied = Unit
IsScrubbed (internal_error text) = text ≡ none
IsScrubbed (dns_error rcode info_code) = rcode ≡ none
IsScrubbed (tls_alert_received alert_id message) = message ≡ none
IsScrubbed (connect e) = is_dns_like_connect_error e ≡ false
IsScrubbed (other e) = Unit

abbrev pub ErrIsScrubbed : {A E : Type 0} → Result A (HttpError E) → Type 0
ErrIsScrubbed (ok a) = Unit
ErrIsScrubbed (err e) = IsScrubbed e

module _ {V : Type 0} (hm : HeaderMap V) where
  open hm use {Map, keys, get_all}

  -- What a guest may be given: no cookie is set, and every error is scrubbed, now or while it reads on.
  abbrev pub IsClean : {E : Type 0} → Result (Sent Map E) (HttpError E) → Type 0
  IsClean (err e) = IsScrubbed e
  IsClean (ok s) =
      ((n : Text) → listed n stripped_response_headers ≡ true → get_all s.response.headers n ≡ [])
      × Every ErrIsScrubbed s.response.body
      × ErrIsScrubbed s.io

  -- A request that the gate permits and that carries no reserved credential header.
  pub record Passes {B : Type 0} (allowlist : List Text) (request : Request Map B) : Type 0 where
    pub permitted :
        Permitted
          (unwrap_or_empty request.uri.scheme_str)
          (unwrap_or_empty request.uri.host)
          allowlist
    pub no_credential : any is_reserved_credential_header (keys request.headers) ≡ false

  module _ {B E : Type 0} (allowlist : List Text) (request : Request Map B) where
    gate-Passes : gate hm {E = E} allowlist request ≡ ok tt → Passes allowlist request
    unfolding gate denial_to_error
    gate-Passes h =
        let scheme : Text = unwrap_or_empty request.uri.scheme_str in
        let host : Text = unwrap_or_empty request.uri.host in
        elim (Result-cases (check_request scheme host allowlist)) [
          | inl (u, e) ↦ record {
            permitted = (check_request_iff scheme host allowlist (ok u)).0 e;
            no_credential = ground (arith, e, h);
          }
          | inr (d, e) ↦ ground (arith, e, h)
        ]

    Passes-gate : Passes allowlist request → gate hm {E = E} allowlist request ≡ ok tt
    unfolding gate denial_to_error
    Passes-gate p =
        let scheme : Text = unwrap_or_empty request.uri.scheme_str in
        let host : Text = unwrap_or_empty request.uri.host in
        let e : check_request scheme host allowlist ≡ ok tt =
          (check_request_iff scheme host allowlist (ok tt)).1 p.permitted in
        ground (arith, e, p.no_credential)

    gate-denied : {e : HttpError E} → gate hm allowlist request ≡ err e → e ≡ http_request_denied
    unfolding gate denial_to_error
    gate-denied h = ground (arith, h)

  module _ {B E O S : Type 0} (send : Sender Map B E O S) (hooks : GatedHttpHooks S)
      (request : Request Map B) (options : O) where
    -- A request that the gate does not permit, or that carries the reserved credential header, fails
    -- as denied, whatever the reason: the sender is not called and nothing is counted.
    pub send_request_denied :
        ¬ Passes hooks.allowlist request
        → send_request hm send hooks request options ≡ (hooks, err http_request_denied)
    unfolding send_request
    send_request_denied refused = elim (Result-cases (gate hm {E = E} hooks.allowlist request)) [
      | inl (u, e) ↦ absurd (refused (gate-Passes {E = E} hooks.allowlist request e))
      | inr (d, e) ↦
          rw (send_request, e)
            (ap (λ (f : HttpError E). (hooks, err f)) (gate-denied hooks.allowlist request e))
    ]

    -- A request that passes is sent once, with exactly the values of the headers that a plugin may
    -- set; the guest gets the sanitized result.
    pub send_request_sends :
        Passes hooks.allowlist request
        → (headers : Map) × ((n : Text)
            → get_all headers n
              ≡ (if is_allowed_request_header n then get_all request.headers n else []))
          × ((send_request hm send hooks request options).0.send
              ≡ (send hooks.send (record request { headers = headers }) options).0)
          × ((send_request hm send hooks request options).1
              ≡ sanitize_send hm (send hooks.send (record request { headers = headers }) options).1)
    unfolding send_request send_sanitized
    send_request_sends p =
        let e : gate hm {E = E} hooks.allowlist request ≡ ok tt =
          Passes-gate {E = E} hooks.allowlist request p in
        (
          (retain_allowed_request_headers hm request.headers).0,
          get_all-retain hm request.headers,
          rw (send_request, e) refl,
          rw (send_request, e) refl,
        )
