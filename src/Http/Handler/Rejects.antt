-- ===== src/Http/Handler/Rejects.antt =====
-- src/wasi_http.rs, `handle` over a transport: requests whose text would break the head.
use hellohq_wasm_runtime.Prelude.{
  ℕ, Bool, true, false, ◌||◌, ◌⊎◌, [], ◌∷◌, all, any, some, err, leb, within, ◌≡◌, refl, ◌∙◌, arith,
  inl, inr, Bool-cases,
}
use hellohq_wasm_runtime.Str.{Text, lit, is_empty, is_whitespace, is_control}
use hellohq_wasm_runtime.Http.Table
use hellohq_wasm_runtime.Http.Data.{RequestData, Host}
use hellohq_wasm_runtime.Http.Message.{unwrap_or}
use hellohq_wasm_runtime.Http.Lines.{token_chars}
use hellohq_wasm_runtime.Http.Head.{
  ErrorCode, http_request_method_invalid, http_request_uri_invalid, method_str, is_tchar,
  is_http_token, is_request_line_safe, encode_request_head,
}
use hellohq_wasm_runtime.Http.Handler.{Transport, HttpHost, Tasks}
use hellohq_wasm_runtime.Http.Handler.Send.{scheme_str, request_head, send_head}
use hellohq_wasm_runtime.Http.Handler.Serve.{handle}
use hellohq_wasm_runtime.Http.Handler.Emitted.{handle-over, handle_via_transport-err}

-- A space or a control character, such as a tab or a line's end.
abbrev pub is_blank : ℕ → Bool
is_blank c = leb c 32 || within 127 159 c

abbrev pub has_blank : Text → Bool
has_blank t = any is_blank t

blank-not_tchar : (c : ℕ) → is_blank c ≡ true → is_tchar c ≡ false
unfolding is_tchar
blank-not_tchar c h = ground (arith, h)

blank-not_safe : (t : Text) → has_blank t ≡ true → is_request_line_safe t ≡ false
unfolding is_request_line_safe is_whitespace is_control
blank-not_safe [] h = cc h
blank-not_safe (c ∷ t) h = ground (arith, h, blank-not_safe t)

blank-not_tchars : (t : Text) → has_blank t ≡ true → all is_tchar t ≡ false
blank-not_tchars [] h = cc h
blank-not_tchars (c ∷ t) h = ground (arith, h, blank-not_tchars t, blank-not_tchar c)

-- The request line would not read back: a part of it has a blank, or there is no method.
abbrev pub breaks_request_line : RequestData → Bool
breaks_request_line req =
    is_empty (method_str req.method)
    || has_blank (method_str req.method)
    || has_blank (scheme_str req.scheme)
    || has_blank (unwrap_or [] req.authority)
    || has_blank (unwrap_or (lit "/") req.path_with_query)

blank-not_http_token : (t : Text) → (is_empty t || has_blank t) ≡ true → is_http_token t ≡ false
unfolding is_http_token
blank-not_http_token t h = elim (Bool-cases (is_http_token t)) [
  | inr e ↦ e
  | inl e ↦ ground (arith, h, e, token_chars t e, blank-not_tchars t)
]

-- The error of a request whose line would not read back.
abbrev pub IsRejection : ErrorCode → Type 0
IsRejection e = (e ≡ http_request_method_invalid) ⊎ (e ≡ http_request_uri_invalid)

request_head-rejected :
    (h : Host) (req : RequestData)
    → breaks_request_line req ≡ true
    → (e : ErrorCode) × (request_head h req ≡ err e) × IsRejection e
unfolding request_head encode_request_head
request_head-rejected h req breaks = elim (Bool-cases (is_http_token (method_str req.method))) [
  | inr not_token ↦ (http_request_method_invalid, ground (arith, not_token), inl refl)
  | inl token ↦ (
    http_request_uri_invalid,
    ground (
      arith,
      token,
      breaks,
      blank-not_http_token (method_str req.method),
      blank-not_safe (scheme_str req.scheme),
      blank-not_safe (unwrap_or [] req.authority),
      blank-not_safe (unwrap_or (lit "/") req.path_with_query),
    ),
    inr refl,
  )
]

-- Over a transport, a known request without a method, or with a space or a control character in its
-- method, scheme, authority or path, fails as invalid and leaves the host as it was: nothing is sent, and
-- neither the caller's answers nor the request's streams are taken.
pub handle_rejects :
    (w : Tasks) (h : HttpHost) (rep : ℕ) (req : RequestData) (t : Transport)
    → h.transport ≡ some t
    → Table.get h.resources.requests rep ≡ some req
    → breaks_request_line req ≡ true
    → (e : ErrorCode) × (handle w rep h ≡ (h, err e)) × IsRejection e
unfolding send_head
handle_rejects w h rep req t open_to known breaks =
    let (e, refused, is) = request_head-rejected h.resources req breaks in
    let failed : send_head rep h ≡ (h, err e) = rw (send_head, known, refused) refl in
    (e, handle-over w rep h open_to ∙ handle_via_transport-err w rep h h e failed, is)
