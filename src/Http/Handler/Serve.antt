-- ===== src/Http/Handler/Serve.antt =====
-- src/wasi_http.rs, `handle`: over the transport, or as an echo where there is none.
use hellohq_wasm_runtime.Prelude.{ℕ, false, [], ◌∷◌, ◌++◌, none, some, if◌then◌else◌}
use hellohq_wasm_runtime.Str.{Text, lit, is_some}
use hellohq_wasm_runtime.Str.Utf8.{into_bytes}
use hellohq_wasm_runtime.P3Stream.{P3sEvent}
use hellohq_wasm_runtime.Http.Table
use hellohq_wasm_runtime.Http.Data.{RequestData}
use hellohq_wasm_runtime.Http.Message.{unwrap_or}
use hellohq_wasm_runtime.Http.Head.{method_str}
use hellohq_wasm_runtime.Http.Handler.{Tasks, M, ◌>>=◌, ◌>>◌, fail, internal, modify, emit}
use hellohq_wasm_runtime.Http.Handler.Send.{unknown_request, send_head, send_body, send_trailers}
use hellohq_wasm_runtime.Http.Handler.Response.{insert_fields, insert_response, receive}

unfoldable pub handle_via_transport : Tasks → ℕ → M ℕ
unfolding send_head send_body send_trailers emit receive
handle_via_transport w rep = do
  taken ← send_head rep
  send_body w taken.body
  send_trailers w taken.trailers
  modify (emit P3sEvent.out_end)
  receive w taken.inbound

-- The body of the echo.
unfoldable pub summary : RequestData → Text
unfolding method_str
summary req =
    method_str req.method
    ++ lit " "
    ++ unwrap_or [] req.authority
    ++ unwrap_or (lit "/") req.path_with_query

unfoldable pub echo : Tasks → RequestData → M ℕ
unfolding summary insert_fields insert_response into_bytes
echo w req = do
  headers ←
      insert_fields
        (record { entries = (lit "x-hellohq", into_bytes (lit "ok")) ∷ []; immutable = false })
  body ← internal (w.mint_bytes (into_bytes (summary req)))
  trailers ← internal (w.mint_trailers none)
  insert_response
      (record { status_code = 200; headers = headers; body = some body; trailers = some trailers })

unfoldable pub handle_echo : Tasks → ℕ → M ℕ
unfolding echo
handle_echo w rep h = elim (Table.get h.resources.requests rep) [
  | none ↦ fail unknown_request h
  | some req ↦ echo w req h
]

unfoldable pub handle : Tasks → ℕ → M ℕ
unfolding handle_via_transport handle_echo
handle w rep h = if is_some h.transport then handle_via_transport w rep h else handle_echo w rep h
