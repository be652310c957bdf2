-- ===== src/Http/Handler/Send.antt =====
-- src/wasi_http.rs, the first half of `handle_via_transport`: the request goes out as frames.
use hellohq_wasm_runtime.Prelude.{
  ℕ, zero, suc, List, [], ◌∷◌, ◌++◌, Option, none, some, Result, ok, err, if◌then◌else◌,
}
use hellohq_wasm_runtime.Str.{Text, lit, is_empty}
use hellohq_wasm_runtime.Str.Utf8.{into_bytes}
use hellohq_wasm_runtime.Frames
use hellohq_wasm_runtime.Frames.{Bytes, OutFrameKind}
use hellohq_wasm_runtime.P3Stream.{P3sEvent}
use hellohq_wasm_runtime.Http.Table
use hellohq_wasm_runtime.Http.Entries.{FieldValue}
use hellohq_wasm_runtime.Http.Data.{SchemeOwned, StreamReader, TrailersFuture, RequestData, Host}
use hellohq_wasm_runtime.Http.Message.{map_or, unwrap_or}
use hellohq_wasm_runtime.Http.Head.{ErrorCode, method_str, encode_request_head}
use hellohq_wasm_runtime.Http.Trailers.{format_request_options_line, format_request_trailers_value}
use hellohq_wasm_runtime.Http.Handler.{
  HttpHost, Await, Canceled, TrailersPolls, Tasks, M, ◌>>=◌, pure, fail, internal, modify, emit,
}

abbrev pub unknown_request : Text
unknown_request = lit "wasi:http handler: unknown request resource"

abbrev pub transport_missing : Text
transport_missing = lit "wasi:http handler: transport missing"

unfoldable pub scheme_str : Option SchemeOwned → Text
scheme_str (some SchemeOwned.http) = lit "http"
scheme_str (some SchemeOwned.https) = lit "https"
scheme_str (some (SchemeOwned.other s)) = s
scheme_str none = lit "https"

unfoldable pub header_entries : Host → RequestData → List (Text × FieldValue)
header_entries h req = map_or [] (λ f. f.entries) (Table.get h.fields req.headers)

unfoldable pub request_options_line : Host → RequestData → Option Text
unfolding format_request_options_line
request_options_line h req = elim req.options [
  | none ↦ none
  | some rep ↦ map_or none format_request_options_line (Table.get h.options rep)
]

-- The payload of the HEAD frame.
unfoldable pub request_head : Host → RequestData → Result Bytes ErrorCode
unfolding method_str scheme_str header_entries request_options_line encode_request_head
request_head h req =
    encode_request_head (method_str req.method) (scheme_str req.scheme) (unwrap_or [] req.authority)
      (unwrap_or (lit "/") req.path_with_query) (header_entries h req) (request_options_line h req)

-- What is taken out of the host before the first wait.
pub record Taken : Type 0 where
  pub inbound : Option (List Bytes)
  pub body : Option StreamReader
  pub trailers : Option TrailersFuture

-- `get_mut(rep)` with the `take` of the body and the trailers.
unfoldable pub take_streams : ℕ → RequestData → Host → Host
take_streams rep req h = record h {
  requests = Table.put h.requests rep (record req { body = none; trailers = none });
}

-- The HEAD frame goes out, and the inbound stream is taken.
unfoldable pub open_transport : Bytes → RequestData → M Taken
open_transport head req h = elim h.transport [
  | none ↦ fail transport_missing h
  | some t ↦ (
    record h {
      transport = some (record {
        out = t.out ++ P3sEvent.out (Frames.encode OutFrameKind.head head) ∷ [];
        inbound = none;
      });
    },
    ok (record { inbound = t.inbound; body = req.body; trailers = req.trailers }),
  )
]

-- Step (1).
unfoldable pub send_head : ℕ → M Taken
unfolding request_head take_streams open_transport
send_head rep h = elim (Table.get h.resources.requests rep) [
  | none ↦ fail unknown_request h
  | some req ↦ elim (request_head h.resources req) [
    | err e ↦ (h, err e)
    | ok head ↦ open_transport head req (record h { resources = take_streams rep req h.resources })
  ]
]

-- The loop over the batches of the body, from the one of number `n` on. The last wait finds the
-- channel closed.
unfoldable pub push_batches : Tasks → ℕ → List Bytes → HttpHost → HttpHost
unfolding emit
push_batches w n [] h = w.meanwhile (Await.batch n) h
push_batches w n (chunk ∷ chunks) h =
    let h' = w.meanwhile (Await.batch n) h in
    push_batches w (suc n) chunks (
      if is_empty chunk then h' else emit (P3sEvent.out (Frames.encode OutFrameKind.body chunk)) h')

-- Step (1b).
unfoldable pub send_body : Tasks → Option StreamReader → M (Unit {0})
unfolding push_batches
send_body w none = pure tt
send_body w (some body) = do chunks ← internal (w.pipe_body body); modify (push_batches w 0 chunks)

-- `select` of the channel and the budget: the channel is polled first.
unfoldable pub await_within {ℓ} : {A : Type ℓ} → (ℕ → Option A) → ℕ → ℕ → Option A
await_within rx zero k = rx k
await_within rx (suc remaining) k = elim (rx k) [
  | some v ↦ some v
  | none ↦ await_within rx remaining (suc k)
]

abbrev pub yield_budget : ℕ
yield_budget = 64

unfoldable pub await_trailers_bounded {ℓ} : {A : Type ℓ} → (ℕ → Option A) → Option A
unfolding await_within
await_trailers_bounded rx = await_within rx yield_budget 0

-- `Some(Ok(Ok(Some(fields_rep))))`
unfoldable pub resolved_fields : Option (Result (Result (Option ℕ) ErrorCode) Canceled) → Option ℕ
resolved_fields (some (ok (ok rep))) = rep
resolved_fields (some (ok (err e))) = none
resolved_fields (some (err c)) = none
resolved_fields none = none

unfoldable pub trailers_value : Host → Option ℕ → Option Text
unfolding format_request_trailers_value
trailers_value h none = none
trailers_value h (some rep) =
    map_or none (λ f. format_request_trailers_value f.entries) (Table.get h.fields rep)

unfoldable pub push_trailers : Option Text → HttpHost → HttpHost
unfolding emit
push_trailers none h = h
push_trailers (some value) h =
    emit (P3sEvent.out (Frames.encode OutFrameKind.trailers (into_bytes value))) h

-- Step (1c), after the pipe.
unfoldable pub await_trailers : Tasks → TrailersPolls → HttpHost → HttpHost
unfolding await_trailers_bounded resolved_fields trailers_value push_trailers
await_trailers w rx h =
    let h' = w.meanwhile Await.trailers h in
    push_trailers (trailers_value h'.resources (resolved_fields (await_trailers_bounded rx))) h'

unfoldable pub send_trailers : Tasks → Option TrailersFuture → M (Unit {0})
unfolding await_trailers
send_trailers w none = pure tt
send_trailers w (some future) = do
  rx ← internal (w.pipe_trailers future)
  modify (await_trailers w rx)
