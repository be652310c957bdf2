-- ===== src/Http/Handler/Emitted.antt =====
-- src/wasi_http.rs, `handle_via_transport`: the events that a request leaves on the transport.
use hellohq_wasm_runtime.Prelude.{
  ℕ, suc, Bool, true, false, not, List, [], ◌∷◌, ◌++◌, map, keep, Option, none, some, Result, ok,
  err, if◌then◌else◌, ◌≡◌, refl, sym, ap, ◌∙◌, arith, Result-cases, inl, inr, append_assoc,
  append-nil,
}
use mathlib.Core.Option
use hellohq_wasm_runtime.Str.{Text, is_empty, is_some}
use hellohq_wasm_runtime.Str.Utf8.{into_bytes}
use hellohq_wasm_runtime.Frames
use hellohq_wasm_runtime.Frames.{Bytes, OutFrameKind}
use hellohq_wasm_runtime.Frames.Session.{trailer_frames}
use hellohq_wasm_runtime.P3Stream.{P3sEvent}
use hellohq_wasm_runtime.Http.Table
use hellohq_wasm_runtime.Http.Data.{StreamReader, TrailersFuture, RequestData}
use hellohq_wasm_runtime.Http.Head.{ErrorCode}
use hellohq_wasm_runtime.Http.Handler.{
  Transport, HttpHost, Await, Tasks, M, >>=-ok, >>=-err, ◌>>◌, modify, emit,
}
use hellohq_wasm_runtime.Http.Handler.Send.{
  request_head, take_streams, Taken, open_transport, send_head, push_batches, send_body,
  push_trailers, await_trailers, send_trailers,
}
use hellohq_wasm_runtime.Http.Handler.Response.{receive}
use hellohq_wasm_runtime.Http.Handler.Serve.{handle_via_transport, handle_echo, handle}
use hellohq_wasm_runtime.Http.Handler.Quiet.{IsQuiet}
use hellohq_wasm_runtime.Http.Handler.Reached.{Reached, push_batches-Reached}
use hellohq_wasm_runtime.Http.Handler.Reported.{payload_from, trailers_payload}

-- The transport with further frames sent.
abbrev pub sent : Transport → List Bytes → Transport
sent t frames = record t { out = t.out ++ map P3sEvent.out frames }

-- The frames of the batches: one for each that has a byte.
abbrev pub body_frames : List Bytes → List Bytes
body_frames chunks = map (Frames.encode OutFrameKind.body) (keep (λ c. not (is_empty c)) chunks)

pub emit-transport :
    (e : P3sEvent) (h : HttpHost) {t : Transport}
    → h.transport ≡ some t
    → (emit e h).transport ≡ some (record t { out = t.out ++ e ∷ [] })
unfolding emit
emit-transport e h p = rw p refl

sent-nil : (t : Transport) → sent t [] ≡ t
sent-nil t = ap (λ (es : List P3sEvent). record t { out = es }) (append-nil t.out)

module _ (w : Tasks) (quiet : IsQuiet w) where
  meanwhile-transport :
      (a : Await) (h : HttpHost) {t : Transport}
      → h.transport ≡ some t
      → (w.meanwhile a h).transport ≡ some t
  meanwhile-transport a h p = quiet a h ∙ p

  push_batches-transport :
      (n : ℕ) (chunks : List Bytes) (h : HttpHost) {t : Transport}
      → h.transport ≡ some t
      → (push_batches w n chunks h).transport ≡ some (sent t (body_frames chunks))
  unfolding push_batches
  push_batches-transport n [] h {t} p =
      meanwhile-transport (Await.batch n) h p ∙ ap some (sym (sent-nil t))
  push_batches-transport n ([] ∷ chunks) h p =
      push_batches-transport (suc n) chunks (w.meanwhile (Await.batch n) h)
        (meanwhile-transport (Await.batch n) h p)
  push_batches-transport n ((b ∷ c) ∷ chunks) h {t} p =
      let h' : HttpHost = w.meanwhile (Await.batch n) h in
      let e : P3sEvent = P3sEvent.out (Frames.encode OutFrameKind.body (b ∷ c)) in
      push_batches-transport (suc n) chunks (emit e h')
        (emit-transport e h' (meanwhile-transport (Await.batch n) h p))
      ∙ ap (λ es. some (record t { out = es })) (append_assoc t.out (e ∷ []) _)

-- The batches of the request's body; none for a request without one.
unfoldable pub body_batches : Tasks → Option StreamReader → Result (List Bytes) Text
body_batches w none = ok []
body_batches w (some body) = w.pipe_body body

-- The trailers can be piped, where there are any.
unfoldable pub trailers_piped : Tasks → Option TrailersFuture → Bool
trailers_piped w none = true
trailers_piped w (some future) = elim (w.pipe_trailers future) [ ok rx ↦ true | err e ↦ false ]

-- A step that succeeds and sends `frames`.
abbrev pub Sends :
    (HttpHost → HttpHost × Result (Unit {0}) ErrorCode) → HttpHost → Transport → List Bytes → Type 0
Sends m h t frames = (h' : HttpHost) × (m h ≡ (h', ok tt)) × (h'.transport ≡ some (sent t frames))

module _ (w : Tasks) (quiet : IsQuiet w) where
  pub send_body-Sends :
      (body : Option StreamReader) (chunks : List Bytes) (h0 h : HttpHost) {t : Transport}
      → body_batches w body ≡ ok chunks
      → Reached w h0 h
      → h.transport ≡ some t
      → (h' : HttpHost) × (send_body w body h ≡ (h', ok tt))
        × (h'.transport ≡ some (sent t (body_frames chunks)))
        × Reached w h0 h'
  unfolding send_body body_batches
  send_body-Sends none chunks h0 h {t} b r p =
      let none_in : [] ≡ chunks = ground (arith, b) in
      (h, refl, rw (← none_in) (p ∙ ap some (sym (sent-nil t))), r)
  send_body-Sends (some body) chunks h0 h b r p = (
    push_batches w 0 chunks h,
    rw b refl,
    push_batches-transport w quiet 0 chunks h p,
    push_batches-Reached 0 chunks h r,
  )

  push_trailers-sends :
      (value : Option Text) (h : HttpHost) {t : Transport}
      → h.transport ≡ some t
      → (push_trailers value h).transport
        ≡ some (sent t (trailer_frames (Option.map into_bytes value)))
  unfolding push_trailers
  push_trailers-sends none h {t} p = p ∙ ap some (sym (sent-nil t))
  push_trailers-sends (some value) h p = emit-transport _ h p

  pub send_trailers-Sends :
      (future : Option TrailersFuture) (h : HttpHost) {t : Transport}
      → trailers_piped w future ≡ true
      → h.transport ≡ some t
      → Sends (send_trailers w future) h t (trailer_frames (trailers_payload w h future))
  unfolding send_trailers trailers_piped await_trailers trailers_payload payload_from
  send_trailers-Sends none h {t} b p = (h, refl, p ∙ ap some (sym (sent-nil t)))
  send_trailers-Sends (some future) h {t} b p = elim (Result-cases (w.pipe_trailers future)) [
    | inl (rx, e) ↦ (
      await_trailers w rx h,
      rw e refl,
      push_trailers-sends _ (w.meanwhile Await.trailers h)
            (meanwhile-transport w quiet Await.trailers h p)
          ∙ ap (λ r. some (sent t (trailer_frames (payload_from w h r)))) (sym e),
    )
    | inr (msg, e) ↦ ground (arith, e, b)
  ]

abbrev pub taken_of : Transport → RequestData → Taken
taken_of t req = record { inbound = t.inbound; body = req.body; trailers = req.trailers }

pub send_head-sends :
    (rep : ℕ) (h : HttpHost) (req : RequestData) (head : Bytes) (t : Transport)
    → h.transport ≡ some t
    → Table.get h.resources.requests rep ≡ some req
    → request_head h.resources req ≡ ok head
    → (h' : HttpHost) × (send_head rep h ≡ (h', ok (taken_of t req)))
      × (h'.transport
          ≡ some (record {
            out = t.out ++ P3sEvent.out (Frames.encode OutFrameKind.head head) ∷ [];
            inbound = none;
          }))
      × (h'.resources.fields ≡ h.resources.fields)
unfolding send_head open_transport take_streams
send_head-sends rep h req head t p at fits =
    let h' : HttpHost = record {
      resources = take_streams rep req h.resources;
      transport = some (record {
        out = t.out ++ P3sEvent.out (Frames.encode OutFrameKind.head head) ∷ [];
        inbound = none;
      });
    } in
    (h', rw (send_head, at, fits, open_transport, p) refl, refl, refl)

module _ (w : Tasks) (taken : Taken) where
  -- What is left after the trailers, and after the head.
  finish : M ℕ
  finish = modify (emit P3sEvent.out_end) >> receive w taken.inbound

  after_head : M ℕ
  unfolding finish
  after_head = send_body w taken.body >> (send_trailers w taken.trailers >> finish)

module _ (w : Tasks) (rep : ℕ) (taken : Taken) where
  pub handle_via_transport-steps :
      (h h1 h2 h3 : HttpHost)
      → send_head rep h ≡ (h1, ok taken)
      → send_body w taken.body h1 ≡ (h2, ok tt)
      → send_trailers w taken.trailers h2 ≡ (h3, ok tt)
      → handle_via_transport w rep h ≡ receive w taken.inbound (emit P3sEvent.out_end h3)
  unfolding handle_via_transport after_head
  handle_via_transport-steps h h1 h2 h3 e1 e2 e3 =
      >>=-ok (send_head rep) (after_head w) e1
      ∙ >>=-ok (send_body w taken.body) (λ _. send_trailers w taken.trailers >> finish w taken) e2
      ∙ >>=-ok (send_trailers w taken.trailers) (λ _. finish w taken) e3

pub handle_via_transport-err :
    (w : Tasks) (rep : ℕ) (h h' : HttpHost) (e : ErrorCode)
    → send_head rep h ≡ (h', err e)
    → handle_via_transport w rep h ≡ (h', err e)
unfolding handle_via_transport after_head finish
handle_via_transport-err w rep h h' e failed = >>=-err (send_head rep) (after_head w) failed

pub handle-over :
    (w : Tasks) (rep : ℕ) (h : HttpHost) {t : Transport}
    → h.transport ≡ some t
    → handle w rep h ≡ handle_via_transport w rep h
unfolding handle
handle-over w rep h p =
    ap
      (λ (o : Option Transport).
        if is_some o then handle_via_transport w rep h else handle_echo w rep h)
      p
