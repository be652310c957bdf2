-- ===== src/Http/Handler/Exchange.antt =====
-- src/wasi_http.rs, `handle` over a transport: the exchange of one request and its response.
use hellohq_wasm_runtime.Prelude.{
  ℕ, true, not, List, [], ◌∷◌, ◌++◌, map, keep, concat, Option, none, some, Result, ok, err, ◌≡◌,
  refl, ap, ◌∙◌, append_assoc, map-append,
}
use hellohq_wasm_runtime.Str.{is_empty}
use hellohq_wasm_runtime.Frames.{Bytes, parse_request_frames}
use hellohq_wasm_runtime.Frames.Session.{session_frames, parse_request_frames-session}
use hellohq_wasm_runtime.P3Stream.{P3sEvent}
use hellohq_wasm_runtime.Http.Table
use hellohq_wasm_runtime.Http.Data.{RequestData}
use hellohq_wasm_runtime.Http.Head.{ErrorCode, internal_error}
use hellohq_wasm_runtime.Http.Handler.{Transport, HttpHost, Tasks, emit}
use hellohq_wasm_runtime.Http.Handler.Send.{request_head}
use hellohq_wasm_runtime.Http.Handler.Response.{receive, already_consumed}
use hellohq_wasm_runtime.Http.Handler.Serve.{handle_via_transport, handle}
use hellohq_wasm_runtime.Http.Handler.Quiet.{IsQuiet, receive-transport}
use hellohq_wasm_runtime.Http.Handler.Reached.{Reached, at_start, after_own}
use hellohq_wasm_runtime.Http.Handler.Reported.{
  Entries, TrailersOf, Carries, trailers_payload, trailers_payload-Carries,
}
use hellohq_wasm_runtime.Http.Handler.Emitted.{
  body_batches, trailers_piped, emit-transport, send_head-sends, send_body-Sends,
  send_trailers-Sends, taken_of, handle_via_transport-steps, handle-over,
}

-- A session's frames, as the caller polls them, and the end.
abbrev pub session_events : Bytes → List Bytes → Option Bytes → List P3sEvent
session_events head chunks tr =
    map P3sEvent.out (session_frames head (keep (λ c. not (is_empty c)) chunks) tr)
    ++ P3sEvent.out_end ∷ []

-- A host with a transport, a request that it knows and that has a head, and the batches of its body.
pub record IsSendable (w : Tasks) (h : HttpHost) (rep : ℕ) (head : Bytes) (chunks : List Bytes)
    (t : Transport) : Type 0 where
  pub quiet : IsQuiet w
  pub open_to : h.transport ≡ some t
  pub req : RequestData
  pub known : Table.get h.resources.requests rep ≡ some req
  pub fits : request_head h.resources req ≡ ok head
  pub piped : body_batches w req.body ≡ ok chunks
  pub trailed : trailers_piped w req.trailers ≡ true

-- The request goes out as one session of frames and the end, before the response is awaited; its trailers
-- are those at the host that was reached by then.
pub handle-receive :
    {w : Tasks} {h : HttpHost} {rep : ℕ} {head : Bytes} {chunks : List Bytes} {t : Transport}
    (s : IsSendable w h rep head chunks t)
    → (g : HttpHost) × (h' : HttpHost) × (handle w rep h ≡ receive w t.inbound h')
      × (h'.transport
          ≡ some (record {
            out = t.out ++ session_events head chunks (trailers_payload w g s.req.trailers);
            inbound = none;
          }))
      × Reached w h g
unfolding handle handle_via_transport
handle-receive {w} {h} {rep} {head} {chunks} {t} s =
    let (h1, e1, p1, f1) = send_head-sends rep h s.req head t s.open_to s.known s.fits in
    let (h2, e2, p2, r2) =
      send_body-Sends w s.quiet s.req.body chunks h h1 s.piped (after_own h h1 f1 at_start) p1 in
    let (h3, e3, p3) = send_trailers-Sends w s.quiet s.req.trailers h2 s.trailed p2 in
    (
      h2,
      emit P3sEvent.out_end h3,
      handle-over w rep h s.open_to
          ∙ handle_via_transport-steps w rep (taken_of t s.req) h h1 h2 h3 e1 e2 e3,
      emit-transport P3sEvent.out_end h3 p3 ∙ simp (append_assoc, map-append),
      r2,
    )

concat-keep : (chunks : List Bytes) → concat (keep (λ c. not (is_empty c)) chunks) ≡ concat chunks
concat-keep [] = refl
concat-keep ([] ∷ chunks) = concat-keep chunks
concat-keep ((b ∷ c) ∷ chunks) = ap (λ r. (b ∷ c) ++ r) (concat-keep chunks)

-- A request that can be sent, whose trailers are reported in time and not changed by the tasks in
-- between, or none, leaves the events of one session of frames on the transport, after those that were
-- there, then the end; the reference parser reads its head, its whole body and a payload from them, and
-- the payload carries the trailers: it reads back as those with a token as name, and is absent exactly
-- if there are none. The inbound stream is taken. None of it depends on what the caller answers.
pub handle_emits :
    {w : Tasks} {h : HttpHost} {rep : ℕ} {head : Bytes} {chunks : List Bytes} {t : Transport}
    {reported : Option Entries} (s : IsSendable w h rep head chunks t)
    → TrailersOf w h s.req.trailers reported
    → (tr : Option Bytes) × ((handle w rep h).0.transport
        ≡ some (record { out = t.out ++ session_events head chunks tr; inbound = none }))
      × (parse_request_frames (session_frames head (keep (λ c. not (is_empty c)) chunks) tr)
          ≡ ok (record { head = head; body = concat chunks; trailers = tr }))
      × Carries reported tr
handle_emits {w} {h} {rep} {head} {chunks} {t} s trailing =
    let (g, h', e, p, r) = handle-receive s in
    let tr : Option Bytes = trailers_payload w g s.req.trailers in
    (
      tr,
      ap (λ (r : HttpHost × Result ℕ ErrorCode). r.0.transport) e
          ∙ receive-transport w t.inbound h' s.quiet
          ∙ p,
      parse_request_frames-session head _ tr
          ∙ ap (λ (b : Bytes). ok (record { head = head; body = b; trailers = tr }))
              (concat-keep chunks),
      trailers_payload-Carries g trailing r,
    )

-- A second request over the same transport, whose trailers are reported in time and not changed by the
-- tasks in between, or none, is sent in full, the trailers included, behind the end of the first, and
-- then fails: the caller's answers were taken by the first.
pub handle_again :
    {w : Tasks} {h : HttpHost} {rep : ℕ} {head : Bytes} {chunks : List Bytes} {t : Transport}
    {reported : Option Entries} (s : IsSendable w h rep head chunks t)
    → TrailersOf w h s.req.trailers reported
    → t.inbound ≡ none
    → (tr : Option Bytes) × ((handle w rep h).0.transport
        ≡ some (record { out = t.out ++ session_events head chunks tr; inbound = none }))
      × Carries reported tr
      × ((handle w rep h).1 ≡ err (internal_error (some already_consumed)))
unfolding receive
handle_again {w} {h} {rep} {head} {chunks} {t} s trailing gone =
    let (g, h', e, p, r) = handle-receive s in
    let failed : handle w rep h ≡ (h', err (internal_error (some already_consumed))) =
      e ∙ ap (λ (o : Option (List Bytes)). receive w o h') gone in
    (
      trailers_payload w g s.req.trailers,
      ap (λ (r : HttpHost × Result ℕ ErrorCode). r.0.transport) failed ∙ p,
      trailers_payload-Carries g trailing r,
      ap (λ (r : HttpHost × Result ℕ ErrorCode). r.1) failed,
    )
