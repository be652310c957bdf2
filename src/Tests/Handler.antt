-- ===== src/Tests/Handler.antt =====
-- A host with one request, the caller's answer, and tasks that do nothing else.
use hellohq_wasm_runtime.Prelude.{
  ℕ, List, [], ◌∷◌, ◌++◌, keep, concat, not, Option, none, some, ok, err, ◌≡◌, ◌↔◌, ◌==◌,
  if◌then◌else◌, map, true, false, arith, refl, ap, ◌∙◌,
}
use hellohq_wasm_runtime.Str.{Text, lit, is_empty, eq_ignore_ascii_case, is_whitespace}
use hellohq_wasm_runtime.Str.Utf8.{into_bytes}
use hellohq_wasm_runtime.Frames.{Bytes, parse_request_frames}
use hellohq_wasm_runtime.Frames.Session.{session_frames}
use hellohq_wasm_runtime.Http.Table
use hellohq_wasm_runtime.Http.Entries.{FieldValue, FieldsData}
use hellohq_wasm_runtime.Http.Data.{
  MethodOwned, StreamReader, TrailersFuture, RequestData, Host, new_host,
}
use hellohq_wasm_runtime.Http.Handler.{Transport, HttpHost, Tasks, TrailersPolls}
use hellohq_wasm_runtime.Http.Handler.Send.{
  scheme_str, request_head, header_entries, yield_budget, await_trailers_bounded,
}
use hellohq_wasm_runtime.Http.Handler.Emitted.{body_batches, trailers_piped}
use hellohq_wasm_runtime.Http.Handler.Serve.{handle}
use hellohq_wasm_runtime.Http.Handler.Response.{already_consumed, ResponseHead, parse_response_head}
use hellohq_wasm_runtime.Http.Head.{
  ErrorCode, method_str, internal_error, push_headers, is_http_token,
}
use hellohq_wasm_runtime.Http.Handler.Exchange.{
  IsSendable, session_events, handle_emits, handle_again,
}
use hellohq_wasm_runtime.Http.Handler.Reached.{Reached, at_start, after_task, after_own}
use hellohq_wasm_runtime.Http.Handler.Reported.{TrailersOf, known_fields, Carries}
use hellohq_wasm_runtime.Http.Handler.Rejects.{IsRejection, handle_rejects}
use hellohq_wasm_runtime.Http.Handler.Answer.{response_text, stored}
use hellohq_wasm_runtime.Http.Handler.ReadBack.{parse_response_head-response_text}
use hellohq_wasm_runtime.Http.Handler.Respond.{IsResponse, handle-IsResponse}
use hellohq_wasm_runtime.Http.Handler.Budget.{FirstAt, await_trailers_bounded_iff}
use hellohq_wasm_runtime.Http.Handler.Streams.{
  BodyEvent, poll, push, push_end, body_run, pushed, unread, body_run-seen,
}

abbrev body : StreamReader
body = record { stream = 5 }

abbrev future : Option ℕ → TrailersFuture
future rep = record { future = 6 }

abbrev chunks : List Bytes
chunks = lit "ab" ∷ [] ∷ lit "c" ∷ []

-- The trailers come at the fourth poll, as the resource 1.
abbrev fourth : TrailersPolls
fourth k = if k == 3 then some (ok (ok (some 1))) else none

abbrev trailers : FieldsData
trailers = record { entries = (lit "x-sum", 1 ∷ 2 ∷ []) ∷ []; immutable = true }

abbrev tasks : Tasks
tasks = record {
  pipe_body = λ r. ok chunks;
  pipe_trailers = λ t. ok fourth;
  meanwhile = λ a h. h;
  mint_bytes = λ b. ok body;
  mint_producer = λ frames. ok body;
  mint_trailers = λ rep. ok (future rep);
  debug = λ t. t;
}

abbrev upload : RequestData
upload = record {
  method = MethodOwned.post;
  path_with_query = some (lit "/up");
  scheme = none;
  authority = some (lit "a.example");
  headers = 9;
  options = none;
  body = some (record { stream = 3 });
  trailers = some (record { future = 4 });
}

abbrev resources : Host
resources = record new_host {
  requests = (Table.insert Table.default upload).1;
  fields = (Table.insert Table.default trailers).1;
}

abbrev transport_of : Option (List Bytes) → Transport
transport_of inbound = record { out = []; inbound = inbound }

abbrev host : Option (List Bytes) → HttpHost
host inbound = record { resources = resources; transport = some (transport_of inbound) }

abbrev head : Bytes
head = into_bytes (lit "POST https://a.example/up")

host-known : Table.get resources.requests 1 ≡ some upload
host-known = rw (Table.get-insert, Table.next-default) refl

no_headers : header_entries resources upload ≡ []
unfolding header_entries
no_headers = simp (Table.get-insert, Table.next-default, Table.get-default)

host-head : request_head resources upload ≡ ok head
unfolding request_head push_headers
host-head = rw (request_head, no_headers) refl

abbrev sendable :
    (inbound : Option (List Bytes))
    → IsSendable tasks (host inbound) 1 head chunks (transport_of inbound)
unfolding body_batches trailers_piped
sendable inbound = record {
  quiet = λ a h. refl;
  open_to = refl;
  req = upload;
  known = host-known;
  fits = host-head;
  piped = refl;
  trailed = refl;
}

-- The tasks change nothing.
Reached-fields : {h g : HttpHost} → Reached tasks h g → g.resources.fields ≡ h.resources.fields
Reached-fields at_start = refl
Reached-fields (after_task a g r) = Reached-fields r
Reached-fields (after_own g g' same r) = same ∙ Reached-fields r

trailers-known : Table.get resources.fields 1 ≡ some trailers
trailers-known = rw (Table.get-insert, Table.next-default) refl

reporting :
    (inbound : Option (List Bytes))
    → TrailersOf tasks (host inbound) upload.trailers (some trailers.entries)
reporting inbound =
    known_fields (record { future = 4 }) fourth 1 trailers refl refl
      (record {
        poll = 3;
        from = omega arith;
        in_time = omega arith;
        yields = refl;
        pending = λ j le lt. ground (arith, lt);
      })
      (λ g r.
        ap (λ (t : Table.Table FieldsData). Table.get t 1) (Reached-fields r) ∙ trailers-known)
      refl refl

handle_emits_example :
    (tr : Option Bytes) × ((handle tasks 1 (host none)).0.transport
      ≡ some (record { out = [] ++ session_events head chunks tr; inbound = none }))
    × (parse_request_frames (session_frames head (keep (λ c. not (is_empty c)) chunks) tr)
        ≡ ok (record { head = head; body = concat chunks; trailers = tr }))
    × Carries (some trailers.entries) tr
unfolding sendable
handle_emits_example = handle_emits (sendable none) (reporting none)

handle_again_example :
    (tr : Option Bytes) × ((handle tasks 1 (host none)).0.transport
      ≡ some (record { out = [] ++ session_events head chunks tr; inbound = none }))
    × Carries (some trailers.entries) tr
    × ((handle tasks 1 (host none)).1 ≡ err (internal_error (some already_consumed)))
unfolding sendable
handle_again_example = handle_again (sendable none) (reporting none) refl

-- A request whose path has a space.
abbrev smuggling : RequestData
smuggling = record upload { path_with_query = some (lit "/a HTTP/1.1") }

abbrev bad_host : HttpHost
bad_host = record {
  resources = record new_host { requests = (Table.insert Table.default smuggling).1 };
  transport = some (transport_of none);
}

smuggling-known : Table.get bad_host.resources.requests 1 ≡ some smuggling
smuggling-known = rw (Table.get-insert, Table.next-default) refl

handle_rejects_example :
    (e : ErrorCode) × (handle tasks 1 bad_host ≡ (bad_host, err e)) × IsRejection e
unfolding method_str scheme_str
handle_rejects_example =
    handle_rejects tasks bad_host 1 smuggling (transport_of none) refl smuggling-known refl

-- A status, a header and a trailer.
abbrev one_header : List (Text × Text)
one_header = (lit "x-a", lit "v") ∷ []

abbrev one_trailer : Option (List (Text × FieldValue))
one_trailer = some ((lit "x-t", 1 ∷ []) ∷ [])

abbrev answer : Bytes
answer = into_bytes (response_text 200 one_header one_trailer)

abbrev response_head : ResponseHead
response_head = record {
  status_code = 200;
  headers = map stored one_header;
  trailers = one_trailer;
}

answer-parses : parse_response_head answer ≡ ok response_head
unfolding is_http_token eq_ignore_ascii_case is_whitespace
answer-parses = parse_response_head-response_text 200 one_header one_trailer (omega arith) refl refl

parse_response_head-response_text_example : parse_response_head answer ≡ ok response_head
unfolding is_http_token eq_ignore_ascii_case is_whitespace
parse_response_head-response_text_example =
    parse_response_head-response_text 200 one_header one_trailer (omega arith) refl refl

handle-IsResponse_example :
    (h' : HttpHost) × (out : ℕ) × (handle tasks 1 (host (some (answer ∷ lit "hello" ∷ [])))
      ≡ (h', ok out))
    × IsResponse tasks h'.resources out response_head (lit "hello" ∷ [])
handle-IsResponse_example =
    handle-IsResponse tasks (lit "hello" ∷ []) body future refl (λ rep. refl) response_head
      (sendable (some (answer ∷ lit "hello" ∷ []))) refl answer-parses

-- Trailers that come at the poll after the budget.
abbrev late : ℕ → Option ℕ
late k = if k == 64 then some 1 else none

await_trailers_bounded_iff_example :
    (await_trailers_bounded late ≡ some 1) ↔ FirstAt late 0 yield_budget 1
await_trailers_bounded_iff_example = await_trailers_bounded_iff late 1

abbrev body_events : List BodyEvent
body_events = poll ∷ push (lit "x") ∷ poll ∷ push_end ∷ push (lit "y") ∷ poll ∷ []

body_run-seen_example : (body_run unread body_events).seen ≡ pushed false body_events
unfolding body_run
body_run-seen_example = body_run-seen body_events refl
