-- ===== src/Http/Handler/Quiet.antt =====
-- src/wasi_http.rs, `handle_via_transport`: receiving a response leaves the transport alone.
use hellohq_wasm_runtime.Prelude.{
  List, [], ◌∷◌, Option, none, some, Result, ok, err, ◌≡◌, refl, ◌∙◌, Result-cases, inl, inr,
}
use hellohq_wasm_runtime.Str.{Text}
use hellohq_wasm_runtime.Frames.{Bytes}
use hellohq_wasm_runtime.Http.Entries.{FieldValue, FieldsData}
use hellohq_wasm_runtime.Http.Data.{ResponseData}
use hellohq_wasm_runtime.Http.Handler.{HttpHost, Await, Tasks, M, ◌>>=◌, internal}
use hellohq_wasm_runtime.Http.Handler.Response.{
  ResponseHead, insert_fields, insert_trailers, insert_response, build_response,
  parse_response_head, head_or_fail, receive,
}

-- Other tasks leave the transport alone, so no other `handle` runs meanwhile.
abbrev pub IsQuiet : Tasks → Type 0
IsQuiet w = (a : Await) (h : HttpHost) → (w.meanwhile a h).transport ≡ h.transport

-- A computation that leaves the transport alone.
record KeepsTransport {A : Type 0} (m : M A) : Type 0 where
  keeps : (h : HttpHost) → (m h).0.transport ≡ h.transport

>>=-KeepsTransport :
    {A B : Type 0} {m : M A} {f : A → M B}
    → KeepsTransport m
    → ((a : A) → KeepsTransport (f a))
    → KeepsTransport (m >>= f)
>>=-KeepsTransport {m} {f} hm hf = record {
  keeps = λ h. elim (Result-cases (m h).1) [
    | inl (a, e) ↦ rw (◌>>=◌, e) ((hf a).keeps (m h).0 ∙ hm.keeps h)
    | inr (failure, e) ↦ rw (◌>>=◌, e) (hm.keeps h)
  ];
}

internal-KeepsTransport : {A : Type 0} (r : Result A Text) → KeepsTransport (internal r)
internal-KeepsTransport (ok a) = record { keeps = λ h. refl }
internal-KeepsTransport (err msg) = record { keeps = λ h. refl }

insert_fields-KeepsTransport : (d : FieldsData) → KeepsTransport (insert_fields d)
unfolding insert_fields
insert_fields-KeepsTransport d = record { keeps = λ h. refl }

insert_response-KeepsTransport : (r : ResponseData) → KeepsTransport (insert_response r)
unfolding insert_response
insert_response-KeepsTransport r = record { keeps = λ h. refl }

insert_trailers-KeepsTransport :
    (entries : Option (List (Text × FieldValue))) → KeepsTransport (insert_trailers entries)
unfolding insert_trailers insert_fields
insert_trailers-KeepsTransport none = record { keeps = λ h. refl }
insert_trailers-KeepsTransport (some entries) = record { keeps = λ h. refl }

build_response-KeepsTransport :
    (w : Tasks) (r : ResponseHead) (frames : List Bytes)
    → KeepsTransport (build_response w r frames)
unfolding build_response
build_response-KeepsTransport w r frames =
    >>=-KeepsTransport (insert_fields-KeepsTransport _) (λ headers.
      >>=-KeepsTransport (insert_trailers-KeepsTransport r.trailers) (λ rep.
        >>=-KeepsTransport (internal-KeepsTransport (w.mint_producer frames)) (λ body.
          >>=-KeepsTransport (internal-KeepsTransport (w.mint_trailers rep)) (λ trailers.
            insert_response-KeepsTransport (record {
              status_code = r.status_code;
              headers = headers;
              body = some body;
              trailers = some trailers;
            })))))

head_or_fail-KeepsTransport :
    (w : Tasks) (r : Result ResponseHead Text) → KeepsTransport (head_or_fail w r)
head_or_fail-KeepsTransport w (ok r) = record { keeps = λ h. refl }
head_or_fail-KeepsTransport w (err line) = record { keeps = λ h. refl }

pub receive-transport :
    (w : Tasks) (inbound : Option (List Bytes)) (h : HttpHost)
    → IsQuiet w
    → (receive w inbound h).0.transport ≡ h.transport
unfolding receive
receive-transport w none h quiet = refl
receive-transport w (some []) h quiet = quiet Await.response h
receive-transport w (some (frame ∷ frames)) h quiet =
    (>>=-KeepsTransport (head_or_fail-KeepsTransport w (parse_response_head frame))
        (λ r. build_response-KeepsTransport w r frames)).keeps
      (w.meanwhile Await.response h)
    ∙ quiet Await.response h
