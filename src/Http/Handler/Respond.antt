-- ===== src/Http/Handler/Respond.antt =====
-- src/wasi_http.rs, `handle_via_transport`: the response resource that `handle` returns.
use hellohq_wasm_runtime.Prelude.{
  ℕ, ◌+◌, ◌%◌, true, false, List, ◌∷◌, Option, none, some, ok, ◌==◌, ◌≡◌, ap, ◌∙◌, arith,
}
use hellohq_wasm_runtime.Str.{Text}
use hellohq_wasm_runtime.Frames.{Bytes}
use hellohq_wasm_runtime.Http.Table
use hellohq_wasm_runtime.Http.Table.{Table, u32_mod}
use hellohq_wasm_runtime.Http.Entries.{FieldValue, FieldsData}
use hellohq_wasm_runtime.Http.Data.{StreamReader, TrailersFuture, ResponseData, Host}
use hellohq_wasm_runtime.Http.Handler.{
  Transport, HttpHost, Await, Tasks, M, ◌>>=◌, internal, >>=-ok, internal-ok,
}
use hellohq_wasm_runtime.Http.Handler.Response.{
  ResponseHead, insert_fields, insert_response, insert_trailers, build_response, head_or_fail,
  parse_response_head, receive,
}
use hellohq_wasm_runtime.Http.Handler.Serve.{handle}
use hellohq_wasm_runtime.Http.Handler.Exchange.{IsSendable, handle-receive}

-- The trailers' resource, if there is one, has these entries and is frozen.
abbrev pub TrailersAt : Host → Option ℕ → Option (List (Text × FieldValue)) → Type 0
TrailersAt h none none = Unit
TrailersAt h none (some entries) = ⊥
TrailersAt h (some rep) none = ⊥
TrailersAt h (some rep) (some entries) =
    Table.get h.fields rep ≡ some (record { entries = entries; immutable = true })

-- The response `rep` has the parsed status, its headers in a `fields` that may be changed, the
-- trailers in a frozen one, and the streams that were minted for the rest of the frames.
pub record IsResponse (w : Tasks) (h : Host) (rep : ℕ) (r : ResponseHead) (frames : List Bytes)
    : Type 0 where
  pub headers : ℕ
  pub trailers_rep : Option ℕ
  pub body : StreamReader
  pub trailers : TrailersFuture
  pub entry :
      Table.get h.responses rep
      ≡ some (record {
        status_code = r.status_code;
        headers = headers;
        body = some body;
        trailers = some trailers;
      })
  pub headers_are :
      Table.get h.fields headers ≡ some (record { entries = r.headers; immutable = false })
  pub trailers_are : TrailersAt h trailers_rep r.trailers
  pub body_minted : w.mint_producer frames ≡ ok body
  pub trailers_minted : w.mint_trailers trailers_rep ≡ ok trailers

module _ {T : Type 0} (t : Table T) (v u : T) where
  get-inserted : Table.get (Table.insert t v).1 (Table.insert t v).0 ≡ some v
  get-inserted = rw (Table.insert-next, Table.get-insert) (ground arith)

  -- The next id is another one, also where the counter wraps.
  get-inserted_before :
      Table.get (Table.insert (Table.insert t v).1 u).1 (Table.insert t v).0 ≡ some v
  get-inserted_before =
      let other : ((t.next + 1) % u32_mod == t.next) ≡ false = ground arith in
      rw (Table.insert-next, Table.get-insert, Table.next-insert, Table.get-insert, other)
        (ground arith)

module _ (w : Tasks) (frames : List Bytes) (body : StreamReader)
    (future : Option ℕ → TrailersFuture) (minted : w.mint_producer frames ≡ ok body)
    (trailing : (rep : Option ℕ) → w.mint_trailers rep ≡ ok (future rep)) where
  -- What is left once the headers and the trailers have their resources.
  finish_response : ℕ → ℕ → Option ℕ → M ℕ
  finish_response status headers rep = internal (w.mint_producer frames) >>= λ body'.
      internal (w.mint_trailers rep) >>= λ trailers. insert_response (record {
        status_code = status;
        headers = headers;
        body = some body';
        trailers = some trailers;
      })

  finish_response-ok :
      (status headers : ℕ) (rep : Option ℕ) (h : HttpHost)
      → finish_response status headers rep h
        ≡ insert_response
            (record {
              status_code = status;
              headers = headers;
              body = some body;
              trailers = some (future rep);
            })
            h
  unfolding finish_response
  finish_response-ok status headers rep h =
      let last : StreamReader → TrailersFuture → M ℕ = λ body' trailers. insert_response (record {
        status_code = status;
        headers = headers;
        body = some body';
        trailers = some trailers;
      }) in
      >>=-ok (internal (w.mint_producer frames))
        (λ body'. internal (w.mint_trailers rep) >>= last body')
        (internal-ok (w.mint_producer frames) h minted)
      ∙ >>=-ok (internal (w.mint_trailers rep)) (last body)
          (internal-ok (w.mint_trailers rep) h (trailing rep))

  build_response-from :
      (status : ℕ) (headers : List (Text × FieldValue))
      (trailers : Option (List (Text × FieldValue))) (h : HttpHost)
      → let r : ResponseHead = record {
        status_code = status;
        headers = headers;
        trailers = trailers;
      } in
        (h' : HttpHost) × (rep : ℕ) × (build_response w r frames h ≡ (h', ok rep))
        × IsResponse w h'.resources rep r frames
  unfolding build_response insert_fields insert_response insert_trailers finish_response
  build_response-from status headers none h =
      let d : FieldsData = record { entries = headers; immutable = false } in
      let e : ResponseData = record {
        status_code = status;
        headers = (Table.insert h.resources.fields d).0;
        body = some body;
        trailers = some (future none);
      } in
      let h' : HttpHost = record h {
        resources = record h.resources {
          fields = (Table.insert h.resources.fields d).1;
          responses = (Table.insert h.resources.responses e).1;
        };
      } in
      (
        h',
        (Table.insert h.resources.responses e).0,
        finish_response-ok status _ none _,
        record {
          headers = (Table.insert h.resources.fields d).0;
          trailers_rep = none;
          body = body;
          trailers = future none;
          entry = get-inserted h.resources.responses e e;
          headers_are = get-inserted h.resources.fields d d;
          trailers_are = tt;
          body_minted = minted;
          trailers_minted = trailing none;
        },
      )
  build_response-from status headers (some entries) h =
      let d : FieldsData = record { entries = headers; immutable = false } in
      let f : FieldsData = record { entries = entries; immutable = true } in
      let fields : Table FieldsData = (Table.insert h.resources.fields d).1 in
      let rep : ℕ = (Table.insert fields f).0 in
      let e : ResponseData = record {
        status_code = status;
        headers = (Table.insert h.resources.fields d).0;
        body = some body;
        trailers = some (future (some rep));
      } in
      let h' : HttpHost = record h {
        resources = record h.resources {
          fields = (Table.insert fields f).1;
          responses = (Table.insert h.resources.responses e).1;
        };
      } in
      (
        h',
        (Table.insert h.resources.responses e).0,
        finish_response-ok status _ (some rep) _,
        record {
          headers = (Table.insert h.resources.fields d).0;
          trailers_rep = some rep;
          body = body;
          trailers = future (some rep);
          entry = get-inserted h.resources.responses e e;
          headers_are = get-inserted_before h.resources.fields d f;
          trailers_are = get-inserted fields f f;
          body_minted = minted;
          trailers_minted = trailing (some rep);
        },
      )

  -- A request that can be sent, to which the caller answers with a head that parses: `handle`
  -- returns a response with its status, its headers, its frozen trailers and a body that streams the
  -- rest of the caller's frames, where Wasmtime mints that body and the trailers.
  pub handle-IsResponse :
      {h : HttpHost} {rep : ℕ} {head : Bytes} {chunks : List Bytes} {t : Transport} {frame : Bytes}
      (r : ResponseHead)
      → IsSendable w h rep head chunks t
      → t.inbound ≡ some (frame ∷ frames)
      → parse_response_head frame ≡ ok r
      → (h' : HttpHost) × (out : ℕ) × (handle w rep h ≡ (h', ok out))
        × IsResponse w h'.resources out r frames
  unfolding receive
  handle-IsResponse {h} {rep} {frame} r s answered parsed =
      let (g, h1, e, p, reached) = handle-receive s in
      let (h', out, built, is) =
        build_response-from r.status_code r.headers r.trailers (w.meanwhile Await.response h1) in
      let received : receive w (some (frame ∷ frames)) h1 ≡ (h', ok out) =
        >>=-ok (head_or_fail w (parse_response_head frame)) (λ r'. build_response w r' frames)
          (ap (λ o. head_or_fail w o (w.meanwhile Await.response h1)) parsed)
        ∙ built in
      (h', out, e ∙ ap (λ o. receive w o h1) answered ∙ received, is)
