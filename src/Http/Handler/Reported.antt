-- ===== src/Http/Handler/Reported.antt =====
-- src/wasi_http.rs, `handle_via_transport`: the trailers of the request, and what their frame carries.
use hellohq_wasm_runtime.Prelude.{
  ℕ, ◌⊎◌, List, [], all, Option, none, some, Result, ok, err, ◌≡◌, refl, sym, subst, ap, ◌∙◌,
  Option-cases, inl, inr, true,
}
use mathlib.Core.Option
use hellohq_wasm_runtime.Str.{Text}
use hellohq_wasm_runtime.Str.Utf8.{into_bytes}
use hellohq_wasm_runtime.Frames.{Bytes}
use hellohq_wasm_runtime.Base64.RoundTrip.{is_byte}
use hellohq_wasm_runtime.Http.Table
use hellohq_wasm_runtime.Http.Entries.{FieldValue, FieldsData}
use hellohq_wasm_runtime.Http.Data.{TrailersFuture}
use hellohq_wasm_runtime.Http.Message.{map_or}
use hellohq_wasm_runtime.Http.Head.{ErrorCode}
use hellohq_wasm_runtime.Http.Trailers.{parse_trailers_line, format_request_trailers_value}
use hellohq_wasm_runtime.Http.RoundTrip.{
  token_entries, parse_trailers_line-format, format_request_trailers_value-eq-none_iff,
}
use hellohq_wasm_runtime.Http.Handler.{HttpHost, Await, Tasks, TrailersPolls, Canceled}
use hellohq_wasm_runtime.Http.Handler.Send.{
  await_trailers_bounded, resolved_fields, trailers_value, yield_budget,
}
use hellohq_wasm_runtime.Http.Handler.Budget.{FirstAt, await_trailers_bounded_iff}
use hellohq_wasm_runtime.Http.Handler.Reached.{Reached}

-- The payload of the TRAILERS frame, if there is one, for the host at which the trailers are awaited.
unfoldable pub payload_from : Tasks → HttpHost → Result TrailersPolls Text → Option Bytes
unfolding trailers_value resolved_fields await_trailers_bounded
payload_from w h (err e) = none
payload_from w h (ok rx) = Option.map into_bytes (
    trailers_value (w.meanwhile Await.trailers h).resources
      (resolved_fields (await_trailers_bounded rx)))

unfoldable pub trailers_payload : Tasks → HttpHost → Option TrailersFuture → Option Bytes
unfolding payload_from
trailers_payload w h none = none
trailers_payload w h (some future) = payload_from w h (w.pipe_trailers future)

abbrev pub Entries : Type 0
Entries = List (Text × FieldValue)

-- The resource `rep` is found with `fields`, or not found, when the trailers are awaited.
abbrev pub FoundAt : Tasks → HttpHost → ℕ → Option FieldsData → Type 0
FoundAt w h rep fields =
    (g : HttpHost)
    → Reached w h g
    → Table.get (w.meanwhile Await.trailers g).resources.fields rep ≡ fields

-- The channel yields this resource first, within the budget.
abbrev pub Yields : TrailersPolls → ℕ → Type 0
Yields rx rep = FirstAt rx 0 yield_budget (ok (ok (some rep)))

-- The trailers that the guest reports with its request in time; none if it has no trailers, or an error, or
-- drops its writer, or is late, or names no resource.
pub data TrailersOf (w : Tasks) (h : HttpHost) (future : Option TrailersFuture)
    (reported : Option Entries) : Type 0 where
  no_future : future ≡ none → reported ≡ none → TrailersOf w h future reported
  no_fields :
      (f : TrailersFuture) (rx : TrailersPolls)
      → future ≡ some f
      → w.pipe_trailers f ≡ ok rx
      → ((rep : ℕ) → ¬ Yields rx rep)
      → reported ≡ none
      → TrailersOf w h future reported
  unknown_fields :
      (f : TrailersFuture) (rx : TrailersPolls) (rep : ℕ)
      → future ≡ some f
      → w.pipe_trailers f ≡ ok rx
      → Yields rx rep
      → FoundAt w h rep none
      → reported ≡ none
      → TrailersOf w h future reported
  known_fields :
      (f : TrailersFuture) (rx : TrailersPolls) (rep : ℕ) (fields : FieldsData)
      → future ≡ some f
      → w.pipe_trailers f ≡ ok rx
      → Yields rx rep
      → FoundAt w h rep (some fields)
      → all (λ (e : Text × FieldValue). all is_byte e.1) fields.entries ≡ true
      → reported ≡ some fields.entries
      → TrailersOf w h future reported

-- The payload carries the trailers: it reads back as those with a token as name, in order, and there is
-- none exactly if there are no such trailers.
abbrev pub Carries : Option Entries → Option Bytes → Type 0
Carries none payload = payload ≡ none
Carries (some entries) payload =
    ((token_entries entries ≡ []) × (payload ≡ none))
    ⊎ ((line : Text) × (payload ≡ some (into_bytes line))
        × (parse_trailers_line line ≡ token_entries entries)
        × ¬ (token_entries entries ≡ []))

resolved_fields-some :
    (o : Option (Result (Result (Option ℕ) ErrorCode) Canceled)) (rep : ℕ)
    → resolved_fields o ≡ some rep
    → o ≡ some (ok (ok (some rep)))
unfolding resolved_fields
resolved_fields-some none rep e = cc e
resolved_fields-some (some (err c)) rep e = cc e
resolved_fields-some (some (ok (err c))) rep e = cc e
resolved_fields-some (some (ok (ok r))) rep e = ap (λ x. some (ok (ok x))) e

no_yield :
    (rx : TrailersPolls)
    → ((rep : ℕ) → ¬ Yields rx rep)
    → resolved_fields (await_trailers_bounded rx) ≡ none
no_yield rx never = elim (Option-cases (resolved_fields (await_trailers_bounded rx))) [
  | inl e ↦ e
  | inr (rep, e) ↦ absurd (
      never rep (
        (await_trailers_bounded_iff rx (ok (ok (some rep)))).0
          (resolved_fields-some (await_trailers_bounded rx) rep e)))
]

-- What is sent of the entries.
sent_of : Option FieldsData → Option Bytes
unfolding format_request_trailers_value
sent_of none = none
sent_of (some fields) = Option.map into_bytes (format_request_trailers_value fields.entries)

sent_of-map_or :
    (fields : Option FieldsData)
    → Option.map into_bytes (map_or none (λ f. format_request_trailers_value f.entries) fields)
      ≡ sent_of fields
unfolding sent_of
sent_of-map_or none = refl
sent_of-map_or (some fields) = refl

payload-yield :
    (w : Tasks) (g : HttpHost) (f : TrailersFuture) (rx : TrailersPolls) (rep : ℕ)
    (fields : Option FieldsData)
    → w.pipe_trailers f ≡ ok rx
    → Yields rx rep
    → Table.get (w.meanwhile Await.trailers g).resources.fields rep ≡ fields
    → trailers_payload w g (some f) ≡ sent_of fields
unfolding trailers_payload payload_from trailers_value resolved_fields
payload-yield w g f rx rep fields piped yields there =
    let first : await_trailers_bounded rx ≡ some (ok (ok (some rep))) =
      (await_trailers_bounded_iff rx (ok (ok (some rep)))).1 yields in
    ap (payload_from w g) piped
    ∙ ap
        (λ o.
          Option.map into_bytes
            (trailers_value (w.meanwhile Await.trailers g).resources (resolved_fields o)))
        first
    ∙ ap (λ o. Option.map into_bytes (map_or none (λ f. format_request_trailers_value f.entries) o))
        there
    ∙ sent_of-map_or fields

payload-no_yield :
    (w : Tasks) (g : HttpHost) (f : TrailersFuture) (rx : TrailersPolls)
    → w.pipe_trailers f ≡ ok rx
    → ((rep : ℕ) → ¬ Yields rx rep)
    → trailers_payload w g (some f) ≡ none
unfolding trailers_payload payload_from trailers_value
payload-no_yield w g f rx piped never =
    ap (payload_from w g) piped
    ∙ ap (λ o. Option.map into_bytes (trailers_value (w.meanwhile Await.trailers g).resources o))
        (no_yield rx never)

sent_of-Carries :
    (fields : FieldsData)
    → all (λ (e : Text × FieldValue). all is_byte e.1) fields.entries ≡ true
    → Carries (some fields.entries) (sent_of (some fields))
unfolding sent_of
sent_of-Carries fields bytes = elim (Option-cases (format_request_trailers_value fields.entries)) [
  | inl e ↦
      inl (
        (format_request_trailers_value-eq-none_iff fields.entries).0 e,
        ap (Option.map into_bytes) e,
      )
  | inr (line, e) ↦ inr (
    line,
    ap (Option.map into_bytes) e,
    parse_trailers_line-format fields.entries line bytes e,
    λ none_left. cc (e, (format_request_trailers_value-eq-none_iff fields.entries).1 none_left),
  )
]

-- At any host that is reached before the wait, the payload that is sent carries the reported trailers.
pub trailers_payload-Carries :
    {w : Tasks} {h : HttpHost} {future : Option TrailersFuture} {reported : Option Entries}
    (g : HttpHost)
    → TrailersOf w h future reported
    → Reached w h g
    → Carries reported (trailers_payload w g future)
unfolding trailers_payload sent_of
trailers_payload-Carries {w} {future} g (no_future e n) r =
    subst (λ x. Carries x (trailers_payload w g future)) (sym n) (ap (trailers_payload w g) e)
trailers_payload-Carries {w} {future} g (no_fields f rx e p never n) r =
    subst (λ x. Carries x (trailers_payload w g future)) (sym n)
      (ap (trailers_payload w g) e ∙ payload-no_yield w g f rx p never)
trailers_payload-Carries {w} {future} g (unknown_fields f rx rep e p y at n) r =
    subst (λ x. Carries x (trailers_payload w g future)) (sym n)
      (ap (trailers_payload w g) e ∙ payload-yield w g f rx rep none p y (at g r))
trailers_payload-Carries {w} {future} g (known_fields f rx rep fields e p y at bytes n) r =
    let same : trailers_payload w g future ≡ sent_of (some fields) =
      ap (trailers_payload w g) e ∙ payload-yield w g f rx rep (some fields) p y (at g r) in
    subst (λ x. Carries x (trailers_payload w g future)) (sym n)
      (subst (Carries (some fields.entries)) (sym same) (sent_of-Carries fields bytes))
