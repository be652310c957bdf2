-- ===== src/RequestPolicy/Sanitize.antt =====
-- What the two sanitizers keep, drop and count.
use hellohq_wasm_runtime.Prelude.{
  ℕ, suc, ◌+◌, Bool, true, false, not, ◌&&◌, ◌||◌, List, [], ◌∷◌, ◌++◌, ◌≡◌, ◌↔◌, refl, ap, ◌∙◌,
  arith, any, keep, map, length, In, In-cons, here, there, Bool-cases, inl, inr, append-nil,
  append_assoc, if◌then◌else◌,
}
use hellohq_wasm_runtime.Str.{Text}
use hellohq_wasm_runtime.RequestPolicy.{
  SanitizedHeaders, allowed_request_headers, stripped_response_headers, normal,
  is_credential_header_name, is_allowed_request_header, is_stripped_response_header, sanitize_one,
  sanitize_from, sanitize_request_headers, sanitize_response_headers,
}
use hellohq_wasm_runtime.RequestPolicy.Names.{
  normal_idem, is_allowed_request_header-normal, is_credential_header_name-normal,
  is_allowed_request_header_iff, is_stripped_response_header_iff, allowed_no_credential,
}

module _ {ℓ} {V : Type ℓ} where
  abbrev pub allowed : Text × V → Bool
  allowed h = is_allowed_request_header h.0

  -- A header that is dropped and looks like a credential.
  abbrev pub leaks : Text × V → Bool
  leaks h = not (allowed h) && is_credential_header_name h.0

  abbrev pub normalized : Text × V → Text × V
  normalized h = (normal h.0, h.1)

  -- The sanitizer's result, field by field.
  abbrev pub summary : SanitizedHeaders V → List (Text × V) → SanitizedHeaders V
  summary s hs = record {
    headers = s.headers ++ map normalized (keep allowed hs);
    dropped = s.dropped + length (keep (λ h. not (allowed h)) hs);
    dropped_credential = s.dropped_credential || any leaks hs;
  }

  count_drop :
      (kept : List (Text × V)) (d l : ℕ) (before now later : Bool)
      → ◌≡◌ {A = SanitizedHeaders V}
          (record {
            headers = kept;
            dropped = d + 1 + l;
            dropped_credential = (if now then true else before) || later;
          })
          (record {
            headers = kept;
            dropped = d + suc l;
            dropped_credential = before || (now || later);
          })
  count_drop kept d l before now later = ground arith

  summary-sanitize_one :
      (s : SanitizedHeaders V) (h : Text × V) (hs : List (Text × V))
      → summary (sanitize_one s h) hs ≡ summary s (h ∷ hs)
  unfolding sanitize_one
  summary-sanitize_one s (name, value) hs =
      rw (is_allowed_request_header-normal name, is_credential_header_name-normal name)
        (elim (Bool-cases (is_allowed_request_header name)) [
          | inl e ↦ rw e (
              ground (
                arith,
                append_assoc s.headers ((normal name, value) ∷ [])
                    (map normalized (keep allowed hs)),
              ))
          | inr e ↦ rw e (
              count_drop (s.headers ++ map normalized (keep allowed hs)) s.dropped
                (length (keep (λ h. not (allowed h)) hs)) s.dropped_credential
                (is_credential_header_name name) (any leaks hs))
        ])

  sanitize_from-summary :
      (s : SanitizedHeaders V) (hs : List (Text × V)) → sanitize_from s hs ≡ summary s hs
  unfolding sanitize_from
  sanitize_from-summary s [] = ground (arith, append-nil s.headers)
  sanitize_from-summary s (h ∷ hs) =
      sanitize_from-summary (sanitize_one s h) hs ∙ summary-sanitize_one s h hs

  count_keep :
      (p : Text × V → Bool) (hs : List (Text × V))
      → length (keep p hs) + length (keep (λ h. not (p h)) hs) ≡ length hs
  count_keep p [] = refl
  count_keep p (h ∷ hs) = ground (arith, count_keep p hs)

  -- The sanitizer sends the allowed headers in their order under their trimmed lower-case names,
  -- counts every other header as dropped, and notes whether one of those looks like a credential.
  pub sanitize_request_headers_lem :
      (hs : List (Text × V))
      → (sanitize_request_headers hs).headers ≡ map normalized (keep allowed hs)
        × ((sanitize_request_headers hs).dropped + length (keep allowed hs) ≡ length hs)
        × ((sanitize_request_headers hs).dropped_credential ≡ any leaks hs)
  unfolding sanitize_request_headers
  sanitize_request_headers_lem hs =
      let whole =
        sanitize_from-summary (record { headers = []; dropped = 0; dropped_credential = false })
          hs in
      let dropped : (sanitize_request_headers hs).dropped
          ≡ 0 + length (keep (λ h. not (allowed h)) hs) =
        ap (λ (s : SanitizedHeaders V). s.dropped) whole in
      (
        ap (λ (s : SanitizedHeaders V). s.headers) whole,
        omega (arith, dropped, count_keep allowed hs),
        ap (λ (s : SanitizedHeaders V). s.dropped_credential) whole,
      )

  -- What is sent, read again.
  abbrev sent : List (Text × V) → List (Text × V)
  sent hs = map normalized (keep allowed hs)

  sent_shape :
      (hs : List (Text × V)) {h : Text × V}
      → In h (sent hs)
      → (is_allowed_request_header h.0 ≡ true) × (normal h.0 ≡ h.0)
  sent_shape [] i = elim i [ ]
  sent_shape (x ∷ hs) i = elim (Bool-cases (allowed x)) [
    | inr e ↦ sent_shape hs (rw e at i)
    | inl e ↦ elim (In-cons (rw e at i)) [
      | inl same ↦ rw same (is_allowed_request_header-normal x.0 ∙ e, normal_idem x.0)
      | inr j ↦ sent_shape hs j
    ]
  ]

  sent_again :
      (hs : List (Text × V))
      → (map normalized (keep allowed (sent hs)) ≡ sent hs)
        × (keep (λ h. not (allowed h)) (sent hs) ≡ [])
        × (any leaks (sent hs) ≡ false)
  sent_again [] = (refl, refl, refl)
  sent_again (x ∷ hs) = elim (Bool-cases (allowed x)) [
    | inr e ↦ rw e (sent_again hs)
    | inl e ↦
        let (kept, gone, quiet) = sent_again hs in
        rw (e, is_allowed_request_header-normal x.0, e)
          (ground (arith, kept, normal_idem x.0), gone, quiet)
  ]

  -- Every header that is sent has a name of the allowlist, which no credential pattern matches.
  pub sanitize_request_headers_safe :
      (hs : List (Text × V)) {h : Text × V}
      → In h (sanitize_request_headers hs).headers
      → In h.0 allowed_request_headers × (is_credential_header_name h.0 ≡ false)
  sanitize_request_headers_safe hs i =
      let (ok, same) = sent_shape hs (rw ((sanitize_request_headers_lem hs).0) at i) in
      (rw same at ((is_allowed_request_header_iff _).0 ok), allowed_no_credential _ ok)

  -- Sanitizing what was sent changes nothing and drops nothing.
  sanitize_request_headers_idem :
      (hs : List (Text × V))
      → sanitize_request_headers (sanitize_request_headers hs).headers ≡ record {
        headers = (sanitize_request_headers hs).headers;
        dropped = 0;
        dropped_credential = false;
      }
  sanitize_request_headers_idem hs =
      let (kept, gone, quiet) = sent_again hs in
      rw ((sanitize_request_headers_lem hs).0) (
        unfold sanitize_request_headers in
        sanitize_from-summary _ (sent hs) ∙ rw (kept, gone, quiet))

  -- A plugin gets back exactly the response headers whose name, trimmed and in lower case, is not
  -- among the stripped ones.
  sanitize_response_headers_iff :
      (hs : List (Text × V)) (h : Text × V)
      → In h (sanitize_response_headers hs)
        ↔ (In h hs × ¬ In (normal h.0) stripped_response_headers)
  unfolding sanitize_response_headers
  sanitize_response_headers_iff hs h = (to hs, λ (i, n). from i n)
    where
      to :
          (hs : List (Text × V))
          → In h (keep (λ h. not (is_stripped_response_header h.0)) hs)
          → In h hs × ¬ In (normal h.0) stripped_response_headers
      to [] i = elim i [ ]
      to (x ∷ hs) i = elim (Bool-cases (is_stripped_response_header x.0)) [
        | inl e ↦ let (j, n) = to hs (rw e at i) in (there j, n)
        | inr e ↦ elim (In-cons (rw e at i)) [
          | inl same ↦ rw same (here, λ l. cc (e, (is_stripped_response_header_iff x.0).1 l))
          | inr k ↦ let (j, n) = to hs k in (there j, n)
        ]
      ]

      from :
          {hs : List (Text × V)}
          → In h hs
          → ¬ In (normal h.0) stripped_response_headers
          → In h (keep (λ h. not (is_stripped_response_header h.0)) hs)
      from here n = elim (Bool-cases (is_stripped_response_header h.0)) [
        | inl e ↦ absurd (n ((is_stripped_response_header_iff h.0).0 e))
        | inr e ↦ rw e here
      ]
      from (there {y} i) n = elim (Bool-cases (is_stripped_response_header y.0)) [
        | inl e ↦ rw e (from i n)
        | inr e ↦ rw e (there (from i n))
      ]
