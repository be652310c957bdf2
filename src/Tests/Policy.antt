-- ===== src/Tests/Policy.antt =====
-- Runs of the header policy, and its theorems at concrete headers.
use hellohq_wasm_runtime.Prelude.{
  ℕ, ◌+◌, ◌≡◌, refl, List, [], ◌∷◌, true, false, any, keep, map, length, In, here,
}
use hellohq_wasm_runtime.Str.{
  Text, lit, equal, to_ascii_lowercase, eq_ignore_ascii_case, is_whitespace, trim, starts_with,
  contains,
}
use hellohq_wasm_runtime.RequestPolicy.{
  allowed_request_headers, is_credential_header_name, is_allowed_request_header,
  is_reserved_credential_header, sanitize_one, sanitize_from, sanitize_request_headers,
}
use hellohq_wasm_runtime.RequestPolicy.Sanitize.{
  allowed, leaks, normalized, sanitize_request_headers_lem, sanitize_request_headers_safe,
}

abbrev sample : List (Text × ℕ)
sample = (lit " Accept", 1) ∷ (lit "Authorization", 2) ∷ (lit "Host", 3) ∷ []

sanitizes :
    sanitize_request_headers sample
    ≡ record { headers = (lit "accept", 1) ∷ []; dropped = 2; dropped_credential = true }
unfolding sanitize_request_headers sanitize_from sanitize_one is_allowed_request_header
    is_credential_header_name equal to_ascii_lowercase trim is_whitespace starts_with contains
sanitizes = refl

sanitize_request_headers_lem_example :
    ((sanitize_request_headers sample).headers ≡ map normalized (keep allowed sample))
    × ((sanitize_request_headers sample).dropped + length (keep allowed sample) ≡ length sample)
    × ((sanitize_request_headers sample).dropped_credential ≡ any leaks sample)
sanitize_request_headers_lem_example = sanitize_request_headers_lem sample

accept_is_sent : In (lit "accept", 1) (sanitize_request_headers sample).headers
unfolding sanitize_request_headers sanitize_from sanitize_one is_allowed_request_header
    is_credential_header_name equal to_ascii_lowercase trim is_whitespace starts_with contains
accept_is_sent = here

sanitize_request_headers_safe_example :
    In (lit "accept") allowed_request_headers × (is_credential_header_name (lit "accept") ≡ false)
sanitize_request_headers_safe_example = sanitize_request_headers_safe sample accept_is_sent

abbrev cookies : List (Text × ℕ)
cookies = (lit "Set-Cookie", 1) ∷ (lit "ETag", 2) ∷ []

abbrev cookie : Text × ℕ
cookie = (lit "Set-Cookie", 1)

is_reserved : is_reserved_credential_header (lit " X-HelloHQ-Credential") ≡ true
unfolding is_reserved_credential_header eq_ignore_ascii_case trim is_whitespace
is_reserved = refl
