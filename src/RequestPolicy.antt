-- ===== src/RequestPolicy.antt =====
-- src/request_policy.rs: which headers a plugin may put on a request of the in-host `wasi:http@0.2`
-- path, and which it may get back.
pub mod Names
pub mod Sanitize
use hellohq_wasm_runtime.Prelude.{
  ℕ, ◌+◌, Bool, true, false, not, ◌&&◌, ◌||◌, List, [], ◌∷◌, ◌++◌, any, keep, if◌then◌else◌,
}
use hellohq_wasm_runtime.Str.{
  Text, lit, equal, to_ascii_lowercase, eq_ignore_ascii_case, trim, starts_with, contains,
}

abbrev pub allowed_request_headers : List Text
allowed_request_headers =
    lit "accept"
    ∷ lit "accept-language"
    ∷ lit "content-type"
    ∷ lit "if-none-match"
    ∷ lit "if-modified-since"
    ∷ []

abbrev pub stripped_response_headers : List Text
stripped_response_headers = lit "set-cookie" ∷ lit "set-cookie2" ∷ []

abbrev pub credential_fragments : List Text
credential_fragments =
    lit "auth"
    ∷ lit "cookie"
    ∷ lit "key"
    ∷ lit "secret"
    ∷ lit "sign"
    ∷ lit "token"
    ∷ lit "passphrase"
    ∷ lit "password"
    ∷ lit "session"
    ∷ lit "cert"
    ∷ []

abbrev pub credential_prefixes : List Text
credential_prefixes = lit "cb-access-" ∷ lit "ok-access-" ∷ []

abbrev pub reserved_credential_header : Text
reserved_credential_header = lit "x-hellohq-credential"

-- `list.contains(&n)`
abbrev pub listed : Text → List Text → Bool
listed n names = any (equal n) names

-- `name.trim().to_ascii_lowercase()`
abbrev pub normal : Text → Text
normal name = to_ascii_lowercase (trim name)

unfoldable pub is_credential_header_name : Text → Bool
is_credential_header_name name =
    let n = normal name in
    any (λ p. starts_with n p) credential_prefixes || any (λ f. contains n f) credential_fragments

unfoldable pub is_allowed_request_header : Text → Bool
is_allowed_request_header name =
    let n = normal name in listed n allowed_request_headers && not (is_credential_header_name n)

unfoldable pub is_stripped_response_header : Text → Bool
is_stripped_response_header name = listed (normal name) stripped_response_headers

unfoldable pub is_reserved_credential_header : Text → Bool
is_reserved_credential_header name = eq_ignore_ascii_case (trim name) reserved_credential_header

pub record SanitizedHeaders {ℓ} (V : Type ℓ) : Type ℓ where
  pub headers : List (Text × V)
  pub dropped : ℕ
  pub dropped_credential : Bool

module _ {ℓ} {V : Type ℓ} where
  -- One round of the loop, on the three variables.
  unfoldable pub sanitize_one : SanitizedHeaders V → Text × V → SanitizedHeaders V
  sanitize_one s (name, value) =
      let n = normal name in
      if is_allowed_request_header n
      then record s { headers = s.headers ++ (n, value) ∷ [] }
      else record s {
        dropped = s.dropped + 1;
        dropped_credential = if is_credential_header_name n then true else s.dropped_credential;
      }

  unfoldable pub sanitize_from : SanitizedHeaders V → List (Text × V) → SanitizedHeaders V
  sanitize_from s [] = s
  sanitize_from s (h ∷ headers) = sanitize_from (sanitize_one s h) headers

  unfoldable pub sanitize_request_headers : List (Text × V) → SanitizedHeaders V
  sanitize_request_headers headers =
      sanitize_from (record { headers = []; dropped = 0; dropped_credential = false }) headers

  unfoldable pub sanitize_response_headers : List (Text × V) → List (Text × V)
  sanitize_response_headers headers = keep (λ h. not (is_stripped_response_header h.0)) headers
