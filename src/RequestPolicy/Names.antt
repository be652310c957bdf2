-- ===== src/RequestPolicy/Names.antt =====
-- The classes of header names: the credential test never strikes an allowlisted name, and the
-- tests do not depend on case or on white space around the name.
use hellohq_wasm_runtime.Prelude.{
  Bool, true, false, not, List, [], ◌∷◌, ◌≡◌, ◌↔◌, refl, sym, ap, ◌∙◌, arith, In, here, there,
  Every, Bool-cases, inl, inr,
}
use hellohq_wasm_runtime.Str.{
  Text, equal, to_ascii_lowercase, is_whitespace, trim, starts_with, contains,
}
use hellohq_wasm_runtime.Str.Affix.{equal_iff, equal_refl}
use hellohq_wasm_runtime.Str.Case.{to_ascii_lowercase_idem, eq_ignore_ascii_case_iff}
use hellohq_wasm_runtime.Str.Trim.{trim_idem, trim-to_ascii_lowercase}
use hellohq_wasm_runtime.RequestPolicy.{
  allowed_request_headers, stripped_response_headers, reserved_credential_header, listed, normal,
  is_credential_header_name, is_allowed_request_header, is_stripped_response_header,
  is_reserved_credential_header,
}

pub normal_idem : (name : Text) → normal (normal name) ≡ normal name
normal_idem name =
    ap to_ascii_lowercase (trim-to_ascii_lowercase (trim name))
    ∙ to_ascii_lowercase_idem (trim (trim name))
    ∙ ap to_ascii_lowercase (trim_idem name)

-- A list's names, each tested.
tested :
    (p : Text → Bool) (names : List Text) {n : Text}
    → Every (λ x. p x ≡ true) names
    → In n names
    → p n ≡ true
tested p [] h i = elim i [ ]
tested p (x ∷ xs) h here = h.0
tested p (x ∷ xs) h (there i) = tested p xs h.1 i

listed-In : (n : Text) (names : List Text) → listed n names ≡ true → In n names
listed-In n (x ∷ xs) h = elim (Bool-cases (equal n x)) [
  | inl e ↦ rw ((equal_iff n x).0 e) here
  | inr e ↦ there (listed-In n xs (rw e at h))
]
listed-In n [] h = cc

In-listed : {n : Text} {names : List Text} → In n names → listed n names ≡ true
In-listed {n} here = rw (equal_refl n)
In-listed (there i) = ground (arith, In-listed i)

pub listed_iff : (n : Text) (names : List Text) → (listed n names ≡ true) ↔ In n names
listed_iff n names = (listed-In n names, In-listed)

allowed_not_credential :
    Every (λ x. not (is_credential_header_name x) ≡ true) allowed_request_headers
unfolding is_credential_header_name to_ascii_lowercase trim is_whitespace starts_with contains
allowed_not_credential = (refl, (refl, (refl, (refl, (refl, tt)))))

-- A plugin may set a header exactly if its name, trimmed and in lower case, is on the allowlist:
-- the credential patterns strike none of the allowlisted names.
pub is_allowed_request_header_iff :
    (name : Text)
    → (is_allowed_request_header name ≡ true) ↔ In (normal name) allowed_request_headers
unfolding is_allowed_request_header
is_allowed_request_header_iff name = (
  λ h. listed-In (normal name) allowed_request_headers (ground arith),
  λ i. rw (In-listed i, tested (λ x. not (is_credential_header_name x)) _ allowed_not_credential i),
)

pub is_allowed_request_header-normal :
    (name : Text) → is_allowed_request_header (normal name) ≡ is_allowed_request_header name
unfolding is_allowed_request_header
is_allowed_request_header-normal name = rw (normal_idem name)

pub is_credential_header_name-normal :
    (name : Text) → is_credential_header_name (normal name) ≡ is_credential_header_name name
unfolding is_credential_header_name
is_credential_header_name-normal name = rw (normal_idem name)

-- An allowed name is no credential name.
pub allowed_no_credential :
    (name : Text) → is_allowed_request_header name ≡ true → is_credential_header_name name ≡ false
unfolding is_allowed_request_header
allowed_no_credential name h = sym (is_credential_header_name-normal name) ∙ ground arith

reserved_normal : normal reserved_credential_header ≡ reserved_credential_header
unfolding to_ascii_lowercase trim is_whitespace
reserved_normal = refl

reserved_is_credential : is_credential_header_name reserved_credential_header ≡ false
unfolding is_credential_header_name to_ascii_lowercase trim is_whitespace starts_with contains
reserved_is_credential = refl

reserved_not_allowed : is_allowed_request_header reserved_credential_header ≡ false
unfolding is_allowed_request_header to_ascii_lowercase trim is_whitespace equal
reserved_not_allowed = refl

normal-reserved :
    (name : Text)
    → is_reserved_credential_header name ≡ true
    → normal name ≡ reserved_credential_header
unfolding is_reserved_credential_header
normal-reserved name h =
    (eq_ignore_ascii_case_iff (trim name) reserved_credential_header).0 h ∙ lowered
  where
    lowered : to_ascii_lowercase reserved_credential_header ≡ reserved_credential_header
    lowered = unfold to_ascii_lowercase in refl

-- A name that is the reserved credential header, in any case and with white space around it, is
-- never allowed on a request.
reserved_never_allowed :
    (name : Text)
    → is_reserved_credential_header name ≡ true
    → is_allowed_request_header name ≡ false
reserved_never_allowed name h =
    sym (is_allowed_request_header-normal name)
    ∙ ap is_allowed_request_header (normal-reserved name h)
    ∙ reserved_not_allowed

-- A response header is stripped exactly if its name, trimmed and in lower case, is listed.
pub is_stripped_response_header_iff :
    (name : Text)
    → (is_stripped_response_header name ≡ true) ↔ In (normal name) stripped_response_headers
unfolding is_stripped_response_header
is_stripped_response_header_iff name = listed_iff (normal name) stripped_response_headers
