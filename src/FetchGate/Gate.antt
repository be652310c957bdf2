-- ===== src/FetchGate/Gate.antt =====
-- src/fetch_gate.rs: the origin allowlist and the gate for an outbound request.
use hellohq_wasm_runtime.Prelude.{
  Bool, true, false, ◌||◌, not, List, [], ◌∷◌, ◌++◌, Option, none, some, if◌then◌else◌, Result, ok,
  err,
}
use hellohq_wasm_runtime.Str.{
  Text, lit, equal, to_ascii_lowercase, eq_ignore_ascii_case, strip_prefix, ends_with,
}
use hellohq_wasm_runtime.FetchGate.Address.{IpAddr, is_blocked_address}
use hellohq_wasm_runtime.FetchGate.IpText.{parse_ip}

pub data FetchDenial : Type 0 where
  scheme_blocked origin_blocked address_blocked credential_unsupported_transport : FetchDenial

-- The body of the loop over the allowlist: whether this entry returns true.
unfoldable pub entry_matches : Text → Text → Bool
entry_matches host origin =
    let norm = to_ascii_lowercase origin in
    if equal norm host then true else elim (strip_prefix norm (lit "*.")) [
      | some suffix ↦ equal host suffix || ends_with host (lit "." ++ suffix)
      | none ↦ false
    ]

unfoldable pub any_entry : Text → List Text → Bool
any_entry host [] = false
any_entry host (origin ∷ rest) = if entry_matches host origin then true else any_entry host rest

unfoldable pub origin_allowed : Text → List Text → Bool
unfolding any_entry
origin_allowed host allowlist = any_entry (to_ascii_lowercase host) allowlist

-- `lower == "localhost" || lower.ends_with(".localhost")`
abbrev pub is_localhost : Text → Bool
is_localhost lower = equal lower (lit "localhost") || ends_with lower (lit ".localhost")

-- `if let Ok(ip) = host.parse() { if is_blocked_address(ip) … }`
abbrev pub is_blocked_literal : Option IpAddr → Bool
is_blocked_literal none = false
is_blocked_literal (some ip) = is_blocked_address ip

unfoldable pub check_request : Text → Text → List Text → Result (Unit {0}) FetchDenial
check_request scheme host allowlist =
    if not (eq_ignore_ascii_case scheme (lit "https"))
    then err scheme_blocked
    else if not (origin_allowed host allowlist)
    then err origin_blocked
    else if is_localhost (to_ascii_lowercase host)
    then err address_blocked
    else if is_blocked_literal (parse_ip host)
    then err address_blocked
    else ok tt
