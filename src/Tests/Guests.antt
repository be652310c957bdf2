-- ===== src/Tests/Guests.antt =====
-- A header map, a sender, and the hooks over them.
use hellohq_wasm_runtime.Prelude.{
  ℕ, suc, false, not, List, [], ◌∷◌, map, some, ok, err, if◌then◌else◌, ◌≡◌, refl, sym, ap, ◌∙◌,
  arith, Bool-cases, inl, inr,
}
use hellohq_wasm_runtime.Str.{
  Text, lit, equal, is_empty, eq_ignore_ascii_case, ends_with, trim, is_whitespace, strip_prefix,
}
use hellohq_wasm_runtime.Str.Affix.{equal_iff}
use hellohq_wasm_runtime.FetchGate.Permit.{check_request_iff}
use hellohq_wasm_runtime.FetchGate.Gate.{
  origin_blocked, check_request, origin_allowed, entry_matches,
}
use hellohq_wasm_runtime.FetchGate.IpText.{parse_ip}
use hellohq_wasm_runtime.RequestPolicy.{
  listed, is_allowed_request_header, is_reserved_credential_header,
}
use hellohq_wasm_runtime.WasiGuests.Headers.{HeaderMap}
use hellohq_wasm_runtime.WasiGuests.Hooks.{
  http_request_denied, internal_error, bytes, Uri, Request, Sender, GatedHttpHooks, sanitize_send,
  send_request,
}
use hellohq_wasm_runtime.WasiGuests.Retained.{equal_comm}
use hellohq_wasm_runtime.WasiGuests.Safe.{Passes, send_request_denied, send_request_sends}

-- One entry for each value.
abbrev Entries : Type 0
Entries = List (Text × Text)

abbrev values_at : Entries → Text → List Text
values_at [] n = []
values_at ((k, v) ∷ h) n = if equal k n then v ∷ values_at h n else values_at h n

abbrev removed : Entries → Text → Entries
removed [] n = []
removed ((k, v) ∷ h) n = if equal k n then removed h n else (k, v) ∷ removed h n

abbrev names : Entries → List Text
names h = map (λ (e : Text × Text). e.0) h

values_at-removed :
    (h : Entries) (n m : Text)
    → values_at (removed h n) m ≡ (if equal n m then [] else values_at h m)
values_at-removed [] n m = ground arith
values_at-removed ((k, v) ∷ h) n m = elim (Bool-cases (equal k n)) [
  | inl same ↦
      let e : equal n m ≡ equal k m = ap (λ x. equal x m) (sym ((equal_iff k n).0 same)) in
      ground (arith, same, e, values_at-removed h n m)
  | inr other ↦ elim (Bool-cases (equal n m)) [
    | inl at ↦
        let e : equal k m ≡ false = ap (equal k) (sym ((equal_iff n m).0 at)) ∙ other in
        ground (arith, other, at, e, values_at-removed h n m)
    | inr away ↦ ground (arith, other, away, values_at-removed h n m)
  ]
]

listed-names : (h : Entries) (n : Text) → listed n (names h) ≡ not (is_empty (values_at h n))
listed-names [] n = refl
listed-names ((k, v) ∷ h) n = ground (arith, listed-names h n, equal_comm n k)

values_at-inserted :
    (h : Entries) (n m : Text) (v : Text)
    → values_at ((n, v) ∷ removed h n) m ≡ (if equal n m then v ∷ [] else values_at h m)
values_at-inserted h n m v = ground (arith, values_at-removed h n m)

abbrev entries : HeaderMap Text
entries = record {
  Map = Entries;
  keys = names;
  get_all = values_at;
  contains_key = λ h n. listed n (names h);
  insert = λ h n v. (n, v) ∷ removed h n;
  remove = removed;
  get_all-insert = values_at-inserted;
  get_all-remove = values_at-removed;
  contains_key-get_all = listed-names;
  listed-keys = λ h n. refl;
}

abbrev allowlist : List Text
allowlist = lit "api.example.com" ∷ []

abbrev uri_of : Text → Uri
uri_of host = record { scheme_str = some (lit "https"); host = some host; authority = some host }

-- `ℕ` stands for the body.
abbrev request_to : Text → Request Entries ℕ
request_to host = record {
  uri = uri_of host;
  headers = (lit "accept", lit "a/b") ∷ (lit "cookie", lit "c") ∷ [];
  rest = 0;
}

-- The sender counts its calls, and answers with a cookie and with a body that breaks off.
abbrev sender : Sender Entries ℕ ℕ ℕ ℕ
sender calls request options = (
  suc calls,
  ok (record {
    response = record {
      status = 200;
      headers = (lit "set-cookie", lit "c") ∷ [];
      body = ok (bytes (1 ∷ [])) ∷ err (internal_error (some (lit "10.0.0.1"))) ∷ [];
    };
    io = ok tt;
  }),
)

abbrev hooks : GatedHttpHooks ℕ
hooks = record { allowlist = allowlist; send = 0; dropped_request_headers = 0 }

localhost-blocked : check_request (lit "https") (lit "localhost") allowlist ≡ err origin_blocked
unfolding check_request eq_ignore_ascii_case origin_allowed entry_matches ends_with parse_ip trim
    is_whitespace strip_prefix
localhost-blocked = refl

local-not_passed : ¬ Passes entries allowlist (request_to (lit "localhost"))
local-not_passed p = cc (
    sym localhost-blocked
    ∙ (check_request_iff (lit "https") (lit "localhost") allowlist (ok tt)).1 p.permitted)

api-Passes : Passes entries allowlist (request_to (lit "api.example.com"))
unfolding check_request eq_ignore_ascii_case origin_allowed entry_matches ends_with parse_ip
    is_reserved_credential_header trim is_whitespace
api-Passes = record {
  permitted = (check_request_iff (lit "https") (lit "api.example.com") allowlist (ok tt)).0 refl;
  no_credential = refl;
}

send_request_denied_example :
    send_request entries sender hooks (request_to (lit "localhost")) 0
    ≡ (hooks, err http_request_denied)
send_request_denied_example =
    send_request_denied entries sender hooks (request_to (lit "localhost")) 0 local-not_passed

send_request_sends_example :
    (headers : Entries) × ((n : Text)
      → values_at headers n ≡ (
          if is_allowed_request_header n
          then values_at (request_to (lit "api.example.com")).headers n
          else []))
    × ((send_request entries sender hooks (request_to (lit "api.example.com")) 0).0.send
        ≡ (sender 0 (record (request_to (lit "api.example.com")) { headers = headers }) 0).0)
    × ((send_request entries sender hooks (request_to (lit "api.example.com")) 0).1
        ≡ sanitize_send entries
            (sender 0 (record (request_to (lit "api.example.com")) { headers = headers }) 0).1)
send_request_sends_example =
    send_request_sends entries sender hooks (request_to (lit "api.example.com")) 0 api-Passes
