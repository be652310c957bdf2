-- ===== src/Tests/Fetch.antt =====
-- Runs of the address parser and the fetch gate, and its theorems at concrete hosts.
use hellohq_wasm_runtime.Prelude.{
  ◌≡◌, refl, ◌↔◌, List, [], ◌∷◌, true, none, some, any, ok, err, arith,
}
use hellohq_wasm_runtime.Str.{Text, lit, eq_ignore_ascii_case, strip_prefix, ends_with}
use hellohq_wasm_runtime.FetchGate.Address.{
  Ipv4Addr, Ipv6Addr, v4, v6, is_blocked_v4, is_blocked_v6, is_blocked_address,
}
use hellohq_wasm_runtime.FetchGate.Gate.{
  scheme_blocked, origin_blocked, address_blocked, entry_matches, origin_allowed, check_request,
}
use hellohq_wasm_runtime.FetchGate.IpText.{parse_ip}
use hellohq_wasm_runtime.FetchGate.Mapped.{v6_value, blocked_v6_ranges, is_blocked_v6-eq-ranges}
use hellohq_wasm_runtime.FetchGate.Origin.{Allowed, origin_allowed_iff}
use hellohq_wasm_runtime.FetchGate.Permit.{Verdict, check_request_iff}
use hellohq_wasm_runtime.FetchGate.Ranges.{
  covers, v4_value, blocked_v4_ranges, is_blocked_v4-eq-ranges,
}

parses_v4 :
    parse_ip (lit "169.254.169.254") ≡ some (v4 (record { b0 = 169; b1 = 254; b2 = 169; b3 = 254 }))
unfolding parse_ip
parses_v4 = refl

refuses :
    (parse_ip (lit "256.0.0.1") ≡ none)
    × (parse_ip (lit "01.0.0.1") ≡ none)
    × (parse_ip (lit "1.2.3") ≡ none)
    × (parse_ip (lit "1:2") ≡ none)
    × (parse_ip (lit "::1%lo") ≡ none)
    × (parse_ip (lit "localhost") ≡ none)
unfolding parse_ip
refuses = (refl, refl, refl, refl, refl, refl)

parses_v6 :
    parse_ip (lit "::ffff:127.0.0.1")
    ≡ some
        (v6 (record { s0 = 0; s1 = 0; s2 = 0; s3 = 0; s4 = 0; s5 = 0xffff; s6 = 0x7f00; s7 = 1 }))
unfolding parse_ip
parses_v6 = refl

parses_ula :
    parse_ip (lit "fD00:1::aB")
    ≡ some (v6 (record { s0 = 0xfd00; s1 = 1; s2 = 0; s3 = 0; s4 = 0; s5 = 0; s6 = 0; s7 = 0xab }))
unfolding parse_ip
parses_ula = refl

abbrev allow : List Text
allow = lit "*.Example.com" ∷ lit "10.0.0.1" ∷ lit "8.8.8.8" ∷ []

gate :
    (check_request (lit "https") (lit "api.example.COM") allow ≡ ok tt)
    × (check_request (lit "http") (lit "api.example.com") allow ≡ err scheme_blocked)
    × (check_request (lit "https") (lit "notexample.com") allow ≡ err origin_blocked)
    × (check_request (lit "https") (lit "10.0.0.1") allow ≡ err address_blocked)
    × (check_request (lit "https") (lit "8.8.8.8") allow ≡ ok tt)
unfolding check_request origin_allowed entry_matches eq_ignore_ascii_case strip_prefix ends_with
    parse_ip is_blocked_address is_blocked_v4
gate = (refl, refl, refl, refl, refl)

check_request_iff_example :
    (check_request (lit "https") (lit "10.0.0.1") allow ≡ err address_blocked)
    ↔ Verdict (lit "https") (lit "10.0.0.1") allow (err address_blocked)
check_request_iff_example =
    check_request_iff (lit "https") (lit "10.0.0.1") allow (err address_blocked)

origin_allowed_iff_example :
    (origin_allowed (lit "api.example.com") allow ≡ true) ↔ Allowed (lit "api.example.com") allow
origin_allowed_iff_example = origin_allowed_iff (lit "api.example.com") allow

abbrev metadata : Ipv4Addr
metadata = record { b0 = 169; b1 = 254; b2 = 169; b3 = 254 }

is_blocked_v4-eq-ranges_example :
    is_blocked_v4 metadata ≡ any (covers 32 (v4_value metadata)) blocked_v4_ranges
is_blocked_v4-eq-ranges_example = is_blocked_v4-eq-ranges metadata (omega arith)

abbrev mapped_loopback : Ipv6Addr
mapped_loopback = record {
  s0 = 0;
  s1 = 0;
  s2 = 0;
  s3 = 0;
  s4 = 0;
  s5 = 0xffff;
  s6 = 0x7f00;
  s7 = 1;
}

is_blocked_v6-eq-ranges_example :
    is_blocked_v6 mapped_loopback ≡ any (covers 128 (v6_value mapped_loopback)) blocked_v6_ranges
is_blocked_v6-eq-ranges_example = is_blocked_v6-eq-ranges mapped_loopback (omega arith)
