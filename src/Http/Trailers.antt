-- ===== src/Http/Trailers.antt =====
-- src/wasi_http.rs, "Transport framing": the reserved lines for timeouts and trailers.
use hellohq_wasm_runtime.Prelude.{
  ℕ, List, [], ◌∷◌, ◌++◌, map, keep, Option, none, some, if◌then◌else◌,
}
use hellohq_wasm_runtime.Str.Decimal.{to_decimal}
use hellohq_wasm_runtime.Http.Data.{RequestOptionsData}
use hellohq_wasm_runtime.Str.{Text, lit, is_empty, trim, split, split_once}
use hellohq_wasm_runtime.Str.Join.{join}
use hellohq_wasm_runtime.Http.Hex.{hex_encode, hex_decode}
use hellohq_wasm_runtime.Http.Entries.{FieldValue}
use hellohq_wasm_runtime.Http.Head.{request_options_head_key, is_http_token}

-- One `;`-separated part of the trailers line; none if it is skipped.
unfoldable pub parse_pair : Text → Option (Text × FieldValue)
unfolding trim split_once hex_decode
parse_pair pair =
    let pair = trim pair in
    if is_empty pair then none else elim (split_once pair b'=') [
      | none ↦ none
      | some e ↦ elim (hex_decode (trim e.1)) [ none ↦ none | some bytes ↦ some (trim e.0, bytes) ]
    ]

unfoldable pub cons_some {ℓ} : {A : Type ℓ} → Option A → List A → List A
cons_some none xs = xs
cons_some (some x) xs = x ∷ xs

unfoldable pub parse_pairs : List Text → List (Text × FieldValue)
unfolding parse_pair cons_some
parse_pairs [] = []
parse_pairs (pair ∷ pairs) = cons_some (parse_pair pair) (parse_pairs pairs)

unfoldable pub parse_trailers_line : Text → List (Text × FieldValue)
unfolding parse_pairs split
parse_trailers_line value = parse_pairs (split value b';')

-- `{name}={hex}`
unfoldable pub trailer_part : Text × FieldValue → Text
unfolding hex_encode
trailer_part (name, value) = name ++ lit "=" ++ hex_encode value

abbrev pub join_some : ℕ → List Text → Option Text
join_some d [] = none
join_some d (part ∷ parts) = some (join d (part ∷ parts))

unfoldable pub format_request_trailers_value : List (Text × FieldValue) → Option Text
unfolding is_http_token trailer_part join
format_request_trailers_value entries =
    join_some b';' (map trailer_part (keep (λ e. is_http_token e.0) entries))

-- `{name}={ns}`, if the timeout is set.
unfoldable pub timeout_part : Text → Option ℕ → List Text
unfolding to_decimal
timeout_part name none = []
timeout_part name (some ns) = (name ++ lit "=" ++ to_decimal ns) ∷ []

unfoldable pub option_parts : RequestOptionsData → List Text
unfolding timeout_part
option_parts opts =
    timeout_part (lit "connect") opts.connect_timeout
    ++ timeout_part (lit "first-byte") opts.first_byte_timeout
    ++ timeout_part (lit "between-bytes") opts.between_bytes_timeout

abbrev options_line : Option Text → Option Text
options_line none = none
options_line (some parts) = some (request_options_head_key ++ lit ": " ++ parts)

unfoldable pub format_request_options_line : RequestOptionsData → Option Text
unfolding option_parts join
format_request_options_line opts = options_line (join_some b';' (option_parts opts))
