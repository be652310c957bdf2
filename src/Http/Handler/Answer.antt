-- ===== src/Http/Handler/Answer.antt =====
-- src/wasi_http.rs, `handle_via_transport`: the response head as the caller writes it, and how the parser
-- takes its header lines.
use hellohq_wasm_runtime.Prelude.{
  ℕ, Bool, true, false, not, ◌&&◌, List, [], ◌∷◌, ◌++◌, map, all, all_imp, Option, none, some, ◌==◌,
  ◌≡◌, refl, sym, ap, ◌∙◌, arith, append_assoc, append-nil,
}
use hellohq_wasm_runtime.Str.{
  Text, lit, is_empty, split_once, trim_start, is_whitespace, eq_ignore_ascii_case,
}
use hellohq_wasm_runtime.Str.Trim.{trim-IsSolid}
use hellohq_wasm_runtime.Str.Split.{IsFree, split_once-append}
use hellohq_wasm_runtime.Str.Join.{joined, join}
use hellohq_wasm_runtime.Str.Decimal.{to_decimal}
use hellohq_wasm_runtime.Str.Utf8.{into_bytes, is_scalar}
use hellohq_wasm_runtime.Http.Entries.{FieldValue}
use hellohq_wasm_runtime.Http.Head.{is_tchar, is_http_token}
use hellohq_wasm_runtime.Http.Lines.{token_chars}
use hellohq_wasm_runtime.Http.RoundTrip.{IsSolid-token}
use hellohq_wasm_runtime.Http.Trailers.{trailer_part}
use hellohq_wasm_runtime.Http.Handler.Response.{
  trailers_head_key, ResponseHead, accept_header, accept_line, accept_lines,
}

-- A header line as the caller writes it.
unfoldable pub header_text : Text × Text → Text
header_text (name, value) = name ++ lit ": " ++ value

-- The reserved line with the trailers, if the caller reports any.
unfoldable pub trailers_text : Option (List (Text × FieldValue)) → List Text
unfolding trailer_part join
trailers_text none = []
trailers_text (some entries) =
    (trailers_head_key ++ lit ": " ++ join b';' (map trailer_part entries)) ∷ []

-- The head that the caller writes for a response.
unfoldable pub response_text : ℕ → List (Text × Text) → Option (List (Text × FieldValue)) → Text
unfolding joined header_text trailers_text
response_text status headers trailers =
    joined b'\n' (to_decimal status) (map header_text headers ++ trailers_text trailers)

-- The value stands on one line, and no white space is trimmed from its start.
abbrev pub is_line_value : Text → Bool
is_line_value [] = true
is_line_value (c ∷ s) = not (is_whitespace c) && all (λ d. not (d == b'\n')) s

-- A header that is not the reserved one.
abbrev pub is_writable : Text × Text → Bool
is_writable (name, value) =
    is_http_token name
    && not (eq_ignore_ascii_case name trailers_head_key)
    && is_line_value value
    && all is_scalar value

is_empty-named : (name value : Text) → is_empty (name ++ lit ": " ++ value) ≡ false
is_empty-named [] value = refl
is_empty-named (c ∷ name) value = refl

IsFree-colon : (s : Text) → all is_tchar s ≡ true → IsFree b':' s
unfolding is_tchar
IsFree-colon s h = all_imp is_tchar (λ c. not (c == b':')) (λ c. ground arith) s h

-- A line with a token before its colon and no white space after the one space behind it.
pub accept_line-named :
    (r : ResponseHead) (name value : Text)
    → all is_tchar name ≡ true
    → trim_start (b' ' ∷ value) ≡ value
    → accept_line r (name ++ lit ": " ++ value) ≡ accept_header r name value
unfolding accept_line
accept_line-named r name value token solid =
    let once : split_once (name ++ lit ": " ++ value) b':' ≡ some (name, b' ' ∷ value) =
      ap (λ l. split_once l b':') (append_assoc name (lit ": ") value)
      ∙ split_once-append b':' name (b' ' ∷ value) (IsFree-colon name token) in
    rw (is_empty-named name value, once, trim-IsSolid name (IsSolid-token name token), solid) refl

trim_start-value : (value : Text) → is_line_value value ≡ true → trim_start (b' ' ∷ value) ≡ value
unfolding trim_start is_whitespace
trim_start-value [] h = refl
trim_start-value (c ∷ s) h = ground (arith, h)

accept_line-header_text :
    (r : ResponseHead) (name value : Text)
    → is_writable (name, value) ≡ true
    → accept_line r (header_text (name, value))
      ≡ record r { headers = r.headers ++ (name, into_bytes value) ∷ [] }
unfolding header_text accept_header
accept_line-header_text r name value h =
    accept_line-named r name value (token_chars name (ground (arith, h)))
      (trim_start-value value (ground (arith, h)))
    ∙ ground (arith, h)

-- What the parser stores of a header.
abbrev pub stored : Text × Text → Text × FieldValue
stored (name, value) = (name, into_bytes value)

pub accept_lines-header_text :
    (r : ResponseHead) (headers : List (Text × Text)) (lines : List Text)
    → all is_writable headers ≡ true
    → accept_lines r (map header_text headers ++ lines)
      ≡ accept_lines (record r { headers = r.headers ++ map stored headers }) lines
unfolding accept_lines
accept_lines-header_text r [] lines h =
    ap (λ hs. accept_lines (record r { headers = hs }) lines) (sym (append-nil r.headers))
accept_lines-header_text r ((name, value) ∷ headers) lines h =
    ap (λ r'. accept_lines r' (map header_text headers ++ lines))
      (accept_line-header_text r name value (ground (arith, h)))
    ∙ accept_lines-header_text (record r { headers = r.headers ++ (name, into_bytes value) ∷ [] })
        headers lines (ground (arith, h))
    ∙ ap (λ hs. accept_lines (record r { headers = hs }) lines)
        (append_assoc r.headers ((name, into_bytes value) ∷ []) (map stored headers))
