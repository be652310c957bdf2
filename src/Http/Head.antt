-- ===== src/Http/Head.antt =====
-- src/wasi_http.rs, "Transport framing": the head of a request.
use hellohq_wasm_runtime.Prelude.{
  ℕ, Bool, not, ◌&&◌, ◌||◌, List, [], ◌∷◌, ◌++◌, Option, none, some, Result, ok, err, ◌==◌, within,
  if◌then◌else◌, all, any,
}
use hellohq_wasm_runtime.Str.{Text, lit, is_empty, eq_ignore_ascii_case, is_whitespace, is_control}
use hellohq_wasm_runtime.Str.Utf8.{into_bytes, from_utf8_lossy}
use hellohq_wasm_runtime.Http.Entries.{FieldValue}
use hellohq_wasm_runtime.Http.Data.{MethodOwned}

abbrev pub request_options_head_key : Text
request_options_head_key = lit "x-hellohq-request-options"

-- The error codes that the host returns itself.
pub data ErrorCode : Type 0 where
  http_request_method_invalid http_request_uri_invalid : ErrorCode
  internal_error : Option Text → ErrorCode

unfoldable pub method_str : MethodOwned → Text
method_str MethodOwned.get = lit "GET"
method_str MethodOwned.head = lit "HEAD"
method_str MethodOwned.post = lit "POST"
method_str MethodOwned.put = lit "PUT"
method_str MethodOwned.delete = lit "DELETE"
method_str MethodOwned.connect = lit "CONNECT"
method_str MethodOwned.options = lit "OPTIONS"
method_str MethodOwned.trace = lit "TRACE"
method_str MethodOwned.patch = lit "PATCH"
method_str (MethodOwned.other s) = s

-- The punctuation among the `tchar`s.
abbrev pub token_marks : Text
token_marks = lit "!#$%&'*+-.^_`|~"

-- One byte of a token.
unfoldable pub is_tchar : ℕ → Bool
is_tchar b =
    within b'0' b'9' b || within b'A' b'Z' b || within b'a' b'z' b || any (λ m. b == m) token_marks

unfoldable pub is_http_token : Text → Bool
unfolding is_tchar into_bytes
is_http_token s = not (is_empty s) && all is_tchar (into_bytes s)

unfoldable pub is_request_line_safe : Text → Bool
unfolding is_whitespace is_control
is_request_line_safe s = all (λ c. not (is_whitespace c) && not (is_control c)) s

-- The bytes that a header's value may not have.
abbrev pub breaks_line : ℕ → Bool
breaks_line b = b == b'\r' || b == b'\n' || b == 0

-- The header is left out of the head.
unfoldable pub is_left_out : Text × FieldValue → Bool
unfolding is_http_token eq_ignore_ascii_case
is_left_out (name, value) =
    not (is_http_token name)
    || eq_ignore_ascii_case name request_options_head_key
    || any breaks_line value

-- The loop over the headers, on the head so far.
unfoldable pub push_headers : Text → List (Text × FieldValue) → Text
unfolding is_left_out from_utf8_lossy
push_headers head [] = head
push_headers head ((name, value) ∷ headers) =
    push_headers
      (if is_left_out (name, value)
        then head
        else ((head ++ b'\n' ∷ []) ++ name) ++ lit ": " ++ from_utf8_lossy value)
      headers

abbrev pub push_line : Text → Option Text → Text
push_line head none = head
push_line head (some line) = (head ++ b'\n' ∷ []) ++ line

unfoldable pub encode_request_head :
    Text → Text → Text → Text → List (Text × FieldValue) → Option Text → Result (List ℕ) ErrorCode
unfolding is_http_token is_request_line_safe push_headers into_bytes
encode_request_head method scheme authority path headers options_line =
    if not (is_http_token method)
    then err http_request_method_invalid
    else if not (is_request_line_safe scheme)
        || not (is_request_line_safe authority)
        || not (is_request_line_safe path)
    then err http_request_uri_invalid
    else ok (
        into_bytes (
          push_line
            (push_headers (method ++ lit " " ++ scheme ++ lit "://" ++ authority ++ path) headers)
            options_line))
