-- ===== src/Http/Lines.antt =====
-- src/wasi_http.rs, `encode_request_head`: the lines that the head splits into.
use hellohq_wasm_runtime.Prelude.{
  ℕ, ◌≤◌, true, false, not, List, [], ◌∷◌, ◌++◌, map, keep, all, all_imp, any, all-append, Option,
  none, some, ok, ◌==◌, ◌≡◌, refl, sym, ap, ◌∙◌, arith, Bool-cases, inl, inr, append_assoc,
  append-nil,
}
use hellohq_wasm_runtime.Str.{Text, lit, split, is_whitespace, is_control}
use hellohq_wasm_runtime.Str.Split.{IsFree}
use hellohq_wasm_runtime.Str.Join.{joined, joined-append, EachFree, EachFree-append, split-joined}
use hellohq_wasm_runtime.Str.Utf8.{
  into_bytes, from_utf8_lossy, from_utf8_lossy-IsFree, all-into_bytes, into_bytes-append,
}
use hellohq_wasm_runtime.Http.Entries.{FieldValue}
use hellohq_wasm_runtime.Http.Head.{
  is_tchar, is_http_token, is_request_line_safe, breaks_line, is_left_out, push_headers, push_line,
  encode_request_head,
}

into_bytes-joined :
    (l : Text) (ms : List Text)
    → into_bytes (joined b'\n' l ms) ≡ joined b'\n' (into_bytes l) (map into_bytes ms)
unfolding joined into_bytes
into_bytes-joined l [] = refl
into_bytes-joined l (m ∷ ms) =
    into_bytes-append l (b'\n' ∷ joined b'\n' m ms)
    ∙ ap (λ r. into_bytes l ++ b'\n' ∷ r) (into_bytes-joined m ms)

-- The lines of a request.
unfoldable pub request_line : Text → Text → Text → Text → Text
request_line method scheme authority path =
    method ++ lit " " ++ scheme ++ lit "://" ++ authority ++ path

unfoldable pub header_line : Text × FieldValue → Text
header_line (name, value) = name ++ lit ": " ++ from_utf8_lossy value

unfoldable pub header_lines : List (Text × FieldValue) → List Text
unfolding header_line is_left_out
header_lines headers = map header_line (keep (λ h. not (is_left_out h)) headers)

unfoldable pub options_lines : Option Text → List Text
options_lines none = []
options_lines (some line) = line ∷ []

push_headers_lem :
    (l : Text) (ms : List Text) (hs : List (Text × FieldValue))
    → push_headers (joined b'\n' l ms) hs ≡ joined b'\n' l (ms ++ header_lines hs)
unfolding push_headers header_lines header_line
push_headers_lem l ms [] = ap (joined b'\n' l) (sym (append-nil ms))
push_headers_lem l ms ((name, value) ∷ hs) = elim (Bool-cases (is_left_out (name, value))) [
  | inl out ↦ rw out (push_headers_lem l ms hs)
  | inr out ↦
      let line : Text = header_line (name, value) in
      let pushed : ((joined b'\n' l ms ++ b'\n' ∷ []) ++ name) ++ lit ": " ++ from_utf8_lossy value
          ≡ joined b'\n' l (ms ++ line ∷ []) =
        (simp append_assoc) ∙ joined-append b'\n' l ms line in
      rw out (
        ap (λ t. push_headers t hs) pushed
        ∙ push_headers_lem l (ms ++ line ∷ []) hs
        ∙ ap (joined b'\n' l) (append_assoc ms (line ∷ []) (header_lines hs)))
]

high_bytes : (b : ℕ) → 0x80 ≤ b → is_tchar b ≡ false
unfolding is_tchar
high_bytes b h = ground (arith, h)

pub token_chars : (s : Text) → is_http_token s ≡ true → all is_tchar s ≡ true
unfolding is_http_token
token_chars s t =
    let bytes : all is_tchar (into_bytes s) ≡ true = ground (arith, t) in
    all_imp _ is_tchar (λ c. ground arith) s
      (sym (all-into_bytes is_tchar false high_bytes s) ∙ bytes)

pub token_IsFree : (s : Text) → is_http_token s ≡ true → IsFree b'\n' s
unfolding is_tchar
token_IsFree s t = all_imp is_tchar (λ c. not (c == b'\n')) (λ c. ground arith) s (token_chars s t)

safe_IsFree : (s : Text) → is_request_line_safe s ≡ true → IsFree b'\n' s
unfolding is_request_line_safe is_whitespace is_control
safe_IsFree s h = all_imp _ (λ c. not (c == b'\n')) (λ c. ground arith) s h

value_IsFree : (v : FieldValue) → any breaks_line v ≡ false → IsFree b'\n' v
value_IsFree [] h = refl
value_IsFree (b ∷ v) h = ground (arith, value_IsFree v, h)

header_line-IsFree :
    (name : Text) (value : FieldValue)
    → is_left_out (name, value) ≡ false
    → IsFree b'\n' (header_line (name, value))
unfolding header_line is_left_out
header_line-IsFree name value out = simp (
  all-append,
  token_IsFree name (ground (arith, out)),
  from_utf8_lossy-IsFree b'\n' value (omega arith) (value_IsFree value (ground (arith, out))),
)

header_lines-EachFree : (hs : List (Text × FieldValue)) → EachFree b'\n' (header_lines hs)
unfolding header_lines header_line EachFree is_left_out
header_lines-EachFree [] = tt
header_lines-EachFree ((name, value) ∷ hs) = elim (Bool-cases (is_left_out (name, value))) [
  | inl out ↦ rw out (header_lines-EachFree hs)
  | inr out ↦ rw out (header_line-IsFree name value out, header_lines-EachFree hs)
]

request_line-IsFree :
    (m s a p : Text)
    → is_http_token m ≡ true
    → is_request_line_safe s ≡ true
    → is_request_line_safe a ≡ true
    → is_request_line_safe p ≡ true
    → IsFree b'\n' (request_line m s a p)
unfolding request_line
request_line-IsFree m s a p hm hs ha hp =
    simp (all-append, token_IsFree m hm, safe_IsFree s hs, safe_IsFree a ha, safe_IsFree p hp)

IsFree-into_bytes : (s : Text) → IsFree b'\n' s → IsFree b'\n' (into_bytes s)
IsFree-into_bytes s h =
    all-into_bytes (λ b. not (b == b'\n')) true (λ b l. ground (arith, l)) s
    ∙ all_imp _ _ (λ c. ground arith) s h

EachFree-into_bytes : (ls : List Text) → EachFree b'\n' ls → EachFree b'\n' (map into_bytes ls)
unfolding EachFree
EachFree-into_bytes [] h = tt
EachFree-into_bytes (l ∷ ls) (h, hs) = (IsFree-into_bytes l h, EachFree-into_bytes ls hs)

push_line-joined :
    (l : Text) (ms : List Text) (line : Option Text)
    → push_line (joined b'\n' l ms) line ≡ joined b'\n' l (ms ++ options_lines line)
unfolding options_lines
push_line-joined l ms none = ap (joined b'\n' l) (sym (append-nil ms))
push_line-joined l ms (some line) = joined-append b'\n' l ms line

encode_request_head-joined :
    (method scheme authority path : Text) (headers : List (Text × FieldValue)) (line : Option Text)
    → is_http_token method ≡ true
    → is_request_line_safe scheme ≡ true
    → is_request_line_safe authority ≡ true
    → is_request_line_safe path ≡ true
    → encode_request_head method scheme authority path headers line
      ≡ ok (
          into_bytes (
            joined b'\n'
              (request_line method scheme authority path)
              (header_lines headers ++ options_lines line)))
unfolding encode_request_head request_line joined
encode_request_head-joined m s a p headers line hm hs ha hp =
    rw (hm, hs, ha, hp)
      (ap (λ t. ok (into_bytes t))
        (ap (λ t. push_line t line) (push_headers_lem (request_line m s a p) [] headers)
          ∙ push_line-joined (request_line m s a p) (header_lines headers) line))

-- With a token as method and a scheme, authority and path without spaces and control characters, the
-- head splits at the newlines into exactly the request line, one line for each header that is not
-- left out, in order, and the options line, if there is one without a newline.
pub encode_request_head-lines :
    (method scheme authority path : Text) (headers : List (Text × FieldValue)) (line : Option Text)
    → is_http_token method ≡ true
    → is_request_line_safe scheme ≡ true
    → is_request_line_safe authority ≡ true
    → is_request_line_safe path ≡ true
    → EachFree b'\n' (options_lines line)
    → (head : List ℕ) × (encode_request_head method scheme authority path headers line ≡ ok head)
      × (split head b'\n'
          ≡ map into_bytes (
              request_line method scheme authority path ∷ header_lines headers
              ++ options_lines line))
encode_request_head-lines m s a p headers line hm hs ha hp free =
    let ls : List Text = header_lines headers ++ options_lines line in
    (
      into_bytes (joined b'\n' (request_line m s a p) ls),
      encode_request_head-joined m s a p headers line hm hs ha hp,
      rw (into_bytes-joined (request_line m s a p) ls) (
          split-joined b'\n' (into_bytes (request_line m s a p)) (map into_bytes ls)
            (IsFree-into_bytes _ (request_line-IsFree m s a p hm hs ha hp))
            (EachFree-into_bytes ls
              (EachFree-append b'\n' _ _ (header_lines-EachFree headers) free))),
    )
