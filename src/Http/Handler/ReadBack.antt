-- ===== src/Http/Handler/ReadBack.antt =====
-- src/wasi_http.rs, `handle_via_transport`: a response head that the caller writes reads back.
use hellohq_wasm_runtime.Prelude.{
  ℕ, ◌<◌, Bool, true, not, ◌&&◌, List, [], ◌∷◌, ◌++◌, map, all, all_imp, all-append, Option, none,
  some, ok, ◌==◌, within, ◌≡◌, refl, ap, ◌∙◌, arith,
}
use hellohq_wasm_runtime.Str.{Text, lit, split, trim, trim_start, trim_end, is_whitespace}
use hellohq_wasm_runtime.Str.Trim.{IsSolid, trim-IsSolid, trim_start-IsSolid}
use hellohq_wasm_runtime.Str.Split.{IsFree}
use hellohq_wasm_runtime.Str.Join.{
  joined, join, all-joined, EachFree, EachFree-of_all, split-joined,
}
use hellohq_wasm_runtime.Str.Decimal.{
  to_decimal, is_digit, to_decimal-all, parse_unsigned-to_decimal,
}
use hellohq_wasm_runtime.Str.Utf8.{
  into_bytes, from_utf8_lossy, is_scalar, from_utf8_lossy-into_bytes,
}
use hellohq_wasm_runtime.Http.Entries.{FieldValue}
use hellohq_wasm_runtime.Http.Head.{is_tchar}
use hellohq_wasm_runtime.Http.Lines.{token_chars}
use hellohq_wasm_runtime.Http.RoundTrip.{
  is_plain, is_part_char, part_char-visible, is_whitespace-visible, trailer_part-chars,
  parse_pairs-trailer_part, trailer_part-EachFree,
}
use hellohq_wasm_runtime.Http.Trailers.{trailer_part, parse_pair, parse_pairs, parse_trailers_line}
use hellohq_wasm_runtime.Http.Handler.Response.{
  trailers_head_key, u16_mod, ResponseHead, accept_header, accept_lines, read_lines,
  parse_response_head,
}
use hellohq_wasm_runtime.Http.Handler.Answer.{
  header_text, trailers_text, response_text, is_line_value, is_writable, accept_line-named, stored,
  accept_lines-header_text,
}

-- The trailers of the reserved line have a token as name and bytes as value.
abbrev pub are_plain : Option (List (Text × FieldValue)) → Bool
are_plain none = true
are_plain (some entries) = all is_plain entries

parts-part_char :
    (es : List (Text × FieldValue))
    → all is_plain es ≡ true
    → all (all is_part_char) (map trailer_part es) ≡ true
parts-part_char [] h = refl
parts-part_char ((name, value) ∷ es) h =
    ground (arith, h, trailer_part-chars name value, parts-part_char es)

-- A character of the reserved line: visible, so in a line and not trimmed.
is_visible : ℕ → Bool
is_visible c = within 0x21 0x7e c

join-visible :
    (es : List (Text × FieldValue))
    → all is_plain es ≡ true
    → all is_visible (join b';' (map trailer_part es)) ≡ true
unfolding join is_visible
join-visible [] h = refl
join-visible (e ∷ es) h =
    let parts : all (all is_part_char) (map trailer_part (e ∷ es)) ≡ true =
      parts-part_char (e ∷ es) h in
    let visible : (s : Text) → all is_part_char s ≡ true → all is_visible s ≡ true =
      λ s. all_imp is_part_char is_visible part_char-visible s in
    let seen : all (all is_visible) (map trailer_part (e ∷ es)) ≡ true =
      all_imp (all is_part_char) (all is_visible) visible (map trailer_part (e ∷ es)) parts in
    all-joined is_visible b';' (trailer_part e) (map trailer_part es) refl (ground (arith, seen))
      (ground (arith, seen))

parse_trailers_line-join :
    (es : List (Text × FieldValue))
    → all is_plain es ≡ true
    → parse_trailers_line (join b';' (map trailer_part es)) ≡ es
unfolding parse_trailers_line join EachFree split parse_pairs parse_pair trim trim_start trim_end
parse_trailers_line-join [] h = refl
parse_trailers_line-join (e ∷ es) h =
    let (first, rest) = trailer_part-EachFree (e ∷ es) h in
    ap parse_pairs (split-joined b';' _ _ first rest) ∙ parse_pairs-trailer_part (e ∷ es) h

-- A character of a line: a scalar value that does not end it.
is_line_char : ℕ → Bool
is_line_char c = is_scalar c && not (c == b'\n')

line_of_visible : (s : Text) → all is_visible s ≡ true → all is_line_char s ≡ true
unfolding is_visible is_line_char
line_of_visible s h = all_imp is_visible is_line_char (λ c. ground arith) s h

line_of_token : (s : Text) → all is_tchar s ≡ true → all is_line_char s ≡ true
unfolding is_visible
line_of_token s h =
    line_of_visible s
      (all_imp is_tchar is_visible (λ c t. part_char-visible c (ground (arith, t))) s h)

all_both :
    (s : Text)
    → all (λ d. not (d == b'\n')) s ≡ true
    → all is_scalar s ≡ true
    → all is_line_char s ≡ true
unfolding is_line_char
all_both [] h v = refl
all_both (c ∷ s) h v = ground (arith, all_both s, h, v)

line_of_value :
    (s : Text) → is_line_value s ≡ true → all is_scalar s ≡ true → all is_line_char s ≡ true
unfolding is_whitespace
line_of_value [] h v = refl
line_of_value (c ∷ s) h v = all_both (c ∷ s) (ground (arith, h)) v

line_of_header_text :
    (headers : List (Text × Text))
    → all is_writable headers ≡ true
    → all (all is_line_char) (map header_text headers) ≡ true
unfolding header_text is_line_char
line_of_header_text [] h = refl
line_of_header_text ((name, value) ∷ headers) h =
    let named : all is_line_char name ≡ true =
      line_of_token name (token_chars name (ground (arith, h))) in
    let valued : all is_line_char value ≡ true =
      line_of_value value (ground (arith, h)) (ground (arith, h)) in
    let text : all is_line_char (name ++ lit ": " ++ value) ≡ true =
      simp (all-append, named, valued) in
    ground (arith, text, line_of_header_text headers (ground (arith, h)))

line_of_trailers_text :
    (trailers : Option (List (Text × FieldValue)))
    → are_plain trailers ≡ true
    → all (all is_line_char) (trailers_text trailers) ≡ true
unfolding trailers_text is_line_char
line_of_trailers_text none h = refl
line_of_trailers_text (some es) h = simp (line_of_visible _ (join-visible es h))

key_chars : all is_tchar trailers_head_key ≡ true
unfolding is_tchar
key_chars = refl

trim_start-visible : (s : Text) → all is_visible s ≡ true → trim_start (b' ' ∷ s) ≡ s
unfolding trim_start is_whitespace is_visible
trim_start-visible s h =
    trim_start-IsSolid s (all_imp is_visible (λ c. not (is_whitespace c)) is_whitespace-visible s h)

accept_lines-trailers_text :
    (r : ResponseHead) (trailers : Option (List (Text × FieldValue)))
    → r.trailers ≡ none
    → are_plain trailers ≡ true
    → accept_lines r (trailers_text trailers) ≡ record r { trailers = trailers }
unfolding accept_lines trailers_text accept_header
accept_lines-trailers_text r none e h = ap (λ ts. record r { trailers = ts }) e
accept_lines-trailers_text r (some es) e h =
    accept_line-named r trailers_head_key (join b';' (map trailer_part es)) key_chars
      (trim_start-visible (join b';' (map trailer_part es)) (join-visible es h))
    ∙ ap (λ ts. record r { trailers = some ts }) (parse_trailers_line-join es h)

response_text-joined :
    (status : ℕ) (headers : List (Text × Text)) (trailers : Option (List (Text × FieldValue)))
    → response_text status headers trailers
      ≡ joined b'\n' (to_decimal status) (map header_text headers ++ trailers_text trailers)
unfolding response_text
response_text-joined status headers trailers = refl

line_of_decimal : (n : ℕ) → all is_line_char (to_decimal n) ≡ true
unfolding is_line_char
line_of_decimal n =
    all_imp is_digit is_line_char (λ c. ground arith) (to_decimal n) (to_decimal-all n)

IsSolid-decimal : (n : ℕ) → IsSolid (to_decimal n)
unfolding is_whitespace
IsSolid-decimal n =
    all_imp is_digit (λ c. not (is_whitespace c)) (λ c. ground arith) (to_decimal n)
      (to_decimal-all n)

-- A text of lines of line characters.
split-lines :
    (l : Text) (ls : List Text)
    → all is_line_char l ≡ true
    → all (all is_line_char) ls ≡ true
    → split (from_utf8_lossy (into_bytes (joined b'\n' l ls))) b'\n' ≡ l ∷ ls
unfolding is_line_char
split-lines l ls h hs =
    let free : (s : Text) → all is_line_char s ≡ true → IsFree b'\n' s =
      λ s. all_imp is_line_char (λ c. not (c == b'\n')) (λ c. ground arith) s in
    let scalar : (s : Text) → all is_line_char s ≡ true → all is_scalar s ≡ true =
      λ s. all_imp is_line_char is_scalar (λ c. ground arith) s in
    let scalars : all (all is_scalar) ls ≡ true =
      all_imp (all is_line_char) (all is_scalar) scalar ls hs in
    ap (λ s. split s b'\n')
      (from_utf8_lossy-into_bytes _ (all-joined is_scalar b'\n' l ls refl (scalar l h) scalars))
    ∙ split-joined b'\n' l ls (free l h) (EachFree-of_all is_line_char b'\n' ls free hs)

read_lines-lines :
    (status : ℕ) (headers : List (Text × Text)) (trailers : Option (List (Text × FieldValue)))
    → status < u16_mod
    → all is_writable headers ≡ true
    → are_plain trailers ≡ true
    → read_lines (to_decimal status ∷ map header_text headers ++ trailers_text trailers)
      ≡ ok (record { status_code = status; headers = map stored headers; trailers = trailers })
unfolding read_lines
read_lines-lines status headers trailers hs hh ht =
    let r : ResponseHead = record { status_code = status; headers = []; trailers = none } in
    rw
      (
        read_lines,
        trim-IsSolid (to_decimal status) (IsSolid-decimal status),
        parse_unsigned-to_decimal u16_mod status hs,
      )
      (ap ok (
        accept_lines-header_text r headers (trailers_text trailers) hh
        ∙ accept_lines-trailers_text (record r { headers = map stored headers }) trailers refl ht))

-- The head that a caller writes for a response reads back as its status, its headers and its
-- trailers: a status below 65536, headers with a token other than the reserved one as name and a
-- value in one line that starts with no white space, and trailers with a token as name and bytes as
-- value.
pub parse_response_head-response_text :
    (status : ℕ) (headers : List (Text × Text)) (trailers : Option (List (Text × FieldValue)))
    → status < u16_mod
    → all is_writable headers ≡ true
    → are_plain trailers ≡ true
    → parse_response_head (into_bytes (response_text status headers trailers))
      ≡ ok (record { status_code = status; headers = map stored headers; trailers = trailers })
unfolding parse_response_head
parse_response_head-response_text status headers trailers hs hh ht =
    let lines : List Text = map header_text headers ++ trailers_text trailers in
    let each : all (all is_line_char) lines ≡ true =
      all-append (all is_line_char) (map header_text headers) (trailers_text trailers)
      ∙ ground (arith, line_of_header_text headers hh, line_of_trailers_text trailers ht) in
    ap (λ s. read_lines (split (from_utf8_lossy (into_bytes s)) b'\n'))
      (response_text-joined status headers trailers)
    ∙ ap read_lines (split-lines (to_decimal status) lines (line_of_decimal status) each)
    ∙ read_lines-lines status headers trailers hs hh ht
