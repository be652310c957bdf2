-- ===== src/Http/RoundTrip.antt =====
-- src/wasi_http.rs: the trailers line that `format_request_trailers_value` writes, read by
-- `parse_trailers_line`.
use hellohq_wasm_runtime.Prelude.{
  ℕ, Bool, true, false, not, ◌&&◌, ◌||◌, List, [], ◌∷◌, map, keep, all, all_imp, all-append, none,
  some, ◌==◌, within, within_iff, ◌≡◌, ◌↔◌, refl, sym, ap, ◌∙◌, arith, append_assoc,
}
use hellohq_wasm_runtime.Str.{
  Text, lit, is_empty, split, split_once, is_whitespace, lower, to_ascii_lowercase,
}
use hellohq_wasm_runtime.Str.Trim.{IsSolid, trim-IsSolid}
use hellohq_wasm_runtime.Str.Split.{IsFree, split_once-append}
use hellohq_wasm_runtime.Str.Join.{joined, join, EachFree, split-joined}
use hellohq_wasm_runtime.Http.Entries.{FieldValue}
use hellohq_wasm_runtime.Http.Head.{is_tchar, is_http_token}
use hellohq_wasm_runtime.Http.Lines.{token_chars}
use hellohq_wasm_runtime.Http.Hex.{hex_digit, hex_encode, hex_decode, hex_decode_iff, is_byte}
use hellohq_wasm_runtime.Http.Trailers.{
  cons_some, join_some, parse_pair, parse_pairs, parse_trailers_line, trailer_part,
  format_request_trailers_value,
}

-- A character that a part may have: one of a token or the `=`.
abbrev pub is_part_char : ℕ → Bool
is_part_char c = is_tchar c || c == b'='

hex_encode-part : (bs : List ℕ) → all is_byte bs ≡ true → all is_tchar (hex_encode bs) ≡ true
unfolding hex_encode hex_digit is_tchar
hex_encode-part [] h = refl
hex_encode-part (b ∷ bs) h = ground (arith, h, hex_encode-part bs)

hex_encode-lower :
    (bs : List ℕ) → all is_byte bs ≡ true → to_ascii_lowercase (hex_encode bs) ≡ hex_encode bs
unfolding hex_encode hex_digit to_ascii_lowercase lower
hex_encode-lower [] h = refl
hex_encode-lower (b ∷ bs) h = ground (arith, h, hex_encode-lower bs)

hex_decode-hex_encode : (bs : List ℕ) → all is_byte bs ≡ true → hex_decode (hex_encode bs) ≡ some bs
hex_decode-hex_encode bs h = (hex_decode_iff (hex_encode bs) bs).1 (hex_encode-lower bs h, h)

pub part_char-visible : (c : ℕ) → is_part_char c ≡ true → within 0x21 0x7e c ≡ true
unfolding is_tchar
part_char-visible c h = ground (arith, h)

pub is_whitespace-visible : (c : ℕ) → within 0x21 0x7e c ≡ true → not (is_whitespace c) ≡ true
unfolding is_whitespace
is_whitespace-visible c h = let (lo, hi) = (within_iff 0x21 0x7e c).0 h in ground (arith, lo, hi)

pub IsSolid-part : (s : Text) → all is_part_char s ≡ true → IsSolid s
IsSolid-part s h =
    all_imp is_part_char (λ c. not (is_whitespace c))
      (λ c p. is_whitespace-visible c (part_char-visible c p)) s h

part_of_token : (s : Text) → all is_tchar s ≡ true → all is_part_char s ≡ true
part_of_token s h = all_imp is_tchar is_part_char (λ c. ground arith) s h

pub IsSolid-token : (s : Text) → all is_tchar s ≡ true → IsSolid s
IsSolid-token s h = IsSolid-part s (part_of_token s h)

IsFree-equals : (s : Text) → all is_tchar s ≡ true → IsFree b'=' s
unfolding is_tchar
IsFree-equals s h = all_imp is_tchar (λ c. not (c == b'=')) (λ c. ground arith) s h

IsFree-semicolon : (s : Text) → all is_part_char s ≡ true → IsFree b';' s
unfolding is_tchar
IsFree-semicolon s h = all_imp is_part_char (λ c. not (c == b';')) (λ c. ground arith) s h

-- An entry that the formatter writes, with bytes as its value.
abbrev pub is_plain : Text × FieldValue → Bool
is_plain e = is_http_token e.0 && all is_byte e.1

pub trailer_part-chars :
    (name : Text) (value : FieldValue)
    → is_plain (name, value) ≡ true
    → all is_part_char (trailer_part (name, value)) ≡ true
unfolding trailer_part is_tchar
trailer_part-chars name value h = simp (
  all-append,
  part_of_token name (token_chars name (ground (arith, h))),
  part_of_token (hex_encode value) (hex_encode-part value (ground (arith, h))),
)

is_empty-trailer_part : (e : Text × FieldValue) → is_empty (trailer_part e) ≡ false
unfolding trailer_part
is_empty-trailer_part ([], value) = refl
is_empty-trailer_part (c ∷ name, value) = refl

split_once-trailer_part :
    (name : Text) (value : FieldValue)
    → all is_tchar name ≡ true
    → split_once (trailer_part (name, value)) b'=' ≡ some (name, hex_encode value)
unfolding trailer_part
split_once-trailer_part name value token =
    ap (λ t. split_once t b'=') (append_assoc name (lit "=") (hex_encode value))
    ∙ split_once-append b'=' name (hex_encode value) (IsFree-equals name token)

parse_pair-trailer_part :
    (name : Text) (value : FieldValue)
    → is_plain (name, value) ≡ true
    → parse_pair (trailer_part (name, value)) ≡ some (name, value)
unfolding parse_pair
parse_pair-trailer_part name value h =
    let token : all is_tchar name ≡ true = token_chars name (ground (arith, h)) in
    let bytes : all is_byte value ≡ true = ground (arith, h) in
    rw
      (
        trim-IsSolid (trailer_part (name, value))
            (IsSolid-part _ (trailer_part-chars name value h)),
        is_empty-trailer_part (name, value),
        split_once-trailer_part name value token,
        trim-IsSolid (hex_encode value) (IsSolid-token _ (hex_encode-part value bytes)),
        hex_decode-hex_encode value bytes,
        trim-IsSolid name (IsSolid-token name token),
      )
      refl

pub parse_pairs-trailer_part :
    (es : List (Text × FieldValue))
    → all is_plain es ≡ true
    → parse_pairs (map trailer_part es) ≡ es
unfolding parse_pairs cons_some
parse_pairs-trailer_part [] h = refl
parse_pairs-trailer_part ((name, value) ∷ es) h =
    rw
      (
        parse_pair-trailer_part name value (ground (arith, h)),
        parse_pairs-trailer_part es (ground (arith, h)),
      )
      refl

pub trailer_part-EachFree :
    (es : List (Text × FieldValue)) → all is_plain es ≡ true → EachFree b';' (map trailer_part es)
unfolding EachFree
trailer_part-EachFree [] h = tt
trailer_part-EachFree ((name, value) ∷ es) h = (
  IsFree-semicolon _ (trailer_part-chars name value (ground (arith, h))),
  trailer_part-EachFree es (ground (arith, h)),
)

-- What the sender keeps.
abbrev pub token_entries : List (Text × FieldValue) → List (Text × FieldValue)
token_entries entries = keep (λ e. is_http_token e.0) entries

plain_entries :
    (entries : List (Text × FieldValue))
    → all (λ e. all is_byte e.1) entries ≡ true
    → all is_plain (token_entries entries) ≡ true
plain_entries [] h = refl
plain_entries (e ∷ entries) h = ground (arith, h, plain_entries entries)

joined_entries :
    (es : List (Text × FieldValue)) (line : Text)
    → all is_plain es ≡ true
    → join_some b';' (map trailer_part es) ≡ some line
    → parse_trailers_line line ≡ es
unfolding parse_trailers_line join EachFree
joined_entries [] line h e = ground (arith, e)
joined_entries (x ∷ es) line h e =
    let (first, rest) = trailer_part-EachFree (x ∷ es) h in
    let same : joined b';' (trailer_part x) (map trailer_part es) ≡ line = ground (arith, e) in
    ap (λ l. parse_pairs (split l b';')) (sym same)
    ∙ ap parse_pairs (split-joined b';' _ _ first rest)
    ∙ parse_pairs-trailer_part (x ∷ es) h

-- The line that is written for trailers whose values are bytes reads back as those with a token as
-- name, in order.
pub parse_trailers_line-format :
    (entries : List (Text × FieldValue)) (line : Text)
    → all (λ e. all is_byte e.1) entries ≡ true
    → format_request_trailers_value entries ≡ some line
    → parse_trailers_line line ≡ token_entries entries
unfolding format_request_trailers_value
parse_trailers_line-format entries line h e =
    joined_entries (token_entries entries) line (plain_entries entries h) e

joined-none :
    (es : List (Text × FieldValue)) → (join_some b';' (map trailer_part es) ≡ none) ↔ (es ≡ [])
joined-none [] = ground arith
joined-none (e ∷ es) = ground arith

-- No line is written exactly if no trailer has a token as its name.
pub format_request_trailers_value-eq-none_iff :
    (entries : List (Text × FieldValue))
    → (format_request_trailers_value entries ≡ none) ↔ (token_entries entries ≡ [])
unfolding format_request_trailers_value
format_request_trailers_value-eq-none_iff entries = joined-none (token_entries entries)
