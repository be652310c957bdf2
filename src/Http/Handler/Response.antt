-- ===== src/Http/Handler/Response.antt =====
-- src/wasi_http.rs, the second half of `handle_via_transport`: the caller's frames become a response.
use hellohq_wasm_runtime.Prelude.{
  ℕ, ◌^◌, true, false, List, [], ◌∷◌, ◌++◌, Option, none, some, Result, ok, err, if◌then◌else◌,
}
use hellohq_wasm_runtime.Str.{
  Text, lit, is_empty, split, split_once, trim, trim_start, eq_ignore_ascii_case,
}
use hellohq_wasm_runtime.Str.Decimal.{parse_unsigned}
use hellohq_wasm_runtime.Str.Utf8.{into_bytes, from_utf8_lossy}
use hellohq_wasm_runtime.Frames.{Bytes}
use hellohq_wasm_runtime.Http.Table
use hellohq_wasm_runtime.Http.Entries.{FieldValue, FieldsData}
use hellohq_wasm_runtime.Http.Data.{ResponseData}
use hellohq_wasm_runtime.Http.Trailers.{parse_trailers_line}
use hellohq_wasm_runtime.Http.Handler.{Await, Tasks, M, ◌>>=◌, ◌>>◌, pure, fail, internal, modify}

abbrev pub trailers_head_key : Text
trailers_head_key = lit "x-hellohq-trailers"

abbrev pub already_consumed : Text
already_consumed = lit "wasi:http handler: inbound stream already consumed"

abbrev pub closed_before_head : Text
closed_before_head = lit "wasi:http handler: caller closed inbound before sending a head"

abbrev pub malformed_status : Text
malformed_status = lit "wasi:http handler: malformed response status line "

-- `StatusCode` is a `u16`.
abbrev pub u16_mod : ℕ
u16_mod = 2 ^ 16

-- The variables of the loop over the head's lines.
pub record ResponseHead : Type 0 where
  pub status_code : ℕ
  pub headers : List (Text × FieldValue)
  pub trailers : Option (List (Text × FieldValue))

-- A line with a name and a value.
unfoldable pub accept_header : ResponseHead → Text → Text → ResponseHead
unfolding eq_ignore_ascii_case parse_trailers_line into_bytes
accept_header r name value =
    if eq_ignore_ascii_case name trailers_head_key
    then record r { trailers = some (parse_trailers_line value) }
    else record r { headers = r.headers ++ (name, into_bytes value) ∷ [] }

unfoldable pub accept_line : ResponseHead → Text → ResponseHead
unfolding accept_header split_once trim trim_start
accept_line r line = if is_empty line then r else elim (split_once line b':') [
  | none ↦ r
  | some e ↦ accept_header r (trim e.0) (trim_start e.1)
]

unfoldable pub accept_lines : ResponseHead → List Text → ResponseHead
unfolding accept_line
accept_lines r [] = r
accept_lines r (line ∷ lines) = accept_lines (accept_line r line) lines

-- The lines, of which the first is the status; the error is that line.
unfoldable pub read_lines : List Text → Result ResponseHead Text
unfolding parse_unsigned accept_lines trim
read_lines [] = err []
read_lines (status_line ∷ lines) = elim (parse_unsigned u16_mod (trim status_line)) [
  | none ↦ err status_line
  | some status ↦
      ok (accept_lines (record { status_code = status; headers = []; trailers = none }) lines)
]

unfoldable pub parse_response_head : Bytes → Result ResponseHead Text
unfolding read_lines split from_utf8_lossy
parse_response_head frame = read_lines (split (from_utf8_lossy frame) b'\n')

unfoldable pub insert_fields : FieldsData → M ℕ
insert_fields d h = (
  record h { resources = record h.resources { fields = (Table.insert h.resources.fields d).1 } },
  ok (Table.insert h.resources.fields d).0,
)

unfoldable pub insert_response : ResponseData → M ℕ
insert_response r h = (
  record h {
    resources = record h.resources { responses = (Table.insert h.resources.responses r).1 };
  },
  ok (Table.insert h.resources.responses r).0,
)

-- The trailers' resource, if the caller reported any.
unfoldable pub insert_trailers : Option (List (Text × FieldValue)) → M (Option ℕ)
unfolding insert_fields
insert_trailers none = pure none
insert_trailers (some entries) = do
  rep ← insert_fields (record { entries = entries; immutable = true })
  pure (some rep)

-- Step (3).
unfoldable pub build_response : Tasks → ResponseHead → List Bytes → M ℕ
unfolding insert_fields insert_trailers insert_response
build_response w r frames = do
  headers ← insert_fields (record { entries = r.headers; immutable = false })
  trailers_rep ← insert_trailers r.trailers
  body ← internal (w.mint_producer frames)
  trailers ← internal (w.mint_trailers trailers_rep)
  insert_response (record {
    status_code = r.status_code;
    headers = headers;
    body = some body;
    trailers = some trailers;
  })

abbrev pub head_or_fail : Tasks → Result ResponseHead Text → M ResponseHead
head_or_fail w (ok r) = pure r
head_or_fail w (err status_line) = fail (malformed_status ++ w.debug status_line)

-- Step (2): the head frame is awaited and read.
unfoldable pub receive : Tasks → Option (List Bytes) → M ℕ
unfolding parse_response_head build_response
receive w none = fail already_consumed
receive w (some []) = modify (w.meanwhile Await.response) >> fail closed_before_head
receive w (some (frame ∷ frames)) = do
  modify (w.meanwhile Await.response)
  r ← head_or_fail w (parse_response_head frame)
  build_response w r frames
