-- ===== src/Tests/Wire.antt =====
-- Examples for the `wasi:http` host.
use hellohq_wasm_runtime.Prelude.{
  ℕ, true, false, List, [], ◌∷◌, ◌++◌, map, none, ok, err, ◌==◌, if◌then◌else◌, ◌≡◌, refl,
}
use hellohq_wasm_runtime.Str.{Text, lit, split, is_whitespace, is_control}
use hellohq_wasm_runtime.Str.Utf8.{into_bytes}
use hellohq_wasm_runtime.Str.Join.{EachFree}
use hellohq_wasm_runtime.Http.Entries.{FieldValue}
use hellohq_wasm_runtime.Http.Head.{
  is_tchar, is_http_token, is_request_line_safe, encode_request_head,
}
use hellohq_wasm_runtime.Http.Lines.{
  request_line, header_lines, options_lines, encode_request_head-lines,
}
use hellohq_wasm_runtime.Http.Trailers.{
  parse_trailers_line, trailer_part, format_request_trailers_value,
}
use hellohq_wasm_runtime.Http.RoundTrip.{token_entries, parse_trailers_line-format}
use hellohq_wasm_runtime.Http.Table
use hellohq_wasm_runtime.Http.Table.{table_laws}
use hellohq_wasm_runtime.Http.Fields
use hellohq_wasm_runtime.Http.Fields.{immutable}
use hellohq_wasm_runtime.Http.Data.{Host, new_host, Method}
use hellohq_wasm_runtime.Http.Message
use hellohq_wasm_runtime.Http.Message.{map_or}
use hellohq_wasm_runtime.Http.View.{
  view, Attribute, with_attribute, set_attribute, has_request, set_attribute_refines,
  get_headers_frozen,
}
use hellohq_wasm_runtime.Http.Multimap.{
  append, perform, updated, reply, is_mutable, perform_refines,
}

-- A header that is sent and one whose value would start a line of its own.
abbrev two_headers : List (Text × FieldValue)
two_headers = (lit "accept", lit "*/*") ∷ (lit "x", b'\n' ∷ []) ∷ []

encode_request_head-lines_example :
    (head : List ℕ) × (encode_request_head
        (lit "GET")
        (lit "https")
        (lit "a.b")
        (lit "/")
        two_headers
        none
      ≡ ok head)
    × (split head b'\n'
        ≡ map into_bytes (
            request_line (lit "GET") (lit "https") (lit "a.b") (lit "/") ∷ header_lines two_headers
            ++ options_lines none))
unfolding is_http_token is_tchar into_bytes is_request_line_safe is_whitespace is_control EachFree
    options_lines
encode_request_head-lines_example =
    encode_request_head-lines (lit "GET") (lit "https") (lit "a.b") (lit "/") two_headers none refl
      refl refl refl tt

-- A trailer that is sent and one whose name is no token.
abbrev two_trailers : List (Text × FieldValue)
two_trailers = (lit "x-sum", 0xab ∷ []) ∷ (lit "a=b", []) ∷ []

parse_trailers_line-format_example :
    parse_trailers_line (lit "x-sum=ab") ≡ token_entries two_trailers
unfolding format_request_trailers_value is_http_token trailer_part
parse_trailers_line-format_example =
    parse_trailers_line-format two_trailers (lit "x-sum=ab") refl refl

-- A host with one `fields`.
abbrev one_host : Host
one_host = (Fields.new new_host).0

one_host-mutable : is_mutable one_host 1 ≡ true
unfolding is_mutable Fields.new
one_host-mutable = rw (Fields.read, Table.get-insert, Table.next-default) refl

new_host-missing : is_mutable new_host 1 ≡ false
unfolding is_mutable
new_host-missing = rw (Fields.read, Table.get-default) refl

perform_refines_example :
    (Fields.get (perform (append (lit "a") (1 ∷ [])) one_host 1).0 1 (lit "A") ≡ (
      if 1 == 1
      then updated (append (lit "a") (1 ∷ [])) (Fields.get one_host 1) (lit "A")
      else Fields.get one_host 1 (lit "A")))
    × ((perform (append (lit "a") (1 ∷ [])) one_host 1).1
        ≡ ok (reply (append (lit "a") (1 ∷ [])) (Fields.get one_host 1)))
perform_refines_example =
    perform_refines (append (lit "a") (1 ∷ [])) one_host 1 1 (lit "A") one_host-mutable

-- A host with one request.
abbrev asking : Host
asking = (Message.new_request new_host 1 none (record { future = 0 }) none).0

asking-has : has_request asking 1 ≡ true
unfolding has_request Message.new_request
asking-has = rw (map_or, Table.get-insert, Table.next-default) refl

new_host-has : has_request new_host 1 ≡ false
unfolding has_request
new_host-has = rw (map_or, Table.get-default) refl

set_attribute_refines_example :
    (view (set_attribute (Attribute.method Method.post) asking 1).0 1 ≡ (
      if 1 == 1
      then with_attribute (Attribute.method Method.post) (view asking 1)
      else view asking 1))
    × ((set_attribute (Attribute.method Method.post) asking 1).1 ≡ ok tt)
set_attribute_refines_example =
    set_attribute_refines (Attribute.method Method.post) asking 1 1 asking-has

get_headers_frozen_example :
    (perform (append (lit "a") []) (Message.get_headers asking 1).0 (Message.get_headers asking 1).1
      ≡ ((Message.get_headers asking 1).0, err immutable))
    × (Fields.get (Message.get_headers asking 1).0 1 (lit "a") ≡ Fields.get asking 1 (lit "a"))
get_headers_frozen_example = get_headers_frozen (append (lit "a") []) asking 1 1 (lit "a")
