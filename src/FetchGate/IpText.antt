-- ===== src/FetchGate/IpText.antt =====
-- `IpAddr::from_str` of `std::net`, which src/fetch_gate.rs calls as `host.parse::<IpAddr>()`: the
-- standard library's parser. A reader returns what it read and the text left, or none and moves
-- nothing.
use hellohq_wasm_runtime.Prelude.{
  ℕ, zero, suc, ◌+◌, ◌-◌, ◌*◌, Bool, true, false, not, ◌&&◌, List, [], ◌∷◌, ◌++◌, Option, none,
  some, ◌==◌, ltb, within, if◌then◌else◌, length, get_or, replicate,
}
use hellohq_wasm_runtime.Str.{Text, is_empty}
use hellohq_wasm_runtime.FetchGate.Address.{Ipv4Addr, Ipv6Addr, IpAddr, v4, v6}

abbrev pub Reader : Type 0 → Type 0
Reader A = Text → Option (A × Text)

infixl 5 ◌>>=◌
abbrev ◌>>=◌ : {A B : Type 0} → Option A → (A → Option B) → Option B
none >>= f = none
some a >>= f = f a

-- `char::to_digit` at radix 10 or 16
unfoldable pub to_digit : ℕ → ℕ → Option ℕ
to_digit radix c =
    if within b'0' b'9' c
    then (if ltb (c - b'0') radix then some (c - b'0') else none)
    else if radix == 16 && within b'a' b'f' c
    then some (c - b'a' + 10)
    else if radix == 16 && within b'A' b'F' c
    then some (c - b'A' + 10)
    else none

-- The digits at the front, at most `room` of them: their value on top of `acc`, how many, and the
-- rest. None if there are more, or if the value leaves the type, whose values are below `bound`.
read_digits : ℕ → ℕ → ℕ → ℕ → ℕ → Text → Option (ℕ × ℕ × Text)
read_digits radix bound room acc count [] = some (acc, count, [])
read_digits radix bound room acc count (c ∷ s) = elim (to_digit radix c) [
  | none ↦ some (acc, count, c ∷ s)
  | some d ↦ elim (ltb (acc * radix + d) bound && ltb count room) [
    | true ↦ read_digits radix bound room (acc * radix + d) (count + 1) s
    | false ↦ none
  ]
]

starts_zero : Text → Bool
starts_zero [] = false
starts_zero (c ∷ s) = c == b'0'

-- `read_number(radix, Some(room), allow_zero_prefix)` into a type of values below `bound`
unfoldable pub read_number : ℕ → ℕ → ℕ → Bool → Reader ℕ
unfolding read_digits starts_zero to_digit
read_number radix bound room allow_zero_prefix s = do
  (value, count, rest) ← read_digits radix bound room 0 0 s
  if count == 0
      then none
      else if not allow_zero_prefix && starts_zero s && ltb 1 count
      then none
      else some (value, rest)

-- `read_given_char`
read_given_char : ℕ → Text → Option Text
read_given_char g [] = none
read_given_char g (c ∷ s) = if c == g then some s else none

-- `read_separator(sep, index, inner)`: the separator before every part but the first.
abbrev read_separator : {A : Type 0} → ℕ → ℕ → Reader A → Reader A
read_separator sep zero inner s = inner s
read_separator sep (suc i) inner s = do r ← read_given_char sep s; inner r

abbrev octet : ℕ → Reader ℕ
octet i = read_separator b'.' i (read_number 10 256 3 false)

unfoldable pub read_ipv4_addr : Reader Ipv4Addr
unfolding read_given_char read_number
read_ipv4_addr s = do
  (b0, s1) ← octet 0 s
  (b1, s2) ← octet 1 s1
  (b2, s3) ← octet 2 s2
  (b3, s4) ← octet 3 s3
  some (record { b0 = b0; b1 = b1; b2 = b2; b3 = b3 }, s4)

-- What `read_groups` leaves in its slots, whether it ended with an IPv4 address, and the rest.
record Groups : Type 0 where
  groups : List ℕ
  ipv4 : Bool
  rest : Text

abbrev no_more : Text → Groups
no_more s = record { groups = []; ipv4 = false; rest = s }

abbrev ended_by : Ipv4Addr → Text → Groups
ended_by a s = record {
  groups = (a.b0 * 256 + a.b1) ∷ (a.b2 * 256 + a.b3) ∷ [];
  ipv4 = true;
  rest = s;
}

-- `read_groups`, with `left` slots still free behind the `i` filled ones. An IPv4 address wants two.
read_groups : ℕ → ℕ → Text → Groups
read_groups zero i s = no_more s
read_groups (suc left) i s =
    elim (if ltb 0 left then read_separator b':' i read_ipv4_addr s else none) [
      | some (a, rest) ↦ ended_by a rest
      | none ↦ elim (read_separator b':' i (read_number 16 65536 4 true) s) [
        | none ↦ no_more s
        | some (g, rest) ↦
            let more = read_groups left (suc i) rest in record more { groups = g ∷ more.groups }
      ]
    ]

abbrev of_segments : List ℕ → Ipv6Addr
of_segments g = record {
  s0 = get_or g 0 0;
  s1 = get_or g 1 0;
  s2 = get_or g 2 0;
  s3 = get_or g 3 0;
  s4 = get_or g 4 0;
  s5 = get_or g 5 0;
  s6 = get_or g 6 0;
  s7 = get_or g 7 0;
}

unfoldable pub read_ipv6_addr : Reader Ipv6Addr
unfolding read_groups read_ipv4_addr
read_ipv6_addr s =
    let head = read_groups 8 0 s in
    let size = length head.groups in
    if size == 8 then some (of_segments head.groups, head.rest) else if head.ipv4 then none else do
      s1 ← read_given_char b':' head.rest
      s2 ← read_given_char b':' s1
      let tail = read_groups (8 - (size + 1)) 0 s2
      let zeros = replicate (8 - size - length tail.groups) 0
      some (of_segments (head.groups ++ (zeros ++ tail.groups)), tail.rest)

-- `read_ip_addr`
abbrev read_ip_addr : Reader IpAddr
read_ip_addr s = elim (read_ipv4_addr s) [
  | some (a, rest) ↦ some (v4 a, rest)
  | none ↦ elim (read_ipv6_addr s) [ some (a, rest) ↦ some (v6 a, rest) | none ↦ none ]
]

-- `host.parse::<IpAddr>()`: the whole text must be read.
unfoldable pub parse_ip : Text → Option IpAddr
unfolding read_ipv4_addr read_ipv6_addr
parse_ip s = do (ip, rest) ← read_ip_addr s; if is_empty rest then some ip else none
