-- ===== src/WasiGuests/Retained.antt =====
-- src/wasi_guests.rs: which headers are left after the request policy and after the response policy.
use hellohq_wasm_runtime.Prelude.{
  ℕ, ◌+◌, Bool, true, false, not, ◌&&◌, List, [], ◌∷◌, keep, Option, some, if◌then◌else◌, ◌≡◌, refl,
  sym, ap, ◌∙◌, arith, length, Bool-cases, Bool-eq_of_iff, inl, inr,
}
use hellohq_wasm_runtime.Str.{
  Text, lit, equal, is_empty, to_ascii_lowercase, trim, is_whitespace, starts_with, contains,
}
use hellohq_wasm_runtime.Str.Affix.{equal_iff}
use hellohq_wasm_runtime.RequestPolicy.{
  stripped_response_headers, listed, is_allowed_request_header, is_credential_header_name,
}
use hellohq_wasm_runtime.WasiGuests.Headers.{HeaderMap}
use hellohq_wasm_runtime.WasiGuests.Hooks.{
  Request, drop_names, retain_allowed_request_headers, remove_names, strip_response_headers,
  host_header,
}

pub equal_comm : (a b : Text) → equal a b ≡ equal b a
equal_comm a b =
    Bool-eq_of_iff _ _ (λ h. (equal_iff b a).1 (sym ((equal_iff a b).0 h)))
      (λ h. (equal_iff a b).1 (sym ((equal_iff b a).0 h)))

listed-keep :
    (p : Text → Bool) (names : List Text) (n : Text)
    → listed n (keep p names) ≡ (listed n names && p n)
listed-keep p [] n = refl
listed-keep p (x ∷ names) n = elim (Bool-cases (equal n x)) [
  | inl same ↦
      let e : p n ≡ p x = ap p ((equal_iff n x).0 same) in
      ground (arith, same, e, listed-keep p names n)
  | inr other ↦ ground (arith, other, listed-keep p names n)
]

host_not_allowed : is_allowed_request_header (lit "host") ≡ false
unfolding is_allowed_request_header is_credential_header_name equal to_ascii_lowercase trim
    is_whitespace starts_with contains
host_not_allowed = refl

module _ {V : Type 0} (hm : HeaderMap V) where
  open hm use {
    Map, keys, get_all, contains_key, get_all-remove, contains_key-get_all, listed-keys,
    get_all-insert,
  }

  get_all-drop_names :
      (h : Map) (d : ℕ) (names : List Text) (m : Text)
      → get_all (drop_names hm h d names).0 m ≡ (if listed m names then [] else get_all h m)
  unfolding drop_names
  get_all-drop_names h d [] m = refl
  get_all-drop_names h d (n ∷ names) m =
      get_all-drop_names (hm.remove h n) (d + length (get_all h n)) names m
      ∙ ground (arith, get_all-remove h n m, equal_comm n m)

  get_all-remove_names :
      (h : Map) (names : List Text) (m : Text)
      → get_all (remove_names hm h names) m ≡ (if listed m names then [] else get_all h m)
  unfolding remove_names
  get_all-remove_names h [] m = refl
  get_all-remove_names h (n ∷ names) m =
      get_all-remove_names (hm.remove h n) names m
      ∙ ground (arith, get_all-remove h n m, equal_comm n m)

  no_values : (values : List V) → not (is_empty values) ≡ false → values ≡ []
  no_values [] e = refl
  no_values (v ∷ values) e = cc e

  allowed_or_missing :
      (allowed there : Bool) (values : List V)
      → (there ≡ false → values ≡ [])
      → (if there && not allowed then [] else values) ≡ (if allowed then values else [])
  allowed_or_missing true true values h = refl
  allowed_or_missing true false values h = refl
  allowed_or_missing false true values h = refl
  allowed_or_missing false false values h = h refl

  -- A header is left with all its values exactly if it may be set.
  pub get_all-retain :
      (h : Map) (m : Text)
      → get_all (retain_allowed_request_headers hm h).0 m
        ≡ (if is_allowed_request_header m then get_all h m else [])
  unfolding retain_allowed_request_headers
  get_all-retain h m =
      get_all-drop_names h 0 (keep (λ n. not (is_allowed_request_header n)) (keys h)) m
      ∙ ap (λ b. if b then [] else get_all h m)
          (listed-keep (λ n. not (is_allowed_request_header n)) (keys h) m)
      ∙ allowed_or_missing (is_allowed_request_header m) (listed m (keys h)) (get_all h m)
          (λ missing.
            no_values (get_all h m)
              (sym (contains_key-get_all h m) ∙ sym (listed-keys h m) ∙ missing))

  pub get_all-strip :
      (h : Map) (m : Text)
      → get_all (strip_response_headers hm h) m
        ≡ (if listed m stripped_response_headers then [] else get_all h m)
  unfolding strip_response_headers
  get_all-strip h m = get_all-remove_names h stripped_response_headers m

  -- The wire of the production sender: the header policy, then a `host` from the URI's authority,
  -- since the policy leaves none.
  get_all-host_header :
      {B : Type 0} (from_str : Text → Option V) (request : Request Map B) {authority : Text}
      {value : V} (m : Text)
      → request.uri.authority ≡ some authority
      → from_str authority ≡ some value
      → get_all
          (host_header hm from_str
            (record request { headers = (retain_allowed_request_headers hm request.headers).0 }))
          m
        ≡ (if equal (lit "host") m
            then value ∷ []
            else if is_allowed_request_header m
            then get_all request.headers m
            else [])
  unfolding host_header
  get_all-host_header from_str request {authority} {value} m ea ev =
      let kept : Map = (retain_allowed_request_headers hm request.headers).0 in
      let absent : contains_key kept (lit "host") ≡ false =
        contains_key-get_all kept (lit "host")
        ∙ ap (λ vs. not (is_empty vs))
            (get_all-retain request.headers (lit "host")
              ∙ ap (λ b. if b then get_all request.headers (lit "host") else [])
                  host_not_allowed) in
      rw (host_header, absent, ea, ev) (get_all-insert kept (lit "host") m value)
      ∙ ap (λ vs. if equal (lit "host") m then value ∷ [] else vs)
          (get_all-retain request.headers m)
