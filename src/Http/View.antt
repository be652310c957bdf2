-- ===== src/Http/View.antt =====
-- src/wasi_http.rs: what a guest sees of a `request` through its getters, and what its setters and
-- `get-headers` do to that.
use hellohq_wasm_runtime.Prelude.{
  ℕ, Bool, true, false, Option, none, some, ◌==◌, ==_iff, sym, subst, Result, ok, err,
  if◌then◌else◌, ◌≡◌, refl, ap, ◌∙◌, arith, Bool-cases, Option-cases, inl, inr,
}
use hellohq_wasm_runtime.Str.{Text}
use hellohq_wasm_runtime.Http.Table
use hellohq_wasm_runtime.Http.Entries
use hellohq_wasm_runtime.Http.Entries.{FieldValue}
use hellohq_wasm_runtime.Http.Fields
use hellohq_wasm_runtime.Http.Fields.{HeaderError, immutable}
use hellohq_wasm_runtime.Http.Message
use hellohq_wasm_runtime.Http.Message.{option_map, map_or}
use hellohq_wasm_runtime.Http.Multimap.{
  Edit, perform, is_mutable, perform_refused, get-put, get-there,
}
use hellohq_wasm_runtime.Http.Data.{
  Method, to_owned, from_owned, Scheme, scheme_to_owned, scheme_from_owned, RequestData, Host,
}

from_owned-to_owned : (m : Method) → from_owned (to_owned m) ≡ m
unfolding from_owned to_owned
from_owned-to_owned Method.get = refl
from_owned-to_owned Method.head = refl
from_owned-to_owned Method.post = refl
from_owned-to_owned Method.put = refl
from_owned-to_owned Method.delete = refl
from_owned-to_owned Method.connect = refl
from_owned-to_owned Method.options = refl
from_owned-to_owned Method.trace = refl
from_owned-to_owned Method.patch = refl
from_owned-to_owned (Method.other s) = refl

scheme_from_owned-to_owned : (s : Scheme) → scheme_from_owned (scheme_to_owned s) ≡ s
unfolding scheme_from_owned scheme_to_owned
scheme_from_owned-to_owned Scheme.http = refl
scheme_from_owned-to_owned Scheme.https = refl
scheme_from_owned-to_owned (Scheme.other s) = refl

scheme_round_trip :
    (s : Option Scheme) → option_map scheme_from_owned (option_map scheme_to_owned s) ≡ s
scheme_round_trip none = refl
scheme_round_trip (some s) = ap some (scheme_from_owned-to_owned s)

-- The four attributes of a request's head.
pub record View : Type 0 where
  pub method : Method
  pub path_with_query : Option Text
  pub scheme : Option Scheme
  pub authority : Option Text

-- What the getters return.
unfoldable pub view : Host → ℕ → View
view h rep = record {
  method = Message.get_method h rep;
  path_with_query = Message.get_path_with_query h rep;
  scheme = Message.get_scheme h rep;
  authority = Message.get_authority h rep;
}

-- A setter's call, with its update of the view and the host's method.
pub data Attribute : Type 0 where
  method : Method → Attribute
  path_with_query authority : Option Text → Attribute
  scheme : Option Scheme → Attribute

unfoldable pub with_attribute : Attribute → View → View
with_attribute (method m) v = record v { method = m }
with_attribute (path_with_query p) v = record v { path_with_query = p }
with_attribute (authority a) v = record v { authority = a }
with_attribute (scheme s) v = record v { scheme = s }

unfoldable pub set_attribute : Attribute → Host → ℕ → Host × Result (Unit {0}) (Unit {0})
set_attribute (method m) h rep = Message.set_method h rep m
set_attribute (path_with_query p) h rep = Message.set_path_with_query h rep p
set_attribute (authority a) h rep = Message.set_authority h rep a
set_attribute (scheme s) h rep = Message.set_scheme h rep s

-- The view of one entry.
view_of : Option RequestData → View
view_of r = record {
  method = map_or Method.get (λ r. from_owned r.method) r;
  path_with_query = map_or none (λ r. r.path_with_query) r;
  scheme = map_or none (λ r. option_map scheme_from_owned r.scheme) r;
  authority = map_or none (λ r. r.authority) r;
}

view-entry : (h : Host) (rep : ℕ) → view h rep ≡ view_of (Table.get h.requests rep)
unfolding view view_of Message.get_method Message.get_path_with_query Message.get_scheme
    Message.get_authority
view-entry h rep = refl

-- The same update of an entry.
store : Attribute → RequestData → RequestData
store (method m) r = record r { method = to_owned m }
store (path_with_query p) r = record r { path_with_query = p }
store (authority a) r = record r { authority = a }
store (scheme s) r = record r { scheme = option_map scheme_to_owned s }

set_attribute-edit_request :
    (a : Attribute) (h : Host) (rep : ℕ)
    → set_attribute a h rep ≡ Message.edit_request h rep (store a)
unfolding set_attribute store Message.set_method Message.set_path_with_query Message.set_authority
    Message.set_scheme
set_attribute-edit_request (method m) h rep = refl
set_attribute-edit_request (path_with_query p) h rep = refl
set_attribute-edit_request (authority a) h rep = refl
set_attribute-edit_request (scheme s) h rep = refl

view_of-store :
    (a : Attribute) (r : RequestData)
    → view_of (some (store a r)) ≡ with_attribute a (view_of (some r))
unfolding view_of store with_attribute
view_of-store (method m) r =
    ap (λ m'. record (view_of (some r)) { method = m' }) (from_owned-to_owned m)
view_of-store (path_with_query p) r = refl
view_of-store (authority a) r = refl
view_of-store (scheme s) r =
    ap (λ s'. record (view_of (some r)) { scheme = s' }) (scheme_round_trip s)

-- The handle names a request.
unfoldable pub has_request : Host → ℕ → Bool
has_request h rep = map_or false (λ r. true) (Table.get h.requests rep)

has_request-some :
    (h : Host) (rep : ℕ)
    → has_request h rep ≡ true
    → (r : RequestData) × (Table.get h.requests rep ≡ some r)
unfolding has_request
has_request-some h rep p = elim (Option-cases (Table.get h.requests rep)) [
  | inl gone ↦ ground (arith, gone, p)
  | inr there ↦ there
]

-- On a request that is there, a setter succeeds, updates its attribute of what the getters return for
-- that request, and leaves every other request as it was. It does so whatever the text is,
-- also for one that the WIT wants it to refuse.
pub set_attribute_refines :
    (a : Attribute) (h : Host) (rep r : ℕ)
    → has_request h rep ≡ true
    → (view (set_attribute a h rep).0 r
        ≡ (if rep == r then with_attribute a (view h rep) else view h r))
      × ((set_attribute a h rep).1 ≡ ok tt)
unfolding Message.edit_request store
set_attribute_refines a h rep r there =
    let (d, at) = has_request-some h rep there in
    let done : set_attribute a h rep
        ≡ (record h { requests = Table.put h.requests rep (store a d) }, ok tt) =
      set_attribute-edit_request a h rep ∙ rw (Message.edit_request, at) refl in
    (
      rw (done, view-entry, view-entry, view-entry, Table.get-put, at)
          (elim (Bool-cases (rep == r)) [ inl s ↦ rw s (view_of-store a d) | inr s ↦ rw s refl ]),
      rw done refl,
    )

-- On a handle that names no request, a setter changes nothing and fails.
set_attribute_refused :
    (a : Attribute) (h : Host) (rep : ℕ)
    → has_request h rep ≡ false
    → set_attribute a h rep ≡ (h, err tt)
unfolding Message.edit_request has_request
set_attribute_refused a h rep gone = elim (Option-cases (Table.get h.requests rep)) [
  | inl none_there ↦ set_attribute-edit_request a h rep ∙ rw (Message.edit_request, none_there) refl
  | inr (d, at) ↦ ground (arith, gone, at)
]

is_mutable-freeze_fields : (h : Host) (k : ℕ) → is_mutable (Message.freeze_fields h k) k ≡ false
unfolding is_mutable Message.freeze_fields
is_mutable-freeze_fields h k = elim (Option-cases (Table.get h.fields k)) [
  | inl gone ↦ rw (Message.freeze_fields, gone) (rw (Fields.read, gone) refl)
  | inr (f, at) ↦ rw (Message.freeze_fields, at) (rw (Fields.read, Table.get-put) (ground arith))
]

get-freeze_fields :
    (h : Host) (k r : ℕ) (n : Text) → Fields.get (Message.freeze_fields h k) r n ≡ Fields.get h r n
unfolding Fields.get Entries.get Message.freeze_fields
get-freeze_fields h k r n = elim (Option-cases (Table.get h.fields k)) [
  | inl gone ↦ rw (Message.freeze_fields, gone) refl
  | inr (f, at) ↦
      rw (Message.freeze_fields, at)
        (get-put h k r (record f { immutable = true }) n ∙ elim (Bool-cases (k == r)) [
          | inl s ↦
              let at' : Table.get h.fields r ≡ some f =
                subst (λ j. Table.get h.fields j ≡ some f) ((==_iff k r).0 s) at in
              rw s (sym (get-there h r n at'))
          | inr s ↦ rw s refl
        ])
]

-- The headers that `get-headers` hands out can be read as before but not be changed: every mutating
-- call on the handle changes nothing and is refused.
pub get_headers_frozen :
    (e : Edit) (h : Host) (rep r : ℕ) (n : Text)
    → (perform e (Message.get_headers h rep).0 (Message.get_headers h rep).1
        ≡ ((Message.get_headers h rep).0, err immutable))
      × (Fields.get (Message.get_headers h rep).0 r n ≡ Fields.get h r n)
unfolding Message.get_headers
get_headers_frozen e h rep r n = (
  perform_refused e (Message.get_headers h rep).0 (Message.get_headers h rep).1
      (is_mutable-freeze_fields h _),
  get-freeze_fields h _ r n,
)
