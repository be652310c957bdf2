-- ===== src/PluginHost.antt =====
-- The typed capability hosts that forward to the app as JSON: src/plugin_host.rs (Workspace),
-- src/plugin_host_storage_events.rs (Storage) and src/plugin_host_full.rs (Full). Here is what they
-- share: JSON values, and one exchange with the app.
pub mod Workspace
pub mod Storage
pub mod Full
pub mod Replies
pub mod Granted
pub mod Stored
pub mod Decoded
use hellohq_wasm_runtime.Prelude.{
  ℕ, Bool, true, false, List, [], ◌∷◌, Option, none, some, Result, ok, err, if◌then◌else◌, ◌≡◌, ap,
}
use hellohq_wasm_runtime.Str.{Text, lit, equal}
use hellohq_wasm_runtime.StorageEvents.{Bytes, ApiError}

-- A JSON number, by what `as_u64` and `as_f64` make of it; `F` is `f64`.
pub record Number (F : Type 0) : Type 0 where
  pub as_u64 : Option ℕ
  pub as_f64 : Option F

-- `serde_json::Value`
mutual
  pub data Value (F : Type 0) : Type 0 where
    null : Value F
    bool : Bool → Value F
    number : Number F → Value F
    string : Text → Value F
    array : Values F → Value F
    object : Members F → Value F

  pub data Values (F : Type 0) : Type 0 where
    nil : Values F
    cons : Value F → Values F → Values F

  pub data Members (F : Type 0) : Type 0 where
    end : Members F
    member : Text → Value F → Members F → Members F

module _ {F : Type 0} where
  abbrev pub find : Text → Members F → Option (Value F)
  find key end = none
  find key (member k v ms) = if equal k key then some v else find key ms

  -- `Value::get` of a key; none on anything but an object.
  abbrev pub get : Value F → Text → Option (Value F)
  get (object ms) key = find key ms
  get _ key = none

  abbrev pub as_str : Value F → Option Text
  as_str (string s) = some s
  as_str _ = none

  abbrev pub as_bool : Value F → Option Bool
  as_bool (bool b) = some b
  as_bool _ = none

  abbrev pub as_u64 : Value F → Option ℕ
  as_u64 (number n) = n.as_u64
  as_u64 _ = none

  abbrev pub as_f64 : Value F → Option F
  as_f64 (number n) = n.as_f64
  as_f64 _ = none

  abbrev pub items : Values F → List (Value F)
  items nil = []
  items (cons v vs) = v ∷ items vs

  abbrev pub as_array : Value F → Option (List (Value F))
  as_array (array vs) = some (items vs)
  as_array _ = none

  -- The array of some values.
  abbrev pub values_of : List (Value F) → Values F
  values_of [] = nil
  values_of (v ∷ vs) = cons v (values_of vs)

-- `Option::and_then`
abbrev pub and_then : {A B : Type 0} → Option A → (A → Option B) → Option B
and_then none f = none
and_then (some a) f = f a

-- `Option::unwrap_or`
abbrev pub unwrap_or : {A : Type 0} → A → Option A → A
unwrap_or d none = d
unwrap_or d (some a) = a

abbrev pub api_err : Text → Text → ApiError
api_err code message = record { code = code; message = message }

-- `serde_json` on bytes; an error is its text.
pub record Serde (F : Type 0) : Type 0 where
  pub to_vec : Value F → Result Bytes Text
  pub from_slice : Bytes → Result (Value F) Text

-- The app behind the transport, with its state: the response to a host call, or none if the transport is
-- closed before the call is serviced.
abbrev pub App : Type 0 → Type 0
App S = S → Bytes → S × Option Bytes

-- A host's method on the app's state.
abbrev pub M : Type 0 → Type 0 → Type 0
M S A = S → S × Result A ApiError

infixl 5 ◌>>=◌ ◌>>◌
abbrev pub ◌>>=◌ : {S A B : Type 0} → M S A → (A → M S B) → M S B
◌>>=◌ m f s = elim (m s).1 [ err e ↦ ((m s).0, err e) | ok a ↦ f a (m s).0 ]

abbrev pub ◌>>◌ : {S A B : Type 0} → M S A → M S B → M S B
m >> k = m >>= λ _. k

-- Continuing after a step that succeeds.
pub >>=-ok :
    {S A B : Type 0} (m : M S A) (f : A → M S B) {s s' : S} {a : A}
    → m s ≡ (s', ok a)
    → (m >>= f) s ≡ f a s'
>>=-ok {S} {A} {B} m f e =
    ap
      (λ (r : S × Result A ApiError).
        let done : S × Result B ApiError = elim r.1 [
          | err failure ↦ (r.0, err failure)
          | ok a ↦ f a r.0
        ] in
        done)
      e

abbrev pub pure : {S A : Type 0} → A → M S A
pure a s = (s, ok a)

abbrev pub lift : {S A : Type 0} → Result A ApiError → M S A
lift r s = (s, r)

-- The `data` of a reply whose `ok` is true; otherwise the app's error.
unfoldable pub unwrap_reply : {F : Type 0} → Value F → Result (Value F) ApiError
unwrap_reply v =
    if unwrap_or false (and_then (get v (lit "ok")) as_bool)
    then ok (unwrap_or null (get v (lit "data")))
    else err (
        api_err (lit "permission-denied")
          (unwrap_or (lit "denied") (and_then (get v (lit "error")) as_str)))

module _ {F S : Type 0} (serde : Serde F) (app : App S) where
  -- The request's bytes, with the error of `to_vec`.
  abbrev encoded : Value F → Result Bytes ApiError
  encoded request = elim (serde.to_vec request) [
    | ok bytes ↦ ok bytes
    | err e ↦ err (api_err (lit "bad-request") e)
  ]

  -- The reply's value, with the error of `from_slice`.
  abbrev decoded : Bytes → Result (Value F) ApiError
  decoded bytes = elim (serde.from_slice bytes) [
    | ok v ↦ ok v
    | err e ↦ err (api_err (lit "bad-response") e)
  ]

  -- The round trip on bytes; `gone` is the error of a closed transport.
  abbrev call : ApiError → Bytes → M S Bytes
  call gone request s = elim (app s request).1 [
    | none ↦ ((app s request).0, err gone)
    | some response ↦ ((app s request).0, ok response)
  ]

  unfoldable pub exchange : ApiError → Value F → M S (Value F)
  exchange gone request = do
    bytes ← lift (encoded request)
    response ← call gone bytes
    v ← lift (decoded response)
    lift (unwrap_reply v)
