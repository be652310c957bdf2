-- ===== src/PluginHost/Stored.antt =====
-- src/plugin_host_storage_events.rs and src/plugin_host_full.rs: a value that a plugin stores through the
-- app comes back.
use hellohq_wasm_runtime.Prelude.{
  true, all, Option, none, some, Result, ok, if◌then◌else◌, ◌≡◌, refl, sym, ap, ◌∙◌, Bool-cases,
  inl, inr,
}
use hellohq_wasm_runtime.Str.{Text, lit, equal}
use hellohq_wasm_runtime.Base64.{b64_encode}
use hellohq_wasm_runtime.Base64.RoundTrip.{is_byte, b64_decode-b64_encode}
use hellohq_wasm_runtime.StorageEvents.{Bytes, ApiError}
use hellohq_wasm_runtime.PluginHost.{Value, null, string, get, Serde, App, >>=-ok, pure, lift}
use hellohq_wasm_runtime.PluginHost.Replies.{Answers, exchange-ok_iff}
use hellohq_wasm_runtime.PluginHost.Storage
use hellohq_wasm_runtime.PluginHost.Storage.{get_request, set_request, read_value, transport_closed}
use hellohq_wasm_runtime.PluginHost.Full

abbrev pub stored_value : {F : Type 0} → Option Text → Value F
stored_value none = null
stored_value (some t) = string t

-- The object has this string under this name.
abbrev pub Has : {F : Type 0} → Value F → Text → Text → Type 0
Has v name t = get v name ≡ some (string t)

-- An app that keeps strings under keys: any request with the method `storage_set`, a key and a value that
-- is a string is answered with any data and stores that string, and any with `storage_get` and a key is
-- answered with the string that is kept there, or null.
pub record KeepsStrings {F S : Type 0} (serde : Serde F) (app : App S) : Type 0 where
  pub lookup : S → Text → Option Text
  pub written : S → Text → Text → S
  pub reply : S → Text → Text → Value F
  pub lookup-written :
      (s : S) (key t other : Text)
      → lookup (written s key t) other ≡ (if equal key other then some t else lookup s other)
  pub sets :
      (s : S) (v : Value F) (key t : Text)
      → Has v (lit "method") (lit "storage_set")
      → Has v (lit "key") key
      → Has v (lit "value") t
      → Answers serde app s v (written s key t) (reply s key t)
  pub gets :
      (s : S) (v : Value F) (key : Text)
      → Has v (lit "method") (lit "storage_get")
      → Has v (lit "key") key
      → Answers serde app s v s (stored_value (lookup s key))

module _ {F S : Type 0} (serde : Serde F) (app : App S) (keeps : KeepsStrings serde app) where
  get-lookup :
      (s : S) (key : Text)
      → Storage.get serde app key s ≡ (s, read_value {F = F} (stored_value (keeps.lookup s key)))
  unfolding Storage.get Storage.call get_request equal
  get-lookup s key =
      >>=-ok (Storage.call serde app (get_request key)) (λ d. lift (read_value d))
        ((exchange-ok_iff serde app transport_closed (get_request key) s s _).1
          (keeps.gets s (get_request key) key refl refl))

  set-written :
      (s : S) (key : Text) (value : Bytes)
      → Storage.set serde app key value s ≡ (keeps.written s key (b64_encode value), ok tt)
  unfolding Storage.set Storage.call set_request equal
  set-written s key value =
      >>=-ok (Storage.call serde app (set_request key value)) (λ _. pure tt)
        ((exchange-ok_iff serde app transport_closed (set_request key value) s _ _).1
          (keeps.sets s (set_request key value) key (b64_encode value) refl refl refl))

  read_written :
      (value : Bytes)
      → all is_byte value ≡ true
      → read_value {F = F} (stored_value (some (b64_encode value))) ≡ ok (some value)
  unfolding read_value
  read_written value bytes = rw (read_value, b64_decode-b64_encode value bytes) refl

  -- With an app that keeps strings under keys, a write of bytes succeeds, and a read then returns those
  -- bytes for that key and what it returned before for every other key.
  pub get-set_bytes :
      (s : S) (key : Text) (value : Bytes) (other : Text)
      → all is_byte value ≡ true
      → ((Storage.set serde app key value s).1 ≡ ok tt)
        × ((Storage.get serde app other (Storage.set serde app key value s).0).1
            ≡ (if equal key other then ok (some value) else (Storage.get serde app other s).1))
  get-set_bytes s key value other bytes =
      let s' : S = keeps.written s key (b64_encode value) in
      let wrote : Storage.set serde app key value s ≡ (s', ok tt) = set-written s key value in
      (
        ap (λ (r : S × Result (Unit {0}) ApiError). r.1) wrote,
        ap (λ (r : S × Result (Unit {0}) ApiError). (Storage.get serde app other r.0).1) wrote
            ∙ ap (λ (r : S × Result (Option Bytes) ApiError). r.1) (get-lookup s' other)
            ∙ ap (λ t. read_value {F = F} (stored_value t))
                (keeps.lookup-written s key (b64_encode value) other)
            ∙ elim (Bool-cases (equal key other)) [
              | inl same ↦ rw same (read_written value bytes)
              | inr different ↦
                  rw different (
                    ap (λ (r : S × Result (Option Bytes) ApiError). r.1) (sym (get-lookup s other)))
            ],
      )

-- The host with all capabilities makes the same two calls.
full-get :
    {F S : Type 0} (serde : Serde F) (app : App S) (key : Text) (s : S)
    → Full.get serde app key s ≡ Storage.get serde app key s
unfolding Full.get Full.forward Storage.get Storage.call
full-get serde app key s = refl
