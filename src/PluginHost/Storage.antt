-- ===== src/PluginHost/Storage.antt =====
-- src/plugin_host_storage_events.rs: the typed `storage` and `events` calls, forwarded to the app.
use hellohq_wasm_runtime.Prelude.{List, [], Option, none, some, Result, ok, err}
use hellohq_wasm_runtime.Str.{Text, lit}
use hellohq_wasm_runtime.Base64.{b64_encode, b64_decode}
use hellohq_wasm_runtime.StorageEvents.{Bytes, ApiError, PluginEvent}
use hellohq_wasm_runtime.PluginHost.{
  Value, string, object, end, member, as_str, as_array, api_err, Serde, App, M, ◌>>=◌, ◌>>◌, pure,
  lift, exchange,
}
use hellohq_wasm_runtime.PluginHost.Workspace.{strings}

unfoldable pub transport_closed : ApiError
transport_closed = api_err (lit "not-found") (lit "host transport closed")

-- The requests.
module _ {F : Type 0} where
  unfoldable pub get_request : Text → Value F
  get_request key =
      object
        (member (lit "method") (string (lit "storage_get")) (member (lit "key") (string key) end))

  unfoldable pub set_request : Text → Bytes → Value F
  unfolding b64_encode
  set_request key value = object (
      member (lit "method") (string (lit "storage_set"))
        (member (lit "key") (string key) (member (lit "value") (string (b64_encode value)) end)))

  unfoldable pub delete_request : Text → Value F
  delete_request key =
      object (
        member (lit "method") (string (lit "storage_delete")) (member (lit "key") (string key) end))

  unfoldable pub plain_request : Text → Value F
  plain_request name = object (member (lit "method") (string name) end)

  unfoldable pub emit_request : PluginEvent → Value F
  unfolding b64_encode
  emit_request event = object (
      member (lit "method") (string (lit "emit_event")) (
        member (lit "name") (string event.kind)
          (member (lit "payload") (string (b64_encode event.payload)) end)))

  -- The value of a read: bytes in base64, or nothing.
  unfoldable pub read_value : Value F → Result (Option Bytes) ApiError
  unfolding b64_decode
  read_value v = elim (as_str v) [
    | none ↦ ok none
    | some b64 ↦ elim (b64_decode b64) [
      | none ↦ err (api_err (lit "bad-response") (lit "storage value was not valid base64"))
      | some bytes ↦ ok (some bytes)
    ]
  ]

  unfoldable pub read_keys : Value F → List Text
  unfolding strings
  read_keys v = elim (as_array v) [ none ↦ [] | some vs ↦ strings vs ]

module _ {F S : Type 0} (serde : Serde F) (app : App S) where
  unfoldable pub call : Value F → M S (Value F)
  unfolding exchange transport_closed
  call request = exchange serde app transport_closed request

  unfoldable pub get : Text → M S (Option Bytes)
  unfolding call get_request read_value
  get key = do d ← call (get_request key); lift (read_value d)

  unfoldable pub set : Text → Bytes → M S (Unit {0})
  unfolding call set_request
  set key value = call (set_request key value) >> pure tt

  unfoldable pub delete : Text → M S (Unit {0})
  unfolding call delete_request
  delete key = call (delete_request key) >> pure tt

  unfoldable pub clear : M S (Unit {0})
  unfolding call plain_request
  clear = call (plain_request (lit "storage_clear")) >> pure tt

  unfoldable pub list_keys : M S (List Text)
  unfolding call plain_request read_keys
  list_keys = do d ← call (plain_request (lit "storage_list_keys")); pure (read_keys d)

  unfoldable pub emit : PluginEvent → M S (Unit {0})
  unfolding call emit_request
  emit event = call (emit_request event) >> pure tt
