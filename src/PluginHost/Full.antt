-- ===== src/PluginHost/Full.antt =====
-- src/plugin_host_full.rs: the host of a canonical guest, with all four capabilities over one transport.
use hellohq_wasm_runtime.Prelude.{List, ◌++◌, Option, Result, err}
use hellohq_wasm_runtime.Str.{Text, lit}
use hellohq_wasm_runtime.StorageEvents.{Bytes, ApiError, PluginEvent}
use hellohq_wasm_runtime.Capstone.{Level, trace, debug, info, warn, error}
use hellohq_wasm_runtime.PluginHost.{
  Value, string, object, end, member, api_err, Serde, App, M, ◌>>=◌, ◌>>◌, pure, lift, exchange,
}
use hellohq_wasm_runtime.PluginHost.Workspace.{PortfolioName, decode_portfolio_names}
use hellohq_wasm_runtime.PluginHost.Storage.{
  transport_closed, get_request, set_request, plain_request, emit_request, read_value,
}

unfoldable pub not_wired : Text → ApiError
not_wired method =
    api_err (lit "not-found")
      (method ++ lit ": not wired in the C1 keystone (follows the proven per-capability bridge)")

unfoldable pub level_str : Level → Text
level_str trace = lit "trace"
level_str debug = lit "debug"
level_str info = lit "info"
level_str warn = lit "warn"
level_str error = lit "error"

unfoldable pub log_request : {F : Type 0} → Level → Text → Value F
unfolding level_str
log_request level message = object (
    member (lit "method") (string (lit "log")) (
      member (lit "level") (string (level_str level))
        (member (lit "message") (string message) end)))

module _ {F S : Type 0} (serde : Serde F) (app : App S) where
  unfoldable pub forward : Value F → M S (Value F)
  unfolding exchange transport_closed
  forward request = exchange serde app transport_closed request

  unfoldable pub read_portfolio_names : M S (List PortfolioName)
  unfolding forward plain_request decode_portfolio_names
  read_portfolio_names = do
    d ← forward (plain_request (lit "read:portfolio_names"))
    pure (decode_portfolio_names d)

  unfoldable pub get : Text → M S (Option Bytes)
  unfolding forward get_request read_value
  get key = do d ← forward (get_request key); lift (read_value d)

  unfoldable pub set : Text → Bytes → M S (Unit {0})
  unfolding forward set_request
  set key value = forward (set_request key value) >> pure tt

  unfoldable pub emit : PluginEvent → M S (Unit {0})
  unfolding forward emit_request
  emit event = forward (emit_request event) >> pure tt

  -- The reply, an error too, is ignored.
  unfoldable pub write : Level → Text → S → S
  unfolding forward log_request
  write level message s = (forward (log_request level message) s).0

module _ {A : Type 0} where
  unfoldable pub read_sheet_structure : Text → Result A ApiError
  unfolding not_wired
  read_sheet_structure portfolio_id = err (not_wired (lit "read-sheet-structure"))

  unfoldable pub read_asset_count : Text → Result A ApiError
  unfolding not_wired
  read_asset_count portfolio_id = err (not_wired (lit "read-asset-count"))

  unfoldable pub read_currency_rates : Result A ApiError
  unfolding not_wired
  read_currency_rates = err (not_wired (lit "read-currency-rates"))

  unfoldable pub read_aggregated_values : Text → Result A ApiError
  unfolding not_wired
  read_aggregated_values portfolio_id = err (not_wired (lit "read-aggregated-values"))

unfoldable pub write_external_file : Text → Bytes → Result (Unit {0}) ApiError
unfolding not_wired
write_external_file filename content = err (not_wired (lit "write-external-file"))

unfoldable pub delete : Text → Result (Unit {0}) ApiError
unfolding not_wired
delete key = err (not_wired (lit "storage.delete"))

unfoldable pub clear : Result (Unit {0}) ApiError
unfolding not_wired
clear = err (not_wired (lit "storage.clear"))

unfoldable pub list_keys : Result (List Text) ApiError
unfolding not_wired
list_keys = err (not_wired (lit "storage.list-keys"))
