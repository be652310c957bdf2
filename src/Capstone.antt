-- ===== src/Capstone.antt =====
-- src/capstone.rs: the capability host of the capstone world, which composes the storage and events host
-- with a gated workspace and a log.
pub mod Calls
pub mod Confined
use hellohq_wasm_runtime.Prelude.{
  Bool, not, List, [], ◌∷◌, ◌++◌, map, Option, Result, ok, err, if◌then◌else◌,
}
use hellohq_wasm_runtime.Str.{Text, lit}
use hellohq_wasm_runtime.StorageEvents
use hellohq_wasm_runtime.StorageEvents.{Bytes, ApiError, PluginEvent, StorageEventsHost}

pub data Level : Type 0 where
  trace debug info warn error : Level

pub record LogLine : Type 0 where
  pub level : Level
  pub message : Text

pub record CapstoneHarness : Type 0 where
  pub granted : Bool
  pub store : StorageEventsHost
  pub logs : List LogLine

pub record PortfolioName : Type 0 where
  pub id : Text
  pub name : Text

unfoldable pub canned_portfolios : List PortfolioName
canned_portfolios =
    record { id = lit "p1"; name = lit "Growth" }
    ∷ record { id = lit "p2"; name = lit "Income" }
    ∷ []

unfoldable pub new : Bool → CapstoneHarness
new granted = record { granted = granted; store = StorageEvents.new granted; logs = [] }

unfoldable pub captured_events : CapstoneHarness → List (Text × Bytes)
captured_events h = map (λ e. (e.kind, e.payload)) h.store.events

unfoldable pub stored_value : CapstoneHarness → Text → Option Bytes
stored_value h key = StorageEvents.lookup key h.store.kv

-- The error of this world from the same error of the composed one.
unfoldable pub map_err : ApiError → ApiError
map_err e = record { code = e.code; message = e.message }

abbrev pub map_error {ℓ} : {A : Type ℓ} → Result A ApiError → Result A ApiError
map_error (ok a) = ok a
map_error (err e) = err (map_err e)

unfoldable pub denied : Text → ApiError
denied what = record {
  code = lit "permission-denied";
  message = what ++ lit ": capability not granted";
}

unfoldable pub not_found : Text → ApiError
not_found what = record {
  code = lit "not-found";
  message = lit "workspace: " ++ what ++ lit " not provided by the capstone harness";
}

unfoldable pub read_portfolio_names : CapstoneHarness → Result (List PortfolioName) ApiError
unfolding denied canned_portfolios
read_portfolio_names h =
    if not h.granted then err (denied (lit "workspace")) else ok canned_portfolios

-- The reads that the harness does not provide, whatever they would return.
module _ {A : Type 0} where
  unfoldable pub read_sheet_structure : CapstoneHarness → Text → Result A ApiError
  unfolding not_found
  read_sheet_structure h portfolio_id = err (not_found (lit "read-sheet-structure"))

  unfoldable pub read_asset_count : CapstoneHarness → Text → Result A ApiError
  unfolding not_found
  read_asset_count h portfolio_id = err (not_found (lit "read-asset-count"))

  unfoldable pub read_currency_rates : CapstoneHarness → Result A ApiError
  unfolding not_found
  read_currency_rates h = err (not_found (lit "read-currency-rates"))

  unfoldable pub read_aggregated_values : CapstoneHarness → Text → Result A ApiError
  unfolding not_found
  read_aggregated_values h portfolio_id = err (not_found (lit "read-aggregated-values"))

unfoldable pub write_external_file : CapstoneHarness → Text → Bytes → Result (Unit {0}) ApiError
unfolding not_found
write_external_file h filename content = err (not_found (lit "write-external-file"))

-- A call of the composed host that changes its state.
abbrev pub delegated :
    CapstoneHarness
    → StorageEventsHost × Result (Unit {0}) ApiError
    → CapstoneHarness × Result (Unit {0}) ApiError
delegated h (store, result) = (record h { store = store }, map_error result)

unfoldable pub get : CapstoneHarness → Text → Result (Option Bytes) ApiError
unfolding map_err
get h key = map_error (StorageEvents.get h.store key)

unfoldable pub set : CapstoneHarness → Text → Bytes → CapstoneHarness × Result (Unit {0}) ApiError
unfolding map_err
set h key value = delegated h (StorageEvents.set h.store key value)

unfoldable pub delete : CapstoneHarness → Text → CapstoneHarness × Result (Unit {0}) ApiError
unfolding map_err
delete h key = delegated h (StorageEvents.delete h.store key)

unfoldable pub clear : CapstoneHarness → CapstoneHarness × Result (Unit {0}) ApiError
unfolding map_err
clear h = delegated h (StorageEvents.clear h.store)

unfoldable pub list_keys : CapstoneHarness → Result (List Text) ApiError
unfolding map_err
list_keys h = map_error (StorageEvents.list_keys h.store)

unfoldable pub emit : CapstoneHarness → PluginEvent → CapstoneHarness × Result (Unit {0}) ApiError
unfolding map_err
emit h event =
    delegated h (StorageEvents.emit h.store (record { kind = event.kind; payload = event.payload }))

unfoldable pub write : CapstoneHarness → Level → Text → CapstoneHarness
write h level message = record h {
  logs = h.logs ++ record { level = level; message = message } ∷ [];
}
