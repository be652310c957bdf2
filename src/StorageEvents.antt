-- ===== src/StorageEvents.antt =====
-- src/storage_events.rs: the storage and events host. The hash map is an association list with one
-- entry for a key.
pub mod Quota
pub mod Gate
use hellohq_wasm_runtime.Prelude.{
  ℕ, ◌+◌, ◌-◌, ◌*◌, Bool, true, false, not, ◌&&◌, List, [], ◌∷◌, ◌++◌, map, length, Option, none,
  some, Result, ok, err, ltb, leb, if◌then◌else◌,
}
use hellohq_wasm_runtime.Str.{Text, lit, equal, is_some}

abbrev pub Bytes : Type 0
Bytes = List ℕ

pub record ApiError : Type 0 where
  pub code : Text
  pub message : Text

pub record PluginEvent : Type 0 where
  pub kind : Text
  pub payload : Bytes

abbrev pub storage_max_keys : ℕ
storage_max_keys = 128

abbrev pub storage_max_total_bytes : ℕ
storage_max_total_bytes = 256 * 1024

abbrev pub events_max_count : ℕ
events_max_count = 256

abbrev pub event_max_payload_bytes : ℕ
event_max_payload_bytes = 64 * 1024

pub record StorageEventsHost : Type 0 where
  pub granted : Bool
  pub kv : List (Text × Bytes)
  pub events : List PluginEvent

-- `StorageEventsHost::new`
abbrev pub new : Bool → StorageEventsHost
new granted = record { granted = granted; kv = []; events = [] }

-- `HashMap::get`
unfoldable pub lookup : Text → List (Text × Bytes) → Option Bytes
lookup key [] = none
lookup key ((k, v) ∷ kv) = if equal k key then some v else lookup key kv

-- `HashMap::remove`
unfoldable pub without : Text → List (Text × Bytes) → List (Text × Bytes)
without key [] = []
without key ((k, v) ∷ kv) = let rest = without key kv in if equal k key then rest else (k, v) ∷ rest

unfoldable pub total_bytes : List (Text × Bytes) → ℕ
total_bytes [] = 0
total_bytes ((k, v) ∷ kv) = length v + total_bytes kv

unfoldable pub denied : ApiError
denied = record { code = lit "permission-denied"; message = lit "storage: capability not granted" }

unfoldable pub quota_exceeded : Text → ApiError
quota_exceeded what = record {
  code = lit "quota-exceeded";
  message = lit "storage: " ++ what ++ lit " quota exceeded";
}

-- The length of the value that a write displaces.
abbrev pub length_or_zero : Option Bytes → ℕ
length_or_zero none = 0
length_or_zero (some v) = length v

unfoldable pub get : StorageEventsHost → Text → Result (Option Bytes) ApiError
unfolding lookup denied
get h key = if not h.granted then err denied else ok (lookup key h.kv)

-- The bytes stored after a write.
abbrev pub projected : List (Text × Bytes) → Text → Bytes → ℕ
projected kv key value = total_bytes kv - length_or_zero (lookup key kv) + length value

unfoldable pub set :
    StorageEventsHost → Text → Bytes → StorageEventsHost × Result (Unit {0}) ApiError
unfolding lookup without total_bytes denied quota_exceeded
set h key value =
    if not h.granted
    then (h, err denied)
    else if not (is_some (lookup key h.kv)) && leb storage_max_keys (length h.kv)
    then (h, err (quota_exceeded (lit "key count")))
    else if ltb storage_max_total_bytes (projected h.kv key value)
    then (h, err (quota_exceeded (lit "total bytes")))
    else (record h { kv = (key, value) ∷ without key h.kv }, ok tt)

unfoldable pub delete : StorageEventsHost → Text → StorageEventsHost × Result (Unit {0}) ApiError
unfolding without denied
delete h key =
    if not h.granted then (h, err denied) else (record h { kv = without key h.kv }, ok tt)

unfoldable pub clear : StorageEventsHost → StorageEventsHost × Result (Unit {0}) ApiError
unfolding denied
clear h = if not h.granted then (h, err denied) else (record h { kv = [] }, ok tt)

unfoldable pub list_keys : StorageEventsHost → Result (List Text) ApiError
unfolding denied
list_keys h = if not h.granted then err denied else ok (map (λ e. e.0) h.kv)

abbrev too_large : ApiError
too_large = record { code = lit "quota-exceeded"; message = lit "events: payload too large" }

abbrev rate_limited : ApiError
rate_limited = record { code = lit "rate-limited"; message = lit "events: emit rate cap reached" }

unfoldable pub emit :
    StorageEventsHost → PluginEvent → StorageEventsHost × Result (Unit {0}) ApiError
emit h event =
    if ltb event_max_payload_bytes (length event.payload)
    then (h, err too_large)
    else if leb events_max_count (length h.events)
    then (h, err rate_limited)
    else (record h { events = h.events ++ event ∷ [] }, ok tt)
