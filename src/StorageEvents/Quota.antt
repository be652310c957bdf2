-- ===== src/StorageEvents/Quota.antt =====
-- src/storage_events.rs: the quotas hold in every state that a plugin can reach.
use hellohq_wasm_runtime.Prelude.{
  ◌+◌, ◌≤◌, ◌<◌, Bool, true, List, [], ◌∷◌, length, length-append, all, all-append, leb, ◌≡◌, arith,
}
use hellohq_wasm_runtime.Str.{Text, is_some}
use hellohq_wasm_runtime.StorageEvents.{
  Bytes, PluginEvent, StorageEventsHost, storage_max_keys, storage_max_total_bytes,
  events_max_count, event_max_payload_bytes, new, lookup, without, total_bytes, length_or_zero, set,
  delete, clear, emit,
}

-- A call that may change the state.
pub data Call : Type 0 where
  sets : Text → Bytes → Call
  deletes : Text → Call
  clears : Call
  emits : PluginEvent → Call

unfoldable pub after_call : StorageEventsHost → Call → StorageEventsHost
after_call h (sets key value) = (set h key value).0
after_call h (deletes key) = (delete h key).0
after_call h clears = (clear h).0
after_call h (emits event) = (emit h event).0

unfoldable pub after_calls : StorageEventsHost → List Call → StorageEventsHost
unfolding after_call
after_calls h [] = h
after_calls h (c ∷ calls) = after_calls (after_call h c) calls

abbrev pub is_small : PluginEvent → Bool
is_small e = leb (length e.payload) event_max_payload_bytes

-- The state keeps all four caps.
unfoldable pub WithinQuota : StorageEventsHost → Type 0
WithinQuota h =
    (length h.kv ≤ storage_max_keys)
    × (total_bytes h.kv ≤ storage_max_total_bytes)
    × (length h.events ≤ events_max_count)
    × (all is_small h.events ≡ true)

length-without : (key : Text) (kv : List (Text × Bytes)) → length (without key kv) ≤ length kv
unfolding without
length-without key [] = ground arith
length-without key ((k, v) ∷ kv) = ground (arith, length-without key kv)

-- Removing a key that is there frees an entry.
length-without_present :
    (key : Text) (kv : List (Text × Bytes))
    → is_some (lookup key kv) ≡ true
    → length (without key kv) < length kv
unfolding without lookup
length-without_present key [] h = ground (arith, h)
length-without_present key ((k, v) ∷ kv) h =
    ground (arith, h, length-without key kv, length-without_present key kv)

total_bytes-without :
    (key : Text) (kv : List (Text × Bytes)) → total_bytes (without key kv) ≤ total_bytes kv
unfolding without total_bytes
total_bytes-without key [] = ground arith
total_bytes-without key ((k, v) ∷ kv) = ground (arith, total_bytes-without key kv)

-- Removing a key frees its value.
total_bytes-freed :
    (key : Text) (kv : List (Text × Bytes))
    → total_bytes (without key kv) + length_or_zero (lookup key kv) ≤ total_bytes kv
unfolding without total_bytes lookup
total_bytes-freed key [] = ground arith
total_bytes-freed key ((k, v) ∷ kv) =
    ground (arith, total_bytes-without key kv, total_bytes-freed key kv)

pub after_call-WithinQuota :
    (h : StorageEventsHost) (c : Call) → WithinQuota h → WithinQuota (after_call h c)
unfolding after_call WithinQuota set delete clear emit total_bytes
after_call-WithinQuota h (sets key value) (keys, bytes, count, small) = ground (
  arith,
  keys,
  bytes,
  count,
  small,
  length-without key h.kv,
  length-without_present key h.kv,
  total_bytes-freed key h.kv,
)
after_call-WithinQuota h (deletes key) (keys, bytes, count, small) =
    ground (arith, keys, bytes, count, small, length-without key h.kv, total_bytes-without key h.kv)
after_call-WithinQuota h clears (keys, bytes, count, small) =
    ground (arith, keys, bytes, count, small)
after_call-WithinQuota h (emits event) (keys, bytes, count, small) = ground (
  arith,
  keys,
  bytes,
  count,
  small,
  length-append h.events (event ∷ []),
  all-append is_small h.events (event ∷ []),
)

after_calls-WithinQuota :
    (h : StorageEventsHost) (calls : List Call) → WithinQuota h → WithinQuota (after_calls h calls)
unfolding after_calls
after_calls-WithinQuota h [] q = q
after_calls-WithinQuota h (c ∷ calls) q =
    after_calls-WithinQuota (after_call h c) calls (after_call-WithinQuota h c q)

-- After any calls of a plugin on a new host, granted or not, at most 128 keys with 256 KiB of values
-- are stored, and at most 256 events of at most 64 KiB each.
pub new-WithinQuota :
    (granted : Bool) (calls : List Call) → WithinQuota (after_calls (new granted) calls)
unfolding WithinQuota total_bytes
new-WithinQuota granted calls = after_calls-WithinQuota (new granted) calls (ground arith)
