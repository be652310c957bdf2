-- ===== src/Tests/Storage.antt =====
-- Examples for the storage and events host.
use hellohq_wasm_runtime.Prelude.{true, List, [], ◌∷◌, some, ok, if◌then◌else◌, ◌≡◌, refl}
use hellohq_wasm_runtime.Str.{lit, equal}
use hellohq_wasm_runtime.StorageEvents.{new, get, set, lookup, total_bytes}
use hellohq_wasm_runtime.StorageEvents.Quota.{
  Call, sets, emits, after_calls, WithinQuota, new-WithinQuota,
}
use hellohq_wasm_runtime.StorageEvents.Gate.{get-set}

abbrev some_calls : List Call
some_calls = sets (lit "a") (1 ∷ []) ∷ emits (record { kind = lit "k"; payload = [] }) ∷ []

new-WithinQuota_example : WithinQuota (after_calls (new true) some_calls)
new-WithinQuota_example = new-WithinQuota true some_calls

get-set_example :
    ((set (new true) (lit "a") (1 ∷ [])).1 ≡ ok tt)
    × (get (set (new true) (lit "a") (1 ∷ [])).0 (lit "b")
        ≡ (if equal (lit "b") (lit "a") then ok (some (1 ∷ [])) else get (new true) (lit "b")))
unfolding lookup total_bytes
get-set_example = get-set (new true) (lit "a") (1 ∷ []) (lit "b") refl refl
