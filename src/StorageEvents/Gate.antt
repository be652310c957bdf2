-- ===== src/StorageEvents/Gate.antt =====
-- src/storage_events.rs: the permission gate, and what a plugin reads after its writes.
use hellohq_wasm_runtime.Prelude.{
  Bool, true, false, ◌&&◌, ◌||◌, List, [], ◌∷◌, length, some, ok, err, ltb, leb, if◌then◌else◌, ◌≡◌,
  refl, arith, Bool-cases, inl, inr,
}
use hellohq_wasm_runtime.Str.{Text, equal, is_some}
use hellohq_wasm_runtime.Str.Affix.{equal_iff}
use hellohq_wasm_runtime.StorageEvents.{
  Bytes, StorageEventsHost, storage_max_keys, storage_max_total_bytes, lookup, without, denied,
  projected, get, set, delete, clear, list_keys,
}

-- Without the grant, every storage call is denied and changes nothing.
pub ungranted_denied :
    (h : StorageEventsHost) (key : Text) (value : Bytes)
    → h.granted ≡ false
    → (get h key ≡ err denied)
      × (set h key value ≡ (h, err denied))
      × (delete h key ≡ (h, err denied))
      × (clear h ≡ (h, err denied))
      × (list_keys h ≡ err denied)
unfolding get set delete clear list_keys
ungranted_denied h key value g = ground (arith, g)

lookup-without :
    (key other : Text) (kv : List (Text × Bytes))
    → equal key other ≡ false
    → lookup other (without key kv) ≡ lookup other kv
unfolding lookup without
lookup-without key other [] d = refl
lookup-without key other ((k, v) ∷ kv) d =
    ground (
      arith,
      d,
      lookup-without key other kv,
      equal_iff k key,
      equal_iff k other,
      equal_iff key other,
    )

-- Looking up after an entry is written.
lookup-write :
    (key : Text) (value : Bytes) (kv : List (Text × Bytes)) (other : Text)
    → lookup other ((key, value) ∷ without key kv)
      ≡ (if equal other key then some value else lookup other kv)
unfolding lookup
lookup-write key value kv other = elim (Bool-cases (equal key other)) [
  | inl s ↦ ground (arith, s, equal_iff key other, equal_iff other key)
  | inr d ↦
      ground (arith, d, equal_iff key other, equal_iff other key, lookup-without key other kv d)
]

-- A write fits: the key is there or there is room for one more, and the bytes after it are within the
-- cap.
abbrev pub fits : StorageEventsHost → Text → Bytes → Bool
fits h key value =
    (is_some (lookup key h.kv) || ltb (length h.kv) storage_max_keys)
    && leb (projected h.kv key value) storage_max_total_bytes

-- With the grant, a write that fits succeeds, and a read returns the value for its key and what it
-- returned before for every other key.
pub get-set :
    (h : StorageEventsHost) (key : Text) (value : Bytes) (other : Text)
    → h.granted ≡ true
    → fits h key value ≡ true
    → ((set h key value).1 ≡ ok tt)
      × (get (set h key value).0 other ≡ (if equal other key then ok (some value) else get h other))
unfolding get set
get-set h key value other g f = ground (arith, g, f, lookup-write key value h.kv other)
