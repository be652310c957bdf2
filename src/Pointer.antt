-- ===== src/Pointer.antt =====
-- The byte pointers of the C interface in src/lib.rs: null, or with the bytes that they point at.
use hellohq_wasm_runtime.Prelude.{
  ℕ, zero, suc, List, [], ◌∷◌, length, Option, none, some, ◌≡◌, refl, ap,
}

abbrev pub Bytes : Type 0
Bytes = List ℕ

abbrev pub Pointer : Type 0
Pointer = Option Bytes

-- The bytes of a slice, and none at a null pointer.
abbrev pub copied : Pointer → Bytes
copied none = []
copied (some bytes) = bytes

take : ℕ → Bytes → Bytes
take zero bytes = []
take (suc n) [] = []
take (suc n) (b ∷ bytes) = b ∷ take n bytes

-- What a caller reads: as many bytes as it is told, from a pointer that is not null.
unfoldable pub read : Pointer → ℕ → Bytes
unfolding take
read none n = []
read (some bytes) n = take n bytes

-- A caller that is told the length reads all of the bytes.
pub read-length : (bytes : Bytes) → read (some bytes) (length bytes) ≡ bytes
unfolding read take
read-length [] = refl
read-length (b ∷ bytes) = ap (λ r. b ∷ r) (read-length bytes)
