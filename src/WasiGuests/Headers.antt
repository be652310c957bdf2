-- ===== src/WasiGuests/Headers.antt =====
-- src/wasi_guests.rs: `hyper::HeaderMap` as the operations and laws that the hooks rely on.
use hellohq_wasm_runtime.Prelude.{Bool, not, List, [], ◌∷◌, ◌≡◌, if◌then◌else◌}
use hellohq_wasm_runtime.Str.{Text, equal, is_empty}
use hellohq_wasm_runtime.RequestPolicy.{listed}

-- Names are in lower case, and a name may have several values of type `V`.
pub record HeaderMap (V : Type 0) : Type 1 where
  pub Map : Type 0
  pub keys : Map → List Text
  pub get_all : Map → Text → List V
  pub contains_key : Map → Text → Bool
  pub insert : Map → Text → V → Map
  pub remove : Map → Text → Map
  pub get_all-insert :
      (h : Map) (n m : Text) (v : V)
      → get_all (insert h n v) m ≡ (if equal n m then v ∷ [] else get_all h m)
  pub get_all-remove :
      (h : Map) (n m : Text) → get_all (remove h n) m ≡ (if equal n m then [] else get_all h m)
  pub contains_key-get_all : (h : Map) (n : Text) → contains_key h n ≡ not (is_empty (get_all h n))
  pub listed-keys : (h : Map) (n : Text) → listed n (keys h) ≡ contains_key h n
