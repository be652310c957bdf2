-- ===== src/Tests/Base64.antt =====
-- Examples for base64.
use hellohq_wasm_runtime.Prelude.{◌≡◌, refl}
use hellohq_wasm_runtime.Str.{lit}
use hellohq_wasm_runtime.Base64.{symbol, b64_encode}

encodes : b64_encode (lit "fooba") ≡ lit "Zm9vYmE="
unfolding b64_encode symbol
encodes = refl
