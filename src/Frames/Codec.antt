-- ===== src/Frames/Codec.antt =====
-- One frame: encoding and decoding are inverse to one another, and the kind byte alone decides.
use hellohq_wasm_runtime.Prelude.{◌∷◌, [], ◌↔◌, ◌≡◌, refl, some, arith}
use hellohq_wasm_runtime.Frames.{Bytes, OutFrameKind, head, body, trailers, encode, decode}

pub decode-encode :
    (k : OutFrameKind) (payload : Bytes) → decode (encode k payload) ≡ some (k, payload)
unfolding decode encode
decode-encode head payload = refl
decode-encode body payload = refl
decode-encode trailers payload = refl

encode-decode :
    (frame : Bytes) (k : OutFrameKind) (payload : Bytes)
    → decode frame ≡ some (k, payload)
    → frame ≡ encode k payload
unfolding decode encode
encode-decode [] k payload h = cc
encode-decode (t ∷ rest) k payload h = ground arith

-- A byte string decodes to a kind and a payload exactly if it is their encoding.
pub decode_iff :
    (frame : Bytes) (k : OutFrameKind) (payload : Bytes)
    → (decode frame ≡ some (k, payload)) ↔ (frame ≡ encode k payload)
decode_iff frame k payload = (encode-decode frame k payload, λ e. rw e (decode-encode k payload))
