-- ===== src/Inference.antt =====
-- src/inference.rs: `complete` over the P3 transport, and the producer of its tokens.
pub mod Framing
use hellohq_wasm_runtime.Prelude.{
  ℕ, Bool, List, [], ◌∷◌, ◌++◌, Option, none, some, Result, ok, err, if◌then◌else◌,
}
use hellohq_wasm_runtime.Str.{Text, lit}
use hellohq_wasm_runtime.Str.Decimal.{to_decimal}
use hellohq_wasm_runtime.Str.Utf8.{into_bytes, from_utf8_lossy}
use hellohq_wasm_runtime.StorageEvents.{Bytes, ApiError}
use hellohq_wasm_runtime.P3Stream.{P3sEvent}
use hellohq_wasm_runtime.Http.Data.{StreamReader}
use hellohq_wasm_runtime.Http.Handler.Streams.{Inbound, StreamResult, completed, dropped}

pub record ChatMessage : Type 0 where
  pub role : Text
  pub content : Text

-- `F` is `f32`.
pub record InferenceOpts (F : Type 0) : Type 0 where
  pub max_tokens : ℕ
  pub temperature : Option F

-- The events sent to the caller, and the frames that it sends until it ends its stream.
pub record InferenceTransport : Type 0 where
  pub out : List P3sEvent
  pub inbound : Option (List Bytes)

pub record InferenceHost : Type 0 where
  pub transport : Option InferenceTransport

unfoldable pub with_transport : List P3sEvent → List Bytes → InferenceHost
with_transport out inbound = record {
  transport = some (record { out = out; inbound = some inbound });
}

abbrev temperature_text : {F : Type 0} → (F → Text) → Option F → Text
temperature_text show none = lit "default"
temperature_text show (some t) = show t

-- The first line, without its end.
unfoldable pub opts_line : {F : Type 0} → (F → Text) → InferenceOpts F → Text
unfolding to_decimal
opts_line show opts =
    lit "opts: max-tokens="
    ++ to_decimal opts.max_tokens
    ++ lit " temperature="
    ++ temperature_text show opts.temperature

-- The loop over the messages, on the head so far.
unfoldable pub push_messages : Text → List ChatMessage → Text
push_messages head [] = head
push_messages head (m ∷ messages) =
    push_messages (((head ++ m.role) ++ b'\n' ∷ []) ++ m.content ++ lit "\n---\n") messages

-- The request's head, with the `to_string` of `f32`.
unfoldable pub request_head : {F : Type 0} → (F → Text) → InferenceOpts F → List ChatMessage → Text
request_head show opts messages = push_messages (opts_line show opts ++ b'\n' ∷ []) messages

abbrev not_found : Text → ApiError
not_found message = record { code = lit "not-found"; message = message }

-- The last two steps, on the inbound stream that was taken.
finish :
    (List Bytes → Result StreamReader Text) → Option (List Bytes) → Result StreamReader ApiError
finish mint none = err (not_found (lit "inference: inbound stream already consumed"))
finish mint (some frames) = elim (mint frames) [
  | err e ↦ err (not_found (lit "inference: failed to mint token stream: " ++ e))
  | ok stream ↦ ok stream
]

-- `complete`, with what Wasmtime mints for the remaining frames.
unfoldable pub complete :
    {F : Type 0}
    → (F → Text)
    → (List Bytes → Result StreamReader Text)
    → InferenceHost
    → List ChatMessage
    → InferenceOpts F
    → InferenceHost × Result StreamReader ApiError
unfolding request_head finish into_bytes
complete show mint h messages opts = elim h.transport [
  | none ↦ (h, err (not_found (lit "inference: transport missing")))
  | some t ↦ (
    record h {
      transport = some (record {
        out =
            t.out
            ++ P3sEvent.out (into_bytes (request_head show opts messages)) ∷ P3sEvent.out_end ∷ [];
        inbound = none;
      });
    },
    finish mint t.inbound,
  )
]

-- `TokenProducer::poll_produce`: the token handed over, if any, and the result; none if it is pending.
produce_from : Inbound → List Bytes → Inbound × Option (Option Text × StreamResult)
produce_from s (frame ∷ frames) =
    (record s { queue = frames }, some (some (from_utf8_lossy frame), completed))
produce_from s [] = (s, if s.closed then some (none, dropped) else none)

unfoldable pub produce : Inbound → Inbound × Option (Option Text × StreamResult)
unfolding produce_from from_utf8_lossy
produce s = produce_from s s.queue
