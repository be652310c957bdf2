-- ===== src/Http/Handler.antt =====
-- src/wasi_http.rs, the `handler` interface: the host with its transport, and what Wasmtime and the
-- guest's tasks do while `handle` waits.
pub mod Send
pub mod Response
pub mod Serve
pub mod Quiet
pub mod Reached
pub mod Reported
pub mod Emitted
pub mod Exchange
pub mod Rejects
pub mod Answer
pub mod ReadBack
pub mod Respond
pub mod Budget
pub mod Streams
use hellohq_wasm_runtime.Prelude.{
  ℕ, suc, List, [], ◌∷◌, ◌++◌, Option, none, some, Result, ok, err, ◌≡◌, ap,
}
use hellohq_wasm_runtime.Str.{Text}
use hellohq_wasm_runtime.Frames.{Bytes}
use hellohq_wasm_runtime.P3Stream.{P3sEvent}
use hellohq_wasm_runtime.Http.Data.{StreamReader, TrailersFuture, Host}
use hellohq_wasm_runtime.Http.Head.{ErrorCode, internal_error}

-- `HttpTransport`: the events sent to the caller, and the frames that the caller sends until it ends
-- its stream; none once they are taken.
pub record Transport : Type 0 where
  pub out : List P3sEvent
  pub inbound : Option (List Bytes)

pub record HttpHost : Type 0 where
  pub resources : Host
  pub transport : Option Transport

-- A point where `handle` waits: for the batch of a number, the trailers or the response.
pub data Await : Type 0 where
  batch : ℕ → Await
  trailers response : Await

-- The sender of a trailers future may be dropped.
pub data Canceled : Type 0 where
  canceled : Canceled

-- What the trailers' channel yields at each poll; none if it is pending.
abbrev pub TrailersPolls : Type 0
TrailersPolls = ℕ → Option (Result (Result (Option ℕ) ErrorCode) Canceled)

-- Wasmtime and the guest: the batches of a piped body, or the message of its error; the channel of a
-- piped trailers future; what other tasks do to the host at a wait; the minted streams and futures;
-- and the `{:?}` of a text.
pub record Tasks : Type 0 where
  pub pipe_body : StreamReader → Result (List Bytes) Text
  pub pipe_trailers : TrailersFuture → Result TrailersPolls Text
  pub meanwhile : Await → HttpHost → HttpHost
  pub mint_bytes : Bytes → Result StreamReader Text
  pub mint_producer : List Bytes → Result StreamReader Text
  pub mint_trailers : Option ℕ → Result TrailersFuture Text
  pub debug : Text → Text

-- A computation on the host that may fail.
abbrev pub M : Type 0 → Type 0
M A = HttpHost → HttpHost × Result A ErrorCode

infixl 5 ◌>>=◌ ◌>>◌
abbrev pub ◌>>=◌ : {A B : Type 0} → M A → (A → M B) → M B
◌>>=◌ m f h = elim (m h).1 [ err e ↦ ((m h).0, err e) | ok a ↦ f a (m h).0 ]

abbrev pub ◌>>◌ : {B : Type 0} → M (Unit {0}) → M B → M B
m >> k = m >>= λ _. k

abbrev pub pure : {A : Type 0} → A → M A
pure a h = (h, ok a)

-- `ErrorCode::InternalError(Some(msg))`
abbrev pub fail : {A : Type 0} → Text → M A
fail msg h = (h, err (internal_error (some msg)))

-- `map_err(|e| ErrorCode::InternalError(Some(e.to_string())))?`
abbrev pub internal : {A : Type 0} → Result A Text → M A
internal (ok a) = pure a
internal (err msg) = fail msg

abbrev pub modify : (HttpHost → HttpHost) → M (Unit {0})
modify f h = (f h, ok tt)

-- An event on the transport's sender, where there is a transport.
unfoldable pub emit : P3sEvent → HttpHost → HttpHost
emit e h = elim h.transport [
  | none ↦ h
  | some t ↦ record h { transport = some (record t { out = t.out ++ e ∷ [] }) }
]

-- Continuing after a step that succeeds.
pub >>=-ok :
    {A B : Type 0} (m : M A) (f : A → M B) {h h' : HttpHost} {a : A}
    → m h ≡ (h', ok a)
    → (m >>= f) h ≡ f a h'
>>=-ok {A} {B} m f e =
    ap
      (λ (r : HttpHost × Result A ErrorCode).
        let done : HttpHost × Result B ErrorCode = elim r.1 [
          | err failure ↦ (r.0, err failure)
          | ok a ↦ f a r.0
        ] in
        done)
      e

-- Stopping at a step that fails.
pub >>=-err :
    {A B : Type 0} (m : M A) (f : A → M B) {h h' : HttpHost} {failure : ErrorCode}
    → m h ≡ (h', err failure)
    → (m >>= f) h ≡ (h', err failure)
>>=-err {A} {B} m f e =
    ap
      (λ (r : HttpHost × Result A ErrorCode).
        let done : HttpHost × Result B ErrorCode = elim r.1 [
          | err failure ↦ (r.0, err failure)
          | ok a ↦ f a r.0
        ] in
        done)
      e

pub internal-ok :
    {A : Type 0} {a : A} (r : Result A Text) (h : HttpHost) → r ≡ ok a → internal r h ≡ (h, ok a)
internal-ok {A} r h e = ap (λ (s : Result A Text). internal s h) e
