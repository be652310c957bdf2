-- ===== src/Frames.antt =====
-- src/wasi_http_frames.rs: the OUT-frame format of the `wasi:http@0.3` transport. A frame is one kind
-- byte and its payload; `parse_request_frames` is the reference parser of a request's frames.
pub mod Codec
pub mod Session
pub mod Sound
pub mod Stops
pub mod Faults
use hellohq_wasm_runtime.Prelude.{
  ℕ, zero, suc, Bool, true, false, List, [], ◌∷◌, ◌++◌, Option, none, some, ◌==◌, if◌then◌else◌,
  Result, ok, err, ok_or, ◌>>=◌,
}
use hellohq_wasm_runtime.Str.{is_some}

abbrev pub Bytes : Type 0
Bytes = List ℕ

abbrev pub kind_head : ℕ
kind_head = 0x01

abbrev pub kind_body : ℕ
kind_body = 0x02

abbrev pub kind_trailers : ℕ
kind_trailers = 0x03

pub data OutFrameKind : Type 0 where
  head body trailers : OutFrameKind

unfoldable pub tag : OutFrameKind → ℕ
tag head = kind_head
tag body = kind_body
tag trailers = kind_trailers

unfoldable pub from_tag : ℕ → Option OutFrameKind
from_tag t =
    if t == kind_head
    then some head
    else if t == kind_body
    then some body
    else if t == kind_trailers
    then some trailers
    else none

unfoldable pub encode : OutFrameKind → Bytes → Bytes
unfolding tag
encode kind payload = tag kind ∷ payload

with_payload : Bytes → Option OutFrameKind → Option (OutFrameKind × Bytes)
with_payload payload none = none
with_payload payload (some kind) = some (kind, payload)

unfoldable pub decode : Bytes → Option (OutFrameKind × Bytes)
unfolding from_tag with_payload
decode [] = none
decode (t ∷ payload) = with_payload payload (from_tag t)

pub data FrameError : Type 0 where
  empty missing_head : FrameError
  unknown_kind duplicate_head after_trailers : ℕ → FrameError

pub record RequestFrames : Type 0 where
  pub head : Bytes
  pub body : Bytes
  pub trailers : Option Bytes

-- `RequestFrames::default()`
abbrev pub default : RequestFrames
default = record { head = []; body = []; trailers = none }

-- The parser's two mutable variables.
pub record Progress : Type 0 where
  pub out : RequestFrames
  pub seen_any : Bool

abbrev pub start : Progress
start = record { out = default; seen_any = false }

-- The `match (index, kind)`.
unfoldable pub accept : RequestFrames → ℕ → OutFrameKind → Bytes → Result RequestFrames FrameError
accept out zero OutFrameKind.head payload = ok (record out { head = payload })
accept out zero _ payload = err missing_head
accept out (suc i) OutFrameKind.head payload = err (duplicate_head (suc i))
accept out (suc i) OutFrameKind.body payload = ok (record out { body = out.body ++ payload })
accept out (suc i) OutFrameKind.trailers payload = ok (record out { trailers = some payload })

-- One round of the loop.
unfoldable pub step : Progress → ℕ → Bytes → Result Progress FrameError
unfolding accept
step p index frame = do
  (kind, payload) ← ok_or (decode frame) (unknown_kind index)
  if is_some p.out.trailers
      then err (after_trailers index)
      else do out ← accept p.out index kind payload; ok (record { out = out; seen_any = true })

unfoldable pub loop : Progress → ℕ → List Bytes → Result Progress FrameError
loop p index [] = ok p
loop p index (frame ∷ frames) = do q ← step p index frame; loop q (suc index) frames

unfoldable pub parse_request_frames : List Bytes → Result RequestFrames FrameError
parse_request_frames frames = do p ← loop start 0 frames; if p.seen_any then ok p.out else err empty
