-- ===== src/Frames/Session.antt =====
-- The grammar `HEAD BODY* TRAILERS?` of a request's frames: the parser accepts its sessions.
use hellohq_wasm_runtime.Prelude.{
  ℕ, suc, true, List, [], ◌∷◌, ◌++◌, ◌≡◌, refl, ◌∙◌, Option, none, some, arith, map, concat,
  append-nil, append_assoc, ok,
}
use hellohq_wasm_runtime.Frames.{
  Bytes, OutFrameKind, encode, RequestFrames, Progress, start, step, loop, parse_request_frames,
}
use hellohq_wasm_runtime.Frames.Codec.{decode-encode}

abbrev pub trailer_frames : Option Bytes → List Bytes
trailer_frames none = []
trailer_frames (some payload) = encode OutFrameKind.trailers payload ∷ []

-- What may follow the head: body frames, then at most one trailers frame.
abbrev pub rest_frames : List Bytes → Option Bytes → List Bytes
rest_frames chunks t = map (encode OutFrameKind.body) chunks ++ trailer_frames t

-- The frames of a request whose body is sent in `chunks`.
abbrev pub session_frames : Bytes → List Bytes → Option Bytes → List Bytes
session_frames h chunks t = encode OutFrameKind.head h ∷ rest_frames chunks t

-- `frames` is a session of the grammar that carries the request `r`.
pub record IsSession (frames : List Bytes) (r : RequestFrames) : Type 0 where
  pub chunks : List Bytes
  pub frames_are : frames ≡ session_frames r.head chunks r.trailers
  pub body_is : r.body ≡ concat chunks

-- One round on a frame that may come next.
step-body :
    (p : Progress) (i : ℕ) (payload : Bytes)
    → p.out.trailers ≡ none
    → step p (suc i) (encode OutFrameKind.body payload)
      ≡ ok (record { out = record p.out { body = p.out.body ++ payload }; seen_any = true })
unfolding step
step-body p i payload h = rw (decode-encode, h)

step-trailers :
    (p : Progress) (i : ℕ) (payload : Bytes)
    → p.out.trailers ≡ none
    → step p (suc i) (encode OutFrameKind.trailers payload)
      ≡ ok (record { out = record p.out { trailers = some payload }; seen_any = true })
unfolding step
step-trailers p i payload h = rw (decode-encode, h)

pub step-head :
    (payload : Bytes)
    → step start 0 (encode OutFrameKind.head payload)
      ≡ ok (record { out = record { head = payload; body = []; trailers = none }; seen_any = true })
unfolding step
step-head payload = rw decode-encode

-- The loop state once a request's frames are read.
abbrev pub read : RequestFrames → Progress
read r = record { out = r; seen_any = true }

loop-rest_frames :
    (r : RequestFrames) (i : ℕ) (chunks : List Bytes) (t : Option Bytes)
    → r.trailers ≡ none
    → loop (read r) (suc i) (rest_frames chunks t)
      ≡ ok (read (record r { body = r.body ++ concat chunks; trailers = t }))
unfolding loop
loop-rest_frames r i [] none h = rw append-nil (ground arith)
loop-rest_frames r i [] (some t) h = rw (append-nil, step-trailers (read r) i t h)
loop-rest_frames r i (c ∷ chunks) t h =
    rw (step-body (read r) i c h)
      (loop-rest_frames (record r { body = r.body ++ c }) (suc i) chunks t h ∙ rw append_assoc)

pub loop-session_frames :
    (h : Bytes) (chunks : List Bytes) (t : Option Bytes)
    → loop start 0 (session_frames h chunks t)
      ≡ ok (read (record { head = h; body = concat chunks; trailers = t }))
unfolding loop
loop-session_frames h chunks t =
    rw (step-head h)
      (loop-rest_frames (record { head = h; body = []; trailers = none }) 0 chunks t refl)

-- A request's head, chunks and trailers come back from its frames, the chunks joined.
pub parse_request_frames-session :
    (h : Bytes) (chunks : List Bytes) (t : Option Bytes)
    → parse_request_frames (session_frames h chunks t)
      ≡ ok (record { head = h; body = concat chunks; trailers = t })
unfolding parse_request_frames
parse_request_frames-session h chunks t = rw (loop-session_frames h chunks t)
