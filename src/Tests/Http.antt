-- ===== src/Tests/Http.antt =====
-- Runs of the frame parser, and its theorems at concrete frames.
use hellohq_wasm_runtime.Prelude.{◌≡◌, refl, ◌↔◌, ◌⊎◌, [], ◌∷◌, some, ok, err, List}
use hellohq_wasm_runtime.Str.{lit}
use hellohq_wasm_runtime.Frames.{
  OutFrameKind, encode, decode, RequestFrames, FrameError, parse_request_frames, step, loop, Bytes,
}
use hellohq_wasm_runtime.Frames.Session.{IsSession}
use hellohq_wasm_runtime.Frames.Sound.{parse_request_frames_iff}
use hellohq_wasm_runtime.Frames.Faults.{FailsWith, parse_request_frames-eq-err_iff}

abbrev post : List Bytes
post =
    encode OutFrameKind.head (lit "POST https://a.example/x")
    ∷ encode OutFrameKind.body (lit "req-")
    ∷ encode OutFrameKind.body (lit "body")
    ∷ encode OutFrameKind.trailers (lit "x-trace=31")
    ∷ []

abbrev post_request : RequestFrames
post_request = record {
  head = lit "POST https://a.example/x";
  body = lit "req-body";
  trailers = some (lit "x-trace=31");
}

parses : parse_request_frames post ≡ ok post_request
unfolding parse_request_frames loop step decode encode
parses = refl

abbrev late : List Bytes
late =
    encode OutFrameKind.head (lit "GET https://a.example/")
    ∷ encode OutFrameKind.trailers []
    ∷ encode OutFrameKind.body (lit "late")
    ∷ []

rejects : parse_request_frames late ≡ err (FrameError.after_trailers 2)
unfolding parse_request_frames loop step decode encode
rejects = refl

parse_request_frames_iff_example :
    (parse_request_frames post ≡ ok post_request) ↔ IsSession post post_request
parse_request_frames_iff_example = parse_request_frames_iff post post_request

parse_request_frames-eq-err_iff_example :
    (parse_request_frames late ≡ err (FrameError.after_trailers 2)) ↔ (
      ((late ≡ []) × (FrameError.after_trailers 2 ≡ FrameError.empty))
      ⊎ FailsWith late (FrameError.after_trailers 2))
parse_request_frames-eq-err_iff_example =
    parse_request_frames-eq-err_iff late (FrameError.after_trailers 2)
