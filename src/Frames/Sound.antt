-- ===== src/Frames/Sound.antt =====
-- What the parser accepts is a session of the grammar.
use hellohq_wasm_runtime.Prelude.{
  ℕ, suc, List, [], ◌∷◌, ◌++◌, ◌≡◌, refl, ap, ◌∙◌, ◌↔◌, ◌⊎◌, inl, inr, ◌≢◌, none, some, arith,
  concat, append-nil, append_assoc, Result, ok, err, ok_of_chain, if◌then◌else◌, Option-cases,
  subst,
}
use hellohq_wasm_runtime.Frames.{
  Bytes, OutFrameKind, encode, decode, RequestFrames, Progress, start, step, loop, FrameError,
  parse_request_frames,
}
use hellohq_wasm_runtime.Frames.Codec.{decode_iff}
use hellohq_wasm_runtime.Frames.Session.{
  rest_frames, IsSession, loop-session_frames, read, parse_request_frames-session,
}

-- What a successful round after the first has read, and how it changed the request.
data Taken (r : RequestFrames) (frame : Bytes) (q : Progress) : Type 0 where
  chunk :
      (payload : Bytes)
      → frame ≡ encode OutFrameKind.body payload
      → q ≡ read (record r { body = r.body ++ payload })
      → Taken r frame q
  last :
      (payload : Bytes)
      → frame ≡ encode OutFrameKind.trailers payload
      → q ≡ read (record r { trailers = some payload })
      → Taken r frame q

pub decode-cases :
    (frame : Bytes)
    → (decode frame ≡ none)
      ⊎ ((k : OutFrameKind) × (payload : Bytes) × (decode frame ≡ some (k, payload)))
decode-cases frame = elim (Option-cases (decode frame)) [
  | inl e ↦ inl e
  | inr (kp, e) ↦ inr (kp.0, kp.1, e)
]

pub step-closed :
    (r : RequestFrames) (i : ℕ) (frame : Bytes) {q : Progress} {t : Bytes}
    → r.trailers ≡ some t
    → step (read r) i frame ≢ ok q
unfolding step
step-closed r i frame h e = elim (decode-cases frame) [
  | inl n ↦ cc (rw (n) at e)
  | inr (k, payload, d) ↦ cc (rw (d, h) at e)
]

step-Taken :
    (r : RequestFrames) (i : ℕ) (frame : Bytes) {q : Progress}
    → r.trailers ≡ none
    → step (read r) (suc i) frame ≡ ok q
    → Taken r frame q
unfolding step
step-Taken r i frame h e = elim (decode-cases frame) [
  | inl n ↦ cc (rw n at e)
  | inr (OutFrameKind.head, payload, d) ↦ cc (rw (d, h) at e)
  | inr (OutFrameKind.body, payload, d) ↦
      chunk payload ((decode_iff frame _ payload).0 d) (ground (arith, rw (d, h) at e))
  | inr (OutFrameKind.trailers, payload, d) ↦
      last payload ((decode_iff frame _ payload).0 d) (ground (arith, rw (d, h) at e))
]

loop-closed :
    (r : RequestFrames) (i : ℕ) (frames : List Bytes) {q : Progress} {t : Bytes}
    → r.trailers ≡ some t
    → loop (read r) i frames ≡ ok q
    → (frames ≡ []) × (q ≡ read r)
unfolding loop
loop-closed r i [] h e = (refl, ground arith)
loop-closed r i (f ∷ fs) h e =
    let (q, _, s) = ok_of_chain (λ q. loop q (suc i) fs) (step (read r) i f) e in
    absurd (step-closed r i f h s)

-- `frames` follow a head, and take the request `r` to the loop state `q`.
record Follows (r : RequestFrames) (frames : List Bytes) (q : Progress) : Type 0 where
  chunks : List Bytes
  frames_are : frames ≡ rest_frames chunks q.out.trailers
  state_is : q ≡ read (record r { body = r.body ++ concat chunks; trailers = q.out.trailers })

Follows-nil : (r : RequestFrames) {q : Progress} → r.trailers ≡ none → q ≡ read r → Follows r [] q
Follows-nil r h e = record {
  chunks = [];
  frames_are = ground arith;
  state_is = e ∙ rw append-nil (ground arith);
}

Follows-cons :
    (r : RequestFrames) (payload : Bytes) {f : Bytes} {fs : List Bytes} {q : Progress}
    → f ≡ encode OutFrameKind.body payload
    → Follows (record r { body = r.body ++ payload }) fs q
    → Follows r (f ∷ fs) q
Follows-cons r payload e rest = record {
  chunks = payload ∷ rest.chunks;
  frames_are = cc (e, rest.frames_are);
  state_is = rest.state_is ∙ rw append_assoc;
}

Follows-last :
    (r : RequestFrames) (payload : Bytes) {f : Bytes} {fs : List Bytes} {q : Progress}
    → f ≡ encode OutFrameKind.trailers payload
    → fs ≡ []
    → q ≡ read (record r { trailers = some payload })
    → Follows r (f ∷ fs) q
Follows-last r payload e n s = record {
  chunks = [];
  frames_are = ground arith;
  state_is = s ∙ rw append-nil (ground arith);
}

loop-Follows :
    (r : RequestFrames) (i : ℕ) (frames : List Bytes) {q : Progress}
    → r.trailers ≡ none
    → loop (read r) (suc i) frames ≡ ok q
    → Follows r frames q
unfolding loop
loop-Follows r i [] h e = Follows-nil r h (ground arith)
loop-Follows r i (f ∷ fs) h e =
    let (p, later, s) = ok_of_chain (λ p. loop p (suc (suc i)) fs) (step (read r) (suc i) f) e in
    elim (step-Taken r i f h s) [
      | chunk payload fe pe ↦
          Follows-cons r payload fe
            (loop-Follows (record r { body = r.body ++ payload }) (suc i) fs h (rw pe at later))
      | last payload fe pe ↦
          let (n, qe) =
            loop-closed (record r { trailers = some payload }) (suc (suc i)) fs refl
              (rw pe at later) in
          Follows-last r payload fe n qe
    ]

-- A first round succeeds on a head alone.
step-first :
    (frame : Bytes) {q : Progress}
    → step start 0 frame ≡ ok q
    → (h : Bytes) × (frame ≡ encode OutFrameKind.head h)
      × (q ≡ read (record { head = h; body = []; trailers = none }))
unfolding step
step-first frame e = elim (decode-cases frame) [
  | inl n ↦ cc (rw n at e)
  | inr (OutFrameKind.head, payload, d) ↦
      (payload, (decode_iff frame _ payload).0 d, ground (arith, rw d at e))
  | inr (OutFrameKind.body, payload, d) ↦ cc (rw d at e)
  | inr (OutFrameKind.trailers, payload, d) ↦ cc (rw d at e)
]

IsSession-cons :
    (h : Bytes) {f : Bytes} {fs : List Bytes} {q : Progress}
    → f ≡ encode OutFrameKind.head h
    → Follows (record { head = h; body = []; trailers = none }) fs q
    → IsSession (f ∷ fs) q.out × (q ≡ read q.out)
IsSession-cons h {f} {fs} {q} e rest = (
  record {
    chunks = rest.chunks;
    frames_are = ground (arith, e, rest.frames_are, rest.state_is);
    body_is = ground (arith, rest.state_is);
  },
  ground (arith, rest.state_is),
)

pub loop-IsSession :
    (f : Bytes) (fs : List Bytes) {q : Progress}
    → loop start 0 (f ∷ fs) ≡ ok q
    → IsSession (f ∷ fs) q.out × (q ≡ read q.out)
unfolding loop
loop-IsSession f fs e =
    let (p, later, s) = ok_of_chain (λ p. loop p 1 fs) (step start 0 f) e in
    let (h, fe, pe) = step-first f s in
    let rest =
      loop-Follows (record { head = h; body = []; trailers = none }) 0 fs refl (rw pe at later) in
    IsSession-cons h fe rest

-- What the parser does behind its loop.
abbrev pub finish : Progress → Result RequestFrames FrameError
finish q = if q.seen_any then ok q.out else err FrameError.empty

pub parse_request_frames-nil : parse_request_frames [] ≡ err FrameError.empty
unfolding parse_request_frames loop
parse_request_frames-nil = refl

parsed-IsSession :
    (frames : List Bytes) {r : RequestFrames}
    → parse_request_frames frames ≡ ok r
    → IsSession frames r
unfolding parse_request_frames
parsed-IsSession [] e = cc (parse_request_frames-nil, e)
parsed-IsSession (f ∷ fs) {r} e =
    let (q, later, l) = ok_of_chain finish (loop start 0 (f ∷ fs)) e in
    let (s, qe) = loop-IsSession f fs l in subst (IsSession (f ∷ fs)) (ground (arith, qe)) s

IsSession-parsed :
    {frames : List Bytes} {r : RequestFrames}
    → IsSession frames r
    → parse_request_frames frames ≡ ok r
IsSession-parsed {r = r} s =
    ap parse_request_frames s.frames_are
    ∙ parse_request_frames-session r.head s.chunks r.trailers
    ∙ ground (arith, s.body_is)

pub IsSession-loop :
    {frames : List Bytes} {r : RequestFrames}
    → IsSession frames r
    → loop start 0 frames ≡ ok (read r)
IsSession-loop {r = r} s =
    ap (loop start 0) s.frames_are
    ∙ loop-session_frames r.head s.chunks r.trailers
    ∙ ground (arith, s.body_is)

-- The parser accepts exactly the sessions of the grammar, and returns the request they carry.
pub parse_request_frames_iff :
    (frames : List Bytes) (r : RequestFrames)
    → (parse_request_frames frames ≡ ok r) ↔ IsSession frames r
parse_request_frames_iff frames r = (parsed-IsSession frames, IsSession-parsed)
