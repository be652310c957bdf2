-- ===== src/Frames/Faults.antt =====
-- Which error the parser reports, and at which frame: the first frame that cannot follow the
-- session read so far.
use hellohq_wasm_runtime.Prelude.{
  ℕ, zero, suc, ◌+◌, true, List, [], ◌∷◌, ◌++◌, ◌≡◌, refl, sym, ap, ◌∙◌, ◌↔◌, ◌⊎◌, inl, inr, ◌≢◌,
  none, some, arith, length, Result, ok, err, ◌>>=◌, err_of_chain, Option-cases,
}
use hellohq_wasm_runtime.Frames.{
  Bytes, OutFrameKind, decode, RequestFrames, Progress, start, accept, step, loop, FrameError,
  parse_request_frames,
}
use hellohq_wasm_runtime.Frames.Session.{IsSession, read}
use hellohq_wasm_runtime.Frames.Sound.{
  decode-cases, loop-IsSession, parse_request_frames-nil, IsSession-loop, finish,
}
use hellohq_wasm_runtime.Frames.Stops.{Stop, loop-Stop, loop-stop}

-- `bad` cannot follow `good`, and `e` says why and where.
pub data Fault (good : List Bytes) (bad : Bytes) (e : FrameError) : Type 0 where
  undecodable :
      (good ≡ []) ⊎ ((r : RequestFrames) × IsSession good r)
      → decode bad ≡ none
      → e ≡ FrameError.unknown_kind (length good)
      → Fault good bad e
  headless :
      (k : OutFrameKind) (payload : Bytes)
      → good ≡ []
      → decode bad ≡ some (k, payload)
      → k ≢ OutFrameKind.head
      → e ≡ FrameError.missing_head
      → Fault good bad e
  second_head :
      (r : RequestFrames) (payload : Bytes)
      → IsSession good r
      → r.trailers ≡ none
      → decode bad ≡ some (OutFrameKind.head, payload)
      → e ≡ FrameError.duplicate_head (length good)
      → Fault good bad e
  late :
      (r : RequestFrames) (k : OutFrameKind) (payload t : Bytes)
      → IsSession good r
      → r.trailers ≡ some t
      → decode bad ≡ some (k, payload)
      → e ≡ FrameError.after_trailers (length good)
      → Fault good bad e

-- The rounds that fail, by what was read before them.
step-start-Fault : (bad : Bytes) {e : FrameError} → step start 0 bad ≡ err e → Fault [] bad e
unfolding step
step-start-Fault bad h = elim (decode-cases bad) [
  | inl n ↦ undecodable (inl refl) n (ground (arith, rw n at h))
  | inr (OutFrameKind.head, payload, d) ↦ cc (rw d at h)
  | inr (OutFrameKind.body, payload, d) ↦
      headless _ payload refl d (λ b. cc b) (ground (arith, rw d at h))
  | inr (OutFrameKind.trailers, payload, d) ↦
      headless _ payload refl d (λ b. cc b) (ground (arith, rw d at h))
]

abbrev proceed : Result RequestFrames FrameError → Result Progress FrameError
proceed m = m >>= λ out. ok (record { out = out; seen_any = true })

step-open :
    (r : RequestFrames) (i : ℕ) (k : OutFrameKind) (payload bad : Bytes)
    → r.trailers ≡ none
    → decode bad ≡ some (k, payload)
    → step (read r) i bad ≡ proceed (accept r i k payload)
unfolding step
step-open r i k payload bad c d = simp (d, c)

open_Fault :
    (r : RequestFrames) (good : List Bytes) (bad : Bytes) (i : ℕ) (k : OutFrameKind)
    (payload : Bytes) {e : FrameError}
    → IsSession good r
    → suc i ≡ length good
    → decode bad ≡ some (k, payload)
    → r.trailers ≡ none
    → proceed (accept r (suc i) k payload) ≡ err e
    → Fault good bad e
unfolding accept
open_Fault r good bad i OutFrameKind.head payload s n d c x =
    second_head r payload s c d (ground (arith, n))
open_Fault r good bad i OutFrameKind.body payload s n d c x = cc
open_Fault r good bad i OutFrameKind.trailers payload s n d c x = cc

step-read-Fault :
    (r : RequestFrames) (good : List Bytes) (bad : Bytes) (i : ℕ) {e : FrameError}
    → IsSession good r
    → suc i ≡ length good
    → step (read r) (suc i) bad ≡ err e
    → Fault good bad e
unfolding step
step-read-Fault r good bad i {e} s n h = elim (decode-cases bad) [
  | inl d ↦ undecodable (inr (r, s)) d (ground (arith, n, rw d at h))
  | inr (k, payload, d) ↦ elim (Option-cases r.trailers) [
    | inr (t, c) ↦ late r k payload t s c d (ground (arith, n, rw (d, c) at h))
    | inl c ↦
        open_Fault r good bad i k payload s n d c (sym (step-open r (suc i) k payload bad c d) ∙ h)
  ]
]

at_start :
    (bad : Bytes) {e : FrameError} (q : Progress) (j : ℕ)
    → loop start 0 [] ≡ ok q
    → j ≡ 0 + 0
    → step q j bad ≡ err e
    → step start 0 bad ≡ err e
unfolding loop
at_start bad q j l n h =
    let same : start ≡ q = ground arith in let here : j ≡ 0 = omega arith in rw (same, ← here) h

Stop-Fault :
    (frames : List Bytes) {e : FrameError} (s : Stop start 0 frames e) → Fault s.good s.bad e
Stop-Fault frames {e} s = go s.good s.at s.index s.runs s.index_is s.stops
  where
    go :
        (good : List Bytes) (q : Progress) (j : ℕ)
        → loop start 0 good ≡ ok q
        → j ≡ 0 + length good
        → step q j s.bad ≡ err e
        → Fault good s.bad e
    go [] q j l n h = step-start-Fault s.bad (at_start s.bad q j l n h)
    go (f ∷ fs) q j l n h =
        let (session, same) = loop-IsSession f fs l in
        let here : j ≡ suc (length fs) = omega arith in
        step-read-Fault q.out (f ∷ fs) s.bad (length fs) session refl (rw (← same, ← here) h)

headless-step :
    (k : OutFrameKind) (payload bad : Bytes)
    → decode bad ≡ some (k, payload)
    → k ≢ OutFrameKind.head
    → step start 0 bad ≡ err FrameError.missing_head
unfolding step
headless-step OutFrameKind.head payload bad d ne = absurd (ne refl)
headless-step OutFrameKind.body payload bad d ne = rw d
headless-step OutFrameKind.trailers payload bad d ne = rw d

second_head-step :
    (r : RequestFrames) (payload bad : Bytes) (i : ℕ) {good : List Bytes}
    → IsSession good r
    → i ≡ length good
    → r.trailers ≡ none
    → decode bad ≡ some (OutFrameKind.head, payload)
    → step (read r) i bad ≡ err (FrameError.duplicate_head i)
unfolding step
second_head-step r payload bad zero s n c d = absurd (omega (arith, n, ap length s.frames_are))
second_head-step r payload bad (suc i) s n c d = rw (d, c)

-- Conversely, a fault makes its round fail with its error.
Fault-loop :
    (good : List Bytes) (bad : Bytes) {e : FrameError} (rest : List Bytes)
    → Fault good bad e
    → loop start 0 (good ++ bad ∷ rest) ≡ err e
Fault-loop good bad rest (undecodable (inl n) d e) =
    loop-stop start start 0 (length good) good bad rest (rw n (unfold loop in refl)) (omega arith)
      (unfold step in rw (d, e))
Fault-loop good bad rest (undecodable (inr (r, s)) d e) =
    loop-stop start (read r) 0 (length good) good bad rest (IsSession-loop s) (omega arith)
      (unfold step in rw (d, e))
Fault-loop good bad rest (headless k payload n d ne e) =
    loop-stop start start 0 0 good bad rest (rw n (unfold loop in refl)) (rw n (omega arith))
      (rw e (headless-step k payload bad d ne))
Fault-loop good bad rest (second_head r payload s c d e) =
    loop-stop start (read r) 0 (length good) good bad rest (IsSession-loop s) (omega arith)
      (rw e (second_head-step r payload bad (length good) s refl c d))
Fault-loop good bad rest (late r k payload t s c d e) =
    loop-stop start (read r) 0 (length good) good bad rest (IsSession-loop s) (omega arith)
      (unfold step in rw (d, c, e))

-- `frames` split where the first frame stands that cannot follow, and `e` is its fault.
pub record FailsWith (frames : List Bytes) (e : FrameError) : Type 0 where
  pub good : List Bytes
  pub bad : Bytes
  pub rest : List Bytes
  pub splits : frames ≡ good ++ bad ∷ rest
  pub fault : Fault good bad e

finish_succeeds : (q : Progress) {e : FrameError} → q ≡ read q.out → finish q ≢ err e
finish_succeeds q same x = ground (arith, ap (λ (p : Progress). p.seen_any) same)

parse_request_frames-FailsWith :
    (frames : List Bytes) {e : FrameError}
    → parse_request_frames frames ≡ err e
    → ((frames ≡ []) × (e ≡ FrameError.empty)) ⊎ FailsWith frames e
unfolding parse_request_frames
parse_request_frames-FailsWith [] h = inl (refl, cc (parse_request_frames-nil, h))
parse_request_frames-FailsWith (f ∷ fs) h = elim (err_of_chain finish (loop start 0 (f ∷ fs)) h) [
  | inr l ↦
      let s = loop-Stop start 0 (f ∷ fs) l in
      inr (record {
        good = s.good;
        bad = s.bad;
        rest = s.rest;
        splits = s.splits;
        fault = Stop-Fault (f ∷ fs) s;
      })
  | inl (q, later, l) ↦
      let (_, same) = loop-IsSession f fs l in absurd (finish_succeeds q same later)
]

FailsWith-parse_request_frames :
    {frames : List Bytes} {e : FrameError}
    → FailsWith frames e
    → parse_request_frames frames ≡ err e
unfolding parse_request_frames
FailsWith-parse_request_frames f = rw (f.splits, Fault-loop f.good f.bad f.rest f.fault)

-- The parser fails with `e` exactly if there are no frames and `e` is `empty`, or the frames before
-- some frame are a session or none, that frame cannot follow them, and `e` is its fault: no kind
-- byte, no head first, a second head, or a frame after the trailers, at that frame's index.
pub parse_request_frames-eq-err_iff :
    (frames : List Bytes) (e : FrameError)
    → (parse_request_frames frames ≡ err e)
      ↔ (((frames ≡ []) × (e ≡ FrameError.empty)) ⊎ FailsWith frames e)
parse_request_frames-eq-err_iff frames e = (
  parse_request_frames-FailsWith frames,
  λ s. elim s [
    | inl (n, x) ↦ rw (n, x) parse_request_frames-nil
    | inr f ↦ FailsWith-parse_request_frames f
  ],
)
