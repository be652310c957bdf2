-- ===== src/Frames/Stops.antt =====
-- Where the parser's loop stops: the frames read before, the state then, and the frame refused.
use hellohq_wasm_runtime.Prelude.{
  ℕ, suc, ◌+◌, List, [], ◌∷◌, ◌++◌, ◌≡◌, refl, ap, inl, inr, arith, length, ok, err, ok_of_chain,
  err_of_chain,
}
use hellohq_wasm_runtime.Frames.{Bytes, Progress, step, loop, FrameError}

-- The loop from `p` at index `i` stops at `bad`.
pub record Stop (p : Progress) (i : ℕ) (frames : List Bytes) (e : FrameError) : Type 0 where
  pub good : List Bytes
  pub bad : Bytes
  pub rest : List Bytes
  pub at : Progress
  pub index : ℕ
  pub splits : frames ≡ good ++ bad ∷ rest
  pub runs : loop p i good ≡ ok at
  pub index_is : index ≡ i + length good
  pub stops : step at index bad ≡ err e

Stop-here :
    (p : Progress) (i : ℕ) (f : Bytes) (fs : List Bytes) {e : FrameError}
    → step p i f ≡ err e
    → Stop p i (f ∷ fs) e
unfolding loop
Stop-here p i f fs h = record {
  good = [];
  bad = f;
  rest = fs;
  at = p;
  index = i;
  splits = refl;
  runs = refl;
  index_is = omega arith;
  stops = h;
}

Stop-cons :
    (p q : Progress) (i : ℕ) (f : Bytes) {fs : List Bytes} {e : FrameError}
    → step p i f ≡ ok q
    → Stop q (suc i) fs e
    → Stop p i (f ∷ fs) e
unfolding loop
Stop-cons p q i f h s = record {
  good = f ∷ s.good;
  bad = s.bad;
  rest = s.rest;
  at = s.at;
  index = s.index;
  splits = ap (◌∷◌ f) s.splits;
  runs = rw h s.runs;
  index_is = omega (arith, s.index_is);
  stops = s.stops;
}

pub loop-Stop :
    (p : Progress) (i : ℕ) (frames : List Bytes) {e : FrameError}
    → loop p i frames ≡ err e
    → Stop p i frames e
unfolding loop
loop-Stop p i [] h = cc
loop-Stop p i (f ∷ fs) h = elim (err_of_chain (λ q. loop q (suc i) fs) (step p i f) h) [
  | inr s ↦ Stop-here p i f fs s
  | inl (q, later, s) ↦ Stop-cons p q i f s (loop-Stop q (suc i) fs later)
]

pub loop-stop :
    (p q : Progress) (i j : ℕ) (good : List Bytes) (bad : Bytes) (rest : List Bytes)
    {e : FrameError}
    → loop p i good ≡ ok q
    → j ≡ i + length good
    → step q j bad ≡ err e
    → loop p i (good ++ bad ∷ rest) ≡ err e
unfolding loop
loop-stop p q i j [] bad rest {e} h n s =
    let same : p ≡ q = ground arith in
    let here : j ≡ i = omega arith in let at : step p i bad ≡ err e = rw (same, ← here) s in rw at
loop-stop p q i j (f ∷ fs) bad rest h n s =
    let (p', later, s') = ok_of_chain (λ r. loop r (suc i) fs) (step p i f) h in
    rw s' (loop-stop p' q (suc i) j fs bad rest later (omega arith) s)
