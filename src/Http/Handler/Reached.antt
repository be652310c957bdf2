-- ===== src/Http/Handler/Reached.antt =====
-- src/wasi_http.rs, `handle_via_transport`: the hosts that other tasks and the body's steps lead to.
use hellohq_wasm_runtime.Prelude.{ℕ, suc, List, [], ◌∷◌, ◌≡◌, refl, Option-cases, inl, inr}
use hellohq_wasm_runtime.Frames
use hellohq_wasm_runtime.Frames.{Bytes, OutFrameKind}
use hellohq_wasm_runtime.P3Stream.{P3sEvent}
use hellohq_wasm_runtime.Http.Handler.{HttpHost, Await, Tasks, emit}
use hellohq_wasm_runtime.Http.Handler.Send.{push_batches}

-- A host that `h` may become before the trailers are awaited: by other tasks at a wait, and by the steps of
-- the request, which leave the `fields` alone.
pub data Reached (w : Tasks) (h : HttpHost) : HttpHost → Type 0 where
  at_start : Reached w h h
  after_task : (a : Await) (g : HttpHost) → Reached w h g → Reached w h (w.meanwhile a g)
  after_own :
      (g g' : HttpHost) → g'.resources.fields ≡ g.resources.fields → Reached w h g → Reached w h g'

emit-Reached :
    {w : Tasks} {h : HttpHost} (e : P3sEvent) (g : HttpHost)
    → Reached w h g
    → Reached w h (emit e g)
unfolding emit
emit-Reached e g r = elim (Option-cases g.transport) [
  | inl none_there ↦ after_own g (emit e g) (rw (emit, none_there) refl) r
  | inr (t, e') ↦ after_own g (emit e g) (rw (emit, e') refl) r
]

pub push_batches-Reached :
    {w : Tasks} {h : HttpHost} (n : ℕ) (chunks : List Bytes) (g : HttpHost)
    → Reached w h g
    → Reached w h (push_batches w n chunks g)
unfolding push_batches
push_batches-Reached n [] g r = after_task (Await.batch n) g r
push_batches-Reached {w} n ([] ∷ chunks) g r =
    push_batches-Reached (suc n) chunks (w.meanwhile (Await.batch n) g)
      (after_task (Await.batch n) g r)
push_batches-Reached {w} n ((b ∷ c) ∷ chunks) g r =
    let e : P3sEvent = P3sEvent.out (Frames.encode OutFrameKind.body (b ∷ c)) in
    push_batches-Reached (suc n) chunks (emit e (w.meanwhile (Await.batch n) g))
      (emit-Reached e (w.meanwhile (Await.batch n) g) (after_task (Await.batch n) g r))
