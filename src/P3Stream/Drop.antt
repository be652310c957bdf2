-- ===== src/P3Stream/Drop.antt =====
-- src/lib.rs, `impl Drop for HwrP3Stream`: the join does not wait for ever.
use hellohq_wasm_runtime.Prelude.{
  ℕ, zero, suc, Bool, true, false, List, [], ◌∷◌, none, some, ◌≡◌, refl,
}
use hellohq_wasm_runtime.P3Stream.{
  Bytes, Driver, chunk, end, next, finish, panic, Worker, running, stopped, System, work, work_on,
  await_next, drop,
}

-- `n` actions of the worker.
unfoldable pub work_times : ℕ → System → System
work_times zero s = s
work_times (suc n) s = work_times n (work s)

unfoldable pub is_stopped : System → Bool
is_stopped s = elim s.worker [ running d ↦ false | stopped ↦ true ]

-- The session after the drop, with what is left of it.
abbrev dropped : System → List Bytes → Worker → System
dropped s inbound w = record s {
  rx = [];
  in_tx = false;
  inbound = inbound;
  connected = false;
  worker = w;
}

ends :
    (s : System) (inbound : List Bytes) (d : Driver)
    → (n : ℕ) × (is_stopped (work_times n (dropped s inbound (running d))) ≡ true)
unfolding work_times is_stopped work work_on await_next
ends s inbound (chunk c d) = let (n, e) = ends s inbound d in (suc n, e)
ends s inbound (end d) = let (n, e) = ends s inbound d in (suc n, e)
ends s [] (next k) = let (n, e) = ends s [] (k none) in (suc n, e)
ends s (c ∷ cs) (next k) = let (n, e) = ends s cs (k (some c)) in (suc n, e)
ends s inbound (finish r) = (1, refl)
ends s inbound panic = (1, refl)

stops :
    (s : System) (w : Worker) → (n : ℕ) × (is_stopped (work_times n (dropped s s.inbound w)) ≡ true)
unfolding work_times is_stopped
stops s (running d) = ends s s.inbound d
stops s stopped = (0, refl)

-- Dropping a streaming session, in any state, lets its worker run to its end: the inbound stream is
-- closed, so no wait for a chunk is left, and the join returns.
pub drop-is_stopped_after : (s : System) → (n : ℕ) × (is_stopped (work_times n (drop s)) ≡ true)
unfolding drop
drop-is_stopped_after s = stops s s.worker
