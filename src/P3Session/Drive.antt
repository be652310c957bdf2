-- ===== src/P3Session/Drive.antt =====
-- src/lib.rs, `HwrP3Session`: a caller that polls and resolves until the run ends.
use hellohq_wasm_runtime.Prelude.{
  ℕ, zero, suc, ◌+◌, true, false, List, [], ◌∷◌, Option, none, some, ok, err, ◌≡◌, refl, ap, ◌∙◌,
  arith,
}
use mathlib.Core.Option
use hellohq_wasm_runtime.P3Session.{
  Bytes, Guest, call, finish, panic, running, awaiting, System, Status, pending, error, work_on,
  poll_rx, poll_event, poll_empty, start, deliver, cancel, settle, work, poll, resolve,
}

-- The requests that a guest makes of a caller that answers with `f`, and how its run ends.
pub record Run : Type 0 where
  pub requests : List Bytes
  pub status : Status
  pub result : Bytes

unfoldable pub ended : Status → Bytes → Run
ended status result = record { requests = []; status = status; result = result }

-- A run whose first request is `q`.
unfoldable pub after : Bytes → Run → Run
after q r = record r { requests = q ∷ r.requests }

-- The guest run directly against `f`.
unfoldable pub direct : (Bytes → Bytes) → Guest → Run
unfolding after ended
direct f (call q k e) = after q (direct f (k (f q)))
direct f (finish (ok out)) = ended Status.done out
direct f (finish (err msg)) = ended error msg
direct f panic = ended error []

unfoldable pub requests : (Bytes → Bytes) → Guest → ℕ
requests f (call q k e) = suc (requests f (k (f q)))
requests f (finish r) = 0
requests f panic = 0

-- The caller's loop, for `n` polls; a blocked `poll` waits for the worker.
unfoldable pub drive : (Bytes → Bytes) → ℕ → System → Option Run
unfolding after ended
drive f zero s = none
drive f (suc n) s = elim (poll (settle s)) [
  | none ↦ none
  | some e ↦ elim e.1 [
    | pending ↦
        Option.map (after e.0.pending_request) (drive f n (resolve e.0 (f e.0.pending_request)))
    | Status.done ↦ some (ended Status.done e.0.result)
    | error ↦ some (ended error e.0.result)
  ]
]

-- A running session between two host calls.
abbrev idle : Bytes → Bytes → ℕ → Guest → System
idle q r n g = record {
  rx = [];
  pending_request = [];
  pending_respond = none;
  result = r;
  finished = false;
  connected = true;
  worker = running g;
  calls = n;
}

resumed :
    (q : Bytes) (n : ℕ) (k : Bytes → Guest) (e response : Bytes)
    → resolve
        (record {
          rx = [];
          pending_request = q;
          pending_respond = some n;
          result = [];
          finished = false;
          connected = true;
          worker = awaiting n k e;
          calls = n + 1;
        })
        response
      ≡ idle [] [] (n + 1) (k response)
unfolding resolve deliver
resumed q n k e response = ground arith

drive-idle :
    (f : Bytes → Bytes) (g : Guest) (n : ℕ)
    → drive f (suc (requests f g)) (idle [] [] n g) ≡ some (direct f g)
unfolding drive direct requests after ended settle work work_on poll poll_rx poll_event poll_empty
    resolve cancel deliver
drive-idle f (call q k e) n =
    ap (λ s. Option.map (after q) (drive f (suc (requests f (k (f q)))) s)) (resumed q n k e (f q))
    ∙ ap (Option.map (after q)) (drive-idle f (k (f q)) (n + 1))
drive-idle f (finish (ok out)) n = refl
drive-idle f (finish (err msg)) n = refl
drive-idle f panic n = refl

-- A caller that polls, and resolves every pending request `q` with `f q`, sees exactly the requests
-- that the guest makes when it runs directly against `f`, in order, then that run's end with its
-- output or message; one poll more than the guest makes requests is enough.
pub drive_lem :
    (f : Bytes → Bytes) (g : Guest) → drive f (suc (requests f g)) (start g) ≡ some (direct f g)
unfolding start
drive_lem f g = drive-idle f g 0
