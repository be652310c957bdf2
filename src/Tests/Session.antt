-- ===== src/Tests/Session.antt =====
-- Examples for the sessions and the `wasi:http` host.
use hellohq_wasm_runtime.Prelude.{suc, true, false, [], ◌∷◌, ◌++◌, none, some, ok, err, ◌≡◌, refl}
use hellohq_wasm_runtime.P3Session.{
  Bytes, Guest, call, finish, P3Event, stopped, System, error, start, settle, drop, poll,
}
use hellohq_wasm_runtime.P3Session.Abi.{coded, call_through, call_through-direct}
use hellohq_wasm_runtime.P3Session.Drive.{direct, requests}
use hellohq_wasm_runtime.P3Session.Drop.{worker_works, take_steps, is_stopped, drop-is_stopped}

-- A guest that makes one call and returns its response.
abbrev echo : Guest
echo = call (7 ∷ []) (λ r. finish (ok r)) []

abbrev twice : Bytes → Bytes
twice q = q ++ q

-- A call that the caller has not polled.
drop-is_stopped_example :
    is_stopped (settle (drop (take_steps (start echo) (worker_works ∷ [])))) ≡ true
drop-is_stopped_example = drop-is_stopped echo (worker_works ∷ [])

-- A session whose run has failed.
abbrev failed : System
failed = record {
  rx = P3Event.done (err (9 ∷ [])) ∷ [];
  pending_request = [];
  pending_respond = none;
  result = [];
  finished = false;
  connected = true;
  worker = stopped;
  calls = 0;
}

abbrev reported : System
reported = record failed { rx = []; result = 9 ∷ []; finished = true }

failed-poll : poll failed ≡ some (reported, error)
unfolding poll
failed-poll = refl

call_through-direct_example :
    call_through twice (suc (requests twice echo)) (some (start echo))
    ≡ some (coded (direct twice echo))
call_through-direct_example = call_through-direct twice echo
