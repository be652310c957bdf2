-- ===== src/Tests/Stream.antt =====
-- Examples for the streaming sessions.
use hellohq_wasm_runtime.Prelude.{ℕ, true, List, [], ◌∷◌, ◌++◌, Option, none, some, ok, err, ◌≡◌}
use hellohq_wasm_runtime.P3Stream.{Bytes, Driver, chunk, end, next, finish, start, drop}
use hellohq_wasm_runtime.P3Stream.Drop.{work_times, is_stopped, drop-is_stopped_after}
use hellohq_wasm_runtime.P3Stream.Abi.{read_through, read_through-emitted}
use hellohq_wasm_runtime.P3Stream.Trace.{
  emitted, told, Step, worker_works, caller_polls, caller_pushes, take_steps, pushed, to_come,
}

-- A driver that sends one chunk and returns the first chunk it gets.
abbrev first_chunk : Option Bytes → Driver
first_chunk none = finish (err [])
first_chunk (some c) = finish (ok c)

abbrev exchange : Driver
exchange = chunk (1 ∷ []) (end (next first_chunk))

drop-is_stopped_after_example : (n : ℕ) × (is_stopped (work_times n (drop (start exchange))) ≡ true)
drop-is_stopped_after_example = drop-is_stopped_after (start exchange)

abbrev steps : List Step
steps =
    caller_polls
    ∷ worker_works
    ∷ caller_polls
    ∷ caller_pushes (5 ∷ [])
    ∷ worker_works
    ∷ worker_works
    ∷ worker_works
    ∷ caller_polls
    ∷ []

read_through-emitted_example :
    read_through exchange steps ++ to_come (take_steps (start exchange) steps).1 []
    ≡ told [] (emitted exchange (pushed true steps))
read_through-emitted_example = read_through-emitted exchange steps
