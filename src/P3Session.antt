-- ===== src/P3Session.antt =====
-- src/lib.rs, `HwrP3Session`: a run of a guest on a worker thread, whose host calls the caller services
-- by `poll` and `resolve`. The worker and the session share the event channel `rx` and one `oneshot`
-- for each host call; the guest is any tree of host calls.
-- The runs are those of `p3_drive`, where a host call that is cancelled ends the guest's run; the typed
-- sessions of `p3_run_session_sync`, whose guests are told of it and go on, are not modelled.
pub mod Abi
pub mod Drive
pub mod Drop
pub mod Ends
use hellohq_wasm_runtime.Prelude.{
  ℕ, ◌+◌, Bool, true, false, List, [], ◌∷◌, ◌++◌, Option, none, some, Result, ok, err, ◌==◌,
  if◌then◌else◌,
}

abbrev pub Bytes : Type 0
Bytes = List ℕ

-- What a guest does next: a host call, with how it goes on after the response and the message its run
-- fails with if the call is cancelled; the end of the run; or a panic of the worker. A `String` is its
-- bytes.
pub data Guest : Type 0 where
  call : Bytes → (Bytes → Guest) → Bytes → Guest
  finish : Result Bytes Bytes → Guest
  panic : Guest

-- An event; a responder is the number of its host call.
pub data P3Event : Type 0 where
  host_call : Bytes → ℕ → P3Event
  done : Result Bytes Bytes → P3Event

pub data Worker : Type 0 where
  running : Guest → Worker
  awaiting : ℕ → (Bytes → Guest) → Bytes → Worker
  stopped : Worker

-- The session's fields, whether its receiver is connected, and the worker with the number of its next
-- host call.
pub record System : Type 0 where
  pub rx : List P3Event
  pub pending_request : Bytes
  pub pending_respond : Option ℕ
  pub result : Bytes
  pub finished : Bool
  pub connected : Bool
  pub worker : Worker
  pub calls : ℕ

pub data Status : Type 0 where
  pending done error : Status

-- The return codes of the C interface.
abbrev pub code : Status → ℕ
code pending = 1
code Status.done = 2
code error = 3

-- `p3_run_session`
unfoldable pub start : Guest → System
start g = record {
  rx = [];
  pending_request = [];
  pending_respond = none;
  result = [];
  finished = false;
  connected = true;
  worker = running g;
  calls = 0;
}

-- The worker when the response to call `n` comes, and when the responder of call `n` is dropped.
unfoldable pub deliver : ℕ → Bytes → Worker → Worker
deliver n response (running g) = running g
deliver n response (awaiting m k e) = if n == m then running (k response) else awaiting m k e
deliver n response stopped = stopped

unfoldable pub cancel : ℕ → Worker → Worker
cancel n (running g) = running g
cancel n (awaiting m k e) = if n == m then running (finish (err e)) else awaiting m k e
cancel n stopped = stopped

abbrev pub cancel_respond : Option ℕ → Worker → Worker
cancel_respond none w = w
cancel_respond (some n) w = cancel n w

-- The responders of the buffered events are dropped.
unfoldable pub cancel_events : List P3Event → Worker → Worker
unfolding cancel
cancel_events [] w = w
cancel_events (host_call q n ∷ es) w = cancel_events es (cancel n w)
cancel_events (P3Event.done r ∷ es) w = cancel_events es w

-- One step of the worker, up to its next event. A send that fails drops the responder in it.
work_on : System → Worker → System
work_on s (running (call q k e)) =
    if s.connected
    then record s {
      rx = s.rx ++ host_call q s.calls ∷ [];
      worker = awaiting s.calls k e;
      calls = s.calls + 1;
    }
    else record s { worker = running (finish (err e)); calls = s.calls + 1 }
work_on s (running (finish r)) =
    if s.connected
    then record s { rx = s.rx ++ P3Event.done r ∷ []; worker = stopped }
    else record s { worker = stopped }
work_on s (running panic) = record s { worker = stopped }
work_on s (awaiting n k e) = s
work_on s stopped = s

unfoldable pub work : System → System
unfolding work_on
work s = work_on s s.worker

-- The worker as far as it goes by itself.
unfoldable pub settle : System → System
unfolding work
settle s = work (work s)

-- What `poll` does with an event.
poll_event : System → P3Event → List P3Event → System × Status
unfolding cancel
poll_event s (host_call q n) es = (
  record s {
    rx = es;
    pending_request = q;
    pending_respond = some n;
    worker = cancel_respond s.pending_respond s.worker;
  },
  pending,
)
poll_event s (P3Event.done (ok out)) es =
    (record s { rx = es; result = out; finished = true }, Status.done)
poll_event s (P3Event.done (err msg)) es =
    (record s { rx = es; result = msg; finished = true }, error)

-- `recv` on an empty channel: it fails if the worker is gone, and blocks otherwise.
poll_empty : System → Worker → Option (System × Status)
poll_empty s stopped = some (record s { finished = true }, error)
poll_empty s _ = none

poll_rx : System → List P3Event → Option (System × Status)
unfolding poll_event poll_empty
poll_rx s [] = poll_empty s s.worker
poll_rx s (e ∷ es) = some (poll_event s e es)

-- `poll`; none if it blocks.
unfoldable pub poll : System → Option (System × Status)
unfolding poll_rx
poll s = if s.finished then some (s, Status.done) else poll_rx s s.rx

abbrev pub deliver_respond : Option ℕ → Bytes → Worker → Worker
deliver_respond none response w = w
deliver_respond (some n) response w = deliver n response w

unfoldable pub resolve : System → Bytes → System
unfolding deliver
resolve s response = record s {
  pending_request = [];
  pending_respond = none;
  worker = deliver_respond s.pending_respond response s.worker;
}

-- `drop`, up to the join: the pending responder goes, then the receiver with what it buffers.
unfoldable pub drop : System → System
unfolding cancel cancel_events
drop s = record s {
  rx = [];
  pending_respond = none;
  connected = false;
  worker = cancel_events s.rx (cancel_respond s.pending_respond s.worker);
}

-- What the caller reads.
abbrev pub request : System → Bytes
request s = s.pending_request

abbrev pub result : System → Bytes
result s = s.result
