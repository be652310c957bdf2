-- ===== src/P3Stream.antt =====
-- src/lib.rs, `HwrP3Stream`: a driver on a worker thread that emits outbound chunks to the caller and
-- awaits inbound chunks from it. The driver is any tree of these actions.
pub mod Abi
pub mod Trace
pub mod Drop
use hellohq_wasm_runtime.Prelude.{
  ℕ, zero, suc, Bool, true, false, List, [], ◌∷◌, ◌++◌, Option, none, some, Result, ok, err,
  if◌then◌else◌,
}

abbrev pub Bytes : Type 0
Bytes = List ℕ

-- What a driver does next. A `String` is its bytes.
pub data Driver : Type 0 where
  chunk : Bytes → Driver → Driver
  end : Driver → Driver
  next : (Option Bytes → Driver) → Driver
  finish : Result Bytes Bytes → Driver
  panic : Driver

pub data P3sEvent : Type 0 where
  out : Bytes → P3sEvent
  out_end : P3sEvent
  done : Result Bytes Bytes → P3sEvent

pub data Worker : Type 0 where
  running : Driver → Worker
  stopped : Worker

-- The session's fields, with the buffers of its two channels, whether the inbound sender and the
-- receiver are there, and the worker.
pub record System : Type 0 where
  pub rx : List P3sEvent
  pub in_tx : Bool
  pub inbound : List Bytes
  pub current_out : Bytes
  pub result : Bytes
  pub finished : Bool
  pub connected : Bool
  pub worker : Worker

pub data Status : Type 0 where
  out out_end done error : Status

-- The return codes of the C interface.
abbrev pub code : Status → ℕ
code Status.out = 0
code Status.out_end = 1
code Status.done = 2
code error = 3

-- `p3s_run_session`
unfoldable pub start : Driver → System
start d = record {
  rx = [];
  in_tx = true;
  inbound = [];
  current_out = [];
  result = [];
  finished = false;
  connected = true;
  worker = running d;
}

-- The events with one more, if the receiver is there.
abbrev pub send : System → P3sEvent → List P3sEvent
send s e = if s.connected then s.rx ++ e ∷ [] else s.rx

-- `next` on the inbound receiver: a chunk, the end once the sender is gone, or a wait.
pub await_next : System → List Bytes → (Option Bytes → Driver) → System
await_next s (c ∷ cs) k = record s { inbound = cs; worker = running (k (some c)) }
await_next s [] k = if s.in_tx then s else record s { worker = running (k none) }

-- One action of the worker.
pub work_on : System → Worker → System
unfolding await_next
work_on s (running (chunk c d)) = record s { rx = send s (P3sEvent.out c); worker = running d }
work_on s (running (end d)) = record s { rx = send s P3sEvent.out_end; worker = running d }
work_on s (running (next k)) = await_next s s.inbound k
work_on s (running (finish r)) = record s { rx = send s (P3sEvent.done r); worker = stopped }
work_on s (running panic) = record s { worker = stopped }
work_on s stopped = s

unfoldable pub work : System → System
unfolding work_on
work s = work_on s s.worker

pub poll_event : System → P3sEvent → List P3sEvent → System × Status
poll_event s (P3sEvent.out c) es = (record s { rx = es; current_out = c }, Status.out)
poll_event s P3sEvent.out_end es = (record s { rx = es }, Status.out_end)
poll_event s (P3sEvent.done (ok r)) es =
    (record s { rx = es; result = r; finished = true }, Status.done)
poll_event s (P3sEvent.done (err msg)) es =
    (record s { rx = es; result = msg; finished = true }, error)

pub poll_empty : System → Worker → Option (System × Status)
poll_empty s stopped = some (record s { finished = true }, error)
poll_empty s (running d) = none

pub poll_rx : System → List P3sEvent → Option (System × Status)
unfolding poll_event poll_empty
poll_rx s [] = poll_empty s s.worker
poll_rx s (e ∷ es) = some (poll_event s e es)

-- `poll`; none if it blocks.
unfoldable pub poll : System → Option (System × Status)
unfolding poll_rx
poll s = if s.finished then some (s, Status.done) else poll_rx s s.rx

unfoldable pub push : System → Bytes → System
push s bytes = if s.in_tx then record s { inbound = s.inbound ++ bytes ∷ [] } else s

unfoldable pub push_end : System → System
push_end s = record s { in_tx = false }

-- `drop`, up to the join.
unfoldable pub drop : System → System
drop s = record s { in_tx = false; rx = []; connected = false }

-- What the caller reads.
abbrev pub out_chunk : System → Bytes
out_chunk s = s.current_out

abbrev pub result : System → Bytes
result s = s.result
