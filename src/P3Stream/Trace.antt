-- ===== src/P3Stream/Trace.antt =====
-- src/lib.rs, `HwrP3Stream`: what the caller sees of a run, in any interleaving of its calls with the
-- worker's actions.
pub mod Queue
pub mod Told
use hellohq_wasm_runtime.Prelude.{
  ℕ, Bool, true, false, List, [], ◌∷◌, ◌++◌, Option, none, some, Result, ok, err, if◌then◌else◌,
  ◌≡◌, refl, sym, ap, ◌∙◌, subst, arith, append_assoc, append-nil, Bool-cases, inl, inr,
}
use hellohq_wasm_runtime.P3Stream.{
  Bytes, Driver, chunk, end, next, finish, panic, P3sEvent, Worker, running, stopped, System,
  Status, error, start, send, await_next, work, work_on, poll, poll_rx, poll_event, poll_empty,
  push, push_end,
}

-- The events of a driver that is given the inbound chunks `cs` and then their end.
unfoldable pub emitted : Driver → List Bytes → List P3sEvent
emitted (chunk c d) cs = P3sEvent.out c ∷ emitted d cs
emitted (end d) cs = P3sEvent.out_end ∷ emitted d cs
emitted (next k) [] = emitted (k none) []
emitted (next k) (c ∷ cs) = emitted (k (some c)) cs
emitted (finish r) cs = P3sEvent.done r ∷ []
emitted panic cs = []

-- What a caller is told of events: all up to the end of the run; if that is missing, the worker is
-- gone, and it is told an error with the result that is there.
unfoldable pub told : Bytes → List P3sEvent → List P3sEvent
told result [] = P3sEvent.done (err result) ∷ []
told result (P3sEvent.out c ∷ es) = P3sEvent.out c ∷ told result es
told result (P3sEvent.out_end ∷ es) = P3sEvent.out_end ∷ told result es
told result (P3sEvent.done r ∷ es) = P3sEvent.done r ∷ []

-- What the caller reads after a poll with this status.
unfoldable pub observed : Status → System → P3sEvent
observed Status.out s = P3sEvent.out s.current_out
observed Status.out_end s = P3sEvent.out_end
observed Status.done s = P3sEvent.done (ok s.result)
observed error s = P3sEvent.done (err s.result)

-- A step of the two sides. A blocked `poll` changes nothing; one after the end tells nothing new.
pub data Step : Type 0 where
  worker_works caller_polls caller_ends : Step
  caller_pushes : Bytes → Step

unfoldable pub after_poll : System → Option (System × Status) → List P3sEvent × System
unfolding observed
after_poll s none = ([], s)
after_poll s (some (t, st)) = (observed st t ∷ [], t)

unfoldable pub poll_step : System → Bool → List P3sEvent × System
unfolding after_poll
poll_step s true = ([], s)
poll_step s false = after_poll s (poll s)

-- What the caller reads in a step, and the state after it.
unfoldable pub take_step : System → Step → List P3sEvent × System
unfolding poll_step
take_step s worker_works = ([], work s)
take_step s caller_polls = poll_step s s.finished
take_step s caller_ends = ([], push_end s)
take_step s (caller_pushes c) = ([], push s c)

unfoldable pub take_steps : System → List Step → List P3sEvent × System
unfolding take_step
take_steps s [] = ([], s)
take_steps s (a ∷ rest) =
    let (seen, t) = take_step s a in let (later, u) = take_steps t rest in (seen ++ later, u)

-- The chunks that the steps push, while the sender is there.
unfoldable pub pushed : Bool → List Step → List Bytes
pushed in_tx [] = []
pushed in_tx (worker_works ∷ rest) = pushed in_tx rest
pushed in_tx (caller_polls ∷ rest) = pushed in_tx rest
pushed in_tx (caller_ends ∷ rest) = pushed false rest
pushed true (caller_pushes c ∷ rest) = c ∷ pushed true rest
pushed false (caller_pushes c ∷ rest) = pushed false rest

-- What is still to come from the worker, and for the caller.
to_emit : Worker → List Bytes → List P3sEvent
unfolding emitted
to_emit (running d) cs = emitted d cs
to_emit stopped cs = []

unless_finished : Bool → List P3sEvent → List P3sEvent
unless_finished true es = []
unless_finished false es = es

-- What the caller is told of these events from this state on.
read_queue : System → List P3sEvent → List P3sEvent
unfolding told unless_finished
read_queue s es = unless_finished s.finished (told s.result es)

unfoldable pub to_come : System → List Bytes → List P3sEvent
unfolding to_emit read_queue
to_come s cs = read_queue s (s.rx ++ to_emit s.worker (s.inbound ++ cs))
