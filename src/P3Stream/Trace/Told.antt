-- ===== src/P3Stream/Trace/Told.antt =====
-- src/lib.rs, `HwrP3Stream`: what the caller is told in any interleaving.
use hellohq_wasm_runtime.Prelude.{
  Bool, true, false, List, [], ◌∷◌, ◌++◌, Option, none, some, ok, err, if◌then◌else◌, ◌≡◌, refl,
  sym, ap, ◌∙◌, subst, append_assoc,
}
use hellohq_wasm_runtime.P3Stream.{
  Bytes, Driver, chunk, end, next, finish, panic, P3sEvent, Worker, running, stopped, System,
  Status, start, await_next, work, work_on, poll, poll_rx, poll_event, poll_empty, push, push_end,
}
use hellohq_wasm_runtime.P3Stream.Trace.{
  emitted, told, Step, worker_works, caller_polls, caller_ends, caller_pushes, after_poll,
  poll_step, take_steps, pushed, to_emit, unless_finished, read_queue, to_come,
}
use hellohq_wasm_runtime.P3Stream.Trace.Queue.{
  IsOpen, pushed_closed, to_come-work, to_come-poll_empty, to_come-poll_event,
}

-- The two ends of the channels, which the worker's actions and polls leave as they are.
Ends : System → System → Type 0
Ends t s = (t.in_tx ≡ s.in_tx) × (t.connected ≡ s.connected)

Ends-await_ended :
    (s : System) (d : Driver) (in_tx : Bool)
    → Ends (if in_tx then s else record s { worker = running d }) s
unfolding Ends
Ends-await_ended s d true = (refl, refl)
Ends-await_ended s d false = (refl, refl)

Ends-await_next :
    (s : System) (inbound : List Bytes) (k : Option Bytes → Driver)
    → Ends (await_next s inbound k) s
unfolding await_next Ends
Ends-await_next s [] k = Ends-await_ended s (k none) s.in_tx
Ends-await_next s (c ∷ inbound) k = (refl, refl)

Ends-work_on : (s : System) (w : Worker) → Ends (work_on s w) s
unfolding work_on Ends
Ends-work_on s (running (chunk c d)) = (refl, refl)
Ends-work_on s (running (end d)) = (refl, refl)
Ends-work_on s (running (next k)) = Ends-await_next s s.inbound k
Ends-work_on s (running (finish r)) = (refl, refl)
Ends-work_on s (running panic) = (refl, refl)
Ends-work_on s stopped = (refl, refl)

-- A step's end: the same ends of the channels, and what it told is the first of what was to come.
TellsNext : System → List Bytes → List P3sEvent × System → Type 0
TellsNext s cs (seen, t) = Ends t s × (seen ++ to_come t cs ≡ to_come s cs)

empty_cases :
    (s : System) (w : Worker) (cs : List Bytes)
    → s.finished ≡ false
    → s.worker ≡ w
    → s.rx ≡ []
    → TellsNext s cs (after_poll s (poll_empty s w))
unfolding TellsNext Ends after_poll poll_empty
empty_cases s (running d) cs f h e = ((refl, refl), to_come-poll_empty s (running d) cs f h e)
empty_cases s stopped cs f h e = ((refl, refl), to_come-poll_empty s stopped cs f h e)

poll_rx-TellsNext :
    (s : System) (es : List P3sEvent) (cs : List Bytes)
    → s.finished ≡ false
    → s.rx ≡ es
    → TellsNext s cs (after_poll s (poll_rx s es))
unfolding TellsNext Ends poll_rx after_poll poll_empty poll_event
poll_rx-TellsNext s [] cs f h = empty_cases s s.worker cs f refl h
poll_rx-TellsNext s (P3sEvent.out c ∷ es) cs f h =
    ((refl, refl), to_come-poll_event s (P3sEvent.out c) es cs f h)
poll_rx-TellsNext s (P3sEvent.out_end ∷ es) cs f h =
    ((refl, refl), to_come-poll_event s P3sEvent.out_end es cs f h)
poll_rx-TellsNext s (P3sEvent.done (ok r) ∷ es) cs f h =
    ((refl, refl), to_come-poll_event s (P3sEvent.done (ok r)) es cs f h)
poll_rx-TellsNext s (P3sEvent.done (err msg) ∷ es) cs f h =
    ((refl, refl), to_come-poll_event s (P3sEvent.done (err msg)) es cs f h)

poll_step-TellsNext :
    (s : System) (finished : Bool) (cs : List Bytes)
    → s.finished ≡ finished
    → TellsNext s cs (poll_step s finished)
unfolding poll_step poll TellsNext Ends
poll_step-TellsNext s true cs f = ((refl, refl), refl)
poll_step-TellsNext s false cs f =
    subst (λ b. TellsNext s cs (after_poll s (if b then some (s, Status.done) else poll_rx s s.rx)))
      (sym f) (poll_rx-TellsNext s s.rx cs f refl)

IsOpen-pushed : (in_tx : Bool) (steps : List Step) → IsOpen in_tx (pushed in_tx steps)
unfolding IsOpen
IsOpen-pushed true steps = tt
IsOpen-pushed false steps = pushed_closed steps

abbrev pushed_to : System → Bytes → Bool → System
pushed_to s c in_tx = if in_tx then record s { inbound = s.inbound ++ c ∷ [] } else s

push-connected :
    (s : System) (c : Bytes) (in_tx : Bool) → (pushed_to s c in_tx).connected ≡ s.connected
push-connected s c true = refl
push-connected s c false = refl

to_come-push :
    (s : System) (c : Bytes) (rest : List Step) (in_tx : Bool)
    → s.in_tx ≡ in_tx
    → to_come (pushed_to s c in_tx) (pushed (pushed_to s c in_tx).in_tx rest)
      ≡ to_come s (pushed in_tx (caller_pushes c ∷ rest))
unfolding to_come read_queue pushed
to_come-push s c rest true o =
    ap (λ b. to_come (pushed_to s c true) (pushed b rest)) o
    ∙ ap (λ x. read_queue s (s.rx ++ to_emit s.worker x))
        (append_assoc s.inbound (c ∷ []) (pushed true rest))
to_come-push s c rest false o = ap (λ b. to_come s (pushed b rest)) o

-- Steps from a connected state tell what was to come, up to what is still to come after them.
take_steps-to_come :
    (s : System) (steps : List Step)
    → s.connected ≡ true
    → (take_steps s steps).0 ++ to_come (take_steps s steps).1 [] ≡ to_come s (pushed s.in_tx steps)
unfolding take_steps pushed push_end push to_come read_queue work TellsNext Ends
take_steps-to_come s [] l = refl
take_steps-to_come s (worker_works ∷ rest) l =
    let (same, still) = Ends-work_on s s.worker in
    take_steps-to_come (work s) rest (still ∙ l)
    ∙ ap (λ b. to_come (work s) (pushed b rest)) same
    ∙ to_come-work s s.worker (pushed s.in_tx rest) refl l (IsOpen-pushed s.in_tx rest)
take_steps-to_come s (caller_polls ∷ rest) l =
    let (seen, t) = poll_step s s.finished in
    let ((same, still), told_next) = poll_step-TellsNext s s.finished (pushed s.in_tx rest) refl in
    append_assoc seen (take_steps t rest).0 (to_come (take_steps t rest).1 [])
    ∙ ap (λ es. seen ++ es)
        (take_steps-to_come t rest (still ∙ l) ∙ ap (λ b. to_come t (pushed b rest)) same)
    ∙ told_next
take_steps-to_come s (caller_ends ∷ rest) l = take_steps-to_come (push_end s) rest l
take_steps-to_come s (caller_pushes c ∷ rest) l =
    take_steps-to_come (push s c) rest (push-connected s c s.in_tx ∙ l)
    ∙ to_come-push s c rest s.in_tx refl

-- What the caller reads while it polls, pushes chunks and ends the inbound stream, in any interleaving
-- with the worker's actions, is a first part of the events of the driver when it is given the pushed
-- chunks up to the end, and what is still to come is the rest.
pub take_steps_lem :
    (d : Driver) (steps : List Step)
    → (take_steps (start d) steps).0 ++ to_come (take_steps (start d) steps).1 []
      ≡ told [] (emitted d (pushed true steps))
unfolding start to_come read_queue to_emit unless_finished
take_steps_lem d steps = take_steps-to_come (start d) steps refl
