-- ===== src/P3Stream/Trace/Queue.antt =====
-- src/lib.rs, `HwrP3Stream`: one action of the worker or one poll, and the events still to come.
use hellohq_wasm_runtime.Prelude.{
  Bool, true, false, List, [], ◌∷◌, ◌++◌, Option, none, ok, err, if◌then◌else◌, ◌≡◌, refl, sym, ap,
  ◌∙◌, append_assoc,
}
use hellohq_wasm_runtime.P3Stream.{
  Bytes, Driver, chunk, end, next, finish, panic, P3sEvent, Worker, running, stopped, System, send,
  await_next, work_on, poll_event, poll_empty,
}
use hellohq_wasm_runtime.P3Stream.Trace.{
  emitted, told, observed, Step, worker_works, caller_polls, caller_ends, caller_pushes, after_poll,
  pushed, to_emit, unless_finished, read_queue, to_come,
}

pub pushed_closed : (steps : List Step) → pushed false steps ≡ []
unfolding pushed
pushed_closed [] = refl
pushed_closed (worker_works ∷ rest) = pushed_closed rest
pushed_closed (caller_polls ∷ rest) = pushed_closed rest
pushed_closed (caller_ends ∷ rest) = pushed_closed rest
pushed_closed (caller_pushes c ∷ rest) = pushed_closed rest

-- The chunks that are still to be pushed are none once the sender is gone.
unfoldable pub IsOpen : Bool → List Bytes → Type 0
IsOpen true cs = Unit
IsOpen false cs = cs ≡ []

sent-append :
    (s : System) (e : P3sEvent) (es : List P3sEvent)
    → s.connected ≡ true
    → send s e ++ es ≡ s.rx ++ e ∷ es
sent-append s e es l = rw l (append_assoc s.rx (e ∷ []) es)

to_come-await_ended :
    (s : System) (k : Option Bytes → Driver) (cs : List Bytes) (in_tx : Bool)
    → s.worker ≡ running (next k)
    → s.inbound ≡ []
    → IsOpen in_tx cs
    → to_come (if in_tx then s else record s { worker = running (k none) }) cs ≡ to_come s cs
unfolding to_come read_queue to_emit emitted IsOpen
to_come-await_ended s k cs true h i o = refl
to_come-await_ended s k cs false h i o =
    let none_left : s.inbound ++ cs ≡ [] = rw (i, o) refl in
    ap (λ x. read_queue s (s.rx ++ emitted (k none) x)) none_left
    ∙ ap (λ x. read_queue s (s.rx ++ emitted (next k) x)) (sym none_left)
    ∙ ap (λ w. read_queue s (s.rx ++ to_emit w (s.inbound ++ cs))) (sym h)

to_come-await_next :
    (s : System) (inbound : List Bytes) (k : Option Bytes → Driver) (cs : List Bytes)
    → s.worker ≡ running (next k)
    → s.inbound ≡ inbound
    → IsOpen s.in_tx cs
    → to_come (await_next s inbound k) cs ≡ to_come s cs
unfolding to_come read_queue to_emit emitted await_next
to_come-await_next s [] k cs h i o = to_come-await_ended s k cs s.in_tx h i o
to_come-await_next s (c ∷ inbound) k cs h i o =
    ap (λ x. read_queue s (s.rx ++ emitted (next k) (x ++ cs))) (sym i)
    ∙ ap (λ w. read_queue s (s.rx ++ to_emit w (s.inbound ++ cs))) (sym h)

pub to_come-work :
    (s : System) (w : Worker) (cs : List Bytes)
    → s.worker ≡ w
    → s.connected ≡ true
    → IsOpen s.in_tx cs
    → to_come (work_on s w) cs ≡ to_come s cs
unfolding to_come read_queue work_on to_emit emitted
to_come-work s (running (chunk c d)) cs h l o =
    ap (read_queue s) (sent-append s (P3sEvent.out c) (emitted d (s.inbound ++ cs)) l)
    ∙ ap (λ w. read_queue s (s.rx ++ to_emit w (s.inbound ++ cs))) (sym h)
to_come-work s (running (end d)) cs h l o =
    ap (read_queue s) (sent-append s P3sEvent.out_end (emitted d (s.inbound ++ cs)) l)
    ∙ ap (λ w. read_queue s (s.rx ++ to_emit w (s.inbound ++ cs))) (sym h)
to_come-work s (running (next k)) cs h l o = to_come-await_next s s.inbound k cs h refl o
to_come-work s (running (finish r)) cs h l o =
    ap (read_queue s) (sent-append s (P3sEvent.done r) [] l)
    ∙ ap (λ w. read_queue s (s.rx ++ to_emit w (s.inbound ++ cs))) (sym h)
to_come-work s (running panic) cs h l o =
    ap (λ w. read_queue s (s.rx ++ to_emit w (s.inbound ++ cs))) (sym h)
to_come-work s stopped cs h l o = refl

-- A poll tells the first event to come.
pub to_come-poll_empty :
    (s : System) (w : Worker) (cs : List Bytes)
    → s.finished ≡ false
    → s.worker ≡ w
    → s.rx ≡ []
    → (let (seen, t) = after_poll s (poll_empty s w) in seen ++ to_come t cs) ≡ to_come s cs
unfolding to_come read_queue after_poll poll_empty to_emit emitted told unless_finished observed
to_come-poll_empty s (running d) cs f h e = refl
to_come-poll_empty s stopped cs f h e = rw (f, h, e) refl

pub to_come-poll_event :
    (s : System) (e : P3sEvent) (es : List P3sEvent) (cs : List Bytes)
    → s.finished ≡ false
    → s.rx ≡ e ∷ es
    → (let (t, st) = poll_event s e es in observed st t ∷ to_come t cs) ≡ to_come s cs
unfolding to_come read_queue poll_event to_emit emitted told unless_finished observed
to_come-poll_event s (P3sEvent.out c) es cs f h = rw (f, h) refl
to_come-poll_event s P3sEvent.out_end es cs f h = rw (f, h) refl
to_come-poll_event s (P3sEvent.done (ok r)) es cs f h = rw (f, h) refl
to_come-poll_event s (P3sEvent.done (err msg)) es cs f h = rw (f, h) refl
