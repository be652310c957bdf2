-- ===== src/P3Stream/Abi.antt =====
-- src/lib.rs, the `hwr_p3s_*` functions: a streaming session behind a pointer that may be null. A panic
-- inside the session, which the functions catch, does not arise in the model.
use hellohq_wasm_runtime.Prelude.{
  ℕ, Bool, true, false, List, [], ◌∷◌, ◌++◌, length, Option, none, some, ok, err, ◌==◌,
  if◌then◌else◌, ◌≡◌, refl, sym, subst, ap, ◌∙◌, arith,
}
use hellohq_wasm_runtime.Pointer.{Pointer, copied, read, read-length}
use hellohq_wasm_runtime.P3Stream.{
  Bytes, Driver, chunk, end, next, finish, panic, P3sEvent, System, Status, error, code, start,
  work, work_on, await_next, poll, poll_rx, poll_event, poll_empty, Worker, running, stopped, push,
  push_end, drop, out_chunk, result,
}
use hellohq_wasm_runtime.P3Stream.Trace.{
  observed, Step, worker_works, caller_polls, caller_ends, caller_pushes, after_poll, poll_step,
  take_step, take_steps, to_come, told, emitted, pushed,
}
use hellohq_wasm_runtime.P3Stream.Trace.Told.{take_steps_lem}

-- A null pointer, or one to a session.
abbrev pub Session : Type 0
Session = Option System

-- The new session with the code; none if the call blocks.
answered : Option (System × Status) → Option (Session × ℕ)
answered none = none
answered (some (s, st)) = some (some s, code st)

unfoldable pub hwr_p3s_poll : Session → Option (Session × ℕ)
unfolding poll answered
hwr_p3s_poll none = some (none, code error)
hwr_p3s_poll (some s) = answered (poll s)

unfoldable pub hwr_p3s_out_ptr : Session → Pointer
hwr_p3s_out_ptr none = none
hwr_p3s_out_ptr (some s) = some (out_chunk s)

unfoldable pub hwr_p3s_out_len : Session → ℕ
hwr_p3s_out_len none = 0
hwr_p3s_out_len (some s) = length (out_chunk s)

unfoldable pub hwr_p3s_push : Session → Pointer → Session
unfolding push
hwr_p3s_push none bytes = none
hwr_p3s_push (some s) bytes = some (push s (copied bytes))

unfoldable pub hwr_p3s_push_end : Session → Session
unfolding push_end
hwr_p3s_push_end none = none
hwr_p3s_push_end (some s) = some (push_end s)

unfoldable pub hwr_p3s_result_ptr : Session → Pointer
hwr_p3s_result_ptr none = none
hwr_p3s_result_ptr (some s) = some (result s)

unfoldable pub hwr_p3s_result_len : Session → ℕ
hwr_p3s_result_len none = 0
hwr_p3s_result_len (some s) = length (result s)

-- The session that is dropped, if there is one.
unfoldable pub hwr_p3s_free : Session → Session
unfolding drop
hwr_p3s_free none = none
hwr_p3s_free (some s) = some (drop s)

-- What a caller reads after a poll with this code.
read_event : ℕ → Session → P3sEvent
unfolding hwr_p3s_out_ptr hwr_p3s_out_len hwr_p3s_result_ptr hwr_p3s_result_len read
read_event c p =
    if c == code Status.out
    then P3sEvent.out (read (hwr_p3s_out_ptr p) (hwr_p3s_out_len p))
    else if c == code Status.out_end
    then P3sEvent.out_end
    else if c == code Status.done
    then P3sEvent.done (ok (read (hwr_p3s_result_ptr p) (hwr_p3s_result_len p)))
    else P3sEvent.done (err (read (hwr_p3s_result_ptr p) (hwr_p3s_result_len p)))

read_event-observed : (st : Status) (t : System) → read_event (code st) (some t) ≡ observed st t
unfolding read_event observed hwr_p3s_out_ptr hwr_p3s_out_len hwr_p3s_result_ptr hwr_p3s_result_len
    read
read_event-observed Status.out t = ap P3sEvent.out (read-length t.current_out)
read_event-observed Status.out_end t = refl
read_event-observed Status.done t = ap (λ b. P3sEvent.done (ok b)) (read-length t.result)
read_event-observed error t = ap (λ b. P3sEvent.done (err b)) (read-length t.result)

-- The run has ended, by the code.
abbrev is_end : ℕ → Bool
is_end c = if c == code Status.done then true else c == code error

-- A caller with its session, which polls until it was told of the end.
record Caller : Type 0 where
  session : Session
  told_end : Bool

told_by : Caller → Option (Session × ℕ) → List P3sEvent × Caller
unfolding read_event
told_by c none = ([], c)
told_by c (some (p, n)) = (read_event n p ∷ [], record { session = p; told_end = is_end n })

worked : Session → Session
unfolding work
worked none = none
worked (some s) = some (work s)

through_poll : Caller → Bool → List P3sEvent × Caller
unfolding told_by hwr_p3s_poll
through_poll c true = ([], c)
through_poll c false = told_by c (hwr_p3s_poll c.session)

through_step : Caller → Step → List P3sEvent × Caller
unfolding worked through_poll hwr_p3s_push_end hwr_p3s_push
through_step c worker_works = ([], record c { session = worked c.session })
through_step c caller_polls = through_poll c c.told_end
through_step c caller_ends = ([], record c { session = hwr_p3s_push_end c.session })
through_step c (caller_pushes b) = ([], record c { session = hwr_p3s_push c.session (some b) })

through_steps : Caller → List Step → List P3sEvent × Caller
unfolding through_step
through_steps c [] = ([], c)
through_steps c (a ∷ rest) =
    let (seen, d) = through_step c a in let (later, e) = through_steps d rest in (seen ++ later, e)

-- What a caller of the C interface reads of a new session.
unfoldable pub read_through : Driver → List Step → List P3sEvent
unfolding through_steps start
read_through d steps =
    (through_steps (record { session = some (start d); told_end = false }) steps).0

-- The caller that was told what the session knows of the end.
abbrev at : System → Caller
at s = record { session = some s; told_end = s.finished }

abbrev Reads : Type 0
Reads = List P3sEvent × Caller

finished-await_next :
    (s : System) (cs : List Bytes) (k : Option Bytes → Driver)
    → (await_next s cs k).finished ≡ s.finished
unfolding await_next
finished-await_next s [] k = ground arith
finished-await_next s (c ∷ cs) k = refl

finished-work_on : (s : System) (w : Worker) → (work_on s w).finished ≡ s.finished
unfolding work_on
finished-work_on s (running (chunk c d)) = refl
finished-work_on s (running (end d)) = refl
finished-work_on s (running (next k)) = finished-await_next s s.inbound k
finished-work_on s (running (finish r)) = refl
finished-work_on s (running panic) = refl
finished-work_on s stopped = refl

finished-push : (s : System) (b : Bytes) → (push s b).finished ≡ s.finished
unfolding push
finished-push s b = ground arith

poll_event-is_end :
    (s : System) (e : P3sEvent) (es : List P3sEvent)
    → s.finished ≡ false
    → (poll_event s e es).0.finished ≡ is_end (code (poll_event s e es).1)
unfolding poll_event
poll_event-is_end s (P3sEvent.out c) es h = h
poll_event-is_end s P3sEvent.out_end es h = h
poll_event-is_end s (P3sEvent.done (ok r)) es h = refl
poll_event-is_end s (P3sEvent.done (err msg)) es h = refl

told_by-some :
    (s t : System) (st : Status)
    → t.finished ≡ is_end (code st)
    → told_by (at s) (some (some t, code st)) ≡ (observed st t ∷ [], at t)
unfolding told_by
told_by-some s t st h =
    ap (λ e. (e ∷ [], record { session = some t; told_end = is_end (code st) }))
      (read_event-observed st t)
    ∙ ap (λ b. (observed st t ∷ [], record { session = some t; told_end = b })) (sym h)

told_by-empty :
    (s : System) (w : Worker)
    → told_by (at s) (answered (poll_empty s w))
      ≡ ((after_poll s (poll_empty s w)).0, at (after_poll s (poll_empty s w)).1)
unfolding told_by answered after_poll poll_empty
told_by-empty s (running d) = refl
told_by-empty s stopped = told_by-some s (record s { finished = true }) error refl

-- A poll of a session that has not ended.
told_by-answered :
    (s : System) (es : List P3sEvent)
    → s.finished ≡ false
    → told_by (at s) (answered (poll_rx s es))
      ≡ ((after_poll s (poll_rx s es)).0, at (after_poll s (poll_rx s es)).1)
unfolding answered poll_rx after_poll
told_by-answered s [] h = told_by-empty s s.worker
told_by-answered s (e ∷ es) h =
    told_by-some s (poll_event s e es).0 (poll_event s e es).1 (poll_event-is_end s e es h)

through_poll-poll_step :
    (s : System) (finished : Bool)
    → s.finished ≡ finished
    → through_poll (at s) finished ≡ ((poll_step s finished).0, at (poll_step s finished).1)
unfolding through_poll poll_step hwr_p3s_poll poll
through_poll-poll_step s true h = refl
through_poll-poll_step s false h =
    let e : poll s ≡ poll_rx s s.rx =
      ap (λ b. if b then some (s, Status.done) else poll_rx s s.rx) h in
    subst (λ o. told_by (at s) (answered o) ≡ ((after_poll s o).0, at (after_poll s o).1)) (sym e)
      (told_by-answered s s.rx h)

through_step-take_step :
    (s : System) (a : Step) → through_step (at s) a ≡ ((take_step s a).0, at (take_step s a).1)
unfolding through_step take_step worked work hwr_p3s_push_end hwr_p3s_push push_end
through_step-take_step s worker_works =
    ap (λ b. ([], record { session = some (work s); told_end = b }))
      (sym (finished-work_on s s.worker))
through_step-take_step s caller_polls = through_poll-poll_step s s.finished refl
through_step-take_step s caller_ends = refl
through_step-take_step s (caller_pushes b) =
    ap (λ f. ([], record { session = some (push s b); told_end = f })) (sym (finished-push s b))

through_steps-take_steps :
    (s : System) (steps : List Step)
    → through_steps (at s) steps ≡ ((take_steps s steps).0, at (take_steps s steps).1)
unfolding through_steps take_steps
through_steps-take_steps s [] = refl
through_steps-take_steps s (a ∷ rest) =
    ap (λ (r : Reads). (r.0 ++ (through_steps r.1 rest).0, (through_steps r.1 rest).1))
      (through_step-take_step s a)
    ∙ ap (λ (r : Reads). ((take_step s a).0 ++ r.0, r.1))
        (through_steps-take_steps (take_step s a).1 rest)

-- In any order of the worker's and the caller's steps, a caller that goes through the C interface, and
-- no longer polls once a code told it of the end, reads what the session's own methods tell; followed by
-- what is still to come, that is the driver's sequence of events on the chunks pushed.
pub read_through-emitted :
    (d : Driver) (steps : List Step)
    → read_through d steps ++ to_come (take_steps (start d) steps).1 []
      ≡ told [] (emitted d (pushed true steps))
unfolding read_through start
read_through-emitted d steps =
    ap (λ (r : Reads). r.0 ++ to_come (take_steps (start d) steps).1 [])
      (through_steps-take_steps (start d) steps)
    ∙ take_steps_lem d steps
