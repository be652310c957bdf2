-- ===== src/P3Session/Drop.antt =====
-- src/lib.rs, `impl Drop for HwrP3Session`: the join does not wait for ever.
use hellohq_wasm_runtime.Prelude.{
  ℕ, Bool, true, false, ◌||◌, List, [], ◌∷◌, ◌++◌, Option, none, some, Result, ok, err, ◌==◌,
  if◌then◌else◌, ◌≡◌, refl, sym, subst, ◌∙◌, arith,
}
use hellohq_wasm_runtime.P3Session.{
  Bytes, Guest, call, finish, panic, P3Event, host_call, Worker, running, awaiting, stopped, System,
  Status, start, deliver, cancel, cancel_respond, cancel_events, settle, work, work_on, poll,
  poll_rx, poll_event, poll_empty, deliver_respond, resolve, drop,
}

-- One step of the two sides, in any order: the worker's, or a call of the caller. A blocked `poll`
-- changes nothing.
pub data Step : Type 0 where
  worker_works caller_polls : Step
  caller_resolves : Bytes → Step

after_poll : System → Option (System × Status) → System
after_poll s none = s
after_poll s (some (t, st)) = t

unfoldable pub take_step : System → Step → System
unfolding after_poll
take_step s worker_works = work s
take_step s caller_polls = after_poll s (poll s)
take_step s (caller_resolves response) = resolve s response

unfoldable pub take_steps : System → List Step → System
unfolding take_step
take_steps s [] = s
take_steps s (a ∷ rest) = take_steps (take_step s a) rest

-- A responder is pending, or buffered in an event.
is_pending : ℕ → Option ℕ → Bool
is_pending n none = false
is_pending n (some m) = n == m

held : ℕ → List P3Event → Bool
held n [] = false
held n (host_call q m ∷ es) = n == m || held n es
held n (P3Event.done r ∷ es) = held n es

-- The responder that a worker awaits is in the session's hands.
covered : Option ℕ → List P3Event → Worker → Bool
covered p es (awaiting n k e) = is_pending n p || held n es
covered p es (running g) = true
covered p es stopped = true

is_covered : System → Bool
is_covered s = covered s.pending_respond s.rx s.worker

held-append : (n : ℕ) (q : Bytes) (es : List P3Event) → held n (es ++ host_call q n ∷ []) ≡ true
unfolding held
held-append n q [] = ground arith
held-append n q (host_call q' m ∷ es) = ground (arith, held-append n q es)
held-append n q (P3Event.done r ∷ es) = held-append n q es

covered-work :
    (s : System) (w : Worker) → s.worker ≡ w → is_covered s ≡ true → is_covered (work_on s w) ≡ true
unfolding is_covered covered work_on held is_pending
covered-work s (running (call q k e)) h c = ground (arith, held-append s.calls q s.rx)
covered-work s (running (finish r)) h c = ground arith
covered-work s (running panic) h c = ground arith
covered-work s (awaiting n k e) h c = c
covered-work s stopped h c = c

covered-taken :
    (p : Option ℕ) (q : Bytes) (n : ℕ) (es : List P3Event) (w : Worker)
    → covered p (host_call q n ∷ es) w ≡ true
    → covered (some n) es (cancel_respond p w) ≡ true
unfolding covered held is_pending cancel
covered-taken none q n es (running g) c = refl
covered-taken none q n es stopped c = refl
covered-taken none q n es (awaiting m k e) c = ground (arith, c)
covered-taken (some i) q n es (running g) c = refl
covered-taken (some i) q n es stopped c = refl
covered-taken (some i) q n es (awaiting m k e) c = ground (arith, c)

covered-done :
    (p : Option ℕ) (r : Result Bytes Bytes) (es : List P3Event) (w : Worker)
    → covered p (P3Event.done r ∷ es) w ≡ covered p es w
unfolding covered held
covered-done p r es (running g) = refl
covered-done p r es (awaiting n k e) = refl
covered-done p r es stopped = refl

covered-event :
    (s : System) (e : P3Event) (es : List P3Event)
    → covered s.pending_respond (e ∷ es) s.worker ≡ true
    → is_covered (poll_event s e es).0 ≡ true
unfolding is_covered poll_event
covered-event s (host_call q n) es c = covered-taken s.pending_respond q n es s.worker c
covered-event s (P3Event.done (ok out)) es c = sym (covered-done _ (ok out) es s.worker) ∙ c
covered-event s (P3Event.done (err msg)) es c = sym (covered-done _ (err msg) es s.worker) ∙ c

covered-empty :
    (s : System) (w : Worker)
    → is_covered s ≡ true
    → is_covered (after_poll s (poll_empty s w)) ≡ true
unfolding poll_empty after_poll is_covered
covered-empty s (running g) c = c
covered-empty s (awaiting n k e) c = c
covered-empty s stopped c = c

covered-poll_rx :
    (s : System) (es : List P3Event)
    → s.rx ≡ es
    → is_covered s ≡ true
    → is_covered (after_poll s (poll_rx s es)) ≡ true
unfolding poll_rx after_poll is_covered
covered-poll_rx s [] h c = covered-empty s s.worker c
covered-poll_rx s (e ∷ es) h c =
    covered-event s e es (subst (λ l. covered s.pending_respond l s.worker ≡ true) h c)

covered-unless :
    (s : System) (finished : Bool)
    → is_covered s ≡ true
    → is_covered (after_poll s (if finished then some (s, Status.done) else poll_rx s s.rx)) ≡ true
unfolding after_poll
covered-unless s true c = c
covered-unless s false c = covered-poll_rx s s.rx refl c

covered-poll : (s : System) → is_covered s ≡ true → is_covered (after_poll s (poll s)) ≡ true
unfolding poll
covered-poll s c = covered-unless s s.finished c

covered-delivered :
    (p : Option ℕ) (response : Bytes) (es : List P3Event) (w : Worker)
    → covered p es w ≡ true
    → covered none es (deliver_respond p response w) ≡ true
unfolding covered is_pending deliver
covered-delivered none response es (running g) c = refl
covered-delivered none response es stopped c = refl
covered-delivered none response es (awaiting m k e) c = c
covered-delivered (some i) response es (running g) c = refl
covered-delivered (some i) response es stopped c = refl
covered-delivered (some i) response es (awaiting m k e) c = ground (arith, c)

covered-take_step :
    (s : System) (a : Step) → is_covered s ≡ true → is_covered (take_step s a) ≡ true
unfolding take_step work resolve is_covered
covered-take_step s worker_works c = covered-work s s.worker refl c
covered-take_step s caller_polls c = covered-poll s c
covered-take_step s (caller_resolves response) c =
    covered-delivered s.pending_respond response s.rx s.worker c

covered-take_steps :
    (s : System) (steps : List Step) → is_covered s ≡ true → is_covered (take_steps s steps) ≡ true
unfolding take_steps
covered-take_steps s [] c = c
covered-take_steps s (a ∷ rest) c =
    covered-take_steps (take_step s a) rest (covered-take_step s a c)

covered-cancel_events :
    (es : List P3Event) (w : Worker)
    → covered none es w ≡ true
    → covered none [] (cancel_events es w) ≡ true
unfolding covered cancel_events cancel held is_pending
covered-cancel_events [] w c = c
covered-cancel_events (host_call q n ∷ es) (running g) c = covered-cancel_events es (running g) refl
covered-cancel_events (host_call q n ∷ es) stopped c = covered-cancel_events es stopped refl
covered-cancel_events (host_call q n ∷ es) (awaiting m k e) c =
    covered-cancel_events es (cancel n (awaiting m k e)) (ground (arith, c))
covered-cancel_events (P3Event.done r ∷ es) w c =
    covered-cancel_events es w (sym (covered-done none r es w) ∙ c)

started : (g : Guest) → is_covered (start g) ≡ true
unfolding is_covered covered start
started g = refl

covered-cancel_respond :
    (p : Option ℕ) (es : List P3Event) (w : Worker)
    → covered p es w ≡ true
    → covered none es (cancel_respond p w) ≡ true
unfolding covered is_pending cancel
covered-cancel_respond none es (running g) c = refl
covered-cancel_respond none es stopped c = refl
covered-cancel_respond none es (awaiting m k e) c = c
covered-cancel_respond (some i) es (running g) c = refl
covered-cancel_respond (some i) es stopped c = refl
covered-cancel_respond (some i) es (awaiting m k e) c = ground (arith, c)

unfoldable pub is_stopped : System → Bool
is_stopped s = elim s.worker [ running g ↦ false | awaiting n k e ↦ false | stopped ↦ true ]

-- Once the receiver is gone, a worker that awaits nothing that is alive runs to its end.
stops :
    (s : System) (w : Worker)
    → covered none [] w ≡ true
    → is_stopped
        (settle (record s { rx = []; pending_respond = none; connected = false; worker = w }))
      ≡ true
unfolding settle work work_on is_stopped covered held is_pending
stops s (running (call q k e)) c = refl
stops s (running (finish r)) c = refl
stops s (running panic) c = refl
stops s (awaiting n k e) c = ground (arith, c)
stops s stopped c = refl

-- Whatever the worker and the caller did before, in any order, dropping the session lets the worker
-- run to its end without a further call: the join returns.
pub drop-is_stopped :
    (g : Guest) (steps : List Step) → is_stopped (settle (drop (take_steps (start g) steps))) ≡ true
unfolding drop is_covered
drop-is_stopped g steps =
    let s = take_steps (start g) steps in
    let c : is_covered s ≡ true = covered-take_steps (start g) steps (started g) in
    stops s _
      (covered-cancel_events s.rx _ (covered-cancel_respond s.pending_respond s.rx s.worker c))
