-- ===== src/P3Session/Ends.antt =====
-- src/lib.rs, `HwrP3Session::poll` once the run has ended.
use hellohq_wasm_runtime.Prelude.{
  Bool, true, false, List, [], ◌∷◌, Option, none, some, ok, err, if◌then◌else◌, ◌≡◌, refl, ap,
  subst, arith,
}
use hellohq_wasm_runtime.P3Session.{
  P3Event, host_call, Worker, running, awaiting, stopped, System, Status, pending, error, poll,
  poll_rx, poll_event, poll_empty,
}

-- An end of the run was reported.
abbrev pub is_end : Status → Bool
is_end pending = false
is_end Status.done = true
is_end error = true

ends_finished : Option (System × Status) → Bool
ends_finished none = true
ends_finished (some (t, st)) = if is_end st then t.finished else true

poll_event-finished :
    (s : System) (e : P3Event) (es : List P3Event) → ends_finished (some (poll_event s e es)) ≡ true
unfolding ends_finished poll_event
poll_event-finished s (host_call q n) es = refl
poll_event-finished s (P3Event.done (ok out)) es = refl
poll_event-finished s (P3Event.done (err msg)) es = refl

poll_empty-finished : (s : System) (w : Worker) → ends_finished (poll_empty s w) ≡ true
unfolding ends_finished poll_empty
poll_empty-finished s (running g) = refl
poll_empty-finished s (awaiting n k e) = refl
poll_empty-finished s stopped = refl

poll_rx-finished : (s : System) (es : List P3Event) → ends_finished (poll_rx s es) ≡ true
unfolding poll_rx
poll_rx-finished s [] = poll_empty-finished s s.worker
poll_rx-finished s (e ∷ es) = poll_event-finished s e es

poll-finished :
    (s : System) (finished : Bool)
    → s.finished ≡ finished
    → ends_finished (if finished then some (s, Status.done) else poll_rx s s.rx) ≡ true
unfolding ends_finished
poll-finished s true h = h
poll-finished s false h = poll_rx-finished s s.rx

-- After a poll that reported the end of the run, as done or as an error, every further poll reports
-- that it is done, at once and with the session unchanged: with the result, or the error's message.
poll_again :
    (s t : System) (st : Status)
    → poll s ≡ some (t, st)
    → is_end st ≡ true
    → poll t ≡ some (t, Status.done)
unfolding poll ends_finished
poll_again s t st h e =
    let f : ends_finished (some (t, st)) ≡ true =
      subst (λ o. ends_finished o ≡ true) h (poll-finished s s.finished refl) in
    let f' : t.finished ≡ true = ground (arith, f, e) in
    ap (λ b. if b then some (t, Status.done) else poll_rx t t.rx) f'
