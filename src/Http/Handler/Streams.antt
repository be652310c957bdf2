-- ===== src/Http/Handler/Streams.antt =====
-- src/wasi_http.rs: the stream ends of `handle_via_transport`, which Wasmtime polls.
use hellohq_wasm_runtime.Prelude.{
  ℕ, Bool, true, false, List, [], ◌∷◌, ◌++◌, Option, none, some, Result, ok, err, ◌==◌,
  if◌then◌else◌, ◌≡◌, refl, sym, ap, ◌∙◌, append_assoc, append-nil,
}
use hellohq_wasm_runtime.Str.{Text, lit}
use hellohq_wasm_runtime.Frames.{Bytes}

pub data StreamResult : Type 0 where
  completed dropped cancelled : StreamResult

-- A writer's data, as Wasmtime shows it: how much there is, and what a read of it gives.
pub record Source (A : Type 0) : Type 0 where
  pub remaining : ℕ
  pub read : Result (List A) Text

-- `RequestBodyConsumer::poll_consume`, on the batches in its channel.
unfoldable pub consume_body : List Bytes → Source ℕ → Bool → List Bytes × Result StreamResult Text
consume_body tx source finish =
    if finish
    then (tx, ok cancelled)
    else if source.remaining == 0
    then (tx, ok dropped)
    else elim source.read [
      | err e ↦ (tx, err (lit "request body read failed: " ++ e))
      | ok buffer ↦ (tx ++ buffer ∷ [], ok completed)
    ]

-- `RequestTrailersConsumer`: its sender, until it is taken, and what it sent.
pub record TrailersSender (A : Type 0) : Type 0 where
  pub tx : Bool
  pub sent : Option A

-- The `if let` on the sender and the first value read; the sender is taken in any case.
send_first : {A : Type 0} → TrailersSender A → List A → TrailersSender A
send_first s [] = record s { tx = false }
send_first s (value ∷ values) = if s.tx then record { tx = false; sent = some value } else s

-- `RequestTrailersConsumer::poll_consume`
unfoldable pub consume_trailers :
    {A : Type 0} → TrailersSender A → Source A → Bool → TrailersSender A × Result (Unit {0}) Text
unfolding send_first
consume_trailers s source finish =
    if finish then (s, ok tt) else if source.remaining == 0 then (s, ok tt) else elim source.read [
      | err e ↦ (s, err (lit "request trailers read failed: " ++ e))
      | ok buffer ↦ (send_first s buffer, ok tt)
    ]

-- The caller's stream: the frames that wait, and whether it was ended.
pub record Inbound : Type 0 where
  pub queue : List Bytes
  pub closed : Bool

-- `ResponseBodyProducer::poll_produce`: the chunk handed over, if any, and the result; none if it is
-- pending.
produce_from : Inbound → List Bytes → Inbound × Option (Option Bytes × StreamResult)
produce_from s (chunk ∷ chunks) = (record s { queue = chunks }, some (some chunk, completed))
produce_from s [] = (s, if s.closed then some (none, dropped) else none)

unfoldable pub produce : Inbound → Inbound × Option (Option Bytes × StreamResult)
unfolding produce_from
produce s = produce_from s s.queue

-- What happens to the producer: Wasmtime polls it, or the caller pushes a frame or ends its stream.
pub data BodyEvent : Type 0 where
  poll : BodyEvent
  push : Bytes → BodyEvent
  push_end : BodyEvent

-- What the guest has read, with the stream.
pub record Reading : Type 0 where
  pub stream : Inbound
  pub seen : List Bytes
  pub ended : Bool

after_poll : Reading → Inbound × Option (Option Bytes × StreamResult) → Reading
after_poll r (s, none) = record r { stream = s }
after_poll r (s, some (none, result)) = record r { stream = s; ended = true }
after_poll r (s, some (some chunk, result)) = record r { stream = s; seen = r.seen ++ chunk ∷ [] }

-- A frame that comes after the end is lost: the sender is gone.
pub body_step : Reading → BodyEvent → Reading
unfolding produce after_poll
body_step r poll = after_poll r (produce r.stream)
body_step r (push chunk) =
    if r.stream.closed
    then r
    else record r { stream = record r.stream { queue = r.stream.queue ++ chunk ∷ [] } }
body_step r push_end = record r { stream = record r.stream { closed = true } }

unfoldable pub body_run : Reading → List BodyEvent → Reading
unfolding body_step
body_run r [] = r
body_run r (e ∷ es) = body_run (body_step r e) es

-- The frames that the caller pushes before it ends its stream.
pub pushed : Bool → List BodyEvent → List Bytes
pushed closed [] = []
pushed closed (poll ∷ es) = pushed closed es
pushed closed (push chunk ∷ es) = if closed then pushed closed es else chunk ∷ pushed closed es
pushed closed (push_end ∷ es) = pushed true es

abbrev reading : List Bytes → Bool → List Bytes → Bool → Reading
reading queue closed seen ended = record {
  stream = record { queue = queue; closed = closed };
  seen = seen;
  ended = ended;
}

-- What the guest has read and what waits is what was there and what is pushed.
body_run-pushed :
    (queue : List Bytes) (closed : Bool) (seen : List Bytes) (ended : Bool) (es : List BodyEvent)
    → (body_run (reading queue closed seen ended) es).seen
        ++ (body_run (reading queue closed seen ended) es).stream.queue
      ≡ (seen ++ queue) ++ pushed closed es
unfolding body_run produce after_poll pushed
body_run-pushed q c s e [] = sym (append-nil (s ++ q))
body_run-pushed [] true s e (poll ∷ es) = body_run-pushed [] true s true es
body_run-pushed [] false s e (poll ∷ es) = body_run-pushed [] false s e es
body_run-pushed (x ∷ q) c s e (poll ∷ es) =
    body_run-pushed q c (s ++ x ∷ []) e es ∙ ap (λ t. t ++ pushed c es) (append_assoc s (x ∷ []) q)
body_run-pushed q true s e (push chunk ∷ es) = body_run-pushed q true s e es
body_run-pushed q false s e (push chunk ∷ es) =
    body_run-pushed (q ++ chunk ∷ []) false s e es ∙ simp append_assoc
body_run-pushed q c s e (push_end ∷ es) = body_run-pushed q true s e es

-- An end that the guest has seen leaves nothing behind.
abbrev EndsEmpty : Reading → Type 0
EndsEmpty r = r.ended ≡ true → (r.stream.closed ≡ true) × (r.stream.queue ≡ [])

body_run-EndsEmpty :
    (queue : List Bytes) (closed : Bool) (seen : List Bytes) (ended : Bool) (es : List BodyEvent)
    → EndsEmpty (reading queue closed seen ended)
    → EndsEmpty (body_run (reading queue closed seen ended) es)
unfolding body_run produce after_poll
body_run-EndsEmpty q c s e [] inv = inv
body_run-EndsEmpty [] true s e (poll ∷ es) inv =
    body_run-EndsEmpty [] true s true es (λ h. (refl, refl))
body_run-EndsEmpty [] false s e (poll ∷ es) inv = body_run-EndsEmpty [] false s e es inv
body_run-EndsEmpty (x ∷ q) c s e (poll ∷ es) inv =
    body_run-EndsEmpty q c (s ++ x ∷ []) e es (λ h. cc ((inv h).1))
body_run-EndsEmpty q true s e (push chunk ∷ es) inv = body_run-EndsEmpty q true s e es inv
body_run-EndsEmpty q false s e (push chunk ∷ es) inv =
    body_run-EndsEmpty (q ++ chunk ∷ []) false s e es (λ h. cc ((inv h).0))
body_run-EndsEmpty q c s e (push_end ∷ es) inv =
    body_run-EndsEmpty q true s e es (λ h. (refl, (inv h).1))

abbrev pub unread : Reading
unread = reading [] false [] false

-- In any order of polls and pushes, a guest that has seen the end of the response's body has read
-- the frames that the caller pushed before it ended its stream, each as it was and in order.
pub body_run-seen :
    (es : List BodyEvent)
    → (body_run unread es).ended ≡ true
    → (body_run unread es).seen ≡ pushed false es
body_run-seen es h =
    let (closed, empty) = body_run-EndsEmpty [] false [] false es (λ e. cc) h in
    sym (append-nil _)
    ∙ ap (λ q. (body_run unread es).seen ++ q) (sym empty)
    ∙ body_run-pushed [] false [] false es
