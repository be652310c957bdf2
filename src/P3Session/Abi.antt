-- ===== src/P3Session/Abi.antt =====
-- src/lib.rs, the `hwr_p3_*` functions: a session behind a pointer that may be null. A panic inside the
-- session, which the functions catch, does not arise in the model.
use hellohq_wasm_runtime.Prelude.{
  ℕ, zero, suc, List, [], ◌∷◌, length, Option, none, some, Option-cases, ◌==◌, if◌then◌else◌, ◌≡◌,
  refl, ap, ◌∙◌, inl, inr,
}
use mathlib.Core.Option
use hellohq_wasm_runtime.Pointer.{Pointer, copied, read, read-length}
use hellohq_wasm_runtime.P3Session.{
  Bytes, Guest, System, Status, pending, done, error, code, start, settle, poll, resolve, drop,
  request, result,
}
use hellohq_wasm_runtime.P3Session.Drive.{Run, ended, after, requests, direct, drive, drive_lem}

-- A null pointer, or one to a session.
abbrev pub Session : Type 0
Session = Option System

-- The new session with the code; none if the call blocks.
answered : Option (System × Status) → Option (Session × ℕ)
answered none = none
answered (some (s, st)) = some (some s, code st)

unfoldable pub hwr_p3_poll : Session → Option (Session × ℕ)
unfolding poll answered
hwr_p3_poll none = some (none, code error)
hwr_p3_poll (some s) = answered (poll s)

unfoldable pub hwr_p3_request_ptr : Session → Pointer
hwr_p3_request_ptr none = none
hwr_p3_request_ptr (some s) = some (request s)

unfoldable pub hwr_p3_request_len : Session → ℕ
hwr_p3_request_len none = 0
hwr_p3_request_len (some s) = length (request s)

unfoldable pub hwr_p3_resolve : Session → Pointer → Session
unfolding resolve
hwr_p3_resolve none response = none
hwr_p3_resolve (some s) response = some (resolve s (copied response))

unfoldable pub hwr_p3_result_ptr : Session → Pointer
hwr_p3_result_ptr none = none
hwr_p3_result_ptr (some s) = some (result s)

unfoldable pub hwr_p3_result_len : Session → ℕ
hwr_p3_result_len none = 0
hwr_p3_result_len (some s) = length (result s)

-- The session that is dropped, if there is one.
unfoldable pub hwr_p3_free : Session → Session
unfolding drop
hwr_p3_free none = none
hwr_p3_free (some s) = some (drop s)

-- The requests that a caller was given, the code of the end and the bytes of the result.
pub record CodeRun : Type 0 where
  pub requests : List Bytes
  pub end_code : ℕ
  pub output : Bytes

with_request : Bytes → CodeRun → CodeRun
with_request q r = record r { requests = q ∷ r.requests }

abbrev pub coded : Run → CodeRun
coded r = record { requests = r.requests; end_code = code r.status; output = r.result }

abbrev settled : Session → Session
settled none = none
settled (some s) = some (settle s)

-- A caller that polls up to `n` times, and answers the pending request `q` with `f q`.
unfoldable pub call_through : (Bytes → Bytes) → ℕ → Session → Option CodeRun
unfolding hwr_p3_poll hwr_p3_request_ptr hwr_p3_request_len hwr_p3_resolve hwr_p3_result_ptr
    hwr_p3_result_len read with_request settle
call_through f zero p = none
call_through f (suc n) p = elim (hwr_p3_poll (settled p)) [
  | none ↦ none
  | some e ↦
      let q = read (hwr_p3_request_ptr e.0) (hwr_p3_request_len e.0) in
      let rest = Option.map (with_request q) (call_through f n (hwr_p3_resolve e.0 (some (f q)))) in
      if e.1 == code pending
      then rest
      else some (record {
        requests = [];
        end_code = e.1;
        output = read (hwr_p3_result_ptr e.0) (hwr_p3_result_len e.0);
      })
]

with_request-coded :
    (q : Bytes) (o : Option Run)
    → Option.map (with_request q) (Option.map coded o) ≡ Option.map coded (Option.map (after q) o)
unfolding with_request after
with_request-coded q none = refl
with_request-coded q (some r) = refl

-- The same outcome after a poll, where it is the same for what follows.
call_through-polled :
    (f : Bytes → Bytes) (n : ℕ) (s t : System) (st : Status)
    → ((u : System) → call_through f n (some u) ≡ Option.map coded (drive f n u))
    → poll (settle s) ≡ some (t, st)
    → call_through f (suc n) (some s) ≡ Option.map coded (drive f (suc n) s)
unfolding call_through drive ended hwr_p3_poll answered hwr_p3_request_ptr hwr_p3_request_len
    hwr_p3_resolve hwr_p3_result_ptr hwr_p3_result_len
call_through-polled f n s t pending same e =
    let q : Bytes = t.pending_request in
    rw (call_through, drive, hwr_p3_poll, e)
      (ap (λ b. Option.map (with_request b) (call_through f n (some (resolve t (f b)))))
          (read-length q)
        ∙ ap (Option.map (with_request q)) (same (resolve t (f q)))
        ∙ with_request-coded q (drive f n (resolve t (f q))))
call_through-polled f n s t done same e =
    rw (call_through, drive, hwr_p3_poll, e)
      (ap (λ b. some (record { requests = []; end_code = code done; output = b }))
        (read-length t.result))
call_through-polled f n s t error same e =
    rw (call_through, drive, hwr_p3_poll, e)
      (ap (λ b. some (record { requests = []; end_code = code error; output = b }))
        (read-length t.result))

-- A caller at the pointer sees the codes and the bytes of one at the session.
call_through-drive :
    (f : Bytes → Bytes) (n : ℕ) (s : System)
    → call_through f n (some s) ≡ Option.map coded (drive f n s)
unfolding call_through drive hwr_p3_poll answered
call_through-drive f zero s = refl
call_through-drive f (suc n) s = elim (Option-cases (poll (settle s))) [
  | inl blocked ↦ rw (call_through, drive, hwr_p3_poll, blocked) refl
  | inr (r, e) ↦ call_through-polled f n s r.0 r.1 (call_through-drive f n) e
]

-- A caller of the C interface that answers every pending request `q` with `f q` reads exactly the
-- requests that the guest makes when it runs directly against `f`, each as it is and in order, then the
-- code of that run's end and its output or message; one poll more than the guest makes requests is
-- enough.
pub call_through-direct :
    (f : Bytes → Bytes) (g : Guest)
    → call_through f (suc (requests f g)) (some (start g)) ≡ some (coded (direct f g))
call_through-direct f g =
    call_through-drive f (suc (requests f g)) (start g) ∙ ap (Option.map coded) (drive_lem f g)
