-- ===== src/PluginHost/Replies.antt =====
-- The exchange with the app: when a typed call succeeds.
use hellohq_wasm_runtime.Prelude.{
  true, false, Option, none, some, ok, ◌≡◌, ◌↔◌, refl, ap, arith, Result-cases, Bool-cases,
  Option-cases, inl, inr,
}
use hellohq_wasm_runtime.Str.{lit}
use hellohq_wasm_runtime.StorageEvents.{Bytes, ApiError}
use hellohq_wasm_runtime.PluginHost.{
  Value, null, bool, number, string, array, object, get, as_bool, and_then, unwrap_or, Serde, App,
  unwrap_reply, exchange,
}

-- The app answers a request with `ok` set to true and with these data.
pub record Answers {F S : Type 0} (serde : Serde F) (app : App S) (s : S) (request : Value F)
    (s' : S) (d : Value F) : Type 0 where
  pub bytes : Bytes
  pub response : Bytes
  pub reply : Value F
  pub sent : serde.to_vec request ≡ ok bytes
  pub answered : app s bytes ≡ (s', some response)
  pub read : serde.from_slice response ≡ ok reply
  pub is_ok : get reply (lit "ok") ≡ some (bool true)
  pub data_is : unwrap_or null (get reply (lit "data")) ≡ d

module _ {F : Type 0} where
  ok_flag :
      (v : Option (Value F)) → unwrap_or false (and_then v as_bool) ≡ true → v ≡ some (bool true)
  ok_flag none h = cc h
  ok_flag (some (bool true)) h = refl
  ok_flag (some (bool false)) h = cc h
  ok_flag (some null) h = cc h
  ok_flag (some (number n)) h = cc h
  ok_flag (some (string t)) h = cc h
  ok_flag (some (array vs)) h = cc h
  ok_flag (some (object ms)) h = cc h

  unwrap_reply-ok :
      (v d : Value F)
      → unwrap_reply v ≡ ok d
      → (get v (lit "ok") ≡ some (bool true)) × (unwrap_or null (get v (lit "data")) ≡ d)
  unfolding unwrap_reply
  unwrap_reply-ok v d h =
      elim (Bool-cases (unwrap_or false (and_then (get v (lit "ok")) as_bool))) [
        | inl yes_ok ↦ (ok_flag (get v (lit "ok")) yes_ok, ground (arith, yes_ok, h))
        | inr not_ok ↦ ground (arith, not_ok, h)
      ]

  ok-unwrap_reply :
      (v d : Value F)
      → get v (lit "ok") ≡ some (bool true)
      → unwrap_or null (get v (lit "data")) ≡ d
      → unwrap_reply v ≡ ok d
  unfolding unwrap_reply
  ok-unwrap_reply v d flag e = rw (unwrap_reply, flag) (ap ok e)

module _ {F S : Type 0} (serde : Serde F) (app : App S) (gone : ApiError) (request : Value F)
    (s : S) where
  -- A call succeeds exactly if the app answers it with `ok` set to true, and then with the data of
  -- that answer: a transport that is closed, a reply that is not JSON, one without `ok` or with
  -- anything else there, all make it fail.
  pub exchange-ok_iff :
      (s' : S) (d : Value F)
      → (exchange serde app gone request s ≡ (s', ok d)) ↔ Answers serde app s request s' d
  unfolding exchange
  exchange-ok_iff s' d = (to, from)
    where
      to : exchange serde app gone request s ≡ (s', ok d) → Answers serde app s request s' d
      to h = elim (Result-cases (serde.to_vec request)) [
        | inr (e, e1) ↦ ground (arith, e1, h)
        | inl (bytes, e1) ↦ elim (Option-cases (app s bytes).1) [
          | inl e2 ↦ ground (arith, e1, e2, h)
          | inr (response, e2) ↦ elim (Result-cases (serde.from_slice response)) [
            | inr (e, e3) ↦ ground (arith, e1, e2, e3, h)
            | inl (v, e3) ↦
                let u : unwrap_reply v ≡ ok d = ground (arith, e1, e2, e3, h) in
                let after : (app s bytes).0 ≡ s' = ground (arith, e1, e2, e3, h) in
                record {
                  bytes = bytes;
                  response = response;
                  reply = v;
                  sent = e1;
                  answered = ground (arith, after, e2);
                  read = e3;
                  is_ok = (unwrap_reply-ok v d u).0;
                  data_is = (unwrap_reply-ok v d u).1;
                }
          ]
        ]
      ]

      from : Answers serde app s request s' d → exchange serde app gone request s ≡ (s', ok d)
      from a =
          let u : unwrap_reply a.reply ≡ ok d = ok-unwrap_reply a.reply d a.is_ok a.data_is in
          ground (arith, a.sent, a.answered, a.read, u)
