-- ===== src/PluginHost/Granted.antt =====
-- The calls of the typed hosts that are forwarded to the app: none succeeds without the app's word.
use hellohq_wasm_runtime.Prelude.{
  Bool, true, false, List, [], ◌∷◌, none, some, Result, ok, err, ◌≡◌, refl, ap, arith, Result-cases,
  inl, inr,
}
use hellohq_wasm_runtime.Str.{Text, lit, equal}
use hellohq_wasm_runtime.Base64.{b64_encode}
use hellohq_wasm_runtime.StorageEvents.{Bytes, ApiError, PluginEvent}
use hellohq_wasm_runtime.PluginHost.{Value, string, get, Serde, App, ◌>>=◌, lift, exchange, >>=-ok}
use hellohq_wasm_runtime.PluginHost.Replies.{Answers, exchange-ok_iff}
use hellohq_wasm_runtime.PluginHost.Workspace
use hellohq_wasm_runtime.PluginHost.Workspace.{read_request, transport_gone}
use hellohq_wasm_runtime.PluginHost.Storage
use hellohq_wasm_runtime.PluginHost.Storage.{
  get_request, set_request, delete_request, plain_request, emit_request, transport_closed,
}
use hellohq_wasm_runtime.PluginHost.Full

-- A call of a guest that its host forwards: of the workspace host, of the storage and events host, and of
-- the host with all capabilities. A float is the number that stands for a missing one.
pub data Call (F : Type 0) : Type 0 where
  reads_names : Call F
  reads_sheets reads_assets : Text → Call F
  reads_rates : F → Call F
  reads_values : F → Text → Call F
  gets : Text → Call F
  sets : Text → Bytes → Call F
  deletes : Text → Call F
  clears lists_keys : Call F
  emits : PluginEvent → Call F
  full_reads_names : Call F
  full_gets : Text → Call F
  full_sets : Text → Bytes → Call F
  full_emits : PluginEvent → Call F

-- The members of the request that the call stands for: the app's method and the arguments.
pub asked_by : {F : Type 0} → Call F → List (Text × Text)
unfolding b64_encode
asked_by reads_names = (lit "method", lit "read:portfolio_names") ∷ []
asked_by (reads_sheets pid) =
    (lit "method", lit "read:sheet_structure") ∷ (lit "portfolio_id", pid) ∷ []
asked_by (reads_assets pid) =
    (lit "method", lit "read:asset_count") ∷ (lit "portfolio_id", pid) ∷ []
asked_by (reads_rates z) = (lit "method", lit "read:currency_rates") ∷ []
asked_by (reads_values z pid) =
    (lit "method", lit "read:aggregated_values") ∷ (lit "portfolio_id", pid) ∷ []
asked_by (gets key) = (lit "method", lit "storage_get") ∷ (lit "key", key) ∷ []
asked_by (sets key value) =
    (lit "method", lit "storage_set") ∷ (lit "key", key) ∷ (lit "value", b64_encode value) ∷ []
asked_by (deletes key) = (lit "method", lit "storage_delete") ∷ (lit "key", key) ∷ []
asked_by clears = (lit "method", lit "storage_clear") ∷ []
asked_by lists_keys = (lit "method", lit "storage_list_keys") ∷ []
asked_by (emits event) =
    (lit "method", lit "emit_event")
    ∷ (lit "name", event.kind)
    ∷ (lit "payload", b64_encode event.payload)
    ∷ []
asked_by full_reads_names = (lit "method", lit "read:portfolio_names") ∷ []
asked_by (full_gets key) = (lit "method", lit "storage_get") ∷ (lit "key", key) ∷ []
asked_by (full_sets key value) =
    (lit "method", lit "storage_set") ∷ (lit "key", key) ∷ (lit "value", b64_encode value) ∷ []
asked_by (full_emits event) =
    (lit "method", lit "emit_event")
    ∷ (lit "name", event.kind)
    ∷ (lit "payload", b64_encode event.payload)
    ∷ []

-- The request has these members, each a string.
abbrev pub Names : {F : Type 0} → Value F → List (Text × Text) → Type 0
Names request [] = Unit
Names request ((name, value) ∷ rest) = (get request name ≡ some (string value)) × Names request rest

-- The app was asked once, with these members, and answered with `ok` set to true.
pub record Granted {F S : Type 0} (serde : Serde F) (app : App S) (s s' : S)
    (members : List (Text × Text)) : Type 0 where
  pub request : Value F
  pub asks : Names request members
  pub reply_data : Value F
  pub answers : Answers serde app s request s' reply_data

abbrev pub is_ok : {A : Type 0} → Result A ApiError → Bool
is_ok (ok a) = true
is_ok (err e) = false

-- The app's state after a call, and whether the guest's call succeeds.
abbrev outcome : {S A : Type 0} → S × Result A ApiError → S × Bool
outcome (s, r) = (s, is_ok r)

module _ {F S : Type 0} (serde : Serde F) (app : App S) where
  unfoldable pub perform : Call F → S → S × Bool
  unfolding Workspace.read_portfolio_names Workspace.read_sheet_structure Workspace.read_asset_count
      Workspace.read_currency_rates Workspace.read_aggregated_values Storage.get Storage.set
      Storage.delete Storage.clear Storage.list_keys Storage.emit Full.read_portfolio_names Full.get
      Full.set Full.emit
  perform reads_names s = outcome (Workspace.read_portfolio_names serde app s)
  perform (reads_sheets pid) s = outcome (Workspace.read_sheet_structure serde app pid s)
  perform (reads_assets pid) s = outcome (Workspace.read_asset_count serde app pid s)
  perform (reads_rates z) s = outcome (Workspace.read_currency_rates serde app z s)
  perform (reads_values z pid) s = outcome (Workspace.read_aggregated_values serde app z pid s)
  perform (gets key) s = outcome (Storage.get serde app key s)
  perform (sets key value) s = outcome (Storage.set serde app key value s)
  perform (deletes key) s = outcome (Storage.delete serde app key s)
  perform clears s = outcome (Storage.clear serde app s)
  perform lists_keys s = outcome (Storage.list_keys serde app s)
  perform (emits event) s = outcome (Storage.emit serde app event s)
  perform full_reads_names s = outcome (Full.read_portfolio_names serde app s)
  perform (full_gets key) s = outcome (Full.get serde app key s)
  perform (full_sets key value) s = outcome (Full.set serde app key value s)
  perform (full_emits event) s = outcome (Full.emit serde app event s)

  forwarded-Granted :
      {A : Type 0} (gone : ApiError) (request : Value F) (members : List (Text × Text))
      (g : Value F → Result A ApiError) (s : S)
      → Names request members
      → is_ok ((exchange serde app gone request >>= λ d. lift (g d)) s).1 ≡ true
      → Granted serde app s ((exchange serde app gone request >>= λ d. lift (g d)) s).0 members
  forwarded-Granted {A} gone request method g s asks succeeds =
      elim (Result-cases (exchange serde app gone request s).1) [
        | inr (e, failed) ↦ ground (arith, failed, succeeds)
        | inl (d, done) ↦
            let s' : S = (exchange serde app gone request s).0 in
            let whole : exchange serde app gone request s ≡ (s', ok d) = ap (λ r. (s', r)) done in
            let after : ((exchange serde app gone request >>= λ d. lift (g d)) s).0 ≡ s' =
              ap (λ (r : S × Result A ApiError). r.0)
                (>>=-ok (exchange serde app gone request) (λ d. lift (g d)) whole) in
            rw after (record {
              request = request;
              asks = asks;
              reply_data = d;
              answers = (exchange-ok_iff serde app gone request s s' d).0 whole;
            })
      ]

  -- A call that its host forwards succeeds only if the app was asked once, with the method and the arguments
  -- that the call stands for, and answered with `ok` set to true; the app's state is then the one it
  -- answered with. A transport that is closed, a reply that is no JSON, or one without `ok` makes every call fail.
  pub perform-Granted :
      (c : Call F) (s : S)
      → (perform c s).1 ≡ true
      → Granted serde app s (perform c s).0 (asked_by c)
  unfolding perform asked_by Workspace.forward Storage.call Full.forward read_request get_request
      set_request delete_request plain_request emit_request equal
  perform-Granted reads_names s h =
      forwarded-Granted transport_gone (read_request (lit "read:portfolio_names") none) _
        (λ d. ok (Workspace.decode_portfolio_names d)) s (refl, tt) h
  perform-Granted (reads_sheets pid) s h =
      forwarded-Granted transport_gone (read_request (lit "read:sheet_structure") (some pid)) _
        (λ d. ok (Workspace.decode_sheet_summary d)) s (refl, (refl, tt)) h
  perform-Granted (reads_assets pid) s h =
      forwarded-Granted transport_gone (read_request (lit "read:asset_count") (some pid)) _
        (λ d. ok (Workspace.decode_asset_count d)) s (refl, (refl, tt)) h
  perform-Granted (reads_rates z) s h =
      forwarded-Granted transport_gone (read_request (lit "read:currency_rates") none) _
        (λ d. ok (Workspace.decode_currency_rates z d)) s (refl, tt) h
  perform-Granted (reads_values z pid) s h =
      forwarded-Granted transport_gone (read_request (lit "read:aggregated_values") (some pid)) _
        (λ d. ok (Workspace.decode_aggregated_summary z d)) s (refl, (refl, tt)) h
  perform-Granted (gets key) s h =
      forwarded-Granted transport_closed (get_request key) _ Storage.read_value s (refl, (refl, tt))
        h
  perform-Granted (sets key value) s h =
      forwarded-Granted transport_closed (set_request key value) _ (λ d. ok tt) s
        (refl, (refl, (refl, tt))) h
  perform-Granted (deletes key) s h =
      forwarded-Granted transport_closed (delete_request key) _ (λ d. ok tt) s (refl, (refl, tt)) h
  perform-Granted clears s h =
      forwarded-Granted transport_closed (plain_request (lit "storage_clear")) _ (λ d. ok tt) s
        (refl, tt) h
  perform-Granted lists_keys s h =
      forwarded-Granted transport_closed (plain_request (lit "storage_list_keys")) _
        (λ d. ok (Storage.read_keys d)) s (refl, tt) h
  perform-Granted (emits event) s h =
      forwarded-Granted transport_closed (emit_request event) _ (λ d. ok tt) s
        (refl, (refl, (refl, tt))) h
  perform-Granted full_reads_names s h =
      forwarded-Granted transport_closed (plain_request (lit "read:portfolio_names")) _
        (λ d. ok (Workspace.decode_portfolio_names d)) s (refl, tt) h
  perform-Granted (full_gets key) s h =
      forwarded-Granted transport_closed (get_request key) _ Storage.read_value s (refl, (refl, tt))
        h
  perform-Granted (full_sets key value) s h =
      forwarded-Granted transport_closed (set_request key value) _ (λ d. ok tt) s
        (refl, (refl, (refl, tt))) h
  perform-Granted (full_emits event) s h =
      forwarded-Granted transport_closed (emit_request event) _ (λ d. ok tt) s
        (refl, (refl, (refl, tt))) h
