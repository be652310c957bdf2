-- ===== src/Capstone/Calls.antt =====
-- src/capstone.rs: the calls of a plugin on the harness, and the log they leave.
use hellohq_wasm_runtime.Prelude.{
  ◌++◌, append-nil, append_assoc, Bool, true, false, List, [], ◌∷◌, Result, ok, err, ◌≡◌, refl, sym,
  ap, ◌∙◌,
}
use hellohq_wasm_runtime.Str.{Text}
use hellohq_wasm_runtime.StorageEvents.{Bytes, ApiError}
use hellohq_wasm_runtime.StorageEvents.Quota.{Call, sets, deletes, clears, emits}
use hellohq_wasm_runtime.Capstone
use hellohq_wasm_runtime.Capstone.{CapstoneHarness, Level, LogLine, delegated, map_error}

-- A call of a plugin on the imports of the harness.
pub data PluginCall : Type 0 where
  reads_portfolio_names reads_currency_rates lists_keys : PluginCall
  reads_sheet_structure reads_asset_count reads_aggregated_values : Text → PluginCall
  writes_external_file : Text → Bytes → PluginCall
  gets : Text → PluginCall
  changes : Call → PluginCall
  logs : Level → Text → PluginCall

-- A capability that needs the grant: the workspace and the storage.
unfoldable pub needs_grant : PluginCall → Bool
needs_grant (changes (emits event)) = false
needs_grant (logs level message) = false
needs_grant _ = true

abbrev pub is_ok {ℓ} : {A : Type ℓ} → Result A ApiError → Bool
is_ok (ok a) = true
is_ok (err e) = false

-- Whether a changing call succeeds, beside the harness after it.
abbrev pub shown : CapstoneHarness × Result (Unit {0}) ApiError → CapstoneHarness × Bool
shown (h, r) = (h, is_ok r)

unfoldable pub change : CapstoneHarness → Call → CapstoneHarness × Result (Unit {0}) ApiError
unfolding Capstone.set Capstone.delete Capstone.clear Capstone.emit
change h (sets key value) = Capstone.set h key value
change h (deletes key) = Capstone.delete h key
change h clears = Capstone.clear h
change h (emits event) = Capstone.emit h event

-- The harness after a call, and whether the call succeeds.
unfoldable pub serve : CapstoneHarness → PluginCall → CapstoneHarness × Bool
unfolding change Capstone.read_portfolio_names Capstone.read_sheet_structure
    Capstone.read_asset_count Capstone.read_currency_rates Capstone.read_aggregated_values
    Capstone.write_external_file Capstone.list_keys Capstone.get Capstone.write
serve h reads_portfolio_names = (h, is_ok (Capstone.read_portfolio_names h))
serve h (reads_sheet_structure pid) =
    (h, is_ok (Capstone.read_sheet_structure {A = Unit {0}} h pid))
serve h (reads_asset_count pid) = (h, is_ok (Capstone.read_asset_count {A = Unit {0}} h pid))
serve h reads_currency_rates = (h, is_ok (Capstone.read_currency_rates {A = Unit {0}} h))
serve h (reads_aggregated_values pid) =
    (h, is_ok (Capstone.read_aggregated_values {A = Unit {0}} h pid))
serve h (writes_external_file name content) =
    (h, is_ok (Capstone.write_external_file h name content))
serve h lists_keys = (h, is_ok (Capstone.list_keys h))
serve h (gets key) = (h, is_ok (Capstone.get h key))
serve h (changes call) = shown (change h call)
serve h (logs level message) = (Capstone.write h level message, true)

unfoldable pub serve_all :
    CapstoneHarness → List PluginCall → CapstoneHarness × List (PluginCall × Bool)
unfolding serve
serve_all h [] = (h, [])
serve_all h (c ∷ cs) =
    let (h', succeeds) = serve h c in
    let (h'', rest) = serve_all h' cs in (h'', (c, succeeds) ∷ rest)

-- The log lines that the calls write.
abbrev pub lines_of : PluginCall → List LogLine
lines_of (logs level message) = record { level = level; message = message } ∷ []
lines_of _ = []

abbrev pub lines : List PluginCall → List LogLine
lines [] = []
lines (c ∷ cs) = lines_of c ++ lines cs

serve-logs : (h : CapstoneHarness) (c : PluginCall) → (serve h c).0.logs ≡ h.logs ++ lines_of c
unfolding serve change Capstone.set Capstone.delete Capstone.clear Capstone.emit Capstone.write
serve-logs h (logs level message) = refl
serve-logs h reads_portfolio_names = sym (append-nil h.logs)
serve-logs h reads_currency_rates = sym (append-nil h.logs)
serve-logs h lists_keys = sym (append-nil h.logs)
serve-logs h (reads_sheet_structure pid) = sym (append-nil h.logs)
serve-logs h (reads_asset_count pid) = sym (append-nil h.logs)
serve-logs h (reads_aggregated_values pid) = sym (append-nil h.logs)
serve-logs h (writes_external_file name content) = sym (append-nil h.logs)
serve-logs h (gets key) = sym (append-nil h.logs)
serve-logs h (changes (sets key value)) = sym (append-nil h.logs)
serve-logs h (changes (deletes key)) = sym (append-nil h.logs)
serve-logs h (changes clears) = sym (append-nil h.logs)
serve-logs h (changes (emits event)) = sym (append-nil h.logs)

pub serve_all-logs :
    (h : CapstoneHarness) (cs : List PluginCall) → (serve_all h cs).0.logs ≡ h.logs ++ lines cs
unfolding serve_all
serve_all-logs h [] = sym (append-nil h.logs)
serve_all-logs h (c ∷ cs) =
    serve_all-logs (serve h c).0 cs
    ∙ ap (λ (l : List LogLine). l ++ lines cs) (serve-logs h c)
    ∙ append_assoc h.logs (lines_of c) (lines cs)
