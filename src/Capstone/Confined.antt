-- ===== src/Capstone/Confined.antt =====
-- src/capstone.rs: what a plugin can reach through the harness, by any calls.
use hellohq_wasm_runtime.Prelude.{
  Bool, true, false, not, ◌&&◌, List, [], ◌∷◌, all, Option, Result, err, ◌≡◌, refl, sym, ap, ◌∙◌,
  subst, arith,
}
use hellohq_wasm_runtime.Str.{Text}
use hellohq_wasm_runtime.StorageEvents
use hellohq_wasm_runtime.StorageEvents.{Bytes, ApiError, PluginEvent, StorageEventsHost}
use hellohq_wasm_runtime.StorageEvents.Quota.{sets, deletes, clears, emits}
use hellohq_wasm_runtime.StorageEvents.Gate.{ungranted_denied}
use hellohq_wasm_runtime.Capstone
use hellohq_wasm_runtime.Capstone.{CapstoneHarness, Level, LogLine, delegated, map_error}
use hellohq_wasm_runtime.Capstone.Calls.{
  PluginCall, reads_portfolio_names, reads_currency_rates, lists_keys, reads_sheet_structure,
  reads_asset_count, reads_aggregated_values, writes_external_file, gets, changes, logs,
  needs_grant, is_ok, shown, change, serve, serve_all, lines, serve_all-logs,
}

-- No grant, on both sides of the composition, and nothing stored.
record IsClosed (h : CapstoneHarness) : Type 0 where
  ungranted : h.granted ≡ false
  store_ungranted : h.store.granted ≡ false
  nothing_stored : h.store.kv ≡ []

emit-granted :
    (s : StorageEventsHost) (e : PluginEvent)
    → ((StorageEvents.emit s e).0.granted ≡ s.granted) × ((StorageEvents.emit s e).0.kv ≡ s.kv)
unfolding StorageEvents.emit
emit-granted s e = ground arith

change-refused :
    (h : CapstoneHarness) (r : StorageEventsHost × Result (Unit {0}) ApiError) (e : ApiError)
    → r ≡ (h.store, err e)
    → shown (delegated h r) ≡ (h, false)
unfolding Capstone.map_err
change-refused h r e same =
    ap (λ (x : StorageEventsHost × Result (Unit {0}) ApiError). shown (delegated h x)) same

-- A call that needs the grant fails without it, and changes nothing.
serve-refused :
    (h : CapstoneHarness) (c : PluginCall)
    → IsClosed h
    → needs_grant c ≡ true
    → serve h c ≡ (h, false)
unfolding serve change needs_grant Capstone.read_portfolio_names Capstone.read_sheet_structure
    Capstone.read_asset_count Capstone.read_currency_rates Capstone.read_aggregated_values
    Capstone.write_external_file Capstone.list_keys Capstone.get Capstone.set Capstone.delete
    Capstone.clear Capstone.map_err
serve-refused h reads_portfolio_names closed n = ground (arith, closed.ungranted)
serve-refused h (reads_sheet_structure pid) closed n = refl
serve-refused h (reads_asset_count pid) closed n = refl
serve-refused h reads_currency_rates closed n = refl
serve-refused h (reads_aggregated_values pid) closed n = refl
serve-refused h (writes_external_file name content) closed n = refl
serve-refused h lists_keys closed n =
    let (a, b, d, f, g) = ungranted_denied h.store [] [] closed.store_ungranted in
    ap (λ (r : Result (List Text) ApiError). (h, is_ok (map_error r))) g
serve-refused h (gets key) closed n =
    let (a, b, d, f, g) = ungranted_denied h.store key [] closed.store_ungranted in
    ap (λ (r : Result (Option Bytes) ApiError). (h, is_ok (map_error r))) a
serve-refused h (changes (sets key value)) closed n =
    let (a, b, d, f, g) = ungranted_denied h.store key value closed.store_ungranted in
    change-refused h _ _ b
serve-refused h (changes (deletes key)) closed n =
    let (a, b, d, f, g) = ungranted_denied h.store key [] closed.store_ungranted in
    change-refused h _ _ d
serve-refused h (changes clears) closed n =
    let (a, b, d, f, g) = ungranted_denied h.store [] [] closed.store_ungranted in
    change-refused h _ _ f
serve-refused h (changes (emits event)) closed n = cc n
serve-refused h (logs level message) closed n = cc n

-- A call that fits no grant does not succeed.
abbrev pub refused_without_grant : PluginCall × Bool → Bool
refused_without_grant (c, succeeds) = not (needs_grant c && succeeds)

not_and_false : (b : Bool) → not (b && false) ≡ true
not_and_false true = refl
not_and_false false = refl

refused_gated :
    (h : CapstoneHarness) (c : PluginCall)
    → IsClosed h
    → needs_grant c ≡ true
    → IsClosed (serve h c).0 × (refused_without_grant (c, (serve h c).1) ≡ true)
refused_gated h c closed gated =
    let same = serve-refused h c closed gated in
    (
      subst (λ (r : CapstoneHarness × Bool). IsClosed r.0) (sym same) closed,
      ap (λ (r : CapstoneHarness × Bool). refused_without_grant (c, r.1)) same
          ∙ not_and_false (needs_grant c),
    )

refused_step :
    (h : CapstoneHarness) (c : PluginCall)
    → IsClosed h
    → IsClosed (serve h c).0 × (refused_without_grant (c, (serve h c).1) ≡ true)
unfolding serve change needs_grant Capstone.emit Capstone.write
refused_step h (changes (emits event)) closed =
    let (g, kv) = emit-granted h.store event in
    (
      record {
        ungranted = closed.ungranted;
        store_ungranted = g ∙ closed.store_ungranted;
        nothing_stored = kv ∙ closed.nothing_stored;
      },
      refl,
    )
refused_step h (logs level message) closed = (
  record {
    ungranted = closed.ungranted;
    store_ungranted = closed.store_ungranted;
    nothing_stored = closed.nothing_stored;
  },
  refl,
)
refused_step h reads_portfolio_names closed = refused_gated h reads_portfolio_names closed refl
refused_step h reads_currency_rates closed = refused_gated h reads_currency_rates closed refl
refused_step h lists_keys closed = refused_gated h lists_keys closed refl
refused_step h (reads_sheet_structure pid) closed =
    refused_gated h (reads_sheet_structure pid) closed refl
refused_step h (reads_asset_count pid) closed = refused_gated h (reads_asset_count pid) closed refl
refused_step h (reads_aggregated_values pid) closed =
    refused_gated h (reads_aggregated_values pid) closed refl
refused_step h (writes_external_file name content) closed =
    refused_gated h (writes_external_file name content) closed refl
refused_step h (gets key) closed = refused_gated h (gets key) closed refl
refused_step h (changes (sets key value)) closed =
    refused_gated h (changes (sets key value)) closed refl
refused_step h (changes (deletes key)) closed = refused_gated h (changes (deletes key)) closed refl
refused_step h (changes clears) closed = refused_gated h (changes clears) closed refl

serve_all-IsClosed :
    (h : CapstoneHarness) (cs : List PluginCall)
    → IsClosed h
    → IsClosed (serve_all h cs).0 × (all refused_without_grant (serve_all h cs).1 ≡ true)
unfolding serve_all
serve_all-IsClosed h [] closed = (closed, refl)
serve_all-IsClosed h (c ∷ cs) closed =
    let (closed', refused) = refused_step h c closed in
    let (after, others) = serve_all-IsClosed (serve h c).0 cs closed' in
    (
      after,
      ap (λ b. b && all refused_without_grant (serve_all (serve h c).0 cs).1) refused ∙ others,
    )

-- Without the grant, whatever a plugin calls and in any order, no call of the workspace or of the storage
-- succeeds, nothing is stored, and the log has exactly the lines that the plugin wrote, in order.
pub ungranted_refuses :
    (cs : List PluginCall)
    → (all refused_without_grant (serve_all (Capstone.new false) cs).1 ≡ true)
      × ((serve_all (Capstone.new false) cs).0.store.kv ≡ [])
      × ((serve_all (Capstone.new false) cs).0.logs ≡ lines cs)
unfolding Capstone.new
ungranted_refuses cs =
    let (closed, refused) =
      serve_all-IsClosed (Capstone.new false) cs
        (record { ungranted = refl; store_ungranted = refl; nothing_stored = refl }) in
    (refused, closed.nothing_stored, serve_all-logs (Capstone.new false) cs)
