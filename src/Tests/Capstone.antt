-- ===== src/Tests/Capstone.antt =====
-- The calls of a plugin on the capstone harness.
use hellohq_wasm_runtime.Prelude.{List, [], ◌∷◌, all, true, false, ◌≡◌}
use hellohq_wasm_runtime.Str.{lit}
use hellohq_wasm_runtime.StorageEvents.Quota.{sets, emits}
use hellohq_wasm_runtime.Capstone
use hellohq_wasm_runtime.Capstone.{Level}
use hellohq_wasm_runtime.Capstone.Calls.{
  PluginCall, reads_portfolio_names, reads_currency_rates, gets, changes, logs, serve_all, lines,
}
use hellohq_wasm_runtime.Capstone.Confined.{refused_without_grant, ungranted_refuses}

abbrev some_calls : List PluginCall
some_calls =
    reads_portfolio_names
    ∷ changes (sets (lit "a") (1 ∷ []))
    ∷ logs Level.info (lit "stored")
    ∷ gets (lit "a")
    ∷ reads_currency_rates
    ∷ changes (emits (record { kind = lit "k"; payload = [] }))
    ∷ []

ungranted_refuses_example :
    (all refused_without_grant (serve_all (Capstone.new false) some_calls).1 ≡ true)
    × ((serve_all (Capstone.new false) some_calls).0.store.kv ≡ [])
    × ((serve_all (Capstone.new false) some_calls).0.logs ≡ lines some_calls)
ungranted_refuses_example = ungranted_refuses some_calls
