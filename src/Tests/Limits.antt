-- ===== src/Tests/Limits.antt =====
-- Examples for the trap classification.
use hellohq_wasm_runtime.Prelude.{[], ◌∷◌, none, some, if◌then◌else◌, ◌≡◌, refl}
use hellohq_wasm_runtime.Str.{lit, to_ascii_lowercase, lower, contains, starts_with, strip_prefix}
use hellohq_wasm_runtime.Limits.{err_cpu_limit, err_memory_limit, classify, Error}
use hellohq_wasm_runtime.Limits.Classify.{is_cpu, is_memory, messages, FirstLimit, classify_lem}

-- A trap whose cause names the limit.
abbrev fuel_trap : Error
fuel_trap = record {
  message = lit "error while executing";
  full = lit "error while executing: all Fuel consumed";
  sources = lit "all Fuel consumed" ∷ [];
}

fuel_trap-first : FirstLimit (messages fuel_trap) err_cpu_limit
unfolding FirstLimit classify to_ascii_lowercase lower contains starts_with strip_prefix
fuel_trap-first = (lit "error while executing" ∷ [], lit "all Fuel consumed", [], refl, refl, refl)

classify_lem_example : classify (lit "memory Limit") ≡ (
    if is_cpu (to_ascii_lowercase (lit "memory Limit"))
    then some err_cpu_limit
    else if is_memory (to_ascii_lowercase (lit "memory Limit"))
    then some err_memory_limit
    else none)
classify_lem_example = classify_lem (lit "memory Limit")

abbrev plugin_error : Error
plugin_error = record { message = lit "bad input"; full = lit "bad input"; sources = [] }
