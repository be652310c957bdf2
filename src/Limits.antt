-- ===== src/Limits.antt =====
-- src/limits.rs: the CPU budget, and how a trap's message is told from an ordinary error.
pub mod Classify
use hellohq_wasm_runtime.Prelude.{
  ℕ, Bool, true, false, ◌&&◌, ◌||◌, List, [], ◌∷◌, ◌++◌, Option, none, some, ◌==◌, if◌then◌else◌,
}
use hellohq_wasm_runtime.Str.{Text, lit, to_ascii_lowercase, contains}

abbrev pub default_fuel : ℕ
default_fuel = 1000000000

abbrev pub err_cpu_limit : Text
err_cpu_limit = lit "hellohq-plugin-cpu-limit"

abbrev pub err_memory_limit : Text
err_memory_limit = lit "hellohq-plugin-memory-limit"

-- The budget, from the override.
unfoldable pub fuel_budget : ℕ → ℕ
fuel_budget fuel_override = if fuel_override == 0 then default_fuel else fuel_override

unfoldable pub classify : Text → Option Text
unfolding to_ascii_lowercase contains
classify message =
    let e = to_ascii_lowercase message in
    if contains e (lit "fuel") || contains e (lit "epoch") || contains e (lit "interrupt")
    then some err_cpu_limit
    else if contains e (lit "exceeds memory limits")
        || contains e (lit "memory limits")
        || contains e (lit "memory") && (contains e (lit "limit") || contains e (lit "exceed"))
    then some err_memory_limit
    else none

-- A Wasmtime error: its message, its messages with those of its sources in one line, as `{err:#}`
-- gives them, and the messages of its sources, outermost first.
pub record Error : Type 0 where
  pub message : Text
  pub full : Text
  pub sources : List Text

-- The loop over the sources.
unfoldable pub classify_sources : List Text → Option Text
unfolding classify
classify_sources [] = none
classify_sources (s ∷ sources) = elim (classify s) [
  | some code ↦ some code
  | none ↦ classify_sources sources
]

unfoldable pub classify_chain : Error → Option Text
unfolding classify classify_sources
classify_chain err = elim (classify err.message) [
  | some code ↦ some code
  | none ↦ classify_sources err.sources
]

unfoldable pub annotate : Error → Text
unfolding classify_chain
annotate err = elim (classify_chain err) [
  | some code ↦ code ++ lit ": " ++ err.full
  | none ↦ err.message
]
