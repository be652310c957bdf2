-- ===== src/Tests/Jit.antt =====
-- The loader of JIT code: a mapping that the engine claims, and one that is unmapped.
use hellohq_wasm_runtime.Prelude.{ℕ, [], ◌∷◌, ◌≡◌, refl, ok, err}
use hellohq_wasm_runtime.Str.{lit}
use hellohq_wasm_runtime.JitMemory.{
  empty, contains, move_last, swap_remove, publish_executable, publish, after_hooks, Loader,
  region_len, with_contents, settle, load,
}
use hellohq_wasm_runtime.JitMemory.Balance.{IsBalanced, load-IsBalanced}
use hellohq_wasm_runtime.JitMemory.Settled.{load-none_pending}

abbrev publishing : Loader ℕ
publishing = record { calls = publish 65536 4096 (ok tt) ∷ []; result = ok 7 }

abbrev failing : Loader ℕ
failing = record { calls = []; result = err (lit "bad artifact") }

claims :
    (load empty 4096 (ok 65536) 10 publishing failing).0.owned
    ≡ record { base = 65536; len = 4096 } ∷ []
unfolding load with_contents region_len after_hooks publish_executable contains swap_remove
    move_last settle
claims = refl

frees :
    (load empty 4096 (ok 65536) 5000 failing failing).0.unmapped
    ≡ record { base = 65536; len = 8192 } ∷ []
unfolding load with_contents region_len after_hooks publish_executable contains swap_remove
    move_last settle
frees = refl

load-IsBalanced_example : IsBalanced (load empty 4096 (ok 65536) 10 publishing failing).0
load-IsBalanced_example = load-IsBalanced empty 4096 (ok 65536) 10 publishing failing (λ b. refl)

load-none_pending_example : (load empty 4096 (ok 65536) 10 publishing failing).0.pending ≡ []
load-none_pending_example = load-none_pending empty 4096 (ok 65536) 10 publishing failing refl
