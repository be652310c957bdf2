-- ===== src/JitMemory.antt =====
-- src/jit_memory.rs, module `macos`: who owns a `MAP_JIT` mapping. The operating system's and Wasmtime's
-- answers are arguments; `created` and `unmapped` record the calls of `mmap` and `munmap`.
pub mod Balance
pub mod Settled
use hellohq_wasm_runtime.Prelude.{
  ℕ, ◌+◌, ◌-◌, ◌*◌, ◌/◌, ◌^◌, Bool, ◌&&◌, List, [], ◌∷◌, ◌++◌, any, Option, none, some, Result, ok,
  err, ◌==◌, ltb, leb, if◌then◌else◌,
}
use hellohq_wasm_runtime.Str.{Text, lit}

pub record Region : Type 0 where
  pub base : ℕ
  pub len : ℕ

abbrev pub usize_max : ℕ
usize_max = 2 ^ 64 - 1

-- `saturating_add`
abbrev pub saturating_add : ℕ → ℕ → ℕ
saturating_add a b = if ltb usize_max (a + b) then usize_max else a + b

unfoldable pub contains : Region → ℕ → ℕ → Bool
contains r ptr len = leb r.base ptr && leb (saturating_add ptr len) (r.base + r.len)

-- `len.max(1).div_ceil(page) * page`
unfoldable pub region_len : ℕ → ℕ → ℕ
region_len page n = let n = if n == 0 then 1 else n in (n + (page - 1)) / page * page

pub record Jit : Type 0 where
  pub pending : List Region
  pub owned : List Region
  pub created : List Region
  pub unmapped : List Region

abbrev pub empty : Jit
empty = record { pending = []; owned = []; created = []; unmapped = [] }

-- The last element in front of the others.
unfoldable pub move_last : List Region → List Region
move_last [] = []
move_last (x ∷ []) = x ∷ []
move_last (x ∷ y ∷ ys) = elim (move_last (y ∷ ys)) [ [] ↦ x ∷ [] | l ∷ rest ↦ l ∷ x ∷ rest ]

abbrev behind : Region → Option (Region × List Region) → Option (Region × List Region)
behind x none = none
behind x (some (r, rest)) = some (r, x ∷ rest)

-- `position(f)` and `swap_remove` there: the last element takes the place of the one removed.
unfoldable pub swap_remove : (Region → Bool) → List Region → Option (Region × List Region)
unfolding move_last
swap_remove f [] = none
swap_remove f (x ∷ xs) =
    let rest = behind x (swap_remove f xs) in if f x then some (x, move_last xs) else rest

unfoldable pub owns : Jit → ℕ → ℕ → Bool
unfolding contains
owns s ptr len = any (λ r. contains r ptr len) s.owned

-- `publish_executable`; `protected` is what `mprotect` answers where it is called.
unfoldable pub publish_executable :
    Jit → ℕ → ℕ → Result (Unit {0}) Text → Jit × Result (Unit {0}) Text
publish_executable s ptr len protected = elim (swap_remove (λ r. contains r ptr len) s.pending) [
  | some (r, rest) ↦ (record s { pending = rest; owned = s.owned ++ r ∷ [] }, ok tt)
  | none ↦ elim protected [
    | ok _ ↦ (s, ok tt)
    | err e ↦ (s, err (lit "unable to make memory executable: " ++ e))
  ]
]

unfoldable pub unpublish_executable : Jit → ℕ → ℕ → Result (Unit {0}) Text → Result (Unit {0}) Text
unfolding owns
unpublish_executable s ptr len protected = if owns s ptr len then ok tt else elim protected [
  | ok _ ↦ ok tt
  | err e ↦ err (lit "unable to make memory read-write: " ++ e)
]

-- A call of the hook by Wasmtime.
pub data HookCall : Type 0 where
  publish unpublish : ℕ → ℕ → Result (Unit {0}) Text → HookCall

unfoldable pub after_hooks : Jit → List HookCall → Jit
unfolding publish_executable
after_hooks s [] = s
after_hooks s (publish ptr len protected ∷ calls) =
    after_hooks (publish_executable s ptr len protected).0 calls
after_hooks s (unpublish ptr len protected ∷ calls) = after_hooks s calls

-- A mapping at `base` for `n` bytes is created and waits to be published.
unfoldable pub with_contents : Jit → ℕ → ℕ → ℕ → Jit
unfolding region_len
with_contents s page base n =
    let region : Region = record { base = base; len = region_len page n } in
    record s { pending = s.pending ++ region ∷ []; created = s.created ++ region ∷ [] }

-- A loader of Wasmtime: the calls of the hook that it makes, and its result.
pub record Loader (T : Type 0) : Type 0 where
  pub calls : List HookCall
  pub result : Result T Text

abbrev context : Text
context =
    lit "loading Wasm code into MAP_JIT memory (was the engine built with jit_memory::configure?)"

module _ {T : Type 0} where
  -- The `match` on the pending mapping, after the raw loader ran.
  unfoldable pub settle :
      Jit → Result T Text → Loader T → Option (Region × List Region) → Jit × Result T Text
  settle s result copy none = (s, result)
  settle s (err e) copy (some (region, rest)) = (
    record s { pending = rest; unmapped = s.unmapped ++ region ∷ [] },
    err (context ++ lit ": " ++ e),
  )
  settle s (ok loaded) copy (some (region, rest)) = (
    after_hooks (record s { pending = rest; unmapped = s.unmapped ++ region ∷ [] }) copy.calls,
    copy.result,
  )

  -- `load` of `n` bytes; `mapped` is the address that `mmap` gives, or the message of its error.
  unfoldable pub load : Jit → ℕ → Result ℕ Text → ℕ → Loader T → Loader T → Jit × Result T Text
  unfolding with_contents settle
  load s page (err e) n raw copy = (s, err e)
  load s page (ok base) n raw copy =
      let s' = after_hooks (with_contents s page base n) raw.calls in
      settle s' raw.result copy (swap_remove (λ r. r.base == base) s'.pending)
