-- ===== src/JitMemory/Balance.antt =====
-- src/jit_memory.rs: no mapping is leaked or unmapped twice.
use hellohq_wasm_runtime.Prelude.{
  ℕ, suc, ◌+◌, Bool, List, [], ◌∷◌, ◌++◌, Option, none, some, Result, ok, err, ◌==◌, if◌then◌else◌,
  ◌≡◌, refl, sym, ap, subst, ◌∙◌, arith, Option-cases, inl, inr,
}
use hellohq_wasm_runtime.Str.{Text}
use hellohq_wasm_runtime.JitMemory.{
  Region, Jit, move_last, swap_remove, publish_executable, HookCall, publish, unpublish,
  after_hooks, Loader, settle, region_len, with_contents, load, contains,
}

-- How many of the regions have this base.
abbrev count : ℕ → List Region → ℕ
count b [] = 0
count b (r ∷ rs) = if r.base == b then suc (count b rs) else count b rs

count-append : (b : ℕ) (xs ys : List Region) → count b (xs ++ ys) ≡ count b xs + count b ys
count-append b [] ys = omega arith
count-append b (x ∷ xs) ys = ground (arith, count-append b xs ys)

count-move_last : (b : ℕ) (xs : List Region) → count b (move_last xs) ≡ count b xs
unfolding move_last
count-move_last b [] = refl
count-move_last b (x ∷ []) = refl
count-move_last b (x ∷ y ∷ ys) = ground (arith, count-move_last b (y ∷ ys))

-- What was taken out and what is left of `xs`.
abbrev counted : ℕ → List Region → Option (Region × List Region) → ℕ
counted b xs none = count b xs
counted b xs (some (r, rest)) = count b (r ∷ rest)

counted-swap_remove :
    (b : ℕ) (f : Region → Bool) (xs : List Region) → counted b xs (swap_remove f xs) ≡ count b xs
unfolding swap_remove
counted-swap_remove b f [] = refl
counted-swap_remove b f (x ∷ xs) = ground (arith, count-move_last b xs, counted-swap_remove b f xs)

-- Every mapping that was created waits, is owned or was unmapped, as often as it was created.
abbrev pub IsBalanced : Jit → Type 0
IsBalanced s =
    (b : ℕ) → count b s.created ≡ count b s.pending + count b s.owned + count b s.unmapped

publish_executable-IsBalanced :
    (s : Jit) (ptr len : ℕ) (protected : Result (Unit {0}) Text)
    → IsBalanced s
    → IsBalanced (publish_executable s ptr len protected).0
unfolding publish_executable
publish_executable-IsBalanced s ptr len protected h b =
    let f : Region → Bool = λ r. contains r ptr len in
    elim (Option-cases (swap_remove f s.pending)) [
      | inl e ↦ ground (arith, e, h b)
      | inr (p, e) ↦
          let moved : counted b s.pending (some p) ≡ count b s.pending =
            ap (counted b s.pending) (sym e) ∙ counted-swap_remove b f s.pending in
          ground (arith, e, h b, moved, count-append b s.owned (p.0 ∷ []))
    ]

after_hooks-IsBalanced :
    (s : Jit) (calls : List HookCall) → IsBalanced s → IsBalanced (after_hooks s calls)
unfolding after_hooks
after_hooks-IsBalanced s [] h = h
after_hooks-IsBalanced s (publish ptr len protected ∷ calls) h =
    after_hooks-IsBalanced (publish_executable s ptr len protected).0 calls
      (publish_executable-IsBalanced s ptr len protected h)
after_hooks-IsBalanced s (unpublish ptr len protected ∷ calls) h = after_hooks-IsBalanced s calls h

with_contents-IsBalanced :
    (s : Jit) (page base n : ℕ) → IsBalanced s → IsBalanced (with_contents s page base n)
unfolding with_contents
with_contents-IsBalanced s page base n h b =
    let r : Region = record { base = base; len = region_len page n } in
    ground (arith, h b, count-append b s.pending (r ∷ []), count-append b s.created (r ∷ []))

-- A pending mapping is unmapped.
unmapped-IsBalanced :
    (s : Jit) (f : Region → Bool) (p : Region × List Region)
    → swap_remove f s.pending ≡ some p
    → IsBalanced s
    → IsBalanced (record s { pending = p.1; unmapped = s.unmapped ++ p.0 ∷ [] })
unmapped-IsBalanced s f p e h b =
    let moved : counted b s.pending (some p) ≡ count b s.pending =
      ap (counted b s.pending) (sym e) ∙ counted-swap_remove b f s.pending in
    ground (arith, h b, moved, count-append b s.unmapped (p.0 ∷ []))

settle-IsBalanced :
    {T : Type 0} (s : Jit) (f : Region → Bool) (result : Result T Text) (copy : Loader T)
    → IsBalanced s
    → IsBalanced (settle s result copy (swap_remove f s.pending)).0
unfolding settle
settle-IsBalanced {T} s f result copy h = elim (Option-cases (swap_remove f s.pending)) [
  | inl e ↦ subst (λ o. IsBalanced (settle s result copy o).0) (sym e) h
  | inr (p, e) ↦
      let freed : Jit = record s { pending = p.1; unmapped = s.unmapped ++ p.0 ∷ [] } in
      let free : IsBalanced freed = unmapped-IsBalanced s f p e h in
      let by_result : (r : Result T Text) → IsBalanced (settle s r copy (some p)).0 = λ r.
        elim r as (λ x. IsBalanced (settle s x copy (some p)).0) [
          | err msg ↦ free
          | ok loaded ↦ after_hooks-IsBalanced freed copy.calls free
        ] in
      subst (λ o. IsBalanced (settle s result copy o).0) (sym e) (by_result result)
]

-- Loading an artifact leaks no mapping and unmaps none twice, whatever the hook calls of the loaders and
-- their results: each mapping that was created waits, is owned by the engine or was unmapped, as
-- often as it was created.
pub load-IsBalanced :
    {T : Type 0} (s : Jit) (page : ℕ) (mapped : Result ℕ Text) (n : ℕ) (raw copy : Loader T)
    → IsBalanced s
    → IsBalanced (load s page mapped n raw copy).0
unfolding load
load-IsBalanced s page (err e) n raw copy h = h
load-IsBalanced s page (ok base) n raw copy h =
    settle-IsBalanced (after_hooks (with_contents s page base n) raw.calls) (λ r. r.base == base)
      raw.result copy
      (after_hooks-IsBalanced (with_contents s page base n) raw.calls
        (with_contents-IsBalanced s page base n h))
