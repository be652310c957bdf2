-- ===== src/JitMemory/Settled.antt =====
-- src/jit_memory.rs: after `load` no mapping waits to be published.
use hellohq_wasm_runtime.Prelude.{
  ℕ, Bool, true, List, [], ◌∷◌, ◌++◌, Option, none, some, Result, ok, err, ◌==◌, ◌⊎◌, ◌≡◌, refl,
  sym, ap, ◌∙◌, subst, arith, Bool-cases, inl, inr,
}
use hellohq_wasm_runtime.Str.{Text}
use hellohq_wasm_runtime.JitMemory.{
  Region, Jit, swap_remove, publish_executable, HookCall, publish, unpublish, after_hooks, Loader,
  settle, region_len, with_contents, load, contains,
}

-- What is left in the list after `take_pending`.
left : List Region → Option (Region × List Region) → List Region
left xs none = xs
left xs (some (r, rest)) = rest

pending-publish_executable :
    (s : Jit) (ptr len : ℕ) (protected : Result (Unit {0}) Text)
    → (publish_executable s ptr len protected).0.pending
      ≡ left s.pending (swap_remove (λ r. contains r ptr len) s.pending)
unfolding publish_executable left
pending-publish_executable s ptr len protected = ground arith

-- Nothing waits, or only `r` does.
AtMost : Region → List Region → Type 0
AtMost r xs = (xs ≡ []) ⊎ (xs ≡ r ∷ [])

left-AtMost :
    (r : Region) (f : Region → Bool) (xs : List Region)
    → AtMost r xs
    → AtMost r (left xs (swap_remove f xs))
unfolding left swap_remove AtMost
left-AtMost r f xs (inl e) = rw e (inl refl)
left-AtMost r f xs (inr e) =
    rw e
      (elim (Bool-cases (f r)) [ inl taken ↦ rw taken (inl refl) | inr kept ↦ rw kept (inr refl) ])

after_hooks-AtMost :
    (r : Region) (s : Jit) (calls : List HookCall)
    → AtMost r s.pending
    → AtMost r (after_hooks s calls).pending
unfolding after_hooks
after_hooks-AtMost r s [] h = h
after_hooks-AtMost r s (publish ptr len protected ∷ calls) h =
    after_hooks-AtMost r (publish_executable s ptr len protected).0 calls (
      subst (AtMost r) (sym (pending-publish_executable s ptr len protected))
        (left-AtMost r (λ x. contains x ptr len) s.pending h))
after_hooks-AtMost r s (unpublish ptr len protected ∷ calls) h = after_hooks-AtMost r s calls h

after_hooks-none :
    (s : Jit) (calls : List HookCall) → s.pending ≡ [] → (after_hooks s calls).pending ≡ []
unfolding after_hooks left swap_remove
after_hooks-none s [] h = h
after_hooks-none s (publish ptr len protected ∷ calls) h =
    after_hooks-none (publish_executable s ptr len protected).0 calls (
      pending-publish_executable s ptr len protected
      ∙ ap (λ xs. left xs (swap_remove (λ r. contains r ptr len) xs)) h)
after_hooks-none s (unpublish ptr len protected ∷ calls) h = after_hooks-none s calls h

settle-none :
    {T : Type 0} (s : Jit) (xs : List Region) (r : Region) (result : Result T Text)
    (copy : Loader T)
    → s.pending ≡ xs
    → AtMost r xs
    → (settle s result copy (swap_remove (λ x. x.base == r.base) xs)).0.pending ≡ []
unfolding settle AtMost swap_remove
settle-none s xs r result copy p (inl e) = rw e (p ∙ e)
settle-none {T} s xs r (err msg) copy p (inr e) =
    let same : (r.base == r.base) ≡ true = ground arith in
    let found : swap_remove (λ x. x.base == r.base) xs ≡ some (r, []) = rw e (rw same refl) in
    ap (λ o. (settle {T = T} s (err msg) copy o).0.pending) found
settle-none s xs r (ok loaded) copy p (inr e) =
    let same : (r.base == r.base) ≡ true = ground arith in
    let found : swap_remove (λ x. x.base == r.base) xs ≡ some (r, []) = rw e (rw same refl) in
    ap (λ o. (settle s (ok loaded) copy o).0.pending) found
    ∙ after_hooks-none (record s { pending = []; unmapped = s.unmapped ++ r ∷ [] }) copy.calls refl

-- A load that starts with nothing pending ends so, whatever the hook publishes and however the loaders
-- end: the new mapping is claimed by the engine or unmapped again.
pub load-none_pending :
    {T : Type 0} (s : Jit) (page : ℕ) (mapped : Result ℕ Text) (n : ℕ) (raw copy : Loader T)
    → s.pending ≡ []
    → (load s page mapped n raw copy).0.pending ≡ []
unfolding load with_contents AtMost
load-none_pending s page (err e) n raw copy h = h
load-none_pending s page (ok base) n raw copy h =
    let r : Region = record { base = base; len = region_len page n } in
    settle-none (after_hooks (with_contents s page base n) raw.calls) _ r raw.result copy refl (
      after_hooks-AtMost r (with_contents s page base n) raw.calls
        (inr (ap (λ xs. xs ++ r ∷ []) h)))
