-- ===== src/Http/Handler/Budget.antt =====
-- src/wasi_http.rs, `await_trailers_bounded`: the trailers are awaited for a bounded number of polls.
use hellohq_wasm_runtime.Prelude.{
  ℕ, zero, suc, ◌+◌, ◌≤◌, ◌<◌, Option, none, some, ◌≡◌, ◌↔◌, refl, sym, ◌∙◌, arith, ap, ◌==◌,
  ==_iff, Bool-cases, Option-cases, inl, inr,
}
use hellohq_wasm_runtime.Http.Handler.Send.{await_within, yield_budget, await_trailers_bounded}

-- The channel yields `v` first at the poll `poll`, one of `remaining + 1` polls from `k` on.
pub record FirstAt {A : Type 0} (rx : ℕ → Option A) (k remaining : ℕ) (v : A) : Type 0 where
  pub poll : ℕ
  pub from : k ≤ poll
  pub in_time : poll ≤ k + remaining
  pub yields : rx poll ≡ some v
  pub pending : (j : ℕ) → k ≤ j → j < poll → rx j ≡ none

module _ {A : Type 0} (rx : ℕ → Option A) where
  pending_before :
      (k poll : ℕ)
      → rx k ≡ none
      → ((j : ℕ) → suc k ≤ j → j < poll → rx j ≡ none)
      → (j : ℕ) → k ≤ j
      → j < poll
      → rx j ≡ none
  pending_before k poll now later j le lt = elim (Bool-cases (j == k)) [
    | inl same ↦ let e : j ≡ k = (==_iff j k).0 same in rw e now
    | inr other ↦ later j (ground (arith, other)) lt
  ]

  await_within-FirstAt :
      (remaining k : ℕ) (v : A) → await_within rx remaining k ≡ some v → FirstAt rx k remaining v
  unfolding await_within
  await_within-FirstAt zero k v h = record {
    poll = k;
    from = omega arith;
    in_time = omega arith;
    yields = h;
    pending = λ j le lt. absurd (omega arith);
  }
  await_within-FirstAt (suc remaining) k v h = elim (Option-cases (rx k)) [
    | inl now ↦
        let f = await_within-FirstAt remaining (suc k) v (ground (arith, now, h)) in
        record {
          poll = f.poll;
          from = omega (arith, f.from);
          in_time = omega (arith, f.in_time);
          yields = f.yields;
          pending = pending_before k f.poll now f.pending;
        }
    | inr (a, now) ↦ record {
      poll = k;
      from = omega arith;
      in_time = omega arith;
      yields = ground (arith, now, h);
      pending = λ j le lt. absurd (omega arith);
    }
  ]

  FirstAt-await_within :
      (remaining k : ℕ) (v : A) → FirstAt rx k remaining v → await_within rx remaining k ≡ some v
  unfolding await_within
  FirstAt-await_within zero k v f =
      let e : f.poll ≡ k = omega (arith, f.from, f.in_time) in ap rx (sym e) ∙ f.yields
  FirstAt-await_within (suc remaining) k v f = elim (Bool-cases (f.poll == k)) [
    | inl same ↦
        let now : rx k ≡ some v = ap rx (sym ((==_iff f.poll k).0 same)) ∙ f.yields in
        rw (await_within, now) refl
    | inr other ↦
        let le : suc k ≤ f.poll = ground (arith, other, f.from) in
        let now : rx k ≡ none = f.pending k (omega arith) le in
        rw (await_within, now)
          (FirstAt-await_within remaining (suc k) v (record {
            poll = f.poll;
            from = le;
            in_time = omega (arith, f.in_time);
            yields = f.yields;
            pending = λ j l. f.pending j (omega (arith, l));
          }))
  ]

-- The trailers are those that the channel yields first, if it does within the budget and one more
-- poll; so 65 polls bound the wait, and a channel that stays pending that long gives none.
pub await_trailers_bounded_iff :
    {A : Type 0} (rx : ℕ → Option A) (v : A)
    → (await_trailers_bounded rx ≡ some v) ↔ FirstAt rx 0 yield_budget v
unfolding await_trailers_bounded
await_trailers_bounded_iff rx v =
    (await_within-FirstAt rx yield_budget 0 v, FirstAt-await_within rx yield_budget 0 v)
