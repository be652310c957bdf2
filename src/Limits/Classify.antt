-- ===== src/Limits/Classify.antt =====
-- src/limits.rs: what `classify` and `annotate` tell the caller.
use hellohq_wasm_runtime.Prelude.{
  Bool, true, not, ◌&&◌, ◌||◌, List, [], ◌∷◌, ◌++◌, none, some, if◌then◌else◌, ◌≡◌, ◌↔◌, refl, sym,
  ap, ◌∙◌, all, arith, Option-cases, inl, inr, append_assoc,
}
use hellohq_wasm_runtime.Str.{Text, lit, is_some, to_ascii_lowercase, contains}
use hellohq_wasm_runtime.Str.Affix.{contains_iff}
use hellohq_wasm_runtime.Limits.{
  err_cpu_limit, err_memory_limit, classify, Error, classify_sources, classify_chain, annotate,
}

-- A text that contains `p` contains every part of `p`.
contains_part : (s a p b : Text) → contains s (a ++ (p ++ b)) ≡ true → contains s p ≡ true
contains_part s a p b h =
    let (l, r, e) = (contains_iff s (a ++ (p ++ b))).0 h in
    (contains_iff s p).1 (l ++ a, b ++ r, e ∙ simp append_assoc)

-- The words of a CPU trap, and of a memory trap, in a message in lower case.
abbrev pub is_cpu : Text → Bool
is_cpu e = contains e (lit "fuel") || contains e (lit "epoch") || contains e (lit "interrupt")

abbrev pub is_memory : Text → Bool
is_memory e = contains e (lit "memory") && (contains e (lit "limit") || contains e (lit "exceed"))

-- A message is the CPU limit's exactly if it has one of the words `fuel`, `epoch` and `interrupt`, up
-- to case; otherwise it is the memory limit's exactly if it has the word `memory` and one of `limit`
-- and `exceed`; otherwise it is none.
pub classify_lem :
    (message : Text)
    → classify message ≡ (
        if is_cpu (to_ascii_lowercase message)
        then some err_cpu_limit
        else if is_memory (to_ascii_lowercase message)
        then some err_memory_limit
        else none)
unfolding classify
classify_lem message =
    let e = to_ascii_lowercase message in
    ground (
      arith,
      contains_part e (lit "exceeds ") (lit "memory") (lit " limits"),
      contains_part e (lit "exceeds memory ") (lit "limit") (lit "s"),
      contains_part e [] (lit "memory") (lit " limits"),
      contains_part e (lit "memory ") (lit "limit") (lit "s"),
    )

-- The messages of an error, outermost first.
abbrev pub messages : Error → List Text
messages err = err.message ∷ err.sources

classify_chain-classify_sources :
    (err : Error) → classify_chain err ≡ classify_sources (messages err)
unfolding classify_chain classify_sources
classify_chain-classify_sources err = refl

abbrev pub is_ordinary : Text → Bool
is_ordinary m = not (is_some (classify m))

-- The first message of the list that names a limit, with that limit's code.
unfoldable pub FirstLimit : List Text → Text → Type 0
FirstLimit ms code =
    (before : List Text) × (m : Text) × (after : List Text) × (ms ≡ before ++ m ∷ after)
    × (all is_ordinary before ≡ true)
    × (classify m ≡ some code)

classify_sources-FirstLimit :
    (ms : List Text) (code : Text) → classify_sources ms ≡ some code → FirstLimit ms code
unfolding classify_sources FirstLimit
classify_sources-FirstLimit [] code h = ground (arith, h)
classify_sources-FirstLimit (m ∷ ms) code h = elim (Option-cases (classify m)) [
  | inl ordinary ↦
      let rest : classify_sources ms ≡ some code = ground (arith, h, ordinary) in
      let (before, n, after, e, all_ordinary, limit) = classify_sources-FirstLimit ms code rest in
      (m ∷ before, n, after, ap (◌∷◌ m) e, ground (arith, ordinary, all_ordinary), limit)
  | inr (c, limit) ↦ ([], m, ms, refl, refl, ground (arith, h, limit))
]

FirstLimit-classify_sources :
    (before : List Text) (m : Text) (after : List Text) (code : Text)
    → all is_ordinary before ≡ true
    → classify m ≡ some code
    → classify_sources (before ++ m ∷ after) ≡ some code
unfolding classify_sources
FirstLimit-classify_sources [] m after code o l = rw (classify_sources, l) refl
FirstLimit-classify_sources (b ∷ before) m after code o l = elim (Option-cases (classify b)) [
  | inl ordinary ↦
      rw (classify_sources, ordinary)
        (FirstLimit-classify_sources before m after code (ground (arith, o)) l)
  | inr (c, limit) ↦ ground (arith, o, limit)
]

-- An error is classified with a code exactly if the first of its messages, outermost first, that names
-- a limit names the limit of that code.
classify_chain_iff :
    (err : Error) (code : Text) → (classify_chain err ≡ some code) ↔ FirstLimit (messages err) code
unfolding FirstLimit
classify_chain_iff err code = (
  λ h.
      classify_sources-FirstLimit (messages err) code
        (sym (classify_chain-classify_sources err) ∙ h),
  λ (before, m, after, e, o, l).
      classify_chain-classify_sources err
      ∙ ap classify_sources e
      ∙ FirstLimit-classify_sources before m after code o l,
)

ordinary_sources : (ms : List Text) → (classify_sources ms ≡ none) ↔ (all is_ordinary ms ≡ true)
unfolding classify_sources
ordinary_sources [] = ground arith
ordinary_sources (m ∷ ms) = elim (Option-cases (classify m)) [
  | inl ordinary ↦ ground (arith, ordinary, ordinary_sources ms)
  | inr (c, limit) ↦ ground (arith, limit)
]

-- If no message of an error names a limit, the annotation is its outermost message, unchanged.
annotate_ordinary :
    (err : Error) → all is_ordinary (messages err) ≡ true → annotate err ≡ err.message
unfolding annotate
annotate_ordinary err h =
    rw (annotate, classify_chain-classify_sources err ∙ (ordinary_sources (messages err)).1 h) refl

-- If the first message that names a limit names that of `code`, the annotation is `code`, a colon and
-- a space before the messages in one line.
annotate_limit :
    (err : Error) (code : Text)
    → FirstLimit (messages err) code
    → annotate err ≡ code ++ lit ": " ++ err.full
unfolding annotate
annotate_limit err code h = rw (annotate, (classify_chain_iff err code).1 h) refl
