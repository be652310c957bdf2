-- ===== src/Str/Join.antt =====
-- `join`: parts with a separator between them, and `split` at the separator.
use hellohq_wasm_runtime.Prelude.{
  ℕ, Bool, true, List, [], ◌∷◌, ◌++◌, ◌≡◌, sym, ap, ◌∙◌, append_assoc, all, all-append, arith,
}
use hellohq_wasm_runtime.Str.{Text, split}
use hellohq_wasm_runtime.Str.Split.{IsFree, split_free, split-append}

-- A first part and further ones, each behind a separator.
unfoldable pub joined : ℕ → Text → List Text → Text
joined d l [] = l
joined d l (m ∷ ms) = l ++ d ∷ joined d m ms

unfoldable pub join : ℕ → List Text → Text
unfolding joined
join d [] = []
join d (l ∷ ls) = joined d l ls

pub joined-append :
    (d : ℕ) (l : Text) (ms : List Text) (x : Text)
    → (joined d l ms ++ d ∷ []) ++ x ≡ joined d l (ms ++ x ∷ [])
unfolding joined
joined-append d l [] x = append_assoc l _ x
joined-append d l (m ∷ ms) x = simp (append_assoc, sym (joined-append d m ms x))

-- No part has the separator in it.
unfoldable pub EachFree : ℕ → List Text → Type 0
EachFree d [] = Unit
EachFree d (l ∷ ls) = IsFree d l × EachFree d ls

pub EachFree-append :
    (d : ℕ) (ls ms : List Text) → EachFree d ls → EachFree d ms → EachFree d (ls ++ ms)
unfolding EachFree
EachFree-append d [] ms hl hm = hm
EachFree-append d (l ∷ ls) ms (h, hl) hm = (h, EachFree-append d ls ms hl hm)

pub split-joined :
    (d : ℕ) (l : Text) (ms : List Text)
    → IsFree d l
    → EachFree d ms
    → split (joined d l ms) d ≡ l ∷ ms
unfolding joined EachFree
split-joined d l [] h hs = split_free d l h
split-joined d l (m ∷ ms) h (h', hs) =
    split-append d l (joined d m ms) h ∙ ap (◌∷◌ l) (split-joined d m ms h' hs)

-- A test of every character of the parts and of the separator.
pub all-joined :
    (p : ℕ → Bool) (d : ℕ) (l : Text) (ms : List Text)
    → p d ≡ true
    → all p l ≡ true
    → all (all p) ms ≡ true
    → all p (joined d l ms) ≡ true
unfolding joined
all-joined p d l [] hd hl hs = hl
all-joined p d l (m ∷ ms) hd hl hs =
    rw (all-append p l (d ∷ joined d m ms)) (ground (arith, hd, hl, hs, all-joined p d m ms hd))

pub EachFree-of_all :
    (p : ℕ → Bool) (d : ℕ) (ls : List Text)
    → ((s : Text) → all p s ≡ true → IsFree d s)
    → all (all p) ls ≡ true
    → EachFree d ls
unfolding EachFree
EachFree-of_all p d [] free h = tt
EachFree-of_all p d (l ∷ ls) free h =
    (free l (ground (arith, h)), EachFree-of_all p d ls free (ground (arith, h)))
