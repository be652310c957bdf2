-- ===== src/Inference/Framing.antt =====
-- src/inference.rs: what a reader can tell of the messages from the head.
use hellohq_wasm_runtime.Prelude.{
  Bool, true, not, ◌&&◌, List, [], ◌∷◌, ◌++◌, all, ◌==◌, ◌≡◌, refl, sym, ap, ◌∙◌, arith,
  append_assoc, append-nil,
}
use hellohq_wasm_runtime.Str.{Text, lit, split}
use hellohq_wasm_runtime.Str.Split.{IsFree, split-append}
use hellohq_wasm_runtime.Inference.{
  ChatMessage, InferenceOpts, opts_line, push_messages, request_head,
}

-- A message as it stands in the head.
block : ChatMessage → Text
block m = m.role ++ b'\n' ∷ m.content ++ lit "\n---\n"

blocks : List ChatMessage → Text
blocks [] = []
blocks (m ∷ messages) = block m ++ blocks messages

push_messages-blocks :
    (head : Text) (messages : List ChatMessage)
    → push_messages head messages ≡ head ++ blocks messages
unfolding push_messages blocks block
push_messages-blocks head [] = sym (append-nil head)
push_messages-blocks head (m ∷ messages) =
    push_messages-blocks (((head ++ m.role) ++ b'\n' ∷ []) ++ m.content ++ lit "\n---\n") messages
    ∙ simp append_assoc

blocks-forged :
    (role content forged text : Text) (messages : List ChatMessage)
    → blocks (
        record { role = role; content = content ++ lit "\n---\n" ++ forged ++ b'\n' ∷ text }
        ∷ messages)
      ≡ blocks (
          record { role = role; content = content }
          ∷ record { role = forged; content = text }
          ∷ messages)
unfolding blocks block
blocks-forged role content forged text messages = simp append_assoc

blocks-cons :
    (m : ChatMessage) (messages : List ChatMessage)
    → blocks (m ∷ messages)
      ≡ m.role ++ b'\n' ∷ (m.content ++ b'\n' ∷ (lit "---" ++ b'\n' ∷ blocks messages))
unfolding blocks block
blocks-cons m messages = simp append_assoc

-- A message whose content goes on, behind the separator, with a role and a content is written like two
-- messages, the second with that role: the caller cannot tell them apart.
pub request_head-forged :
    {F : Type 0} (show : F → Text) (opts : InferenceOpts F) (role content forged text : Text)
    (messages : List ChatMessage)
    → request_head show opts (
        record { role = role; content = content ++ lit "\n---\n" ++ forged ++ b'\n' ∷ text }
        ∷ messages)
      ≡ request_head show opts (
          record { role = role; content = content }
          ∷ record { role = forged; content = text }
          ∷ messages)
unfolding request_head
request_head-forged show opts role content forged text messages =
    let start : Text = opts_line show opts ++ b'\n' ∷ [] in
    push_messages-blocks start (
      record { role = role; content = content ++ lit "\n---\n" ++ forged ++ b'\n' ∷ text }
      ∷ messages)
    ∙ ap (λ b. start ++ b) (blocks-forged role content forged text messages)
    ∙ sym (
        push_messages-blocks start (
          record { role = role; content = content }
          ∷ record { role = forged; content = text }
          ∷ messages))

-- The lines of the messages, and what they say to a reader: a role, a content and a separator each.
lines : List ChatMessage → List Text
lines [] = [] ∷ []
lines (m ∷ messages) = m.role ∷ m.content ∷ lit "---" ∷ lines messages

pub read_messages : List Text → List ChatMessage
read_messages (role ∷ content ∷ separator ∷ rest) =
    record { role = role; content = content } ∷ read_messages rest
read_messages _ = []

abbrev pub is_plain : ChatMessage → Bool
is_plain m = all (λ c. not (c == b'\n')) m.role && all (λ c. not (c == b'\n')) m.content

split-blocks :
    (messages : List ChatMessage)
    → all is_plain messages ≡ true
    → split (blocks messages) b'\n' ≡ lines messages
unfolding blocks block lines split
split-blocks [] h = refl
split-blocks (m ∷ messages) h =
    let body : Text = m.content ++ b'\n' ∷ (lit "---" ++ b'\n' ∷ blocks messages) in
    ap (λ t. split t b'\n') (blocks-cons m messages)
    ∙ split-append b'\n' m.role body (ground (arith, h))
    ∙ ap (λ ls. m.role ∷ ls)
        (split-append b'\n' m.content (lit "---" ++ b'\n' ∷ blocks messages) (ground (arith, h))
          ∙ ap (λ ls. m.content ∷ ls)
              (split-append b'\n' (lit "---") (blocks messages) refl
                ∙ ap (λ ls. lit "---" ∷ ls) (split-blocks messages (ground (arith, h)))))

read_messages-lines : (messages : List ChatMessage) → read_messages (lines messages) ≡ messages
unfolding read_messages lines
read_messages-lines [] = refl
read_messages-lines (m ∷ messages) = ap (λ ms. m ∷ ms) (read_messages-lines messages)

-- The lines after the first.
pub rest_lines : List Text → List Text
rest_lines [] = []
rest_lines (l ∷ ls) = ls

-- Messages with roles and contents of one line each read back from the lines after the first, in
-- order, where the printed temperature has no newline.
pub read_messages-request_head :
    {F : Type 0} (show : F → Text) (opts : InferenceOpts F) (messages : List ChatMessage)
    → IsFree b'\n' (opts_line show opts)
    → all is_plain messages ≡ true
    → read_messages (rest_lines (split (request_head show opts messages) b'\n')) ≡ messages
unfolding request_head rest_lines
read_messages-request_head show opts messages free h =
    ap (λ t. read_messages (rest_lines (split t b'\n')))
      (push_messages-blocks (opts_line show opts ++ b'\n' ∷ []) messages
        ∙ append_assoc (opts_line show opts) (b'\n' ∷ []) (blocks messages))
    ∙ ap (λ ls. read_messages (rest_lines ls))
        (split-append b'\n' (opts_line show opts) (blocks messages) free)
    ∙ ap read_messages (split-blocks messages h)
    ∙ read_messages-lines messages
