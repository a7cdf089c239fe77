-- ===== src/Tools/Replies.antt =====
-- The messages that a round of `askNative` adds: one reply for each call of a tool.
use go_rag_agent.Base.{
  List, [], ◌∷◌, ◌++◌, ◌≡◌, refl, ap, ◌∙◌, ℕ, suc, ◌+◌, Text, ◌⊎◌, inl, inr, arith, Bool-cases, leb,
  length,
}
use mathlib.Core.List.{append-nil, append_assoc}
use go_rag_agent.Tools.{Err, Json, Log, Host, Runner, Result, Message, ToolCall, limit_exceeded}
use go_rag_agent.Tools.Native.{
  Called, failed, answered, tool_message, call_tools, run_native_tool_call,
}

-- the replies to the calls, each with the id of its call
unfoldable pub replies : List ToolCall → List Text → List Message
replies [] texts = []
replies (call ∷ calls) [] = []
replies (call ∷ calls) (text ∷ texts) = tool_message call.id text ∷ replies calls texts

-- either the loop failed, or every call has its reply
abbrev pub Replied : List ToolCall → ℕ → List Message → Called → Type 0
Replied cs calls messages x =
    ((err : Err) × (x ≡ failed err))
    ⊎ ((texts : List Text) × (length texts ≡ length cs)
        × (x ≡ answered (calls + length cs) (messages ++ replies cs texts)))

module _ (j : Json) (r : Runner) (h : Host) where
  Result-cases : (x : Result) → ((err : Err) × (x ≡ inl err)) ⊎ ((result : Text) × (x ≡ inr result))
  Result-cases (inl err) = inl (err, refl)
  Result-cases (inr result) = inr (result, refl)

  reply-Replied :
      (call : ToolCall) (cs : List ToolCall) (calls : ℕ) (messages : List Message) (text : Text)
      → (x : Called) → Replied cs (suc calls) (messages ++ tool_message call.id text ∷ []) x
      → Replied (call ∷ cs) calls messages x
  unfolding replies
  reply-Replied call cs calls messages text x (inl (err, e)) = inl (err, e)
  reply-Replied call cs calls messages text x (inr (texts, l, e)) =
      let count : suc calls + length cs ≡ calls + suc (length cs) = omega arith in
      let m : Message = tool_message call.id text in
      inr (
        text ∷ texts,
        ap suc l,
        e
            ∙ (ap (λ n. answered n (messages ++ m ∷ [] ++ replies cs texts)) count
                ∙ ap (answered (calls + suc (length cs)))
                    (append_assoc messages (m ∷ []) (replies cs texts))),
      )

  -- The calls of one message, made in their order under the limit, either end the question, or add
  -- one reply for each call, in the same order and with its id, and count as many calls.
  call_tools-Replied :
      (cs : List ToolCall) (calls : ℕ) (messages : List Message) (log : Log)
      → Replied cs calls messages (call_tools j r h cs calls messages log).1
  unfolding call_tools replies
  call_tools-Replied [] calls messages log =
      let none_more : calls + 0 ≡ calls = omega arith in
      inr ([], refl, rw (append-nil messages, none_more) refl)
  call_tools-Replied (call ∷ cs) calls messages log =
      let x : Log × Result = run_native_tool_call j r h call log in
      elim (Bool-cases (leb r.max_tool_calls calls)) [
        | inl e ↦ rw (call_tools, e) (inl (limit_exceeded, refl))
        | inr e ↦ elim (Result-cases x.1) [
          | inl (err, f) ↦ rw (call_tools, e, f) (inl (err, refl))
          | inr (text, f) ↦
              let messages' : List Message = messages ++ tool_message call.id text ∷ [] in
              rw (call_tools, e, f)
                (reply-Replied call cs calls messages text _
                  (call_tools-Replied cs (suc calls) messages' x.0))
        ]
      ]
