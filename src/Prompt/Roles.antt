-- ===== src/Prompt/Roles.antt =====
-- internal/graph/prompt_governance.go: which text speaks in which role, and what hardening does to a
-- text from outside.
use go_rag_agent.Base.{
  Bool, true, false, ◌≡◌, refl, ap, ◌∙◌, inl, inr, List, [], ◌∷◌, ◌++◌, map, if◌then◌else◌,
  Bool-cases, filter, any, ℤ, Text, trim_space, trim_left, is_space, codes, join, split_lines,
  contains, has_prefix,
}
use go_rag_agent.Memory.{Turn}
use go_rag_agent.Provider.Classify.{to_lower}
use go_rag_agent.Tools.{role_system, role_user, role_assistant, Message}
use go_rag_agent.Prompt.{Tokenizer, is_blank, compact_history_for_prompt}
use go_rag_agent.Prompt.Messages.{
  is_suspicious, sanitize_line, sanitize_untrusted_text, filtered, notice, Limits,
  with_default_limits, message, optional, turn_messages, instruction, untrusted, base_messages,
  summary_or, with_context, build_prompt_messages,
}

abbrev pub is_system : Message → Bool
is_system m = elim m.role [ role_system ↦ true | _ ↦ false ]

filter-append {ℓ} :
    {A : Type ℓ} (p : A → Bool) (xs ys : List A) → filter p (xs ++ ys) ≡ filter p xs ++ filter p ys
unfolding filter
filter-append p [] ys = refl
filter-append p (x ∷ xs) ys = elim (Bool-cases (p x)) [
  | inl e ↦ rw e (ap (λ l. x ∷ l) (filter-append p xs ys))
  | inr e ↦ rw e (filter-append p xs ys)
]

abbrev pub systems : List Message → List Message
systems messages = filter is_system messages

systems-user : (prefix text : Text) → systems (optional role_user prefix text) ≡ []
unfolding optional filter
systems-user prefix text = elim (Bool-cases (is_blank text)) [
  | inl e ↦ rw e refl
  | inr e ↦ rw e refl
]

systems-assistant : (prefix text : Text) → systems (optional role_assistant prefix text) ≡ []
unfolding optional filter
systems-assistant prefix text = elim (Bool-cases (is_blank text)) [
  | inl e ↦ rw e refl
  | inr e ↦ rw e refl
]

systems-system :
    (prefix text : Text)
    → systems (optional role_system prefix text) ≡ optional role_system prefix text
unfolding optional filter
systems-system prefix text = elim (Bool-cases (is_blank text)) [
  | inl e ↦ rw e refl
  | inr e ↦ rw e refl
]

systems-append : (xs ys : List Message) → systems (xs ++ ys) ≡ systems xs ++ systems ys
systems-append xs ys = filter-append is_system xs ys

-- a user's and an assistant's message in front
systems-behind :
    (user assistant : Text) (messages : List Message)
    → systems (optional role_user [] user ++ optional role_assistant [] assistant ++ messages)
      ≡ systems messages
systems-behind user assistant messages =
    let users = optional role_user [] user in
    let assistants = optional role_assistant [] assistant in
    systems-append (users ++ assistants) messages
    ∙ ap (λ l. l ++ systems messages)
        (systems-append users assistants
          ∙ ap (λ l. l ++ systems assistants) (systems-user [] user)
          ∙ systems-assistant [] assistant)

systems-turn_messages : (turns : List Turn) → systems (turn_messages turns) ≡ []
unfolding turn_messages filter
systems-turn_messages [] = refl
systems-turn_messages (turn ∷ turns) =
    systems-behind turn.user turn.assistant (turn_messages turns) ∙ systems-turn_messages turns

systems-untrusted :
    (t : Tokenizer) (hardening : Bool) (prefix text : Text) (budget : ℤ)
    → systems (untrusted t hardening prefix text budget) ≡ []
unfolding untrusted filter
systems-untrusted t hardening prefix text budget = elim (Bool-cases (is_blank text)) [
  | inl e ↦ rw e refl
  | inr e ↦ rw e (systems-user prefix _)
]

append-nil {ℓ} : {A : Type ℓ} (xs : List A) → xs ++ [] ≡ xs
append-nil [] = refl
append-nil (x ∷ xs) = ap (λ l. x ∷ l) (append-nil xs)

-- the format and the summary in front of what is not the system's
systems-headed :
    (format summary : Text) (messages : List Message)
    → systems messages ≡ []
    → systems (optional role_system [] format ++ optional role_system [] summary ++ messages)
      ≡ optional role_system [] format ++ optional role_system [] summary
systems-headed format summary messages h =
    let formats = optional role_system [] format in
    let summaries = optional role_system [] summary in
    systems-append (formats ++ summaries) messages
    ∙ ap (λ l. systems (formats ++ summaries) ++ l) h
    ∙ append-nil (systems (formats ++ summaries))
    ∙ systems-append formats summaries
    ∙ ap (λ l. l ++ systems summaries) (systems-system [] format)
    ∙ ap (λ l. formats ++ l) (systems-system [] summary)

systems-base_messages :
    (format summary : Text) (kept : List Turn)
    → systems (base_messages format summary kept)
      ≡ message role_system instruction ∷ optional role_system [] format
        ++ optional role_system [] summary
unfolding base_messages filter
systems-base_messages format summary kept =
    ap (λ l. message role_system instruction ∷ l)
      (systems-headed format summary (turn_messages kept) (systems-turn_messages kept))

-- two lists without the system's in the middle, and the query
systems-followed :
    (messages xs ys : List Message) (query : Text)
    → systems xs ≡ []
    → systems ys ≡ []
    → systems (messages ++ xs ++ ys ++ message role_user query ∷ []) ≡ systems messages
unfolding filter
systems-followed messages xs ys query hx hy =
    systems-append (messages ++ xs ++ ys) (message role_user query ∷ [])
    ∙ append-nil (systems (messages ++ xs ++ ys))
    ∙ systems-append (messages ++ xs) ys
    ∙ ap (λ l. systems (messages ++ xs) ++ l) hy
    ∙ append-nil (systems (messages ++ xs))
    ∙ systems-append messages xs
    ∙ ap (λ l. systems messages ++ l) hx
    ∙ append-nil (systems messages)

systems-with_context :
    (t : Tokenizer) (l : Limits) (evidence memory query : Text) (messages : List Message)
    → systems (with_context t l evidence memory query messages) ≡ systems messages
unfolding with_context
systems-with_context t l evidence memory query messages =
    systems-followed messages
      (untrusted t l.hardening (codes "Relevant long-term memory:\n") memory _)
      (untrusted t l.hardening (codes "Relevant context:\n") evidence _) query
      (systems-untrusted t l.hardening (codes "Relevant long-term memory:\n") memory _)
      (systems-untrusted t l.hardening (codes "Relevant context:\n") evidence _)

-- The system speaks in a prompt with at most three messages: the fixed instruction, the response format
-- and the summary. What was retrieved or remembered, the query and the turns kept never speak as the
-- system.
pub build-systems :
    (t : Tokenizer) (history : List Turn) (evidence memory query format given_summary : Text)
    (limits : Limits)
    → systems (build_prompt_messages t history evidence memory query format given_summary limits)
      ≡ message role_system instruction ∷ optional role_system [] format
        ++ optional role_system [] (
            summary_or given_summary
              (compact_history_for_prompt t history
                (with_default_limits limits).max_history
                (with_default_limits limits).max_summary).1)
unfolding build_prompt_messages
build-systems t history evidence memory query format given_summary limits =
    let l = with_default_limits limits in
    let compacted = compact_history_for_prompt t history l.max_history l.max_summary in
    systems-with_context t l evidence memory query _
    ∙ systems-base_messages format (summary_or given_summary compacted.1) compacted.0

-- a line with the words of an instruction
abbrev pub is_injection : Text → Bool
is_injection line = is_suspicious (map to_lower (trim_space line))

pub record IsHardened (out : Text) : Type 0 where
  pub lines : List Text
  pub clean : any is_injection lines ≡ false
  pub joined : out ≡ notice ++ trim_space (join (codes "\n") lines)

filtered_lem : is_injection filtered ≡ false
unfolding is_suspicious contains has_prefix to_lower trim_space trim_left is_space
filtered_lem = refl

either-clean :
    (line : Text) (b : Bool)
    → is_injection line ≡ b
    → is_injection (if b then filtered else line) ≡ false
either-clean line true h = filtered_lem
either-clean line false h = h

sanitize_line-clean : (line : Text) → is_injection (sanitize_line line) ≡ false
unfolding sanitize_line
sanitize_line-clean line = either-clean line (is_injection line) refl

sanitize_lines-clean : (lines : List Text) → any is_injection (map sanitize_line lines) ≡ false
unfolding any
sanitize_lines-clean [] = refl
sanitize_lines-clean (line ∷ lines) = rw (sanitize_line-clean line, sanitize_lines-clean lines) refl

-- With hardening a text from outside that is not blank becomes the notice and lines none of which has
-- the words of an instruction.
sanitize-IsHardened :
    (text : Text) → is_blank text ≡ false → IsHardened (sanitize_untrusted_text text true)
unfolding sanitize_untrusted_text
sanitize-IsHardened text h = record {
  lines = map sanitize_line (split_lines (trim_space text));
  clean = sanitize_lines-clean (split_lines (trim_space text));
  joined = rw h refl;
}
