-- ===== src/Tools/Envelope.antt =====
-- tool_calling_runner.go: the loop of `askEnvelope`, which reads a tool call out of the text of an
-- answer. The first messages, built from the prompt, are an argument.
use go_rag_agent.Base.{
  not, List, [], ◌∷◌, ◌++◌, ℕ, zero, suc, Option, none, some, if◌then◌else◌, Text, codes,
  trim_space, has_prefix, is_empty, ◌⊎◌, inl, inr, leb,
}
use go_rag_agent.Tools.{
  Err, limit_exceeded, call_invalid, generate_failed, Json, asked, Log, Host, Runner, Result,
  Message, role_user, role_assistant, ToolCallRequest, ToolCallEnvelope,
}
use go_rag_agent.Tools.Schema.{Arguments}
use go_rag_agent.Tools.Execute.{execute_tool_call}

pub data Parsed : Type 0 where
  no_call : Parsed
  final_answer : Text → Parsed
  tool_call : ToolCallRequest → Parsed

unfoldable pub of_request : Option ToolCallRequest → Parsed
of_request none = no_call
of_request (some call) = tool_call call

unfoldable pub of_envelope : Text ⊎ ToolCallEnvelope → Err ⊎ Parsed
of_envelope (inl m) = inl (call_invalid m)
of_envelope (inr e) =
    if not (is_empty (trim_space e.final))
    then inr (final_answer e.final)
    else inr (of_request e.tool_call)

unfoldable pub parse_tool_call_message : Json → Text → Err ⊎ Parsed
parse_tool_call_message j content =
    let trimmed = trim_space content in
    if not (has_prefix trimmed (codes "{"))
    then inr no_call
    else of_envelope (j.unmarshal_envelope trimmed)

-- What a round of a loop leaves: the end, or the messages for the next round.
pub data Round : Type 0 where
  finished : Result → Round
  next : List Message → Round

abbrev or_none_given : Option Arguments → Arguments
or_none_given none = []
or_none_given (some args) = args

unfoldable pub after_execute : List Message → Text → Text → Log × Result → Log × Round
after_execute messages content name (log, inl err) = (log, finished (inl err))
after_execute messages content name (log, inr result) = (
  log,
  next (
      messages
      ++ record { role = role_assistant; content = content; tool_calls = []; tool_call_id = [] }
        ∷ record {
          role = role_user;
          content = codes "Tool result for " ++ (name ++ (codes ":\n" ++ result));
          tool_calls = [];
          tool_call_id = [];
        }
        ∷ []),
)

unfoldable pub after_parse :
    Json → Runner → Host → ℕ → List Message → Text → Err ⊎ Parsed → Log → Log × Round
after_parse j r h calls messages content (inl err) log = (log, finished (inl err))
after_parse j r h calls messages content (inr no_call) log = (log, finished (inr content))
after_parse j r h calls messages content (inr (final_answer final)) log =
    (log, finished (inr final))
after_parse j r h calls messages content (inr (tool_call call)) log =
    if leb r.max_tool_calls calls
    then (log, finished (inl limit_exceeded))
    else after_execute messages content call.name
        (execute_tool_call j r h call.name (or_none_given call.arguments) log)

unfoldable pub after_generate :
    Json → Runner → Host → ℕ → List Message → Err ⊎ Message → Log → Log × Round
after_generate j r h calls messages (inl err) log = (log, finished (inl (generate_failed err)))
after_generate j r h calls messages (inr msg) log =
    after_parse j r h calls messages msg.content (parse_tool_call_message j msg.content) log

unfoldable pub envelope_checked :
    Json → Runner → Host → ℕ → List Message → Option Err → Log → Log × Round
envelope_checked j r h calls messages (some err) log = (log, finished (inl err))
envelope_checked j r h calls messages none log =
    after_generate j r h calls messages (h.generate log messages) (asked ∷ log)

-- One round: the context is asked first, then the model.
unfoldable pub envelope_round : Json → Runner → Host → ℕ → List Message → Log → Log × Round
envelope_round j r h calls messages log =
    envelope_checked j r h calls messages (h.context_err log) log

-- The loop; the first number counts the rounds that are left, the second the calls made.
unfoldable pub envelope_loop : Json → Runner → Host → ℕ → ℕ → List Message → Log → Log × Result
envelope_loop j r h zero calls messages log = (log, inl limit_exceeded)
envelope_loop j r h (suc rounds) calls messages log =
    let (log', round) = envelope_round j r h calls messages log in
    elim round [
      | finished result ↦ (log', result)
      | next messages' ↦ envelope_loop j r h rounds (suc calls) messages' log'
    ]

unfoldable pub ask_envelope : Json → Runner → Host → List Message → Log → Log × Result
ask_envelope j r h messages log = envelope_loop j r h r.max_iterations 0 messages log
