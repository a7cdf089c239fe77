-- ===== src/Tools/Native.antt =====
-- tool_calling_runner.go: the loop of `askNative` without streaming, where the model asks for tools
-- in a field of its message. The first messages, built from the prompt, are an argument.
use go_rag_agent.Base.{
  true, false, ◌||◌, List, [], ◌∷◌, ◌++◌, ℕ, zero, suc, Option, none, some, if◌then◌else◌, Text,
  codes, trim_space, has_prefix, is_empty, ◌⊎◌, inl, inr, leb, reverse,
}
use go_rag_agent.Tools.{
  Err, limit_exceeded, argument_invalid, generate_failed, recoverable, is_recoverable, is_protocol,
  Json, asked, Log, Host, Runner, Result, Message, role_tool, ToolCall,
}
use go_rag_agent.Tools.Schema.{Arguments}
use go_rag_agent.Tools.Execute.{execute_tool_call, observe_end}

abbrev or_none_given : Option Arguments → Arguments
or_none_given none = []
or_none_given (some args) = args

unfoldable pub of_unmarshal : Text ⊎ Option Arguments → Text ⊎ Arguments
of_unmarshal (inl m) = inl m
of_unmarshal (inr args) = inr (or_none_given args)

unfoldable pub decode_tool_arguments : Json → Text → Text ⊎ Arguments
decode_tool_arguments j raw =
    if is_empty (trim_space raw) then inr [] else of_unmarshal (j.unmarshal_arguments raw)

unfoldable pub encode_tool_error : Json → Err → Text
encode_tool_error j err =
    j.marshal_error (if is_protocol err then j.error_text err else codes "tool execution failed")

unfoldable pub or_encoded : Json → Err → Option Err → Result
or_encoded j err none = inr (encode_tool_error j err)
or_encoded j err (some end_err) = inl end_err

unfoldable pub classify_result : Json → Log × Result → Log × Result
classify_result j (log, inr result) = (log, inr result)
classify_result j (log, inl err) =
    (log, (if is_recoverable err then inr (encode_tool_error j err) else inl err))

unfoldable pub run_decoded : Json → Runner → Host → ToolCall → Text ⊎ Arguments → Log → Log × Result
run_decoded j r h call (inl m) log =
    let err = recoverable (argument_invalid m) in
    let (log', end_err) = observe_end h.observer (trim_space call.name) (some err) log in
    (log', or_encoded j err end_err)
run_decoded j r h call (inr args) log =
    classify_result j (execute_tool_call j r h call.name args log)

unfoldable pub run_native_tool_call : Json → Runner → Host → ToolCall → Log → Log × Result
run_native_tool_call j r h call log =
    run_decoded j r h call (decode_tool_arguments j call.arguments) log

pub data Called : Type 0 where
  failed : Err → Called
  answered : ℕ → List Message → Called

abbrev pub tool_message : Text → Text → Message
tool_message id result = record {
  role = role_tool;
  content = result;
  tool_calls = [];
  tool_call_id = id;
}

-- the loop over the calls of one message
unfoldable pub call_tools :
    Json → Runner → Host → List ToolCall → ℕ → List Message → Log → Log × Called
call_tools j r h [] calls messages log = (log, answered calls messages)
call_tools j r h (call ∷ rest) calls messages log = elim (leb r.max_tool_calls calls) [
  | true ↦ (log, failed limit_exceeded)
  | false ↦
      let (log', result) = run_native_tool_call j r h call log in
      elim result [
        | inl err ↦ (log', failed err)
        | inr text ↦
            call_tools j r h rest (suc calls) (messages ++ tool_message call.id text ∷ []) log'
      ]
]

-- `startRound`
unfoldable pub start_round : Text → Text
start_round answer =
    if is_empty answer || has_prefix (reverse answer) (codes "\n")
    then answer
    else answer ++ codes "\n"

unfoldable pub add_content : Text → Text → Text
add_content answer [] = answer
add_content answer (c ∷ content) = start_round answer ++ c ∷ content

pub data NativeRound : Type 0 where
  finished : Result → NativeRound
  next : Text → ℕ → List Message → NativeRound

unfoldable pub after_tools : Text → Log × Called → Log × NativeRound
after_tools answer (log, failed err) = (log, finished (inl err))
after_tools answer (log, answered calls messages) = (log, next answer calls messages)

unfoldable pub after_answer :
    Json → Runner → Host → Text → ℕ → List Message → Err ⊎ Message → Log → Log × NativeRound
after_answer j r h answer calls messages (inl err) log = (log, finished (inl (generate_failed err)))
after_answer j r h answer calls messages (inr msg) log =
    let answer' = add_content answer msg.content in
    if is_empty msg.tool_calls
    then (log, finished (inr answer'))
    else after_tools answer' (call_tools j r h msg.tool_calls calls (messages ++ msg ∷ []) log)

unfoldable pub native_checked :
    Json → Runner → Host → Text → ℕ → List Message → Option Err → Log → Log × NativeRound
native_checked j r h answer calls messages (some err) log = (log, finished (inl err))
native_checked j r h answer calls messages none log =
    after_answer j r h answer calls messages (h.generate log messages) (asked ∷ log)

unfoldable pub native_loop : Json → Runner → Host → ℕ → Text → ℕ → List Message → Log → Log × Result
native_loop j r h zero answer calls messages log = (log, inl limit_exceeded)
native_loop j r h (suc rounds) answer calls messages log =
    let (log', round) = native_checked j r h answer calls messages (h.context_err log) log in
    elim round [
      | finished result ↦ (log', result)
      | next answer' calls' messages' ↦ native_loop j r h rounds answer' calls' messages' log'
    ]

unfoldable pub ask_native : Json → Runner → Host → List Message → Log → Log × Result
ask_native j r h messages log = native_loop j r h r.max_iterations [] 0 messages log
