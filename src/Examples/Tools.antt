-- ===== src/Examples/Tools.antt =====
-- A model that asks for two tools and then answers, under a policy and an observer.
use go_rag_agent.Base.{
  true, false, List, [], ◌∷◌, ◌≡◌, refl, ◌≤◌, Option, none, some, if◌then◌else◌, Text, codes,
  text_eq, is_space, trim_left, trim_space, has_prefix, find, put, ◌⊎◌, inr,
}
use go_rag_agent.Tools.{
  Err, other, is_recoverable, is_protocol, Json, asked, authorized, started, ended, ran, Log,
  Observer, Host, Runner, Message, ToolCall, role_assistant,
}
use go_rag_agent.Tools.Schema.{
  text, ParameterSchema, string_type, missing, too_long, validate_text, validate_typed,
  validate_tool_argument, validate_property, or_else, validate_properties, validate_required,
  validate_tool_arguments,
}
use go_rag_agent.Tools.Registry.{
  Tool, register, register_all, new_tool_registry, lookup_tool, registered_tools,
}
use go_rag_agent.Tools.Execute.{
  observe_end, first_error, fail_with, end_run, raise_result, run_tool, tool_input, run_with,
  is_none, after_start, start_tool, validate, after_validate, after_authorize, authorize, with_tool,
  execute_tool_call,
}
use go_rag_agent.Tools.Native.{
  decode_tool_arguments, encode_tool_error, classify_result, run_decoded, run_native_tool_call,
  call_tools, start_round, add_content, after_tools, after_answer, native_checked, native_loop,
  ask_native,
}
use go_rag_agent.Tools.Envelope.{ask_envelope}
use go_rag_agent.Tools.Audit.{is_audited, is_open}
use go_rag_agent.Tools.Bounds.{runs, asks}
use go_rag_agent.Tools.Loops.{ask_envelope-Ok}
use go_rag_agent.Tools.NativeLoop.{ask_native-Ok}

abbrev tool : Text → Tool
tool name = record { handle = 0; name = name; description = []; structured = none }

-- a nil tool, one without a name, and a name twice
abbrev given : List (Option Tool)
given =
    some (tool (codes "t"))
    ∷ none
    ∷ some (tool [])
    ∷ some (tool (codes "u"))
    ∷ some (tool (codes "t"))
    ∷ []

two_tools :
    registered_tools (new_tool_registry given)
    ≡ some (tool (codes "t")) ∷ some (tool (codes "u")) ∷ []
unfolding registered_tools new_tool_registry register_all register find put text_eq
two_tools = refl

abbrev json : Json
json = record {
  unmarshal_arguments = λ raw. inr (some []);
  unmarshal_envelope = λ raw.
      inr (record { tool_call = some (record { name = codes "t"; arguments = none }); final = [] });
  marshal_arguments = λ args. inr (codes "{}");
  marshal_error = λ m. m;
  error_text = λ err. codes "invalid";
}

abbrev runner : Runner
runner = record { tools = new_tool_registry given; max_tool_calls = 2; max_iterations = 3 }

-- the calls that the model makes: of a registered tool, and of one that is not
abbrev calls : List ToolCall
calls =
    record { id = codes "1"; name = codes "t"; arguments = [] }
    ∷ record { id = codes "2"; name = codes "x"; arguments = [] }
    ∷ []

abbrev observer : Observer
observer = record { on_tool_start = λ log name. none; on_tool_end = λ log name err. none }

-- the model answers once it has been asked before
abbrev answer_to : Log → Err ⊎ Message
answer_to [] =
    inr
      (record { role = role_assistant; content = codes "{"; tool_calls = calls; tool_call_id = [] })
answer_to (e ∷ log) =
    inr
      (record { role = role_assistant; content = codes "done"; tool_calls = []; tool_call_id = [] })

abbrev host : Host
host = record {
  context_err = λ log. none;
  generate = λ log messages. answer_to log;
  policy = some (λ log name args. if text_eq name (codes "t") then none else some (other []));
  observer = some observer;
  run = λ log t input. inr (codes "ok");
}

ask_envelope-Ok_example :
    (is_audited host (ask_envelope json runner host [] []).0 ≡ true)
    × ((name : Text) → is_open host.observer name (ask_envelope json runner host [] []).0 ≡ false)
    × (runs (ask_envelope json runner host [] []).0 ≤ 2)
    × (asks (ask_envelope json runner host [] []).0 ≤ 3)
ask_envelope-Ok_example = ask_envelope-Ok json runner host []

ask_native-Ok_example :
    (is_audited host (ask_native json runner host [] []).0 ≡ true)
    × ((name : Text) → is_open host.observer name (ask_native json runner host [] []).0 ≡ false)
    × (runs (ask_native json runner host [] []).0 ≤ 2)
    × (asks (ask_native json runner host [] []).0 ≤ 3)
ask_native-Ok_example = ask_native-Ok json runner host []

-- the unknown tool is told to the model, which then answers
native_run : ask_native json runner host [] [] ≡ (
  asked
      ∷ ended (codes "x")
      ∷ ended (codes "t")
      ∷ ran (codes "t") (codes "{}")
      ∷ started (codes "t")
      ∷ authorized (codes "t") []
      ∷ asked
      ∷ [],
  inr (codes "{\ndone"),
)
unfolding ask_native native_loop native_checked after_answer after_tools add_content start_round
    call_tools run_native_tool_call run_decoded decode_tool_arguments classify_result
    encode_tool_error execute_tool_call with_tool authorize after_authorize validate after_validate
    start_tool after_start is_none run_with tool_input run_tool raise_result end_run fail_with
    first_error observe_end lookup_tool new_tool_registry register_all register find put text_eq
    trim_space trim_left is_space has_prefix is_recoverable is_protocol
native_run = refl

abbrev short_text : ParameterSchema
short_text = record {
  type_of = string_type;
  enumeration = [];
  min_length = 0;
  max_length = 3;
  minimum = none;
  maximum = none;
}

validated :
    (validate_tool_arguments
        (record { properties = (codes "q", short_text) ∷ []; required = codes "q" ∷ [] })
        ((codes "q", text (codes "long")) ∷ [])
      ≡ some (too_long (codes "q")))
    × (validate_tool_arguments (record { properties = []; required = codes "q" ∷ [] }) []
        ≡ some (missing (codes "q")))
unfolding validate_tool_arguments validate_required validate_properties validate_property
    validate_tool_argument validate_typed validate_text or_else find text_eq
validated = (refl, refl)
