-- ===== src/Tools.antt =====
-- tool_calling_runner.go: its errors, its messages and the code of others that it calls. Code of the host (the model,
-- the tools, the policy, the observer, the context) is a function of what was called before it, the
-- log, with the latest call first; encoding/json is the record `Json`.
pub mod Schema
pub mod Registry
pub mod Registered
pub mod Execute
pub mod Envelope
pub mod Native
pub mod Audit
pub mod Bounds
pub mod Loops
pub mod NativeLoop
pub mod Replies
use go_rag_agent.Base.{
  Bool, true, false, not, ◌&&◌, ◌||◌, List, [], ◌∷◌, ◌++◌, ℕ, Option, none, some, if◌then◌else◌,
  Text, codes, text_eq, trim_space, is_empty, length, Map, find, ◌⊎◌, inl, inr, ◌==◌, ℤ, is_neg,
  to_nat,
}
use go_rag_agent.Tools.Schema.{
  Arguments, ToolSchema, Value, null, text, Invalid, validate_tool_arguments,
}
use go_rag_agent.Tools.Registry.{Tool, ToolRegistry, registered_tools}

-- Errors, with the sentinels and the wrapping that the runner asks about; `other` is the host's.
pub data Err : Type 0 where
  other : Text → Err
  context_done limit_exceeded : Err
  call_invalid argument_invalid : Text → Err
  denied : Text → Err → Err
  generate_failed : Err → Err
  recoverable : Err → Err

-- `errors.AsType[recoverableToolError]`
unfoldable pub is_recoverable : Err → Bool
is_recoverable (recoverable e) = true
is_recoverable (denied name e) = is_recoverable e
is_recoverable (generate_failed e) = is_recoverable e
is_recoverable _ = false

-- `errors.Is` of one of the two errors of the protocol
unfoldable pub is_protocol : Err → Bool
is_protocol (call_invalid m) = true
is_protocol (argument_invalid m) = true
is_protocol (recoverable e) = is_protocol e
is_protocol (denied name e) = is_protocol e
is_protocol (generate_failed e) = is_protocol e
is_protocol _ = false

pub data Role : Type 0 where
  role_system role_user role_assistant role_tool : Role

pub record ToolCall : Type 0 where
  pub id : Text
  pub name : Text
  pub arguments : Text

pub record Message : Type 0 where
  pub role : Role
  pub content : Text
  pub tool_calls : List ToolCall
  pub tool_call_id : Text

pub record ToolCallRequest : Type 0 where
  pub name : Text
  pub arguments : Option Arguments

pub record ToolCallEnvelope : Type 0 where
  pub tool_call : Option ToolCallRequest
  pub final : Text

-- encoding/json: an error is its message
pub record Json : Type 0 where
  pub unmarshal_arguments : Text → Text ⊎ Option Arguments
  pub unmarshal_envelope : Text → Text ⊎ ToolCallEnvelope
  pub marshal_arguments : Arguments → Text ⊎ Text
  pub marshal_error : Text → Text
  pub error_text : Err → Text

-- One call of the host's code.
pub data Event : Type 0 where
  asked : Event
  authorized : Text → Arguments → Event
  started ended : Text → Event
  ran : Text → Text → Event

abbrev pub Log : Type 0
Log = List Event

pub record Observer : Type 0 where
  pub on_tool_start : Log → Text → Option Err
  pub on_tool_end : Log → Text → Option Err → Option Err

pub record Host : Type 0 where
  pub context_err : Log → Option Err
  pub generate : Log → List Message → Err ⊎ Message
  pub policy : Option (Log → Text → Arguments → Option Err)
  pub observer : Option Observer
  pub run : Log → Tool → Text → Err ⊎ Text

pub record Runner : Type 0 where
  pub tools : ToolRegistry
  pub max_tool_calls : ℕ
  pub max_iterations : ℕ

abbrev pub Result : Type 0
Result = Err ⊎ Text

pub data RunnerError : Type 0 where
  model_required tool_required iterations_negative calls_negative : RunnerError

-- `NewToolCallingRunner`, with its defaults; the registry is copied
unfoldable pub new_tool_calling_runner : Bool → Option ToolRegistry → ℤ → ℤ → RunnerError ⊎ Runner
unfolding registered_tools
new_tool_calling_runner has_model none iterations calls =
    if not has_model then inl model_required else inl tool_required
new_tool_calling_runner has_model (some registry) iterations calls =
    if not has_model
    then inl model_required
    else if is_empty (registered_tools registry)
    then inl tool_required
    else if is_neg iterations
    then inl iterations_negative
    else if is_neg calls
    then inl calls_negative
    else inr (record {
      tools = registry;
      max_tool_calls = to_nat calls;
      max_iterations = if to_nat iterations == 0 then 3 else to_nat iterations;
    })
