-- ===== src/Tools/Execute.antt =====
-- tool_calling_runner.go: one call of a tool that the model asked for. The text of an error is cut
-- down to the name or the cause that it quotes.
use go_rag_agent.Base.{
  Bool, true, false, ◌&&◌, ◌∷◌, Option, none, some, if◌then◌else◌, Text, codes, trim_space,
  is_empty, length, find, ◌⊎◌, inl, inr, ◌==◌,
}
use go_rag_agent.Tools.{
  Err, call_invalid, argument_invalid, denied, recoverable, Json, authorized, started, ended, ran,
  Log, Observer, Host, Runner, Result,
}
use go_rag_agent.Tools.Schema.{Arguments, ToolSchema, Value, text, Invalid, validate_tool_arguments}
use go_rag_agent.Tools.Registry.{Tool, lookup_tool}

-- `observeEnd`
unfoldable pub observe_end : Option Observer → Text → Option Err → Log → Log × Option Err
observe_end none name err log = (log, none)
observe_end (some o) name err log = (ended name ∷ log, o.on_tool_end log name err)

unfoldable pub first_error : Option Err → Err → Err
first_error none err = err
first_error (some end_err) err = end_err

-- a failure is observed, and the observer's own error comes before it
unfoldable pub fail_with : Host → Text → Err → Log → Log × Result
fail_with h name err log =
    let (log', end_err) = observe_end h.observer name (some err) log in
    (log', inl (first_error end_err err))

unfoldable pub raise : Option Err → Err → Err
raise none err = recoverable err
raise (some ctx_err) err = err

unfoldable pub end_run : Result → Option Err → Result
end_run (inl err) end_err = inl err
end_run (inr result) none = inr result
end_run (inr result) (some end_err) = inl end_err

abbrev pub error_of : Result → Option Err
error_of (inl err) = some err
error_of (inr result) = none

-- an error of the tool is one that the model may mend, unless the context is done
unfoldable pub raise_result : Option Err → Result → Result
raise_result ctx_err (inl err) = inl (raise ctx_err err)
raise_result ctx_err (inr result) = inr result

unfoldable pub run_tool : Host → Text → Tool → Text → Log → Log × Result
run_tool h name tool input log =
    let log' : Log = ran name input ∷ log in
    let result = raise_result (h.context_err log') (h.run log tool input) in
    let (log'', end_err) = observe_end h.observer name (error_of result) log' in
    (log'', end_run result end_err)

unfoldable pub as_plain : Option Value → Option Text
as_plain (some (text s)) = some s
as_plain _ = none

unfoldable pub or_json : Option Text → Text ⊎ Text → Text ⊎ Text
or_json (some s) data' = inr s
or_json none data' = data'

-- `toolInput`
unfoldable pub tool_input : Json → Arguments → Bool → Text ⊎ Text
tool_input j args plain =
    if plain && length args == 1
    then or_json (as_plain (find (codes "input") args)) (j.marshal_arguments args)
    else j.marshal_arguments args

unfoldable pub run_with : Host → Text → Tool → Text ⊎ Text → Log → Log × Result
run_with h name tool (inl m) log = fail_with h name (recoverable (argument_invalid m)) log
run_with h name tool (inr input) log = run_tool h name tool input log

unfoldable pub is_none {ℓ} : {A : Type ℓ} → Option A → Bool
is_none none = true
is_none (some a) = false

unfoldable pub after_start : Json → Host → Text → Tool → Arguments → Option Err → Log → Log × Result
after_start j h name tool args none log =
    run_with h name tool (tool_input j args (is_none tool.structured)) log
after_start j h name tool args (some err) log = (log, inl err)

unfoldable pub start_tool :
    Json → Host → Option Observer → Text → Tool → Arguments → Log → Log × Result
start_tool j h none name tool args log = after_start j h name tool args none log
start_tool j h (some o) name tool args log =
    after_start j h name tool args (o.on_tool_start log name) (started name ∷ log)

unfoldable pub validate : Option ToolSchema → Arguments → Option Invalid
validate none args = none
validate (some schema) args = validate_tool_arguments schema args

unfoldable pub after_validate :
    Json → Host → Text → Tool → Arguments → Option Invalid → Log → Log × Result
after_validate j h name tool args none log = start_tool j h h.observer name tool args log
after_validate j h name tool args (some err) log =
    fail_with h name (recoverable (argument_invalid name)) log

unfoldable pub after_authorize :
    Json → Host → Text → Tool → Arguments → Option Err → Log → Log × Result
after_authorize j h name tool args none log =
    after_validate j h name tool args (validate tool.structured args) log
after_authorize j h name tool args (some err) log = fail_with h name (denied name err) log

unfoldable pub authorize :
    Json
    → Host
    → Option (Log → Text → Arguments → Option Err)
    → Text
    → Tool
    → Arguments
    → Log
    → Log × Result
authorize j h none name tool args log = after_authorize j h name tool args none log
authorize j h (some policy) name tool args log =
    after_authorize j h name tool args (policy log name args) (authorized name args ∷ log)

unfoldable pub with_tool : Json → Host → Text → Option Tool → Arguments → Log → Log × Result
with_tool j h name none args log = fail_with h name (recoverable (call_invalid name)) log
with_tool j h name (some tool) args log = authorize j h h.policy name tool args log

-- `executeToolCall`, on arguments that are not nil
unfoldable pub execute_tool_call : Json → Runner → Host → Text → Arguments → Log → Log × Result
execute_tool_call j r h raw args log =
    let name = trim_space raw in
    let found = with_tool j h name (lookup_tool name r.tools) args log in
    if is_empty name then (log, inl (recoverable (call_invalid name))) else found
