-- ===== src/Tools/Bounds.antt =====
-- How often the loops of the runner call the model and the tools.
use go_rag_agent.Base.{
  [], ◌∷◌, ◌≡◌, refl, ℕ, suc, ◌≤◌, Option, none, some, Text, trim_space, is_empty, ◌⊎◌, inl, inr,
  arith, Bool-cases,
}
use go_rag_agent.Tools.{
  Err, Json, asked, authorized, started, ended, ran, Log, Observer, Host, Runner,
}
use go_rag_agent.Tools.Schema.{Arguments, Invalid}
use go_rag_agent.Tools.Registry.{Tool, lookup_tool}
use go_rag_agent.Tools.Execute.{
  observe_end, fail_with, run_tool, run_with, is_none, after_start, start_tool, after_validate,
  after_authorize, authorize, with_tool, execute_tool_call, error_of, raise_result, tool_input,
  validate,
}

-- the runs of tools in a log, and the calls of the model
unfoldable pub runs : Log → ℕ
runs [] = 0
runs (ran name input ∷ log) = suc (runs log)
runs (asked ∷ log) = runs log
runs (authorized name args ∷ log) = runs log
runs (started name ∷ log) = runs log
runs (ended name ∷ log) = runs log

unfoldable pub asks : Log → ℕ
asks [] = 0
asks (asked ∷ log) = suc (asks log)
asks (ran name input ∷ log) = asks log
asks (authorized name args ∷ log) = asks log
asks (started name ∷ log) = asks log
asks (ended name ∷ log) = asks log

-- at most one run more, and no call of the model
abbrev pub OneRun : Log → Log → Type 0
OneRun log log' = (runs log' ≤ suc (runs log)) × (asks log' ≡ asks log)

pub observe_end-NoRun :
    (o : Option Observer) (name : Text) (err : Option Err) (log : Log)
    → (runs (observe_end o name err log).0 ≡ runs log)
      × (asks (observe_end o name err log).0 ≡ asks log)
unfolding observe_end runs asks
observe_end-NoRun none name err log = (refl, refl)
observe_end-NoRun (some o) name err log = (refl, refl)

fail_with-OneRun :
    (h : Host) (name : Text) (err : Err) (log : Log) → OneRun log (fail_with h name err log).0
unfolding fail_with
fail_with-OneRun h name err log = ground (arith, observe_end-NoRun h.observer name (some err) log)

run_with-OneRun :
    (h : Host) (name : Text) (tool : Tool) (input : Text ⊎ Text) (log : Log)
    → OneRun log (run_with h name tool input log).0
unfolding run_with run_tool runs asks
run_with-OneRun h name tool (inl m) log = fail_with-OneRun h name _ log
run_with-OneRun h name tool (inr input) log =
    let log' : Log = ran name input ∷ log in
    ground (
      arith,
      observe_end-NoRun h.observer name
          (error_of (raise_result (h.context_err log') (h.run log tool input))) log',
    )

after_start-OneRun :
    (j : Json) (h : Host) (name : Text) (tool : Tool) (args : Arguments) (err : Option Err)
    (log : Log)
    → OneRun log (after_start j h name tool args err log).0
unfolding after_start
after_start-OneRun j h name tool args none log =
    run_with-OneRun h name tool (tool_input j args (is_none tool.structured)) log
after_start-OneRun j h name tool args (some err) log = ground arith

start_tool-OneRun :
    (j : Json) (h : Host) (o : Option Observer) (name : Text) (tool : Tool) (args : Arguments)
    → (log : Log) → OneRun log (start_tool j h o name tool args log).0
unfolding start_tool runs asks
start_tool-OneRun j h none name tool args log = after_start-OneRun j h name tool args none log
start_tool-OneRun j h (some o) name tool args log =
    after_start-OneRun j h name tool args (o.on_tool_start log name) (started name ∷ log)

after_validate-OneRun :
    (j : Json) (h : Host) (name : Text) (tool : Tool) (args : Arguments) (err : Option Invalid)
    → (log : Log) → OneRun log (after_validate j h name tool args err log).0
unfolding after_validate
after_validate-OneRun j h name tool args none log =
    start_tool-OneRun j h h.observer name tool args log
after_validate-OneRun j h name tool args (some err) log = fail_with-OneRun h name _ log

after_authorize-OneRun :
    (j : Json) (h : Host) (name : Text) (tool : Tool) (args : Arguments) (err : Option Err)
    (log : Log)
    → OneRun log (after_authorize j h name tool args err log).0
unfolding after_authorize
after_authorize-OneRun j h name tool args none log =
    after_validate-OneRun j h name tool args (validate tool.structured args) log
after_authorize-OneRun j h name tool args (some err) log = fail_with-OneRun h name _ log

authorize-OneRun :
    (j : Json) (h : Host) (policy : Option (Log → Text → Arguments → Option Err)) (name : Text)
    → (tool : Tool) (args : Arguments) (log : Log)
    → OneRun log (authorize j h policy name tool args log).0
unfolding authorize runs asks
authorize-OneRun j h none name tool args log = after_authorize-OneRun j h name tool args none log
authorize-OneRun j h (some policy) name tool args log =
    after_authorize-OneRun j h name tool args (policy log name args) (authorized name args ∷ log)

with_tool-OneRun :
    (j : Json) (h : Host) (name : Text) (tool : Option Tool) (args : Arguments) (log : Log)
    → OneRun log (with_tool j h name tool args log).0
unfolding with_tool
with_tool-OneRun j h name none args log = fail_with-OneRun h name _ log
with_tool-OneRun j h name (some tool) args log = authorize-OneRun j h h.policy name tool args log

pub execute_tool_call-OneRun :
    (j : Json) (r : Runner) (h : Host) (raw : Text) (args : Arguments) (log : Log)
    → OneRun log (execute_tool_call j r h raw args log).0
unfolding execute_tool_call
execute_tool_call-OneRun j r h raw args log = elim (Bool-cases (is_empty (trim_space raw))) [
  | inl e ↦ rw e (ground arith)
  | inr e ↦
      rw e (with_tool-OneRun j h (trim_space raw) (lookup_tool (trim_space raw) r.tools) args log)
]
