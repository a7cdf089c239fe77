-- ===== src/Tools/Audit.antt =====
-- What the log of a question shows: no tool runs without the leave of the policy, and no tool that
-- was announced to the observer is left without its end.
use go_rag_agent.Base.{
  Bool, true, false, ◌&&◌, ◌||◌, [], ◌∷◌, ◌≡◌, refl, sym, not, Option, none, some, Text, text_eq,
  text_eq_refl, trim_space, is_empty, ◌⊎◌, inl, inr, arith, Bool-cases,
}
use go_rag_agent.Tools.{
  Err, Json, asked, authorized, started, ended, ran, Log, Observer, Host, Runner,
}
use go_rag_agent.Tools.Schema.{Arguments, Invalid}
use go_rag_agent.Tools.Registry.{Tool, lookup_tool}
use go_rag_agent.Tools.Execute.{
  observe_end, fail_with, run_tool, run_with, is_none, after_start, start_tool, after_validate,
  after_authorize, authorize, with_tool, execute_tool_call, error_of, raise_result, tool_input,
  validate,
}

-- the policy gave leave to a call
unfoldable pub permits :
    Option (Log → Text → Arguments → Option Err) → Log → Text → Arguments → Bool
permits none log name args = true
permits (some policy) log name args = is_none (policy log name args)

-- leave for a tool of that name was the last thing asked, but for the announcement
unfoldable pub last_leave : Host → Text → Log → Bool
last_leave h name (started n ∷ log) = last_leave h name log
last_leave h name (authorized n args ∷ log) = text_eq n name && permits h.policy log n args
last_leave h name log = false

unfoldable pub has_leave : Host → Text → Log → Bool
has_leave h name log = is_none h.policy || last_leave h name log

-- every run in the log came with leave
unfoldable pub is_audited : Host → Log → Bool
is_audited h [] = true
is_audited h (ran name input ∷ log) = has_leave h name log && is_audited h log
is_audited h (asked ∷ log) = is_audited h log
is_audited h (authorized name args ∷ log) = is_audited h log
is_audited h (started name ∷ log) = is_audited h log
is_audited h (ended name ∷ log) = is_audited h log

unfoldable pub accepts : Option Observer → Text → Log → Bool
accepts none name log = false
accepts (some o) name log = is_none (o.on_tool_start log name)

-- a tool of that name was announced, the observer accepted it, and its end was not told since
unfoldable pub is_open : Option Observer → Text → Log → Bool
is_open o name [] = false
is_open o name (started n ∷ log) = (text_eq n name && accepts o n log) || is_open o name log
is_open o name (ended n ∷ log) = not (text_eq n name) && is_open o name log
is_open o name (asked ∷ log) = is_open o name log
is_open o name (authorized n args ∷ log) = is_open o name log
is_open o name (ran n input ∷ log) = is_open o name log

abbrev pub Clean : Host → Log → Type 0
Clean h log = (is_audited h log ≡ true) × ((name : Text) → is_open h.observer name log ≡ false)

-- no tool but those of one name is open
abbrev pub Pending : Host → Text → Log → Type 0
Pending h name log =
    (is_audited h log ≡ true)
    × ((n : Text) → text_eq name n ≡ false → is_open h.observer n log ≡ false)

pub Clean-Pending : (h : Host) (name : Text) (log : Log) → Clean h log → Pending h name log
Clean-Pending h name log c = (c.0, λ n e. c.1 n)

is_open-none : (name : Text) (log : Log) → is_open none name log ≡ false
unfolding is_open accepts
is_open-none name [] = refl
is_open-none name (started n ∷ log) = ground (arith, is_open-none name log)
is_open-none name (ended n ∷ log) = ground (arith, is_open-none name log)
is_open-none name (asked ∷ log) = is_open-none name log
is_open-none name (authorized n args ∷ log) = is_open-none name log
is_open-none name (ran n input ∷ log) = is_open-none name log

end-open :
    (o : Option Observer) (name : Text) (err : Option Err) (log : Log)
    → ((n : Text) → text_eq name n ≡ false → is_open o n log ≡ false)
    → (n : Text) → is_open o n (observe_end o name err log).0 ≡ false
unfolding observe_end is_open
end-open none name err log f n = is_open-none n log
end-open (some o) name err log f n = elim (Bool-cases (text_eq name n)) [
  | inl e ↦ ground (arith, e)
  | inr e ↦ ground (arith, e, f n e)
]

end-audited :
    (h : Host) (o : Option Observer) (name : Text) (err : Option Err) (log : Log)
    → is_audited h (observe_end o name err log).0 ≡ is_audited h log
unfolding observe_end is_audited
end-audited h none name err log = refl
end-audited h (some o) name err log = refl

pub end-Clean :
    (h : Host) (name : Text) (err : Option Err) (log : Log)
    → Pending h name log
    → Clean h (observe_end h.observer name err log).0
end-Clean h name err log p =
    (rw (end-audited h h.observer name err log) p.0, end-open h.observer name err log p.1)

fail_with-Clean :
    (h : Host) (name : Text) (err : Err) (log : Log)
    → Pending h name log
    → Clean h (fail_with h name err log).0
unfolding fail_with
fail_with-Clean h name err log a = end-Clean h name (some err) log a

run_tool-Clean :
    (h : Host) (name : Text) (tool : Tool) (input : Text) (log : Log)
    → has_leave h name log ≡ true
    → Pending h name log
    → Clean h (run_tool h name tool input log).0
unfolding run_tool is_audited is_open
run_tool-Clean h name tool input log l a =
    end-Clean h name
      (error_of (raise_result (h.context_err (ran name input ∷ log)) (h.run log tool input)))
      (ran name input ∷ log) (rw (l, a.0) refl, a.1)

run_with-Clean :
    (h : Host) (name : Text) (tool : Tool) (input : Text ⊎ Text) (log : Log)
    → has_leave h name log ≡ true
    → Pending h name log
    → Clean h (run_with h name tool input log).0
unfolding run_with
run_with-Clean h name tool (inl m) log l a = fail_with-Clean h name _ log a
run_with-Clean h name tool (inr input) log l a = run_tool-Clean h name tool input log l a

-- an observer that refused a tool is owed no end
after_start-Clean :
    (j : Json) (h : Host) (name : Text) (tool : Tool) (args : Arguments) (err : Option Err)
    (log : Log)
    → has_leave h name log ≡ true
    → Pending h name log
    → (is_none err ≡ false → (n : Text) → is_open h.observer n log ≡ false)
    → Clean h (after_start j h name tool args err log).0
unfolding after_start is_none
after_start-Clean j h name tool args none log l a f =
    run_with-Clean h name tool (tool_input j args (is_none tool.structured)) log l a
after_start-Clean j h name tool args (some err) log l a f = (a.0, f refl)

-- an announcement opens the tool of its name at most, and that one only when it is accepted
started-open :
    (o : Observer) (name : Text) (log : Log)
    → ((n : Text) → is_open (some o) n log ≡ false)
    → (n : Text)
    → (text_eq name n ≡ false → is_open (some o) n (started name ∷ log) ≡ false)
      × (is_none (o.on_tool_start log name) ≡ false
          → is_open (some o) n (started name ∷ log) ≡ false)
unfolding is_open accepts
started-open o name log f n = (λ e. ground (arith, e, f n), λ e. ground (arith, e, f n))

start_tool-Clean :
    (j : Json) (h : Host) (o : Option Observer) (name : Text) (tool : Tool) (args : Arguments)
    → (log : Log) → h.observer ≡ o
    → has_leave h name log ≡ true
    → Clean h log
    → Clean h (start_tool j h o name tool args log).0
unfolding start_tool is_audited has_leave last_leave is_none
start_tool-Clean j h none name tool args log e l c =
    after_start-Clean j h name tool args none log l (Clean-Pending h name log c)
      (λ d. absurd (ground arith))
start_tool-Clean j h (some o) name tool args log e l c =
    let closed : (n : Text) → is_open (some o) n log ≡ false = λ n. rw (sym e) (c.1 n) in
    after_start-Clean j h name tool args (o.on_tool_start log name) (started name ∷ log) l
      (c.0, λ n d. rw e ((started-open o name log closed n).0 d))
      (λ d n. rw e ((started-open o name log closed n).1 d))

after_validate-Clean :
    (j : Json) (h : Host) (name : Text) (tool : Tool) (args : Arguments) (err : Option Invalid)
    → (log : Log) → has_leave h name log ≡ true
    → Clean h log
    → Clean h (after_validate j h name tool args err log).0
unfolding after_validate
after_validate-Clean j h name tool args none log l c =
    start_tool-Clean j h h.observer name tool args log refl l c
after_validate-Clean j h name tool args (some err) log l c =
    fail_with-Clean h name _ log (Clean-Pending h name log c)

after_authorize-Clean :
    (j : Json) (h : Host) (name : Text) (tool : Tool) (args : Arguments) (err : Option Err)
    (log : Log)
    → (is_none err ≡ true → has_leave h name log ≡ true)
    → Clean h log
    → Clean h (after_authorize j h name tool args err log).0
unfolding after_authorize is_none
after_authorize-Clean j h name tool args none log l c =
    after_validate-Clean j h name tool args (validate tool.structured args) log (l refl) c
after_authorize-Clean j h name tool args (some err) log l c =
    fail_with-Clean h name _ log (Clean-Pending h name log c)

no_policy-leave :
    (h : Host) (name : Text) (log : Log) → h.policy ≡ none → has_leave h name log ≡ true
unfolding has_leave is_none
no_policy-leave h name log e = rw e refl

authorize-Clean :
    (j : Json) (h : Host) (policy : Option (Log → Text → Arguments → Option Err)) (name : Text)
    → (tool : Tool) (args : Arguments) (log : Log) → h.policy ≡ policy
    → Clean h log
    → Clean h (authorize j h policy name tool args log).0
unfolding authorize has_leave last_leave permits is_audited is_open is_none
authorize-Clean j h none name tool args log e a =
    after_authorize-Clean j h name tool args none log (λ d. no_policy-leave h name log e) a
authorize-Clean j h (some policy) name tool args log e a =
    after_authorize-Clean j h name tool args (policy log name args) (authorized name args ∷ log)
      (λ d. rw (e, text_eq_refl name) d) a

with_tool-Clean :
    (j : Json) (h : Host) (name : Text) (tool : Option Tool) (args : Arguments) (log : Log)
    → Clean h log
    → Clean h (with_tool j h name tool args log).0
unfolding with_tool
with_tool-Clean j h name none args log c = fail_with-Clean h name _ log (Clean-Pending h name log c)
with_tool-Clean j h name (some tool) args log a =
    authorize-Clean j h h.policy name tool args log refl a

pub execute_tool_call-Clean :
    (j : Json) (r : Runner) (h : Host) (raw : Text) (args : Arguments) (log : Log)
    → Clean h log
    → Clean h (execute_tool_call j r h raw args log).0
unfolding execute_tool_call
execute_tool_call-Clean j r h raw args log c = elim (Bool-cases (is_empty (trim_space raw))) [
  | inl e ↦ rw e c
  | inr e ↦
      rw e (with_tool-Clean j h (trim_space raw) (lookup_tool (trim_space raw) r.tools) args log c)
]
