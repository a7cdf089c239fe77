-- ===== src/Tools/NativeLoop.antt =====
-- The loop of `askNative`: what holds of the log when a question is answered or given up, and of the
-- messages that a round adds.
use go_rag_agent.Base.{
  true, false, List, [], ◌∷◌, ◌++◌, ◌≡◌, refl, subst, ℕ, zero, suc, ◌+◌, ◌≤◌, Option, none, some,
  Text, trim_space, is_empty, ◌⊎◌, inl, inr, arith, Bool-cases, leb,
}
use go_rag_agent.Tools.{
  Err, Json, asked, Log, Host, Runner, Result, Message, ToolCall, recoverable, argument_invalid,
}
use go_rag_agent.Tools.Schema.{Arguments}
use go_rag_agent.Tools.Execute.{execute_tool_call}
use go_rag_agent.Tools.Native.{
  finished, next, decode_tool_arguments, classify_result, run_decoded, run_native_tool_call, Called,
  failed, answered, tool_message, call_tools, add_content, NativeRound, after_tools, after_answer,
  native_checked, native_loop, ask_native,
}
use go_rag_agent.Tools.Audit.{
  is_audited, is_open, Clean, Clean-Pending, end-Clean, execute_tool_call-Clean,
}
use go_rag_agent.Tools.Bounds.{runs, asks, OneRun, observe_end-NoRun, execute_tool_call-OneRun}
use go_rag_agent.Tools.Loops.{Counted, asked-Clean, LoopOk}

module _ (j : Json) (r : Runner) (h : Host) where
  abbrev calls_of : Called → Option ℕ
  calls_of (failed err) = none
  calls_of (answered calls messages) = some calls

  -- the calls of one message
  abbrev CallsOk : ℕ → Log × Called → Type 0
  CallsOk bound x = Clean h x.0 × (asks x.0 ≡ bound) × Counted r.max_tool_calls x.0 (calls_of x.1)

  classify_result-log : (x : Log × Result) → (classify_result j x).0 ≡ x.0
  unfolding classify_result
  classify_result-log (log, inl err) = refl
  classify_result-log (log, inr result) = refl

  run_decoded-Ok :
      (call : ToolCall) (args : Text ⊎ Arguments) (log : Log)
      → Clean h log
      → Clean h (run_decoded j r h call args log).0 × OneRun log (run_decoded j r h call args log).0
  unfolding run_decoded
  run_decoded-Ok call (inl m) log c =
      let name : Text = trim_space call.name in
      let err : Option Err = some (recoverable (argument_invalid m)) in
      let quiet = observe_end-NoRun h.observer name err log in
      (end-Clean h name err log (Clean-Pending h name log c), (omega (arith, quiet.0), quiet.1))
  run_decoded-Ok call (inr args) log c =
      rw (classify_result-log (execute_tool_call j r h call.name args log)) (
        execute_tool_call-Clean j r h call.name args log c,
        execute_tool_call-OneRun j r h call.name args log,
      )

  Result-cases : (x : Result) → ((err : Err) × (x ≡ inl err)) ⊎ ((result : Text) × (x ≡ inr result))
  Result-cases (inl err) = inl (err, refl)
  Result-cases (inr result) = inr (result, refl)

  call_tools-Ok :
      (cs : List ToolCall) (calls : ℕ) (messages : List Message) (log : Log)
      → Clean h log
      → runs log ≤ calls
      → calls ≤ r.max_tool_calls
      → CallsOk (asks log) (call_tools j r h cs calls messages log)
  unfolding call_tools run_native_tool_call
  call_tools-Ok [] calls messages log c a b = (c, refl, (a, b))
  call_tools-Ok (call ∷ cs) calls messages log c a b =
      let args : Text ⊎ Arguments = decode_tool_arguments j call.arguments in
      let x : Log × Result = run_decoded j r h call args log in
      let (c', o) = run_decoded-Ok call args log c in
      elim (Bool-cases (leb r.max_tool_calls calls)) [
        | inl e ↦ rw (call_tools, e) (c, refl, omega arith)
        | inr e ↦ elim (Result-cases x.1) [
          | inl (err, f) ↦
              let fits : runs x.0 ≤ r.max_tool_calls = ground (arith, o.0) in
              rw (call_tools, e, f) (c', o.1, fits)
          | inr (text, f) ↦
              let fits : suc calls ≤ r.max_tool_calls = ground arith in
              let rest =
                call_tools-Ok cs (suc calls) (messages ++ tool_message call.id text ∷ []) x.0 c'
                  (omega (arith, o.0)) fits in
              rw (call_tools, e, f) (rest.0, omega (arith, rest.1, o.1), rest.2)
        ]
      ]

  abbrev goes_on : NativeRound → Option ℕ
  goes_on (finished result) = none
  goes_on (next answer calls messages) = some calls

  abbrev RoundOk : ℕ → Log × NativeRound → Type 0
  RoundOk bound x = Clean h x.0 × (asks x.0 ≤ bound) × Counted r.max_tool_calls x.0 (goes_on x.1)

  after_tools-Ok :
      (answer : Text) (bound : ℕ) (x : Log × Called)
      → CallsOk bound x
      → RoundOk bound (after_tools answer x)
  unfolding after_tools
  after_tools-Ok answer bound (log, failed err) ok = (ok.0, omega (arith, ok.1), ok.2)
  after_tools-Ok answer bound (log, answered calls messages) ok = (ok.0, omega (arith, ok.1), ok.2)

  after_answer-Ok :
      (answer : Text) (calls : ℕ) (messages : List Message) (m : Err ⊎ Message) (log : Log)
      → Clean h log
      → runs log ≤ calls
      → calls ≤ r.max_tool_calls
      → RoundOk (asks log) (after_answer j r h answer calls messages m log)
  unfolding after_answer
  after_answer-Ok answer calls messages (inl err) log c a b = (c, omega arith, omega arith)
  after_answer-Ok answer calls messages (inr msg) log c a b =
      elim (Bool-cases (is_empty msg.tool_calls)) [
        | inl e ↦ rw e (c, omega arith, omega arith)
        | inr e ↦ rw e (
            after_tools-Ok (add_content answer msg.content) (asks log) _
              (call_tools-Ok msg.tool_calls calls (messages ++ msg ∷ []) log c a b))
      ]

  native_checked-Ok :
      (answer : Text) (calls : ℕ) (messages : List Message) (err : Option Err) (log : Log)
      → Clean h log
      → runs log ≤ calls
      → calls ≤ r.max_tool_calls
      → RoundOk (suc (asks log)) (native_checked j r h answer calls messages err log)
  unfolding native_checked asks runs
  native_checked-Ok answer calls messages (some err) log c a b = (c, omega arith, omega arith)
  native_checked-Ok answer calls messages none log c a b =
      after_answer-Ok answer calls messages (h.generate log messages) (asked ∷ log)
        (asked-Clean h log c) a b

  Round-cases :
      (x : NativeRound)
      → ((result : Result) × (x ≡ finished result))
        ⊎ ((answer : Text) × (calls : ℕ) × (messages : List Message) × (x
              ≡ next answer calls messages))
  Round-cases (finished result) = inl (result, refl)
  Round-cases (next answer calls messages) = inr (answer, calls, messages, refl)

  native_loop-Ok :
      (rounds : ℕ) (answer : Text) (calls : ℕ) (messages : List Message) (log : Log)
      → Clean h log
      → runs log ≤ calls
      → calls ≤ r.max_tool_calls
      → LoopOk j r h (rounds + asks log) (native_loop j r h rounds answer calls messages log).0
  unfolding native_loop
  native_loop-Ok zero answer calls messages log c a b = (c, omega arith, omega arith)
  native_loop-Ok (suc rounds) answer calls messages log c a b =
      let x : Log × NativeRound =
        native_checked j r h answer calls messages (h.context_err log) log in
      let (c', asked', ok) =
        native_checked-Ok answer calls messages (h.context_err log) log c a b in
      elim (Round-cases x.1) [
        | inl (result, e) ↦
            let ended : Counted r.max_tool_calls x.0 none =
              subst (λ y. Counted r.max_tool_calls x.0 (goes_on y)) e ok in
            rw (native_loop, e) (c', ended, omega arith)
        | inr (answer', calls', messages', e) ↦
            let going : Counted r.max_tool_calls x.0 (some calls') =
              subst (λ y. Counted r.max_tool_calls x.0 (goes_on y)) e ok in
            let rest = native_loop-Ok rounds answer' calls' messages' x.0 c' going.0 going.1 in
            rw (native_loop, e) (rest.0, rest.1, omega (arith, rest.2))
      ]

-- A question answered over the native protocol leaves a log in which every run of a tool came with
-- the leave of the policy, each announcement that the observer accepted is followed by an end with
-- the name of the same tool, the tools ran at most `MaxToolCalls` times and the model was asked at
-- most `MaxIterations` times, whatever the host does.
pub ask_native-Ok :
    (j : Json) (r : Runner) (h : Host) (messages : List Message)
    → let log = (ask_native j r h messages []).0 in
      (is_audited h log ≡ true)
      × ((name : Text) → is_open h.observer name log ≡ false)
      × (runs log ≤ r.max_tool_calls)
      × (asks log ≤ r.max_iterations)
unfolding ask_native runs asks is_audited is_open
ask_native-Ok j r h messages =
    let (c, a, b) =
      native_loop-Ok j r h r.max_iterations [] 0 messages [] (refl, λ name. refl) (omega arith)
        (omega arith) in
    (c.0, c.1, a, omega (arith, b))
