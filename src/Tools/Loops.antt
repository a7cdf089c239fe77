-- ===== src/Tools/Loops.antt =====
-- The loop of `askEnvelope`: what holds of the log when a question is answered or given up.
use go_rag_agent.Base.{
  true, false, List, [], ◌∷◌, ◌≡◌, refl, subst, ℕ, zero, suc, ◌+◌, ◌≤◌, Option, none, some, Text,
  ◌⊎◌, inl, inr, arith, Bool-cases, leb,
}
use go_rag_agent.Tools.{Err, Json, asked, Log, Host, Runner, Result, Message}
use go_rag_agent.Tools.Envelope
use go_rag_agent.Tools.Envelope.{
  Parsed, no_call, final_answer, tool_call, Round, after_execute, after_parse, after_generate,
  envelope_checked, envelope_round, envelope_loop, ask_envelope, parse_tool_call_message,
}
use go_rag_agent.Tools.Audit.{is_audited, is_open, Clean, execute_tool_call-Clean}
use go_rag_agent.Tools.Bounds.{runs, asks, OneRun, execute_tool_call-OneRun}

-- the runs, by the number of calls that the loop goes on with, if it does
abbrev pub Counted : ℕ → Log → Option ℕ → Type 0
Counted limit log none = runs log ≤ limit
Counted limit log (some calls) = (runs log ≤ calls) × (calls ≤ limit)

pub asked-Clean : (h : Host) (log : Log) → Clean h log → Clean h (asked ∷ log)
unfolding is_audited is_open
asked-Clean h log c = c

module _ (j : Json) (r : Runner) (h : Host) where
  abbrev goes_on : ℕ → Round → Option ℕ
  goes_on calls (Envelope.finished result) = none
  goes_on calls (Envelope.next messages) = some (suc calls)

  -- a round asks the model once at most
  abbrev RoundOk : ℕ → ℕ → Log × Round → Type 0
  RoundOk calls bound x =
      Clean h x.0 × (asks x.0 ≤ bound) × Counted r.max_tool_calls x.0 (goes_on calls x.1)

  after_execute-Ok :
      (calls : ℕ) (messages : List Message) (content name : Text) (log : Log) (x : Log × Result)
      → Clean h x.0
      → OneRun log x.0
      → runs log ≤ calls
      → suc calls ≤ r.max_tool_calls
      → RoundOk calls (asks log) (after_execute messages content name x)
  unfolding after_execute
  after_execute-Ok calls messages content name log (log', inl err) c o a b =
      (c, omega (arith, o.1), omega (arith, o.0))
  after_execute-Ok calls messages content name log (log', inr result) c o a b =
      (c, omega (arith, o.1), (omega (arith, o.0), b))

  after_parse-Ok :
      (calls : ℕ) (messages : List Message) (content : Text) (p : Err ⊎ Parsed) (log : Log)
      → Clean h log
      → runs log ≤ calls
      → calls ≤ r.max_tool_calls
      → RoundOk calls (asks log) (after_parse j r h calls messages content p log)
  unfolding after_parse
  after_parse-Ok calls messages content (inl err) log c a b = (c, omega arith, omega arith)
  after_parse-Ok calls messages content (inr no_call) log c a b = (c, omega arith, omega arith)
  after_parse-Ok calls messages content (inr (final_answer t)) log c a b =
      (c, omega arith, omega arith)
  after_parse-Ok calls messages content (inr (tool_call call)) log c a b =
      elim (Bool-cases (leb r.max_tool_calls calls)) [
        | inl e ↦ rw e (c, omega arith, omega arith)
        | inr e ↦ rw e (
            after_execute-Ok calls messages content call.name log _
              (execute_tool_call-Clean j r h call.name _ log c)
              (execute_tool_call-OneRun j r h call.name _ log) a (ground arith))
      ]

  after_generate-Ok :
      (calls : ℕ) (messages : List Message) (m : Err ⊎ Message) (log : Log)
      → Clean h log
      → runs log ≤ calls
      → calls ≤ r.max_tool_calls
      → RoundOk calls (asks log) (after_generate j r h calls messages m log)
  unfolding after_generate
  after_generate-Ok calls messages (inl err) log c a b = (c, omega arith, omega arith)
  after_generate-Ok calls messages (inr msg) log c a b =
      after_parse-Ok calls messages msg.content (parse_tool_call_message j msg.content) log c a b

  envelope_checked-Ok :
      (calls : ℕ) (messages : List Message) (err : Option Err) (log : Log)
      → Clean h log
      → runs log ≤ calls
      → calls ≤ r.max_tool_calls
      → RoundOk calls (suc (asks log)) (envelope_checked j r h calls messages err log)
  unfolding envelope_checked asks runs
  envelope_checked-Ok calls messages (some err) log c a b = (c, omega arith, omega arith)
  envelope_checked-Ok calls messages none log c a b =
      after_generate-Ok calls messages (h.generate log messages) (asked ∷ log) (asked-Clean h log c)
        a b

  -- what holds of the log at the end of a loop
  abbrev pub LoopOk : ℕ → Log → Type 0
  LoopOk bound log = Clean h log × (runs log ≤ r.max_tool_calls) × (asks log ≤ bound)

  Round-cases :
      (x : Round)
      → ((result : Result) × (x ≡ Envelope.finished result))
        ⊎ ((messages : List Message) × (x ≡ Envelope.next messages))
  Round-cases (Envelope.finished result) = inl (result, refl)
  Round-cases (Envelope.next messages) = inr (messages, refl)

  envelope_loop-Ok :
      (rounds calls : ℕ) (messages : List Message) (log : Log)
      → Clean h log
      → runs log ≤ calls
      → calls ≤ r.max_tool_calls
      → LoopOk (rounds + asks log) (envelope_loop j r h rounds calls messages log).0
  unfolding envelope_loop envelope_round
  envelope_loop-Ok zero calls messages log c a b = (c, omega arith, omega arith)
  envelope_loop-Ok (suc rounds) calls messages log c a b =
      let x : Log × Round = envelope_checked j r h calls messages (h.context_err log) log in
      let (c', asked', ok) = envelope_checked-Ok calls messages (h.context_err log) log c a b in
      elim (Round-cases x.1) [
        | inl (result, e) ↦
            let ended : Counted r.max_tool_calls x.0 none =
              subst (λ y. Counted r.max_tool_calls x.0 (goes_on calls y)) e ok in
            rw (envelope_loop, e) (c', ended, omega arith)
        | inr (messages', e) ↦
            let going : Counted r.max_tool_calls x.0 (some (suc calls)) =
              subst (λ y. Counted r.max_tool_calls x.0 (goes_on calls y)) e ok in
            let rest = envelope_loop-Ok rounds (suc calls) messages' x.0 c' going.0 going.1 in
            rw (envelope_loop, e) (rest.0, rest.1, omega (arith, rest.2))
      ]

-- A question answered over the text protocol leaves a log in which every run of a tool came with
-- the leave of the policy, each announcement that the observer accepted is followed by an end with
-- the name of the same tool, the tools ran at most `MaxToolCalls` times and the model was asked at
-- most `MaxIterations` times, whatever the host does.
pub ask_envelope-Ok :
    (j : Json) (r : Runner) (h : Host) (messages : List Message)
    → let log = (ask_envelope j r h messages []).0 in
      (is_audited h log ≡ true)
      × ((name : Text) → is_open h.observer name log ≡ false)
      × (runs log ≤ r.max_tool_calls)
      × (asks log ≤ r.max_iterations)
unfolding ask_envelope runs asks is_audited is_open
ask_envelope-Ok j r h messages =
    let (c, a, b) =
      envelope_loop-Ok j r h r.max_iterations 0 messages [] (refl, λ name. refl) (omega arith)
        (omega arith) in
    (c.0, c.1, a, omega (arith, b))
