-- ===== src/Ask/Answer.antt =====
-- agent.go: `askWithFormatLocked`, the question that is answered at once.
use go_rag_agent.Base.{
  ◌&&◌, ◌++◌, Option, none, some, List, [], ◌∷◌, ◌⊎◌, inl, inr, if◌then◌else◌, Text,
}
use go_rag_agent.Agent.{ToolCallBudget, new_tool_call_budget, acquire_call}
use go_rag_agent.Access.Filter.{SearchFilter}
use go_rag_agent.Memory.{Turn}
use go_rag_agent.Rag.Rewrite.{rewrite_follow_up}
use go_rag_agent.Ask.{
  AskError, Citation, Request, Log, Host, Action, ◌>>=◌, ◌>>◌, pure, lift, ask_for, perform,
  error_of, is, evidence_insufficient, recalled, asked, memorized, committed, recorded, model_start,
  model_end, model_metrics, call_hook, end_hook, budgeted, load_history, access_boundary_filter,
  Evidence, retrieve, citations_from_hits, user_queries,
}

pub record Answer : Type 0 where
  pub text : Text
  pub citations : List Citation

-- what a question has when the model is asked
pub record Question : Type 0 where
  pub request : Request
  pub hits : Evidence

-- The deferred function: the error that the question has is recorded, and an error of the recorder
-- takes the place of the answer.
unfoldable pub after_record : {A : Type 0} → AskError ⊎ A → Option AskError → AskError ⊎ A
after_record r none = r
after_record r (some err) = inl err

unfoldable pub unless_done : {A : Type 0} → Option AskError → Action A → Action A
unless_done none m log = m log
unless_done (some err) m log = (inl err, log)

module _ (h : Host) where
  -- without evidence an agent with other tools goes on
  unfoldable pub or_tools : (AskError ⊎ Evidence) × Log → (AskError ⊎ Evidence) × Log
  or_tools (inl err, log) =
      (if h.has_fallback_tools && is evidence_insufficient err then inr ([], []) else inl err, log)
  or_tools (inr e, log) = (inr e, log)

  unfoldable pub retrieve_or_tools : ToolCallBudget → Text → SearchFilter → Action Evidence
  unfolding or_tools retrieve
  retrieve_or_tools budget query f log = or_tools (budgeted h (retrieve h budget query f) log)

  unfoldable pub recall_text : Text → Action Text
  unfolding ask_for
  recall_text query = budgeted h (ask_for (recalled query) (λ log. h.recall log query))

  -- the callbacks behind the model, whose errors count where the model has none
  unfoldable pub after_model : {A : Type 0} → AskError ⊎ A → Log → (AskError ⊎ A) × Log
  after_model r log =
      let (err, log') = end_hook h (λ e. model_metrics) (end_hook h model_end (error_of r, log)) in
      (elim err [ none ↦ r | some e ↦ inl e ], log')

  -- The run of the model, with the tools that it calls, is one call.
  unfoldable pub run_model : Request → Action Text
  unfolding ask_for after_model
  run_model request log =
      let (r, log') = budgeted h (ask_for (asked request) (λ l. h.generate l request)) log in
      after_model r log'

  -- up to the request to the model
  unfoldable pub prepare : Text → Text → Action Question
  unfolding load_history retrieve_or_tools recall_text perform
  prepare query format = do
    history ← load_history h
    let rewritten = rewrite_follow_up h.runes query (user_queries history)
    f ← lift (access_boundary_filter h rewritten)
    evidence ← retrieve_or_tools (new_tool_call_budget h.max_tool_calls) rewritten f
    memory ← recall_text rewritten
    call_hook h model_start
    pure (record {
      request = record {
        query = rewritten;
        history = history;
        evidence_text = evidence.1;
        long_term_memory_text = memory;
        format_instruction = format;
        limiter = (acquire_call (new_tool_call_budget h.max_tool_calls)).0;
      };
      hits = evidence;
    })

  -- up to the answer of the model
  unfoldable pub answered : Text → Text → Action Answer
  unfolding prepare run_model
  answered query format = do
    question ← prepare query format
    text ← run_model question.request
    pure (record { text = text; citations = citations_from_hits question.hits.0 })

  unfoldable pub with_web : Answer → Action Answer
  with_web a log = (inr (record a { citations = a.citations ++ h.web_citations log }), log)

  -- `storeMemory` and `commitHistory`
  unfoldable pub keep_turn : Turn → Action (Unit {0})
  unfolding perform
  keep_turn turn = do
    perform (memorized turn) (λ log. h.memorize log turn)
    perform (committed turn) (λ log. h.commit log turn)

  unfoldable pub ask_body : Text → Text → Action Answer
  unfolding answered with_web keep_turn
  ask_body query format = do
    a ← answered query format
    b ← with_web a
    keep_turn (record { user = query; assistant = b.text })
    pure b

  unfoldable pub traced : {A : Type 0} → (AskError ⊎ A) × Log → (AskError ⊎ A) × Log
  unfolding after_record
  traced (r, log) = (after_record r (h.record_trace log (error_of r)), recorded (error_of r) ∷ log)

  -- `askWithFormatLocked`, from an empty log
  unfoldable pub ask_with_format : Text → Text → (AskError ⊎ Answer) × Log
  unfolding unless_done traced ask_body
  ask_with_format query format =
      unless_done (h.context_error []) (λ log. traced (ask_body query format log)) []
