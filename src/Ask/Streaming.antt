-- ===== src/Ask/Streaming.antt =====
-- agent.go: `askStreamLocked`, the question whose answer is emitted in chunks. The emitter is there.
use go_rag_agent.Base.{◌++◌, Option, none, some, List, [], ◌∷◌, ◌⊎◌, inl, inr, if◌then◌else◌, Text}
use go_rag_agent.Agent.{new_tool_call_budget, acquire_call}
use go_rag_agent.Rag.Chunker.{Chunk}
use go_rag_agent.Rag.Rewrite.{rewrite_follow_up}
use go_rag_agent.Ask.{
  AskError, Citation, Request, Log, Host, Action, and_then, ◌>>=◌, ◌>>◌, pure, raise, lift, perform,
  asked, emitted, recorded, model_start, StreamEvent, retrieval_started, tool_started,
  retrieval_ended, tool_ended, cited, answer_chunk, failed, done, call_hook, normalize_budget_error,
  load_history, access_boundary_filter, citations_from_hits, user_queries,
}
use go_rag_agent.Ask.Answer.{retrieve_or_tools, recall_text, after_model, keep_turn, unless_done}

abbrev pub handled :
    {A : Type 0} → (AskError ⊎ A) × Log → (AskError → Action A) → (AskError ⊎ A) × Log
handled (inl err, log) handler = handler err log
handled (inr a, log) handler = (inr a, log)

abbrev pub caught : {A : Type 0} → Action A → (AskError → Action A) → Action A
caught m handler log = handled (m log) handler

module _ (h : Host) where
  unfoldable pub emit_event : StreamEvent → Action (Unit {0})
  unfolding perform
  emit_event event = perform (emitted event) (λ log. h.emit log event)

  -- `recordExecutionTrace`
  unfoldable pub record_end : Option AskError → Action (Unit {0})
  unfolding perform
  record_end err = perform (recorded err) (λ log. h.record_trace log err)

  -- `emitError`
  unfoldable pub emit_error : {A : Type 0} → AskError → Action A
  unfolding emit_event record_end
  emit_error err = do emit_event (failed err); record_end (some err); raise err

  unfoldable pub fail_retrieval : {A : Type 0} → AskError → Action A
  unfolding emit_event emit_error
  fail_retrieval err = do
    emit_event (retrieval_ended (some err))
    emit_event (tool_ended (some err))
    emit_error err

  unfoldable pub emit_citations : List Citation → Action (Unit {0})
  unfolding emit_event
  emit_citations [] = pure tt
  emit_citations (c ∷ cs) = emit_event (cited c) >> emit_citations cs

  unfoldable pub cite : List Chunk → Action (Unit {0})
  unfolding emit_citations
  cite hits log = emit_citations (citations_from_hits hits ++ h.web_citations log) log

  -- The runner's chunks reach the emitter until that fails; its other events change nothing but the
  -- number of the last step. The events that tell the emitter of the model's own tools are left out.
  unfoldable pub deliver : List Text → Text → Log → Option AskError × Text × Log
  deliver [] text log = (none, text, log)
  deliver (chunk ∷ chunks) text log = elim (h.emit log (answer_chunk chunk)) [
    | none ↦ deliver chunks (text ++ chunk) (emitted (answer_chunk chunk) ∷ log)
    | some err ↦ (some err, text ++ chunk, emitted (answer_chunk chunk) ∷ log)
  ]

  abbrev pub runner_result : Log → Text → Option AskError → AskError ⊎ Text
  runner_result log text none = inr text
  runner_result log text (some err) = inl (normalize_budget_error h log err)

  -- an error of the emitter is not emitted once more
  unfoldable pub fail_model : Option AskError → AskError → Action Text
  unfolding emit_error
  fail_model none err = emit_error err
  fail_model (some emitter) err = if h.wraps err emitter then raise err else emit_error err

  unfoldable pub stream_model : Request → Action Text
  unfolding deliver after_model fail_model
  stream_model request log =
      let (emitter, text, log') = deliver (h.plan log request) [] (asked request ∷ log) in
      handled (after_model h (runner_result log' text (h.plan_end log' request emitter)) log')
        (fail_model emitter)

  -- up to the request to the model
  unfoldable pub stream_prepare : Text → Action Request
  unfolding load_history retrieve_or_tools recall_text perform emit_event emit_error fail_retrieval
      cite
  stream_prepare query = do
    history ← caught (load_history h) emit_error
    let rewritten = rewrite_follow_up h.runes query (user_queries history)
    f ← lift (access_boundary_filter h rewritten)
    emit_event (retrieval_started rewritten)
    emit_event tool_started
    evidence ←
        caught (retrieve_or_tools h (new_tool_call_budget h.max_tool_calls) rewritten f)
          fail_retrieval
    memory ← recall_text h rewritten
    emit_event (retrieval_ended none)
    emit_event (tool_ended none)
    cite evidence.0
    call_hook h model_start
    pure (record {
      query = rewritten;
      history = history;
      evidence_text = evidence.1;
      long_term_memory_text = memory;
      format_instruction = [];
      limiter = (acquire_call (new_tool_call_budget h.max_tool_calls)).0;
    })

  unfoldable pub stream_answered : Text → Action Text
  unfolding stream_prepare stream_model
  stream_answered query = stream_prepare query >>= stream_model

  -- the end of the stream and its trace, and only then the memory and the history
  unfoldable pub finish_stream : Text → Text → Action Text
  unfolding emit_event record_end keep_turn
  finish_stream query text = do
    emit_event done
    record_end none
    keep_turn h (record { user = query; assistant = text })
    pure text

  -- `askStreamLocked`, from an empty log
  unfoldable pub ask_stream : Text → (AskError ⊎ Text) × Log
  unfolding unless_done stream_answered finish_stream
  ask_stream query =
      unless_done (h.context_error [])
        (λ log. and_then (stream_answered query log) (finish_stream query)) []
