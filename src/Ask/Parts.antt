-- ===== src/Ask/Parts.antt =====
-- agent.go: the calls that a question makes up to the answer of its model.
use go_rag_agent.Base.{
  Bool, true, false, ◌≡◌, refl, List, [], ◌∷◌, ◌++◌, Option, none, some, ◌⊎◌, inl, inr, Text,
  Option-cases,
}
use go_rag_agent.Agent.{ToolCallBudget}
use go_rag_agent.Access.Filter.{SearchFilter}
use go_rag_agent.Rag.Chunker.{Chunk}
use go_rag_agent.Rag.Rewrite.{rewrite_follow_up}
use go_rag_agent.Ask.{
  AskError, Call, Log, Host, Action, Hook, Citation, Request, Evidence, StreamEvent, done, loaded,
  hooked, searched, recalled, asked, emitted, recorded, ask_for, budgeted, end_hook, fallback_hooks,
  load_from, load_history, access_boundary_filter, after_search, end_retrieval, run_search,
  started_search, retrieve, user_queries, fallback, model_start, retrieve_start, tool_start,
  call_hook, retrieval_started, tool_started, retrieval_ended, tool_ended, cited, answer_chunk,
  failed, normalized,
}
use go_rag_agent.Ask.Answer.{
  or_tools, retrieve_or_tools, recall_text, after_model, run_model, prepare, answered,
}
use go_rag_agent.Ask.Streaming.{
  emit_event, record_end, emit_error, fail_retrieval, emit_citations, cite, deliver, fail_model,
  stream_model, stream_prepare, stream_answered, runner_result,
}
use go_rag_agent.Ask.Keeps.{
  Calls, Only, Only-pure, Only-raise, Only-ask_for, Only-if, Only-perform, Only-bind,
  Only-bind-lift, Only-caught, Calls-handled,
}

abbrev pub is_done : StreamEvent → Bool
is_done event = elim event [ done ↦ true | _ ↦ false ]

-- the calls that may come before the end of a question
pub record Admits (h : Host) (P : Call → Type 0) : Type 0 where
  pub loads : P loaded
  pub hooks : (k : Hook) → P (hooked k)
  pub searches :
      (query : Text) (f : SearchFilter)
      → access_boundary_filter h query ≡ inr f
      → P (searched query f)
  pub recalls : (query : Text) → P (recalled query)
  pub asks : (request : Request) → P (asked request)
  pub emits : (event : StreamEvent) → is_done event ≡ false → P (emitted event)
  pub records : (err : AskError) → P (recorded (some err))

module _ {h : Host} {P : Call → Type 0} (p : Admits h P) where
  Calls-normalized :
      {A : Type 0} (x : (AskError ⊎ A) × Log) → Calls P x.1 → Calls P (normalized h x).1
  Calls-normalized (inl err, log) c = c
  Calls-normalized (inr a, log) c = c

  Only-budgeted : {A : Type 0} (m : Action A) → Only P m → Only P (budgeted h m)
  Only-budgeted m k = record { at = λ log c. Calls-normalized (m log) (k.at log c) }

  Only-hook : (k : Hook) → Only P (call_hook h k)
  Only-hook k = Only-perform (hooked k) (λ log. h.hook log k) (p.hooks k)

  Only-load_history : Only P (load_history h)
  unfolding load_history load_from
  Only-load_history = elim (Option-cases h.store_load) [
    | inl e ↦ rw e (Only-pure h.local_history)
    | inr (load, e) ↦ rw e (Only-ask_for loaded _ p.loads)
  ]

  Only-recall_text : (query : Text) → Only P (recall_text h query)
  unfolding recall_text
  Only-recall_text query =
      Only-budgeted _ (Only-ask_for (recalled query) (λ log. h.recall log query) (p.recalls query))

  Calls-fallback_hooks :
      (stages : List Text) (x : Option AskError × Log)
      → Calls P x.1
      → Calls P (fallback_hooks h stages x).1
  Calls-fallback_hooks [] x c = c
  Calls-fallback_hooks (stage ∷ stages) x c =
      Calls-fallback_hooks stages (end_hook h (λ err. fallback stage) x)
        (p.hooks (fallback stage), c)

  Calls-end_retrieval :
      (r : AskError ⊎ Evidence) (stages : List Text) (log : Log)
      → Calls P log
      → Calls P (end_retrieval h r stages log)
  unfolding end_retrieval
  Calls-end_retrieval r stages log c =
      Calls-fallback_hooks stages _ (p.hooks _, (p.hooks _, (p.hooks _, c)))

  module _ (query : Text) (f : SearchFilter) (ok : access_boundary_filter h query ≡ inr f) where
    Only-run_search : Only P (run_search h query f)
    unfolding run_search
    Only-run_search = record {
      at = λ log c.
          Calls-end_retrieval (after_search (h.search log query f).0) (h.search log query f).1
            (searched query f ∷ log) (p.searches query f ok, c);
    }

    Only-started_search : Only P (started_search h query f)
    unfolding started_search
    Only-started_search =
        Only-bind (call_hook h (retrieve_start query)) _ (Only-hook (retrieve_start query))
          λ u. Only-bind (call_hook h tool_start) _ (Only-hook tool_start) λ v. Only-run_search

    Only-retrieve : (budget : ToolCallBudget) → Only P (retrieve h budget query f)
    unfolding retrieve
    Only-retrieve budget = Only-if _ _ _ Only-started_search (Only-raise _)

    Calls-or_tools : (x : (AskError ⊎ Evidence) × Log) → Calls P x.1 → Calls P (or_tools h x).1
    unfolding or_tools
    Calls-or_tools (inl err, log) c = c
    Calls-or_tools (inr e, log) c = c

    Only-retrieve_or_tools : (budget : ToolCallBudget) → Only P (retrieve_or_tools h budget query f)
    unfolding retrieve_or_tools
    Only-retrieve_or_tools budget = record {
      at = λ log c. Calls-or_tools _ ((Only-budgeted _ (Only-retrieve budget)).at log c);
    }

  Calls-after_model :
      {A : Type 0} (r : AskError ⊎ A) (log : Log) → Calls P log → Calls P (after_model h r log).1
  unfolding after_model
  Calls-after_model r log c = (p.hooks _, (p.hooks _, c))

  Only-run_model : (request : Request) → Only P (run_model h request)
  unfolding run_model
  Only-run_model request =
      let called : Only P (budgeted h (ask_for (asked request) (λ l. h.generate l request))) =
        Only-budgeted _ (Only-ask_for (asked request) _ (p.asks request)) in
      record {
        at = λ log c.
            let x = budgeted h (ask_for (asked request) (λ l. h.generate l request)) log in
            Calls-after_model x.0 x.1 (called.at log c);
      }

  Only-prepare : (query format : Text) → Only P (prepare h query format)
  unfolding prepare
  Only-prepare query format = Only-bind _ _ Only-load_history λ history.
      let rewritten = rewrite_follow_up h.runes query (user_queries history) in
      Only-bind-lift (access_boundary_filter h rewritten) _ λ f ok.
        Only-bind _ _ (Only-retrieve_or_tools rewritten f ok _) λ evidence.
          Only-bind _ _ (Only-recall_text rewritten)
            λ memory. Only-bind (call_hook h model_start) _ (Only-hook model_start) λ u. Only-pure _

  pub Only-answered : (query format : Text) → Only P (answered h query format)
  unfolding answered
  Only-answered query format =
      Only-bind _ _ (Only-prepare query format)
        λ question. Only-bind _ _ (Only-run_model question.request) λ text. Only-pure _

  -- the parts of a stream
  Only-emit_event : (event : StreamEvent) → is_done event ≡ false → Only P (emit_event h event)
  unfolding emit_event
  Only-emit_event event e = Only-perform (emitted event) (λ log. h.emit log event) (p.emits event e)

  Only-emit_error : {A : Type 0} (err : AskError) → Only P (emit_error h {A = A} err)
  unfolding emit_error record_end
  Only-emit_error err =
      Only-bind (emit_event h (failed err)) _ (Only-emit_event (failed err) refl) λ u.
        Only-bind (record_end h (some err)) _
          (Only-perform (recorded (some err)) (λ log. h.record_trace log (some err))
            (p.records err))
          λ v. Only-raise err

  Only-fail_retrieval : {A : Type 0} (err : AskError) → Only P (fail_retrieval h {A = A} err)
  unfolding fail_retrieval
  Only-fail_retrieval err =
      Only-bind _ _ (Only-emit_event (retrieval_ended (some err)) refl)
        λ u. Only-bind _ _ (Only-emit_event (tool_ended (some err)) refl) λ v. Only-emit_error err

  Only-emit_citations : (cs : List Citation) → Only P (emit_citations h cs)
  unfolding emit_citations
  Only-emit_citations [] = Only-pure tt
  Only-emit_citations (c ∷ cs) =
      Only-bind _ _ (Only-emit_event (cited c) refl) λ u. Only-emit_citations cs

  Only-cite : (hits : List Chunk) → Only P (cite h hits)
  unfolding cite
  Only-cite hits = record { at = λ log c. (Only-emit_citations _).at log c }

  Only-stream_prepare : (query : Text) → Only P (stream_prepare h query)
  unfolding stream_prepare
  Only-stream_prepare query =
      Only-bind _ _ (Only-caught _ _ Only-load_history Only-emit_error) λ history.
        let rewritten = rewrite_follow_up h.runes query (user_queries history) in
        Only-bind-lift (access_boundary_filter h rewritten) _ λ f ok.
          Only-bind _ _ (Only-emit_event (retrieval_started rewritten) refl) λ u.
            Only-bind _ _ (Only-emit_event tool_started refl) λ v.
              Only-bind _ _
                (Only-caught _ _ (Only-retrieve_or_tools rewritten f ok _) Only-fail_retrieval)
                λ evidence. Only-bind _ _ (Only-recall_text rewritten) λ memory.
                  Only-bind _ _ (Only-emit_event (retrieval_ended none) refl) λ w.
                    Only-bind _ _ (Only-emit_event (tool_ended none) refl) λ x.
                      Only-bind _ _ (Only-cite evidence.0) λ y.
                        Only-bind (call_hook h model_start) _ (Only-hook model_start)
                          λ z. Only-pure _

  Calls-deliver :
      (chunks : List Text) (text : Text) (log : Log)
      → Calls P log
      → Calls P (deliver h chunks text log).2
  unfolding deliver
  Calls-deliver [] text log c = c
  Calls-deliver (chunk ∷ chunks) text log c =
      let c' : Calls P (emitted (answer_chunk chunk) ∷ log) =
        (p.emits (answer_chunk chunk) refl, c) in
      elim (Option-cases (h.emit log (answer_chunk chunk))) [
        | inl e ↦
            rw (e, Calls)
              (Calls-deliver chunks (text ++ chunk) (emitted (answer_chunk chunk) ∷ log) c')
        | inr (err, e) ↦ rw (e, Calls) c'
      ]

  Only-fail_model : (emitter : Option AskError) (err : AskError) → Only P (fail_model h emitter err)
  unfolding fail_model
  Only-fail_model none err = Only-emit_error err
  Only-fail_model (some emitter) err =
      Only-if (h.wraps err emitter) _ _ (Only-raise err) (Only-emit_error err)

  Only-stream_model : (request : Request) → Only P (stream_model h request)
  unfolding stream_model
  Only-stream_model request = record {
    at = λ log c.
        let (emitter, text, log') = deliver h (h.plan log request) [] (asked request ∷ log) in
        Calls-handled
          (after_model h (runner_result h log' text (h.plan_end log' request emitter)) log')
          (fail_model h emitter)
          (Calls-after_model _ log'
            (Calls-deliver (h.plan log request) [] (asked request ∷ log) (p.asks request, c)))
          (Only-fail_model emitter);
  }

  pub Only-stream_answered : (query : Text) → Only P (stream_answered h query)
  unfolding stream_answered
  Only-stream_answered query = Only-bind _ _ (Only-stream_prepare query) Only-stream_model
