-- ===== src/Ask.antt =====
-- agent.go: one question, from the history to the commit. What the agent calls (stores, callbacks, the
-- model) answers by the calls made so far; the calls of one question are its log, the latest first.
-- The content of a trace is left out: what is recorded is the error it has.
pub mod Answer
pub mod Streaming
pub mod Keeps
pub mod Commits
pub mod Parts
pub mod Streams
use go_rag_agent.Base.{
  Bool, true, false, not, ◌&&◌, ◌||◌, ℕ, suc, List, [], ◌∷◌, map, Option, none, some, ◌⊎◌, inl, inr,
  if◌then◌else◌, ltb, ℤ, pos, to_nat, length, drop, any, filter, Text, text_eq,
}
use go_rag_agent.Agent.{ToolCallBudget, acquire_call}
use go_rag_agent.Memory.{Turn, trim}
use go_rag_agent.Access.{AccessBoundary, PolicyRequest, apply_to_retrieval}
use go_rag_agent.Access.Filter.{SearchFilter}
use go_rag_agent.Rag.Chunker.{Chunk}
use go_rag_agent.Rag.Context
use go_rag_agent.Rag.Context.{Assembled, assemble_context}
use go_rag_agent.Rag.Rewrite.{RuneTables}

-- what `errors.Is` finds in an error
pub data Sign : Type 0 where
  deadline_exceeded budget_exceeded evidence_insufficient context_assembly tool_limit access : Sign

pub record AskError : Type 0 where
  pub signs : List Sign
  pub text : Text

abbrev pub same_sign : Sign → Sign → Bool
same_sign deadline_exceeded deadline_exceeded = true
same_sign budget_exceeded budget_exceeded = true
same_sign evidence_insufficient evidence_insufficient = true
same_sign context_assembly context_assembly = true
same_sign tool_limit tool_limit = true
same_sign access access = true
same_sign a b = false

-- `errors.Is`
abbrev pub is : Sign → AskError → Bool
is sign err = any (same_sign sign) err.signs

-- `errors.Join(sign, err)`
abbrev pub joined : Sign → AskError → AskError
joined sign err = record err { signs = sign ∷ err.signs }

abbrev pub failure : Sign → Text → AskError
failure sign text = record { signs = sign ∷ []; text = text }

pub record Citation : Type 0 where
  pub source_path : Text
  pub title : Text
  pub chunk_id : Text
  pub start_rune : ℕ
  pub end_rune : ℕ

-- `graph.Request`, as far as it differs from question to question
pub record Request : Type 0 where
  pub query : Text
  pub history : List Turn
  pub evidence_text : Text
  pub long_term_memory_text : Text
  pub format_instruction : Text
  pub limiter : ToolCallBudget

-- what a telemetry callback is told
pub data Hook : Type 0 where
  retrieve_start : Text → Hook
  tool_start model_start model_metrics : Hook
  retrieve_end : ℕ → Option AskError → Hook
  tool_end model_end : Option AskError → Hook
  retrieval_metrics : ℕ → Hook
  fallback : Text → Hook

pub data StreamEvent : Type 0 where
  retrieval_started : Text → StreamEvent
  tool_started : StreamEvent
  retrieval_ended tool_ended : Option AskError → StreamEvent
  cited : Citation → StreamEvent
  answer_chunk : Text → StreamEvent
  failed : AskError → StreamEvent
  done : StreamEvent

pub data Call : Type 0 where
  loaded : Call
  hooked : Hook → Call
  searched : Text → SearchFilter → Call
  recalled : Text → Call
  asked : Request → Call
  emitted : StreamEvent → Call
  memorized committed : Turn → Call
  recorded : Option AskError → Call

abbrev pub Log : Type 0
Log = List Call

-- `recall`, `memorize` and `commit` stand for `retrieveMemoryText`, `storeMemory` and `commitHistory`,
-- which LongTerm and Session are about.
pub record Host : Type 0 where
  pub context_error : Log → Option AskError
  -- the cause of the context is `ErrExecutionBudgetExceeded`
  pub out_of_budget : Log → Bool
  -- the store of the history, where there is one
  pub store_load : Option (Log → AskError ⊎ List Turn)
  pub local_history : List Turn
  pub fail_open : Bool
  pub max_history_rounds : ℤ
  pub runes : RuneTables
  pub boundary : AccessBoundary
  -- the request to the boundary about a query
  pub policy_request : Text → PolicyRequest
  -- an error of a callback is its panic; where there is no callback there is none
  pub hook : Log → Hook → Option AskError
  -- `SearchDetailed`, with the fallbacks that it took
  pub search : Log → Text → SearchFilter → (AskError ⊎ List Chunk) × List Text
  pub max_tool_calls : ℤ
  pub has_fallback_tools : Bool
  pub recall : Log → Text → AskError ⊎ Text
  pub generate : Log → Request → AskError ⊎ Text
  -- the chunks that a streaming runner is about to emit, and its end, given the emitter's error
  pub plan : Log → Request → List Text
  pub plan_end : Log → Request → Option AskError → Option AskError
  -- `errors.Is` of a runner's error and the emitter's
  pub wraps : AskError → AskError → Bool
  pub web_citations : Log → List Citation
  pub emit : Log → StreamEvent → Option AskError
  pub memorize : Log → Turn → Option AskError
  pub commit : Log → Turn → Option AskError
  pub record_trace : Log → Option AskError → Option AskError

abbrev pub Action : Type 0 → Type 0
Action A = Log → (AskError ⊎ A) × Log

abbrev pub and_then : {A B : Type 0} → (AskError ⊎ A) × Log → (A → Action B) → (AskError ⊎ B) × Log
and_then (inl err, log) f = (inl err, log)
and_then (inr a, log) f = f a log

infixl 5 ◌>>=◌ ◌>>◌
abbrev pub ◌>>=◌ : {A B : Type 0} → Action A → (A → Action B) → Action B
◌>>=◌ m f log = and_then (m log) f

abbrev pub ◌>>◌ : {A B : Type 0} → Action A → Action B → Action B
m >> k = m >>= λ _. k

abbrev pub pure : {A : Type 0} → A → Action A
pure a log = (inr a, log)

abbrev pub raise : {A : Type 0} → AskError → Action A
raise err log = (inl err, log)

abbrev pub lift : {A : Type 0} → AskError ⊎ A → Action A
lift r log = (r, log)

-- a call with its answer
unfoldable pub ask_for : {A : Type 0} → Call → (Log → AskError ⊎ A) → Action A
ask_for call answer log = (answer log, call ∷ log)

abbrev pub or_fine : Option AskError → AskError ⊎ Unit {0}
or_fine none = inr tt
or_fine (some err) = inl err

-- a call that only can fail
unfoldable pub perform : Call → (Log → Option AskError) → Action (Unit {0})
perform call answer log = (or_fine (answer log), call ∷ log)

abbrev pub error_of : {A : Type 0} → AskError ⊎ A → Option AskError
error_of (inl err) = some err
error_of (inr a) = none

abbrev pub first_error : Option AskError → Option AskError → Option AskError
first_error none later = later
first_error (some err) later = some err

abbrev denied : Text ⊎ SearchFilter → AskError ⊎ SearchFilter
denied (inl text) = inl (failure access text)
denied (inr f) = inr f

abbrev pub Evidence : Type 0
Evidence = List Chunk × Text

-- the hits that the context kept, and its text
unfoldable pub assembled : List Chunk → Assembled → AskError ⊎ Evidence
assembled hits (Context.err Context.invalid_context_limit) = inl (failure context_assembly [])
assembled hits (Context.err Context.no_context_assembled) = inl (failure evidence_insufficient [])
assembled hits (Context.ok c) =
    inr (filter (λ hit. any (λ kept. text_eq kept.chunk_id hit.chunk_id) c.kept) hits, c.text)

unfoldable pub after_search : AskError ⊎ List Chunk → AskError ⊎ Evidence
unfolding assembled
after_search (inl err) = inl err
after_search (inr hits) = assembled hits (assemble_context hits (pos 4000))

abbrev pub kept_count : AskError ⊎ Evidence → ℕ
kept_count (inl err) = 0
kept_count (inr e) = length e.0

-- `citationsFromHits`
unfoldable pub citations_from_hits : List Chunk → List Citation
citations_from_hits hits =
    map
      (λ c. record {
        source_path = c.source_path;
        title = c.title;
        chunk_id = c.chunk_id;
        start_rune = c.start_rune;
        end_rune = c.end_rune;
      })
      hits

module _ (h : Host) where
  abbrev pub call_hook : Hook → Action (Unit {0})
  call_hook k = perform (hooked k) (λ log. h.hook log k)

  -- `normalizeExecutionBudgetError`
  abbrev pub normalize_budget_error : Log → AskError → AskError
  normalize_budget_error log err =
      if is deadline_exceeded err && h.out_of_budget log then joined budget_exceeded err else err

  abbrev pub normalized : {A : Type 0} → (AskError ⊎ A) × Log → (AskError ⊎ A) × Log
  normalized (inl err, log) = (inl (normalize_budget_error log err), log)
  normalized (inr a, log) = (inr a, log)

  abbrev pub budgeted : {A : Type 0} → Action A → Action A
  budgeted m log = normalized (m log)

  -- the turns of a store, the last ones only
  unfoldable pub stored_turns : AskError ⊎ List Turn → AskError ⊎ List Turn
  unfolding trim
  stored_turns (inl err) = if h.fail_open then inr [] else inl err
  stored_turns (inr turns) =
      if ltb 0 (to_nat h.max_history_rounds)
      then inr (trim (to_nat h.max_history_rounds) turns)
      else inr turns

  unfoldable pub load_from : Option (Log → AskError ⊎ List Turn) → Action (List Turn)
  unfolding stored_turns ask_for
  load_from none = pure h.local_history
  load_from (some load) = ask_for loaded (λ log. stored_turns (load log))

  unfoldable pub load_history : Action (List Turn)
  unfolding load_from
  load_history = load_from h.store_load

  -- `accessBoundaryFilter`
  unfoldable pub access_boundary_filter : Text → AskError ⊎ SearchFilter
  access_boundary_filter query = denied (apply_to_retrieval h.boundary (h.policy_request query))

  -- A callback at the end of a retrieval, with the error so far. Its own error is kept for the next
  -- callback, and does not reach the caller.
  abbrev pub end_hook : (Option AskError → Hook) → Option AskError × Log → Option AskError × Log
  end_hook k (err, log) = (first_error err (h.hook log (k err)), hooked (k err) ∷ log)

  abbrev pub fallback_hooks : List Text → Option AskError × Log → Option AskError × Log
  fallback_hooks [] x = x
  fallback_hooks (stage ∷ stages) x = fallback_hooks stages (end_hook (λ err. fallback stage) x)

  -- the deferred function of `retrieve`
  unfoldable pub end_retrieval : AskError ⊎ Evidence → List Text → Log → Log
  end_retrieval r stages log =
      let ended = end_hook (retrieve_end (kept_count r)) (error_of r, log) in
      let metrics = end_hook (λ err. retrieval_metrics (kept_count r)) (end_hook tool_end ended) in
      (fallback_hooks stages metrics).1

  unfoldable pub run_search : Text → SearchFilter → Action Evidence
  unfolding after_search end_retrieval
  run_search query f log =
      let (hits, stages) = h.search log query f in
      let r = after_search hits in (r, end_retrieval r stages (searched query f ∷ log))

  unfoldable pub started_search : Text → SearchFilter → Action Evidence
  unfolding perform run_search
  started_search query f = do
    call_hook (retrieve_start query)
    call_hook tool_start
    run_search query f

  unfoldable pub retrieve : ToolCallBudget → Text → SearchFilter → Action Evidence
  unfolding started_search acquire_call
  retrieve budget query f =
      if (acquire_call budget).1 then started_search query f else raise (failure tool_limit [])

-- `userQueries`
abbrev pub user_queries : List Turn → List Text
user_queries turns = map (λ t. t.user) turns
