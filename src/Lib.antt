-- ===== src/Lib.antt =====
-- Verification of go-rag-agent, a Go library that answers questions over a private knowledge base:
-- documents are cut into chunks and stored as vectors, a question retrieves chunks within the limits
-- of its caller, and a session asks a model under the control of a governor.
--
-- Parts, and where each one stands. Paths are from the root of the repository.
--
-- - Provider/: calls of a remote provider. provider_governance.go (limits: Config), the error classes,
--   backoff and retry loops of provider_resilience.go (Classify, Backoff, Retry), and the circuit
--   breaker, token bucket and governor of provider_governor.go (Breaker, Limiter, Governor). A
--   governed call asks the governor for each attempt: the governor asks the breaker, then the bucket,
--   and the attempt tells the breaker how it ended. `generate`, `stream`, `embed` and `search_web` are
--   the four governed calls and share the loop `governed`. Breaker/System runs any number of callers
--   over one breaker; Breaker/Recovery, Governor/Leaks and Retry/ hold the proofs.
-- - Session.antt: the critical sections of session.go (`beginExecution`, `endExecution`, `Close`,
--   `ClearHistory`, `commitHistory`, `flushPendingHistoryClear`). Session/System interleaves them, one
--   execution at a time, with calls of `Close` and `ClearHistory` at any moment. The history itself is
--   internal/memory/history.go, in Memory.antt.
-- - Rag/: internal/rag/chunker.go (Chunker), internal/rag/context.go (Context) and
--   internal/rag/rewrite.go (Rewrite). The loops over the content, the chunks and the earlier
--   questions are functions here.
-- - Access/: access_boundary.go (Access), the filter of internal/storage/search_filter.go (Filter) and
--   the filtered search of internal/storage/chromem_store.go (Search). The boundary turns the filter
--   of a request into one that the store normalizes and tests each chunk with.
-- - Agent/: agent.go, the counting of operations, the map of sessions and `Close` as a step relation
--   (Agent), with what holds in every run (Lifecycle).
-- - Cache/: prompt_cache.go, the bounded cache in memory (Cache) and the two-level cache (TwoLevel),
--   which is a client of the interface `Level` and its laws; the cache in memory satisfies them.
--   Finds, Reads and Size hold the proofs.
-- - Knowledge/: directory_sync.go (Knowledge), and AddKnowledge of session.go with
--   knowledge_lifecycle.go (Ingest), over an interface of vector stores. Recorded, Indexed and
--   Sources say what an import works on; Failures is about the calls that fail.
-- - LongTerm/: long_term_memory.go, the memory in the process (LongTerm) and the one over a vector store
--   (Vector), how a turn is cut and named (Compress), memory_provider.go (Provider) and the methods of
--   agent.go around an answer (Recall). Ranked, Scoped, Records, Forgotten, Isolation, Tenants and
--   VectorFilter hold the proofs.
-- - Prompt/: internal/graph/prompt_governance.go. Prompt has the tokenizer's interface, the cutting and
--   the compaction, Messages the hardening and the whole prompt; Truncated, Compacted, Budgets and
--   Roles are about them.
-- - Retrieval/: internal/retrieval (Retrieval) and the retriever of agent.go (Pipeline), which is a
--   client of a reranker and of a store, whose laws are in Inside. Subset, Shares, Entries and
--   Fused are about the rankings, Boundary about the whole retrieval.
-- - Config/: config.go with the configurations it checks. Options has the defaults, Checks `Validate`,
--   Bridges those of web_search.go, ocr_bridge.go and image_bridge.go, Governance the limits of a
--   provider before they are checked; Usable says what a
--   valid configuration gives the other parts.
-- - Tools/: tool_registry.go (Registry), the validation of structured_tool.go (Schema), and
--   tool_calling_runner.go: one tool call (Execute) and the loops over the text protocol (Envelope) and
--   the native protocol (Native). What the host's code answers is a function of the log of the calls
--   made before. Audit, Bounds, Loops, NativeLoop, Replies and Registered hold the proofs.
-- - Traces/: trace_store.go, the records of finished executions and the queries over them (Queries).
-- - Ask/: a question of agent.go, from loadHistory of session.go to the commit. Ask has the interface
--   Host of what is called and the retrieval, Answer `askWithFormatLocked`, Streaming
--   `askStreamLocked`; it is a client of Access, Rag.Rewrite and Rag.Context. Keeps has a rule for each
--   way to build a question, Parts what is called before its end, Commits and Streams how it ends. The
--   run of the model is one call: the tools it runs, retrieve_context with its own search among them,
--   and the events that tell of them are left out.
-- - Base/: numbers, lists, strings as lists of code points, maps as lists of entries, paths.
-- - Examples/: the theorems at concrete inputs, and tests of the definitions.
--
-- Choices. State that the source guards by a mutex is a record, and each critical section a
-- function on it; time is a number of nanoseconds that each call takes as an argument. `int` and
-- `time.Duration` are unbounded here. The loop over the content runs on fuel, the length of the
-- content, which is enough since each round moves forward (Rag.Chunker.Windows.split-Windows); the
-- loop over the attempts of a call, and the loops over the rounds of a tool-calling question, are
-- recursion on the number that is left. The search for the longest prefix of a prompt's text runs
-- on one more unit than the text has runes, which is enough since each round makes the interval
-- smaller. The loop that evicts from the cache runs on fuel, the number of entries, one of which
-- each round drops. A number in decimal has fuel for more digits than it can have. What goroutines
-- do to an agent is a step relation, one critical section a step. The fill of the token bucket, a
-- float64 in the source, is counted in exact fractions of a token. A third-party call (the
-- provider, the history store, the vector collection, a host's hook) is an argument, which the
-- theorems leave arbitrary. The spaces that are trimmed are those up to U+00FF, and a text is its
-- runes, so that invalid UTF-8 is left out.
--
-- Not modelled: the costs and token counts in metrics (floats, a third-party tokenizer), logging
-- and callbacks that change no state, the content of an execution's trace, clients of remote
-- services, file formats.
pub mod Base
pub mod Access
pub mod Agent
pub mod Ask
pub mod Cache
pub mod Config
pub mod Examples
pub mod Knowledge
pub mod LongTerm
pub mod Memory
pub mod Prompt
pub mod Provider
pub mod Rag
pub mod Retrieval
pub mod Session
pub mod Tools
pub mod Traces
