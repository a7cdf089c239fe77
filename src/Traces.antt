-- ===== src/Traces.antt =====
-- trace_store.go: the records that a store in memory keeps of finished executions. A time is a number
-- of nanoseconds, and the zero time is 0. The estimated cost, a float64, is left out.
pub mod Queries
use go_rag_agent.Base.{
  Bool, true, false, not, ◌&&◌, List, [], ◌∷◌, ◌++◌, ℕ, zero, suc, ◌+◌, ◌-◌, Option, none, some,
  if◌then◌else◌, ltb, leb, ◌==◌, ℤ, is_neg, to_nat, Text, text_eq, is_empty, length, take, drop,
  map, reverse, ◌⊎◌, inl, inr,
}

pub data TraceStatus : Type 0 where
  success failure refused : TraceStatus

pub record ProviderCallTrace : Type 0 where
  pub input_tokens : ℕ
  pub output_tokens : ℕ
  pub total_tokens : ℕ

-- Of an execution, the fields that the store reads; of its tools the names, of its citations the
-- source paths.
pub record ExecutionTrace : Type 0 where
  pub session_id : Text
  pub query : Text
  pub started_at : ℕ
  pub finished_at : ℕ
  pub duration : ℕ
  pub stream : Bool
  pub success : Bool
  pub err : Option Text
  pub tool_calls : List Text
  pub provider_calls : List ProviderCallTrace
  pub citations : List Text
  pub refused : Bool
  pub refusal_reason : Text

pub record StoredTrace : Type 0 where
  pub session_id : Text
  pub query_summary : Text
  pub status : TraceStatus
  pub stream : Bool
  pub refused : Bool
  pub refusal_reason : Text
  pub started_at : ℕ
  pub finished_at : ℕ
  pub latency : ℕ
  pub tool_names : List Text
  pub provider_call_count : ℕ
  pub input_tokens : ℕ
  pub output_tokens : ℕ
  pub total_tokens : ℕ
  pub citation_sources : List Text
  pub err : Text

unfoldable pub derive_trace_status : ExecutionTrace → TraceStatus
derive_trace_status t = if t.refused then refused else if not t.success then failure else success

-- the ellipsis is one code point
unfoldable pub summarize_query : Text → ℕ → Text
summarize_query query max_runes =
    if leb (length query) max_runes then query else take max_runes query ++ 8230 ∷ []

abbrev pub default_trace_query_summary_runes : ℕ
default_trace_query_summary_runes = 120

unfoldable pub total : (ProviderCallTrace → ℕ) → List ProviderCallTrace → ℕ
total tokens [] = 0
total tokens (call ∷ calls) = tokens call + total tokens calls

abbrev or_empty : Option Text → Text
or_empty none = []
or_empty (some m) = m

unfoldable pub new_stored_trace : ExecutionTrace → StoredTrace
unfolding derive_trace_status summarize_query total
new_stored_trace t = record {
  session_id = t.session_id;
  query_summary = summarize_query t.query default_trace_query_summary_runes;
  status = derive_trace_status t;
  stream = t.stream;
  refused = t.refused;
  refusal_reason = t.refusal_reason;
  started_at = t.started_at;
  finished_at = t.finished_at;
  latency = t.duration;
  tool_names = t.tool_calls;
  provider_call_count = length t.provider_calls;
  input_tokens = total (λ c. c.input_tokens) t.provider_calls;
  output_tokens = total (λ c. c.output_tokens) t.provider_calls;
  total_tokens = total (λ c. c.total_tokens) t.provider_calls;
  citation_sources = t.citations;
  err = or_empty t.err;
}

-- A status that is not asked for is `none`, the empty string of the source.
pub record TraceQuery : Type 0 where
  pub session_id : Text
  pub status : Option TraceStatus
  pub since : ℕ
  pub until : ℕ
  pub limit : ℤ

pub data QueryError : Type 0 where
  negative_limit until_before_since : QueryError

unfoldable pub validate_query : TraceQuery → Option QueryError
validate_query q =
    if is_neg q.limit
    then some negative_limit
    else if ltb 0 q.since && ltb 0 q.until && ltb q.until q.since
    then some until_before_since
    else none

unfoldable pub status_eq : TraceStatus → TraceStatus → Bool
status_eq success success = true
status_eq failure failure = true
status_eq refused refused = true
status_eq _ _ = false

unfoldable pub has_status : Option TraceStatus → TraceStatus → Bool
has_status none s = true
has_status (some wanted) s = status_eq wanted s

unfoldable pub matches : TraceQuery → StoredTrace → Bool
unfolding has_status
matches q r =
    if not (is_empty q.session_id) && not (text_eq r.session_id q.session_id)
    then false
    else if not (has_status q.status r.status)
    then false
    else if ltb 0 q.since && ltb r.started_at q.since
    then false
    else if ltb 0 q.until && ltb q.until r.started_at
    then false
    else true

pub record TraceStore : Type 0 where
  pub capacity : ℕ
  pub records : List StoredTrace

unfoldable pub new_trace_store : ℤ → TraceStore
new_trace_store capacity = record {
  capacity = if leb (to_nat capacity) 0 then 1024 else to_nat capacity;
  records = [];
}

-- `slices.Delete(records, 0, len(records)-capacity)` where there are too many
unfoldable pub evict : ℕ → List StoredTrace → List StoredTrace
evict capacity records =
    if ltb capacity (length records) then drop (length records - capacity) records else records

unfoldable pub on_execution_trace : ExecutionTrace → TraceStore → TraceStore
on_execution_trace t s = record s {
  records = evict s.capacity (s.records ++ new_stored_trace t ∷ []);
}

-- the loop over the records, the latest first
unfoldable pub query_loop : TraceQuery → List StoredTrace → List StoredTrace → List StoredTrace
query_loop q out [] = out
query_loop q out (r ∷ rs) =
    let skipped = query_loop q out rs in
    let more = query_loop q (out ++ r ∷ []) rs in
    if not (matches q r)
    then skipped
    else if ltb 0 (to_nat q.limit) && length (out ++ r ∷ []) == to_nat q.limit
    then out ++ r ∷ []
    else more

unfoldable pub run_query :
    Option QueryError → TraceQuery → TraceStore → QueryError ⊎ List StoredTrace
run_query none q s = inr (query_loop q [] (reverse s.records))
run_query (some err) q s = inl err

-- `Query`
unfoldable pub query_traces : TraceQuery → TraceStore → QueryError ⊎ List StoredTrace
query_traces q s = run_query (validate_query q) q s
