-- ===== src/Examples/Traces.antt =====
-- A store of two records that three executions were told to.
use go_rag_agent.Base.{
  Bool, true, false, List, [], ◌∷◌, ◌≡◌, refl, ℕ, none, some, pos, codes, text_eq, map, filter,
  last, reverse, inl, inr,
}
use go_rag_agent.Traces.{
  ExecutionTrace, TraceQuery, success, derive_trace_status, summarize_query, total,
  new_stored_trace, validate_query, status_eq, has_status, matches, new_trace_store, evict,
  on_execution_trace, query_loop, run_query, query_traces, until_before_since,
}
use go_rag_agent.Traces.Queries.{record_all, up_to, query_traces-latest}

abbrev execution : ℕ → Bool → ExecutionTrace
execution at ok = record {
  session_id = codes "s";
  query = codes "q";
  started_at = at;
  finished_at = at;
  duration = 0;
  stream = false;
  success = ok;
  err = none;
  tool_calls = [];
  provider_calls = record { input_tokens = 1; output_tokens = 2; total_tokens = 3 } ∷ [];
  citations = [];
  refused = false;
  refusal_reason = [];
}

abbrev executions : List ExecutionTrace
executions = execution 1 true ∷ execution 2 true ∷ execution 3 true ∷ execution 4 false ∷ []

abbrev wanted : TraceQuery
wanted = record {
  session_id = codes "s";
  status = some success;
  since = 1;
  until = 9;
  limit = pos 1;
}

query_traces-latest_example :
    query_traces wanted (record_all executions (new_trace_store (pos 3)))
    ≡ inr (
        up_to 1 (
          filter
            (matches wanted)
            (reverse (last (new_trace_store (pos 3)).capacity (map new_stored_trace executions)))))
unfolding validate_query
query_traces-latest_example = query_traces-latest executions (pos 3) wanted refl

one_found :
    query_traces wanted (record_all executions (new_trace_store (pos 3)))
    ≡ inr (new_stored_trace (execution 3 true) ∷ [])
unfolding query_traces run_query query_loop record_all on_execution_trace new_trace_store evict
    matches has_status status_eq validate_query new_stored_trace derive_trace_status summarize_query
    total text_eq
one_found = refl

no_range :
    query_traces (record wanted { until = 1; since = 2 }) (new_trace_store (pos 3))
    ≡ inl until_before_since
unfolding query_traces run_query validate_query
no_range = refl
