-- ===== src/Traces/Queries.antt =====
-- What a query answers, after any number of executions.
use go_rag_agent.Base.{
  true, false, ◌&&◌, List, [], ◌∷◌, ◌++◌, ◌≡◌, refl, sym, ap, ◌∙◌, ℕ, zero, suc, ◌+◌, none,
  if◌then◌else◌, ltb, ◌==◌, ℤ, to_nat, length, take, map, filter, last, last-append,
  last_of_length-le, reverse, inl, inr, arith, Bool-cases, length-append,
}
use mathlib.Core.List.{append-nil, append_assoc}
use go_rag_agent.Traces.{
  ExecutionTrace, StoredTrace, TraceQuery, TraceStore, new_stored_trace, matches, new_trace_store,
  evict, on_execution_trace, query_loop, run_query, validate_query, query_traces,
}

unfoldable pub record_all : List ExecutionTrace → TraceStore → TraceStore
record_all [] s = s
record_all (t ∷ ts) s = record_all ts (on_execution_trace t s)

-- the first `limit` of a list, or all of it where the limit is 0
unfoldable pub up_to : ℕ → List StoredTrace → List StoredTrace
up_to zero rs = rs
up_to (suc n) rs = take (suc n) rs

evict-last : (capacity : ℕ) (rs : List StoredTrace) → evict capacity rs ≡ last capacity rs
unfolding evict
evict-last capacity rs = elim (Bool-cases (ltb capacity (length rs))) [
  | inl e ↦ rw e
  | inr e ↦ rw e (sym (last_of_length-le capacity rs (ground arith)))
]

record_all-last :
    (ts : List ExecutionTrace) (s : TraceStore) (before : List StoredTrace)
    → s.records ≡ last s.capacity before
    → (record_all ts s).records ≡ last s.capacity (before ++ map new_stored_trace ts)
unfolding record_all on_execution_trace
record_all-last [] s before h = rw (append-nil before) h
record_all-last (t ∷ ts) s before h =
    let n : StoredTrace = new_stored_trace t in
    record_all-last ts (on_execution_trace t s) (before ++ n ∷ []) (
      evict-last s.capacity (s.records ++ n ∷ [])
      ∙ (ap (λ rs. last s.capacity (rs ++ n ∷ [])) h ∙ last-append s.capacity before (n ∷ [])))
    ∙ ap (last s.capacity) (append_assoc before (n ∷ []) (map new_stored_trace ts))

query_loop-step :
    (q : TraceQuery) (out : List StoredTrace) (r : StoredTrace) (rs : List StoredTrace)
    → query_loop q out (r ∷ rs) ≡ (
        if matches q r
        then if ltb 0 (to_nat q.limit) && suc (length out) == to_nat q.limit
          then out ++ r ∷ []
          else query_loop q (out ++ r ∷ []) rs
        else query_loop q out rs)
unfolding query_loop
query_loop-step q out r rs = ground (arith, length-append out (r ∷ []))

query_loop-unlimited :
    (q : TraceQuery) (out rs : List StoredTrace)
    → to_nat q.limit ≡ 0
    → query_loop q out rs ≡ out ++ filter (matches q) rs
unfolding query_loop filter
query_loop-unlimited q out [] h = sym (append-nil out)
query_loop-unlimited q out (r ∷ rs) h = elim (Bool-cases (matches q r)) [
  | inl e ↦
      rw (query_loop-step q out r rs, e, h)
        (query_loop-unlimited q (out ++ r ∷ []) rs h
          ∙ append_assoc out (r ∷ []) (filter (matches q) rs))
  | inr e ↦ rw (query_loop-step q out r rs, e) (query_loop-unlimited q out rs h)
]

-- with `suc n` records still to find, the loop adds the first `suc n` of those that match
query_loop-limited :
    (n : ℕ) (q : TraceQuery) (out rs : List StoredTrace)
    → length out + suc n ≡ to_nat q.limit
    → query_loop q out rs ≡ out ++ take (suc n) (filter (matches q) rs)
unfolding query_loop filter
query_loop-limited n q out [] h = sym (append-nil out)
query_loop-limited zero q out (r ∷ rs) h = elim (Bool-cases (matches q r)) [
  | inl e ↦
      let full : (ltb 0 (to_nat q.limit) && suc (length out) == to_nat q.limit) ≡ true =
        ground arith in
      rw (query_loop-step q out r rs, e, full) refl
  | inr e ↦ rw (query_loop-step q out r rs, e) (query_loop-limited zero q out rs h)
]
query_loop-limited (suc n) q out (r ∷ rs) h = elim (Bool-cases (matches q r)) [
  | inl e ↦
      let room : (ltb 0 (to_nat q.limit) && suc (length out) == to_nat q.limit) ≡ false =
        ground arith in
      rw (query_loop-step q out r rs, e, room)
        (query_loop-limited n q (out ++ r ∷ []) rs (omega (arith, length-append out (r ∷ [])))
          ∙ append_assoc out (r ∷ []) (take (suc n) (filter (matches q) rs)))
  | inr e ↦ rw (query_loop-step q out r rs, e) (query_loop-limited (suc n) q out rs h)
]

query_loop-up_to :
    (n : ℕ) (q : TraceQuery) (rs : List StoredTrace)
    → to_nat q.limit ≡ n
    → query_loop q [] rs ≡ up_to n (filter (matches q) rs)
unfolding up_to
query_loop-up_to zero q rs h = query_loop-unlimited q [] rs h
query_loop-up_to (suc n) q rs h = query_loop-limited n q [] rs (omega arith)

new_trace_store-last :
    (capacity : ℤ)
    → (new_trace_store capacity).records ≡ last (new_trace_store capacity).capacity []
unfolding new_trace_store
new_trace_store-last capacity =
    sym (last_of_length-le (new_trace_store capacity).capacity [] (omega arith))

-- A valid query, after any executions, answers with the records that match it among the last ones
-- up to the capacity, the latest first, and no more than the limit where there is one.
pub query_traces-latest :
    (ts : List ExecutionTrace) (capacity : ℤ) (q : TraceQuery)
    → validate_query q ≡ none
    → let s = new_trace_store capacity in
      query_traces q (record_all ts s)
      ≡ inr (
          up_to
            (to_nat q.limit)
            (filter (matches q) (reverse (last s.capacity (map new_stored_trace ts)))))
unfolding query_traces run_query
query_traces-latest ts capacity q h =
    let s : TraceStore = new_trace_store capacity in
    rw (h, record_all-last ts s [] (new_trace_store-last capacity))
      (ap inr (
        query_loop-up_to (to_nat q.limit) q (reverse (last s.capacity (map new_stored_trace ts)))
          refl))
