-- ===== src/Config/Checks.antt =====
-- config.go and the checks of internal/llm/chat.go and internal/llm/embedder.go: `Validate` makes its
-- checks one after the other and returns the error of the first that fails.
use go_rag_agent.Base.{
  Bool, false, ℕ, not, ◌&&◌, ◌||◌, List, [], ◌∷◌, ◌++◌, Option, none, some, if◌then◌else◌, leb, ltb,
  ℤ, is_neg, to_nat, is_empty, Text, codes, text_eq, trim_space,
}
use go_rag_agent.Config.Governance.{
  RawGovernance, raw_rate_limit_enabled, raw_breaker_enabled, positive,
}
use go_rag_agent.Config.Bridges.{
  ConfigError, first_failed, image_checks, ocr_checks, web_search_checks, no_chat_model,
  no_chat_url, bad_chat_url, no_chat_key, bad_chat_timeout, no_embedding_model, no_embedding_url,
  bad_embedding_url, no_embedding_key, bad_embedding_timeout, bad_timeout, bad_duration,
  bad_prompt_tokens, bad_history_tokens, bad_evidence_tokens, bad_summary_tokens, bad_memory_tokens,
  bad_memory_ttl, bad_stored_runes, bad_chunk_size, chunk_too_large, bad_chunk_overlap, bad_top_k,
  bad_history_rounds, bad_memory_top_k, bad_memory_threshold, bad_tool_calls, bad_attempts,
  bad_base_delay, bad_max_delay, bad_rate, bad_burst, burst_without_rate, rate_without_burst,
  bad_threshold, bad_open_timeout, bad_probes, no_threshold, no_open_timeout, bad_iterations,
  no_tools, bad_format, rerank_without_hybrid, bad_candidates, bad_rrf_k, bad_shortlist,
}
use go_rag_agent.Config.Options.{Config, with_defaults}

-- net/url's `ParseRequestURI`: the scheme and the host, where the text is a URI
pub record Url : Type 0 where
  pub scheme : Text
  pub host : Text

unfoldable pub is_base_url : Option Url → Bool
unfolding text_eq
is_base_url none = false
is_base_url (some url) =
    not (is_empty url.scheme)
    && not (is_empty url.host)
    && (text_eq url.scheme (codes "http") || text_eq url.scheme (codes "https"))

-- `firstNonEmpty`, of two values
unfoldable pub first_non_empty : Text → Text → Text
first_non_empty a b = if is_empty (trim_space a) then trim_space b else trim_space a

-- the errors of a model's own `Validate`
pub record ModelErrors : Type 0 where
  pub no_model : ConfigError
  pub no_url : ConfigError
  pub bad_url : ConfigError
  pub no_key : ConfigError
  pub bad_model_timeout : ConfigError

-- `ChatConfig.Validate` and `EmbeddingConfig.Validate`, where the model is not injected
unfoldable pub model_checks :
    (Text → Option Url) → Bool → Text → Text → Text → ℤ → ModelErrors → List (Bool × ConfigError)
unfolding is_base_url
model_checks parse injected model base_url api_key timeout errors =
    (injected || not (is_empty (trim_space model)), errors.no_model)
    ∷ (injected || not (is_empty (trim_space base_url)), errors.no_url)
    ∷ (injected || is_base_url (parse (trim_space base_url)), errors.bad_url)
    ∷ (injected || not (is_empty (trim_space api_key)), errors.no_key)
    ∷ (injected || positive timeout, errors.bad_model_timeout)
    ∷ []

unfoldable pub provider_checks : (Text → Option Url) → Config → List (Bool × ConfigError)
unfolding model_checks first_non_empty
provider_checks parse c =
    model_checks parse c.has_chat_model c.chat_model c.chat_base_url c.chat_api_key
      c.request_timeout
      (record {
        no_model = no_chat_model;
        no_url = no_chat_url;
        bad_url = bad_chat_url;
        no_key = no_chat_key;
        bad_model_timeout = bad_chat_timeout;
      })
    ++ model_checks parse c.has_embedder c.embedding_model
        (first_non_empty c.embedding_base_url c.chat_base_url)
        (first_non_empty c.embedding_api_key c.chat_api_key) c.request_timeout
        (record {
          no_model = no_embedding_model;
          no_url = no_embedding_url;
          bad_url = bad_embedding_url;
          no_key = no_embedding_key;
          bad_model_timeout = bad_embedding_timeout;
        })

unfoldable pub limit_checks : Config → List (Bool × ConfigError)
limit_checks c =
    (positive c.request_timeout, bad_timeout)
    ∷ (not (is_neg c.max_execution_duration), bad_duration)
    ∷ (positive c.max_prompt_tokens, bad_prompt_tokens)
    ∷ (positive c.max_history_tokens, bad_history_tokens)
    ∷ (positive c.max_evidence_tokens, bad_evidence_tokens)
    ∷ (positive c.max_summary_tokens, bad_summary_tokens)
    ∷ (positive c.max_memory_tokens, bad_memory_tokens)
    ∷ (not (is_neg c.long_term_memory_ttl), bad_memory_ttl)
    ∷ (positive c.long_term_memory_max_stored_runes, bad_stored_runes)
    ∷ (positive c.chunk_size, bad_chunk_size)
    ∷ (leb (to_nat c.chunk_size) 4000, chunk_too_large)
    ∷ (
      not (is_neg c.chunk_overlap) && ltb (to_nat c.chunk_overlap) (to_nat c.chunk_size),
      bad_chunk_overlap,
    )
    ∷ (positive c.top_k, bad_top_k)
    ∷ (positive c.max_history_rounds, bad_history_rounds)
    ∷ (not (is_neg c.long_term_memory_top_k), bad_memory_top_k)
    ∷ (not (is_neg c.long_term_memory_threshold), bad_memory_threshold)
    ∷ (positive c.max_tool_calls, bad_tool_calls)
    ∷ []

unfoldable pub governance_checks : RawGovernance → List (Bool × ConfigError)
unfolding raw_rate_limit_enabled raw_breaker_enabled
governance_checks g =
    let rate = raw_rate_limit_enabled g.rate_limit in
    let off = not (raw_breaker_enabled g.circuit_breaker) in
    (positive g.retry_max_attempts, bad_attempts)
    ∷ (positive g.retry_base_delay, bad_base_delay)
    ∷ (positive g.retry_max_delay, bad_max_delay)
    ∷ (not (is_neg g.rate_limit.requests_per_second), bad_rate)
    ∷ (not (is_neg g.rate_limit.burst), bad_burst)
    ∷ (rate || not (positive g.rate_limit.burst), burst_without_rate)
    ∷ (not rate || positive g.rate_limit.burst, rate_without_burst)
    ∷ (not (is_neg g.circuit_breaker.failure_threshold), bad_threshold)
    ∷ (not (is_neg g.circuit_breaker.open_timeout), bad_open_timeout)
    ∷ (not (is_neg g.circuit_breaker.half_open_max_calls), bad_probes)
    ∷ (off || positive g.circuit_breaker.failure_threshold, no_threshold)
    ∷ (off || positive g.circuit_breaker.open_timeout, no_open_timeout)
    ∷ []

unfoldable pub has_tool : Option ℕ → Bool
has_tool none = false
has_tool (some n) = ltb 0 n

unfoldable pub is_output_format : Text → Bool
unfolding text_eq
is_output_format format =
    text_eq format (codes "json_object")
    || text_eq format (codes "json_schema")
    || text_eq format (codes "prompt")

unfoldable pub feature_checks : Config → List (Bool × ConfigError)
unfolding has_tool is_output_format
feature_checks c =
    (positive c.max_iterations, bad_iterations)
    ∷ (not c.enable_tool_calling || has_tool c.registered_tools, no_tools)
    ∷ (is_output_format c.structured_output_format, bad_format)
    ∷ (not c.enable_rerank || c.enable_hybrid_search, rerank_without_hybrid)
    ∷ (positive c.hybrid_candidate_multiplier, bad_candidates)
    ∷ (positive c.hybrid_rrf_k, bad_rrf_k)
    ∷ (positive c.rerank_shortlist_multiplier, bad_shortlist)
    ∷ []

unfoldable pub checks : (Text → Option Url) → Config → List (Bool × ConfigError)
unfolding provider_checks limit_checks governance_checks feature_checks web_search_checks ocr_checks
    image_checks
checks parse c =
    provider_checks parse c
    ++ (limit_checks c
        ++ (governance_checks c.provider_governance
            ++ (feature_checks c
                ++ (web_search_checks c.web_search c.enable_web_search
                    ++ (ocr_checks c.pdf_ocr_bridge ++ image_checks c.image_text_bridge)))))

-- `Validate`: `none` for a configuration that is valid
unfoldable pub validate : (Text → Option Url) → Config → Option ConfigError
unfolding with_defaults checks first_failed
validate parse c = first_failed (checks parse (with_defaults c))
