-- ===== src/Config/Bridges.antt =====
-- ocr_bridge.go, image_bridge.go and web_search.go: the configurations of the optional tools.
use go_rag_agent.Base.{
  Bool, List, [], ◌∷◌, not, ◌&&◌, ◌||◌, Option, none, some, if◌then◌else◌, ℤ, is_neg, any, is_empty,
  Text, codes, contains, text_eq, trim_space,
}
use go_rag_agent.Config.Governance.{positive, is_zero, or_int}

-- `Validate` has an error of its own for each of them
pub data ConfigError : Type 0 where
  no_chat_model no_chat_url bad_chat_url no_chat_key bad_chat_timeout : ConfigError
  no_embedding_model no_embedding_url bad_embedding_url no_embedding_key bad_embedding_timeout :
      ConfigError
  bad_timeout bad_duration bad_prompt_tokens bad_history_tokens bad_evidence_tokens
        bad_summary_tokens :
      ConfigError
  bad_memory_tokens bad_memory_ttl bad_stored_runes bad_chunk_size chunk_too_large
        bad_chunk_overlap :
      ConfigError
  bad_top_k bad_history_rounds bad_memory_top_k bad_memory_threshold bad_tool_calls bad_attempts :
      ConfigError
  bad_base_delay bad_max_delay bad_rate bad_burst burst_without_rate rate_without_burst :
      ConfigError
  bad_threshold bad_open_timeout bad_probes no_threshold no_open_timeout bad_iterations no_tools :
      ConfigError
  bad_format rerank_without_hybrid bad_candidates bad_rrf_k bad_shortlist : ConfigError
  no_search_key bad_max_results bad_depth bad_topic : ConfigError
  no_ocr_command bad_direct_runes bad_ocr_args no_image_command bad_image_args : ConfigError

-- the first check that fails, in the order of the checks
unfoldable pub first_failed : List (Bool × ConfigError) → Option ConfigError
first_failed [] = none
first_failed (check ∷ checks) =
    let rest = first_failed checks in if check.0 then rest else some check.1

pub record BridgeConfig : Type 0 where
  pub command : Text
  pub args : List Text
  pub env : List Text
  pub work_dir : Text

unfoldable pub bridge_normalized : BridgeConfig → BridgeConfig
bridge_normalized c = record c { command = trim_space c.command; work_dir = trim_space c.work_dir }

unfoldable pub bridge_enabled : BridgeConfig → Bool
bridge_enabled c =
    not (is_empty c.command)
    || not (is_empty c.args)
    || not (is_empty c.env)
    || not (is_empty c.work_dir)

-- whether the arguments have both places
unfoldable pub has_places : List Text → Bool
has_places args =
    any (λ arg. contains arg (codes "{input}")) args
    && any (λ arg. contains arg (codes "{output}")) args

-- the Boolean is `enabled`: a check counts only where the bridge is on
unfoldable pub image_checks : BridgeConfig → List (Bool × ConfigError)
unfolding bridge_normalized bridge_enabled has_places
image_checks raw =
    let c = bridge_normalized raw in
    let off = not (bridge_enabled c) in
    (off || not (is_empty c.command), no_image_command)
    ∷ (off || has_places c.args, bad_image_args)
    ∷ []

pub record OcrConfig : Type 0 where
  pub bridge : BridgeConfig
  pub min_direct_text_runes : ℤ

unfoldable pub ocr_checks : OcrConfig → List (Bool × ConfigError)
unfolding bridge_normalized bridge_enabled has_places
ocr_checks raw =
    let c = bridge_normalized raw.bridge in
    let off = not (bridge_enabled c || not (is_zero raw.min_direct_text_runes)) in
    (off || not (is_empty c.command), no_ocr_command)
    ∷ (off || not (is_neg raw.min_direct_text_runes), bad_direct_runes)
    ∷ (off || has_places c.args, bad_ocr_args)
    ∷ []

pub record WebSearchConfig : Type 0 where
  pub api_key : Text
  pub base_url : Text
  pub max_results : ℤ
  pub search_depth : Text
  pub topic : Text

abbrev pub or_text : Text → Text → Text
or_text text fallback = if is_empty text then fallback else text

unfoldable pub web_search_normalized : WebSearchConfig → WebSearchConfig
web_search_normalized c = record {
  api_key = trim_space c.api_key;
  base_url = or_text (trim_space c.base_url) (codes "https://api.tavily.com/search");
  max_results = or_int c.max_results 5;
  search_depth = or_text (trim_space c.search_depth) (codes "basic");
  topic = or_text (trim_space c.topic) (codes "general");
}

unfoldable pub web_search_checks : WebSearchConfig → Bool → List (Bool × ConfigError)
unfolding web_search_normalized text_eq
web_search_checks raw enabled =
    let c = web_search_normalized raw in
    let off = not enabled in
    (off || not (is_empty c.api_key), no_search_key)
    ∷ (off || positive c.max_results, bad_max_results)
    ∷ (
      off || text_eq c.search_depth (codes "basic") || text_eq c.search_depth (codes "advanced"),
      bad_depth,
    )
    ∷ (off || text_eq c.topic (codes "general") || text_eq c.topic (codes "news"), bad_topic)
    ∷ []
