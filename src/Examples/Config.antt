-- ===== src/Examples/Config.antt =====
-- Examples for config.go and the configurations that it checks.
use go_rag_agent.Base.{
  true, false, ◌≡◌, refl, [], ◌∷◌, Option, none, some, pos, Text, codes, trim_space, trim_left,
  is_space, contains, has_prefix, text_eq, any,
}
use go_rag_agent.Access.{normalize_boundary, normalize_strings}
use go_rag_agent.Config.Governance.{
  RawGovernance, raw_governance_normalized, raw_rate_limit_normalized, raw_breaker_normalized,
  raw_rate_limit_enabled, raw_breaker_enabled, IsNatural,
}
use go_rag_agent.Config.Bridges.{
  BridgeConfig, bridge_normalized, bridge_enabled, has_places, image_checks, ocr_checks,
  web_search_normalized, web_search_checks, first_failed, no_image_command, rerank_without_hybrid,
}
use go_rag_agent.Config.Options.{Config, ocr_normalized, normalized, defaulted, with_defaults}
use go_rag_agent.Config.Checks.{
  Url, is_base_url, first_non_empty, model_checks, provider_checks, limit_checks, governance_checks,
  has_tool, is_output_format, feature_checks, checks, validate,
}
use go_rag_agent.Config.Usable.{IsUsable, validate-IsUsable}

-- a parser that knows no URI
abbrev no_url : Text → Option Url
no_url text = none

abbrev no_bridge : BridgeConfig
no_bridge = record { command = []; args = []; env = []; work_dir = [] }

abbrev governance : RawGovernance
governance = record {
  retry_max_attempts = pos 0;
  retry_base_delay = pos 0;
  retry_max_delay = pos 0;
  rate_limit = record { requests_per_second = pos 2000000; burst = pos 0 };
  circuit_breaker = record {
    failure_threshold = pos 3;
    open_timeout = pos 1000;
    half_open_max_calls = pos 0;
  };
}

-- models of the caller's own, and defaults
abbrev plain : Config
plain = record {
  chat_model = [];
  chat_base_url = codes "ftp://models";
  chat_api_key = [];
  embedding_model = [];
  embedding_base_url = [];
  embedding_api_key = [];
  data_dir = codes " data ";
  top_k = pos 0;
  chunk_size = pos 0;
  chunk_overlap = pos 100;
  max_history_rounds = pos 0;
  max_tool_calls = pos 0;
  max_iterations = pos 0;
  request_timeout = pos 0;
  max_execution_duration = pos 0;
  max_prompt_tokens = pos 0;
  max_history_tokens = pos 0;
  max_evidence_tokens = pos 0;
  max_summary_tokens = pos 0;
  max_memory_tokens = pos 0;
  long_term_memory_ttl = pos 0;
  long_term_memory_max_stored_runes = pos 0;
  enable_prompt_hardening = false;
  access_boundary = record {
    namespace = [];
    allowed_source_paths = [];
    allowed_source_prefixes = [];
    policy = none;
  };
  enable_hybrid_search = false;
  enable_rerank = false;
  enable_web_search = false;
  enable_tool_calling = true;
  structured_output_format = [];
  reasoning_effort = [];
  hybrid_candidate_multiplier = pos 0;
  hybrid_rrf_k = pos 0;
  rerank_shortlist_multiplier = pos 0;
  has_chat_model = true;
  has_embedder = true;
  provider_governance = governance;
  registered_tools = some 1;
  pdf_ocr_bridge = record { bridge = no_bridge; min_direct_text_runes = pos 0 };
  image_text_bridge = no_bridge;
  web_search = record {
    api_key = [];
    base_url = [];
    max_results = pos 0;
    search_depth = [];
    topic = [];
  };
  long_term_memory_top_k = pos 0;
  long_term_memory_threshold = pos 0;
}

plain-valid : validate no_url plain ≡ none
unfolding validate with_defaults normalized defaulted ocr_normalized bridge_normalized
    web_search_normalized raw_governance_normalized raw_rate_limit_normalized raw_breaker_normalized
    raw_rate_limit_enabled raw_breaker_enabled normalize_boundary normalize_strings checks
    provider_checks model_checks first_non_empty is_base_url limit_checks governance_checks
    feature_checks has_tool is_output_format web_search_checks ocr_checks image_checks
    bridge_enabled has_places first_failed text_eq any contains has_prefix trim_space trim_left
    is_space
plain-valid = refl

rerank_alone : validate no_url (record plain { enable_rerank = true }) ≡ some rerank_without_hybrid
unfolding validate with_defaults normalized defaulted ocr_normalized bridge_normalized
    web_search_normalized raw_governance_normalized raw_rate_limit_normalized raw_breaker_normalized
    raw_rate_limit_enabled raw_breaker_enabled normalize_boundary normalize_strings checks
    provider_checks model_checks first_non_empty is_base_url limit_checks governance_checks
    feature_checks has_tool is_output_format web_search_checks ocr_checks image_checks
    bridge_enabled has_places first_failed text_eq any contains has_prefix trim_space trim_left
    is_space
rerank_alone = refl

-- the hardening that was switched off and the memories that were, are on
defaults_on :
    ((with_defaults plain).enable_prompt_hardening ≡ true)
    × ((with_defaults plain).long_term_memory_top_k ≡ pos 3)
unfolding with_defaults normalized defaulted
defaults_on = (refl, refl)

bridge_without_command :
    first_failed (image_checks (record no_bridge { args = codes "{input}" ∷ [] }))
    ≡ some no_image_command
unfolding image_checks bridge_normalized bridge_enabled has_places first_failed any contains
    has_prefix trim_space trim_left is_space
bridge_without_command = refl

validate-IsUsable_example : IsUsable (with_defaults plain)
validate-IsUsable_example = validate-IsUsable no_url plain plain-valid

governance-IsNatural : IsNatural governance
governance-IsNatural = record {
  attempts = refl;
  base_delay = refl;
  max_delay = refl;
  rate = refl;
  tokens = refl;
  threshold = refl;
  timeout = refl;
  probes = refl;
}
