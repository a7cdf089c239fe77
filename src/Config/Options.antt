-- ===== src/Config/Options.antt =====
-- config.go: the options of an agent and their defaults. Durations are nanoseconds; a float is a number
-- of millionths. What is injected counts only by whether it is there.
use go_rag_agent.Base.{Bool, true, ◌*◌, ℕ, Option, ℤ, Text, codes, trim_space}
use go_rag_agent.Access.{AccessBoundary, normalize_boundary}
use go_rag_agent.Provider.Config.{millisecond}
use go_rag_agent.Config.Governance.{RawGovernance, raw_governance_normalized, or_int}
use go_rag_agent.Config.Bridges.{
  BridgeConfig, bridge_normalized, OcrConfig, WebSearchConfig, web_search_normalized, or_text,
}

pub record Config : Type 0 where
  pub chat_model : Text
  pub chat_base_url : Text
  pub chat_api_key : Text
  pub embedding_model : Text
  pub embedding_base_url : Text
  pub embedding_api_key : Text
  pub data_dir : Text
  pub top_k : ℤ
  pub chunk_size : ℤ
  pub chunk_overlap : ℤ
  pub max_history_rounds : ℤ
  pub max_tool_calls : ℤ
  pub max_iterations : ℤ
  pub request_timeout : ℤ
  pub max_execution_duration : ℤ
  pub max_prompt_tokens : ℤ
  pub max_history_tokens : ℤ
  pub max_evidence_tokens : ℤ
  pub max_summary_tokens : ℤ
  pub max_memory_tokens : ℤ
  pub long_term_memory_ttl : ℤ
  pub long_term_memory_max_stored_runes : ℤ
  pub enable_prompt_hardening : Bool
  pub access_boundary : AccessBoundary
  pub enable_hybrid_search : Bool
  pub enable_rerank : Bool
  pub enable_web_search : Bool
  pub enable_tool_calling : Bool
  pub structured_output_format : Text
  pub reasoning_effort : Text
  pub hybrid_candidate_multiplier : ℤ
  pub hybrid_rrf_k : ℤ
  pub rerank_shortlist_multiplier : ℤ
  -- `Runtime.ChatModel` and `Runtime.Embedder`
  pub has_chat_model : Bool
  pub has_embedder : Bool
  pub provider_governance : RawGovernance
  -- how many tools the registry has, where there is one
  pub registered_tools : Option ℕ
  pub pdf_ocr_bridge : OcrConfig
  pub image_text_bridge : BridgeConfig
  pub web_search : WebSearchConfig
  pub long_term_memory_top_k : ℤ
  pub long_term_memory_threshold : ℤ

unfoldable pub ocr_normalized : OcrConfig → OcrConfig
unfolding bridge_normalized
ocr_normalized c = record c { bridge = bridge_normalized c.bridge }

unfoldable pub normalized : Config → Config
unfolding ocr_normalized
normalized c = record c {
  chat_model = trim_space c.chat_model;
  chat_base_url = trim_space c.chat_base_url;
  chat_api_key = trim_space c.chat_api_key;
  embedding_model = trim_space c.embedding_model;
  embedding_base_url = trim_space c.embedding_base_url;
  embedding_api_key = trim_space c.embedding_api_key;
  data_dir = trim_space c.data_dir;
  reasoning_effort = trim_space c.reasoning_effort;
  pdf_ocr_bridge = ocr_normalized c.pdf_ocr_bridge;
  image_text_bridge = bridge_normalized c.image_text_bridge;
  web_search = web_search_normalized c.web_search;
  provider_governance = raw_governance_normalized c.provider_governance;
  access_boundary = normalize_boundary c.access_boundary;
}

-- the defaults, behind `normalized`
unfoldable pub defaulted : Config → Config
defaulted c = record c {
  top_k = or_int c.top_k 5;
  chunk_size = or_int c.chunk_size 1000;
  max_history_rounds = or_int c.max_history_rounds 8;
  max_tool_calls = or_int c.max_tool_calls 4;
  max_iterations = or_int c.max_iterations 3;
  request_timeout = or_int c.request_timeout (30000 * millisecond);
  max_prompt_tokens = or_int c.max_prompt_tokens 4096;
  max_history_tokens = or_int c.max_history_tokens 1024;
  max_evidence_tokens = or_int c.max_evidence_tokens 2048;
  max_summary_tokens = or_int c.max_summary_tokens 256;
  max_memory_tokens = or_int c.max_memory_tokens 512;
  long_term_memory_max_stored_runes = or_int c.long_term_memory_max_stored_runes 512;
  enable_prompt_hardening = true;
  long_term_memory_top_k = or_int c.long_term_memory_top_k 3;
  hybrid_candidate_multiplier = or_int c.hybrid_candidate_multiplier 4;
  hybrid_rrf_k = or_int c.hybrid_rrf_k (60 * 1000000);
  rerank_shortlist_multiplier = or_int c.rerank_shortlist_multiplier 2;
  structured_output_format = or_text c.structured_output_format (codes "json_object");
}

unfoldable pub with_defaults : Config → Config
unfolding normalized defaulted
with_defaults c = defaulted (normalized c)
