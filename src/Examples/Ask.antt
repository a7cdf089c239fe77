-- ===== src/Examples/Ask.antt =====
-- Examples for the questions of agent.go.
use go_rag_agent.Base.{
  true, false, ◌≡◌, refl, [], ◌∷◌, none, some, inl, inr, pos, Text, codes, text_eq, any, filter,
  take,
}
use go_rag_agent.Agent.{new_tool_call_budget}
use go_rag_agent.Memory.{Turn}
use go_rag_agent.Access.{
  AccessBoundary, PolicyRequest, normalize_boundary, apply_to_retrieval, constrain, after_policy,
}
use go_rag_agent.Rag.Chunker.{Chunk}
use go_rag_agent.Rag.Context.{assemble_context, finish, assemble_loop, is_seen, next_part, keep}
use go_rag_agent.Rag.Rewrite.{RuneTables, rewrite_follow_up}
use go_rag_agent.Ask.{
  citations_from_hits, access_boundary_filter, Host, memorized, committed, recorded, emitted, done,
  failure, access,
}
use go_rag_agent.Ask.Answer.{ask_with_format}
use go_rag_agent.Ask.Streaming.{ask_stream}
use go_rag_agent.Ask.Streams.{stream_denied}

abbrev plain_runes : RuneTables
plain_runes = record { to_lower = λ text. text; is_punct = λ c. false }

abbrev open_boundary : AccessBoundary
open_boundary = record {
  namespace = [];
  allowed_source_paths = [];
  allowed_source_prefixes = [];
  policy = none;
}

abbrev request_for : Text → PolicyRequest
request_for query = record {
  session_id = codes "s";
  query = query;
  filter = record { source_paths = []; source_prefixes = []; metadata = [] };
  memory_scope = record { user_id = []; tenant = [] };
}

abbrev found : Chunk
found = record {
  chunk_id = codes "c";
  parent_id = [];
  source_path = codes "/a.md";
  title = codes "a";
  metadata = [];
  text = codes "it is so";
  start_rune = 0;
  end_rune = 8;
}

-- everything goes well
abbrev host : Host
host = record {
  context_error = λ log. none;
  out_of_budget = λ log. false;
  store_load = none;
  local_history = [];
  fail_open = false;
  max_history_rounds = pos 8;
  runes = plain_runes;
  boundary = open_boundary;
  policy_request = request_for;
  hook = λ log k. none;
  search = λ log query f. (inr (found ∷ []), []);
  max_tool_calls = pos 4;
  has_fallback_tools = false;
  recall = λ log query. inr [];
  generate = λ log request. inr (codes "yes");
  plan = λ log request. codes "ye" ∷ codes "s" ∷ [];
  plan_end = λ log request emitter. emitter;
  wraps = λ err emitter. true;
  web_citations = λ log. [];
  emit = λ log event. none;
  memorize = λ log turn. none;
  commit = λ log turn. none;
  record_trace = λ log err. none;
}

-- the history cannot be written
abbrev full : Host
full = record host { commit = λ log turn. some (record { signs = []; text = codes "full" }) }

abbrev turn : Turn
turn = record { user = codes "so?"; assistant = codes "yes" }

-- a boundary whose hook denies every request
abbrev strict : Host
strict = record host {
  boundary = record open_boundary {
    policy = some (record {
      transform_knowledge_file = λ file. inr file;
      constrain_retrieval = λ request. inl (codes "no");
    });
  };
}

ask_yes :
    (ask_with_format host (codes "so?") []).0
    ≡ inr (record {
      text = codes "yes";
      citations =
          record {
            source_path = codes "/a.md";
            title = codes "a";
            chunk_id = codes "c";
            start_rune = 0;
            end_rune = 8;
          }
          ∷ [];
    })
unfolding ask_with_format access_boundary_filter apply_to_retrieval constrain normalize_boundary
    new_tool_call_budget assemble_context finish assemble_loop is_seen next_part keep
    citations_from_hits filter any text_eq
ask_yes = refl

-- the emitter and the recorder have seen a success, and the caller gets an error
stream_full :
    ((ask_stream full (codes "so?")).0 ≡ inl (record { signs = []; text = codes "full" }))
    × (take 4 (ask_stream full (codes "so?")).1
        ≡ committed turn ∷ memorized turn ∷ recorded none ∷ emitted done ∷ [])
unfolding ask_stream access_boundary_filter apply_to_retrieval constrain normalize_boundary
    new_tool_call_budget assemble_context finish assemble_loop is_seen next_part keep
    citations_from_hits filter any text_eq
stream_full = (refl, refl)

strict_denies :
    access_boundary_filter strict (rewrite_follow_up plain_runes (codes "so?") [])
    ≡ inl (failure access (codes "no"))
unfolding access_boundary_filter apply_to_retrieval constrain normalize_boundary after_policy
strict_denies = refl

stream_denied_example :
    (ask_stream strict (codes "so?") ≡ (inl (failure access (codes "no")), []))
    × ((ask_with_format strict (codes "so?") []).1
        ≡ recorded (some (failure access (codes "no"))) ∷ [])
stream_denied_example =
    stream_denied strict (codes "so?") [] (failure access (codes "no")) refl refl strict_denies
