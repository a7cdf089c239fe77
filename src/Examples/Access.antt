-- ===== src/Examples/Access.antt =====
-- A boundary for one tenant, and requests that its theorems are applied to.
use go_rag_agent.Base.{
  true, List, [], ◌∷◌, ◌≡◌, refl, ℕ, codes, text_eq, has_prefix, trim_space, trim_left, is_space,
  any, filter, inr, clean, is_rooted, none, some, slash, find, put, delete, sort_texts, compact,
  leb,
}
use go_rag_agent.Access.{
  AccessBoundary, PolicyRequest, KnowledgeFile, namespace_key, normalize_boundary,
  normalize_strings, or_no_match, merge_allowed_paths, merge_allowed_prefixes,
  apply_static_to_root_filter, constrain, apply_to_retrieval, stamp, transform_file,
  apply_namespace_metadata, apply_to_knowledge_file,
}
use go_rag_agent.Access.Filter.{
  SearchFilter, ChunkRecord, or_empty, value_at, is_zero, source_path_matches_prefix,
  matches_metadata, matches_chunk, clean_paths, normalize_paths, normalize_entry, normalize_keys,
  normalize_metadata, normalize_filter,
}
use go_rag_agent.Access.Search.{SearchHit, Collection, search_loop, search_with_filter}
use go_rag_agent.Access.Prefixes.{root_request_widens}
use go_rag_agent.Access.Namespace.{is_alias, namespace_isolation, alias_overrides}

abbrev boundary : AccessBoundary
boundary = record {
  namespace = codes " ta ";
  allowed_source_paths = codes "/d/a" ∷ codes " " ∷ codes "/d/b" ∷ [];
  allowed_source_prefixes = codes "/d" ∷ [];
  policy = none;
}

abbrev request : PolicyRequest
request = record {
  session_id = codes "s";
  query = codes "q";
  filter = record {
    source_paths = codes "/d/b" ∷ codes "/x" ∷ [];
    source_prefixes = [];
    metadata = [];
  };
  memory_scope = record { user_id = []; tenant = [] };
}

-- what the boundary makes of the request
abbrev made : SearchFilter
made = record {
  source_paths = codes "/d/b" ∷ [];
  source_prefixes = codes "/d" ∷ [];
  metadata = (namespace_key, codes "ta") ∷ [];
}

abbrev chunk : ChunkRecord
chunk = record {
  chunk_id = codes "c";
  parent_id = codes "p";
  source_path = codes "/d/./b";
  title = [];
  text = [];
  start_rune = 0;
  end_rune = 0;
  metadata = (namespace_key, codes "ta") ∷ [];
}

made_lem : apply_to_retrieval boundary request ≡ inr made
unfolding apply_to_retrieval constrain normalize_boundary normalize_strings
    apply_static_to_root_filter merge_allowed_paths merge_allowed_prefixes or_no_match any filter
    put text_eq trim_space trim_left is_space
made_lem = refl

chunk_passes : matches_chunk (normalize_filter made) chunk ≡ true
unfolding matches_chunk normalize_filter normalize_paths clean_paths normalize_metadata
    normalize_keys normalize_entry matches_metadata value_at or_empty find put delete any text_eq
    has_prefix trim_space trim_left is_space source_path_matches_prefix clean sort_texts compact
chunk_passes = refl

namespace_isolation_example : value_at namespace_key chunk.metadata ≡ trim_space boundary.namespace
unfolding trim_space trim_left is_space any is_alias text_eq
namespace_isolation_example =
    namespace_isolation boundary request made chunk refl refl made_lem chunk_passes

root_request_widens_example :
    any
      (source_path_matches_prefix (codes "/other/x"))
      (normalize_paths (merge_allowed_prefixes ((slash ∷ []) ∷ []) (codes "/d" ∷ [])))
    ≡ true
unfolding any has_prefix is_rooted
root_request_widens_example = root_request_widens (codes "/d" ∷ []) (codes "/other/x") refl refl

alias_overrides_example :
    (find namespace_key (
        normalize_metadata
          ((codes " rag_namespace", codes "tb") ∷ (namespace_key, codes "ta") ∷ []))
      ≡ some (trim_space (codes "tb")))
    × (find namespace_key (
          normalize_metadata
            ((namespace_key, codes "ta") ∷ (codes " rag_namespace", codes "tb") ∷ []))
        ≡ some (trim_space (codes "tb")))
unfolding is_alias text_eq trim_space trim_left is_space
alias_overrides_example = alias_overrides (codes " rag_namespace") (codes "tb") (codes "ta") refl

abbrev file : KnowledgeFile
file = record { path = codes "/d/a"; title = []; metadata = (namespace_key, codes "tb") ∷ [] }

abbrev stamped : KnowledgeFile
stamped = record { path = codes "/d/a"; title = []; metadata = (namespace_key, codes "ta") ∷ [] }

stamped_lem : apply_to_knowledge_file boundary file ≡ inr stamped
unfolding apply_to_knowledge_file transform_file stamp apply_namespace_metadata normalize_boundary
    trim_space trim_left is_space put text_eq
stamped_lem = refl

-- three results, one of them below the threshold; a score is a number here
abbrev results : List (SearchHit ℕ)
results =
    record { chunk = chunk; score = 9 }
    ∷ record { chunk = chunk; score = 1 }
    ∷ record { chunk = chunk; score = 7 }
    ∷ []

abbrev collection : Collection ℕ
collection = record { count = 3; query_embedding = λ embedding k. inr results }

search_two :
    search_with_filter (λ s. leb s 5) collection (1 ∷ []) 2 made
    ≡ inr (record { chunk = chunk; score = 9 } ∷ record { chunk = chunk; score = 7 } ∷ [])
unfolding search_with_filter search_loop is_zero matches_chunk normalize_filter normalize_paths
    clean_paths normalize_metadata normalize_keys normalize_entry matches_metadata value_at or_empty
    find put delete any text_eq has_prefix trim_space trim_left is_space source_path_matches_prefix
    clean sort_texts compact
search_two = refl
