-- ===== src/Access.antt =====
-- access_boundary.go: the static limits of an agent on tenant and sources, with the hook of the host,
-- and the limits that it lays on a retrieval.
pub mod Filter
pub mod Search
pub mod Paths
pub mod Namespace
pub mod Prefixes
use go_rag_agent.Base.{
  Bool, true, false, not, ◌||◌, List, [], ◌∷◌, Option, none, some, if◌then◌else◌, Text, codes,
  text_eq, has_prefix, trim_space, is_empty, any, filter, Map, put, ◌⊎◌, inl, inr,
}
use go_rag_agent.Access.Filter.{SearchFilter}

abbrev pub namespace_key : Text
namespace_key = codes "rag_namespace"

abbrev pub no_match_source : Text
no_match_source = codes "/__ragagent_no_match__"

pub record KnowledgeFile : Type 0 where
  pub path : Text
  pub title : Text
  pub metadata : Map Text

pub record MemoryScope : Type 0 where
  pub user_id : Text
  pub tenant : Text

pub record PolicyRequest : Type 0 where
  pub session_id : Text
  pub query : Text
  pub filter : SearchFilter
  pub memory_scope : MemoryScope

-- The hook is code of the host: an error, here its message, or the transformed value.
pub record AccessPolicy : Type 0 where
  pub transform_knowledge_file : KnowledgeFile → Text ⊎ KnowledgeFile
  pub constrain_retrieval : PolicyRequest → Text ⊎ SearchFilter

pub record AccessBoundary : Type 0 where
  pub namespace : Text
  pub allowed_source_paths : List Text
  pub allowed_source_prefixes : List Text
  pub policy : Option AccessPolicy

-- `normalizeStringSlice`: trimmed, without the blank ones
unfoldable pub normalize_strings : List Text → List Text
normalize_strings [] = []
normalize_strings (item ∷ items) =
    let rest = normalize_strings items in
    if is_empty (trim_space item) then rest else trim_space item ∷ rest

unfoldable pub normalize_boundary : AccessBoundary → AccessBoundary
normalize_boundary c = record c {
  namespace = trim_space c.namespace;
  allowed_source_paths = normalize_strings c.allowed_source_paths;
  allowed_source_prefixes = normalize_strings c.allowed_source_prefixes;
}

unfoldable pub or_no_match : List Text → List Text
or_no_match out = if is_empty out then no_match_source ∷ [] else out

unfoldable pub merge_allowed_paths : List Text → List Text → List Text
merge_allowed_paths current allowed =
    if is_empty allowed
    then current
    else if is_empty current
    then allowed
    else or_no_match (filter (λ path. any (text_eq path) allowed) current)

-- one of the two is a prefix of the other, as strings
unfoldable pub is_related : Text → Text → Bool
is_related prefix allowed_prefix =
    has_prefix prefix allowed_prefix || has_prefix allowed_prefix prefix

unfoldable pub merge_allowed_prefixes : List Text → List Text → List Text
merge_allowed_prefixes current allowed =
    if is_empty allowed
    then current
    else if is_empty current
    then allowed
    else or_no_match (filter (λ prefix. any (is_related prefix) allowed) current)

unfoldable pub apply_static_to_root_filter : AccessBoundary → SearchFilter → SearchFilter
apply_static_to_root_filter c f = record {
  source_paths = merge_allowed_paths f.source_paths c.allowed_source_paths;
  source_prefixes = merge_allowed_prefixes f.source_prefixes c.allowed_source_prefixes;
  metadata = if is_empty c.namespace then f.metadata else put namespace_key c.namespace f.metadata;
}

-- The static limits are laid on what the hook returns as well.
unfoldable pub after_policy : AccessBoundary → Text ⊎ SearchFilter → Text ⊎ SearchFilter
after_policy c (inl err) = inl err
after_policy c (inr next) = inr (apply_static_to_root_filter c next)

unfoldable pub constrain :
    AccessBoundary → Option AccessPolicy → PolicyRequest → SearchFilter → Text ⊎ SearchFilter
constrain c none req f = inr f
constrain c (some policy) req f =
    after_policy c (policy.constrain_retrieval (record req { filter = f }))

unfoldable pub apply_to_retrieval : AccessBoundary → PolicyRequest → Text ⊎ SearchFilter
apply_to_retrieval raw req =
    let c = normalize_boundary raw in
    constrain c c.policy req (apply_static_to_root_filter c req.filter)

unfoldable pub apply_namespace_metadata : Map Text → Text → Map Text
apply_namespace_metadata m namespace =
    if is_empty (trim_space namespace) then m else put namespace_key namespace m

unfoldable pub stamp : AccessBoundary → KnowledgeFile → KnowledgeFile
stamp c file = record file { metadata = apply_namespace_metadata file.metadata c.namespace }

unfoldable pub stamp_result : AccessBoundary → Text ⊎ KnowledgeFile → Text ⊎ KnowledgeFile
stamp_result c (inl err) = inl err
stamp_result c (inr next) = inr (stamp c next)

unfoldable pub transform_file :
    AccessBoundary → Option AccessPolicy → KnowledgeFile → Text ⊎ KnowledgeFile
transform_file c none file = inr (stamp c file)
transform_file c (some policy) file = stamp_result c (policy.transform_knowledge_file file)

unfoldable pub apply_to_knowledge_file : AccessBoundary → KnowledgeFile → Text ⊎ KnowledgeFile
unfolding transform_file
apply_to_knowledge_file raw file = let c = normalize_boundary raw in transform_file c c.policy file
