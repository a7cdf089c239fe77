-- ===== src/Access/Namespace.antt =====
-- What the boundary on tenants promises: the namespace of the configuration is demanded of every
-- chunk, and is stamped on every file.
use go_rag_agent.Base.{
  Bool, true, false, not, ◌&&◌, List, [], ◌∷◌, ◌≡◌, refl, ap, ◌∙◌, Text, text_eq, text_eq→eq,
  text_eq_refl, text_eq_sym, trim_space, trim_left, is_space, trim_space_idem, is_empty, any, ◌⊎◌,
  inl, inr, arith, Bool-cases, subst, Option, none, some, Map, keys, find, delete, find-put,
  find-put_ne, find-delete_ne,
}
use go_rag_agent.Access.{
  AccessBoundary, PolicyRequest, AccessPolicy, namespace_key, normalize_boundary,
  apply_static_to_root_filter, apply_to_retrieval, KnowledgeFile, apply_to_knowledge_file, stamp,
  stamp_result, transform_file, apply_namespace_metadata,
}
use go_rag_agent.Access.Filter.{
  SearchFilter, ChunkRecord, matches_chunk, normalize_filter, normalize_metadata, normalize_keys,
  normalize_entry, matches_metadata, value_at, or_empty,
}
use go_rag_agent.Access.Paths.{apply_to_retrieval-static}

-- a key that differs from the namespace's by the space around it only
unfoldable pub is_alias : Text → Bool
is_alias key = text_eq (trim_space key) namespace_key && not (text_eq key namespace_key)

trim_namespace_key : trim_space namespace_key ≡ namespace_key
unfolding trim_space trim_left is_space
trim_namespace_key = refl

entry_self :
    (ns : Text) (m : Map Text)
    → trim_space ns ≡ ns
    → find namespace_key m ≡ some ns
    → find namespace_key (normalize_entry namespace_key m) ≡ some ns
unfolding normalize_entry value_at or_empty
entry_self ns m t h =
    rw (trim_namespace_key, text_eq_refl namespace_key, h, t) (find-put namespace_key ns m)

entry_other :
    (key ns : Text) (m : Map Text)
    → text_eq (trim_space key) namespace_key ≡ false
    → text_eq key namespace_key ≡ false
    → find namespace_key (normalize_entry key m) ≡ find namespace_key m
unfolding normalize_entry
entry_other key ns m a b =
    let v : Text = trim_space (value_at key m) in
    let trimmed = text_eq_sym (trim_space key) namespace_key a in
    let deleted = find-delete_ne namespace_key key m (text_eq_sym key namespace_key b) in
    ground (
      arith,
      deleted,
      find-put_ne namespace_key (trim_space key) v m trimmed,
      find-put_ne namespace_key (trim_space key) v (delete key m) trimmed,
    )

normalize_entry-namespace :
    (key ns : Text) (m : Map Text)
    → is_alias key ≡ false
    → trim_space ns ≡ ns
    → find namespace_key m ≡ some ns
    → find namespace_key (normalize_entry key m) ≡ some ns
unfolding is_alias
normalize_entry-namespace key ns m a t h = elim (Bool-cases (text_eq key namespace_key)) [
  | inl e ↦ rw (text_eq→eq key namespace_key e) (entry_self ns m t h)
  | inr e ↦ entry_other key ns m (ground arith) e ∙ h
]

normalize_keys-namespace :
    (ks : List Text) (ns : Text) (m : Map Text)
    → any is_alias ks ≡ false
    → trim_space ns ≡ ns
    → find namespace_key m ≡ some ns
    → find namespace_key (normalize_keys ks m) ≡ some ns
unfolding normalize_keys any
normalize_keys-namespace [] ns m a t h = h
normalize_keys-namespace (k ∷ ks) ns m a t h =
    normalize_keys-namespace ks ns (normalize_entry k m) (ground arith) t
      (normalize_entry-namespace k ns m (ground arith) t h)

matches_metadata-value :
    (k v : Text) (wanted have : Map Text)
    → find k wanted ≡ some v
    → matches_metadata wanted have ≡ true
    → value_at k have ≡ v
unfolding find matches_metadata
matches_metadata-value k v [] have h m = absurd (ground arith)
matches_metadata-value k v (e ∷ wanted) have h m = ground (
  arith,
  matches_metadata-value k v wanted have,
  text_eq→eq k e.0,
  text_eq→eq (value_at e.0 have) e.1,
)

static-namespace :
    (c : AccessBoundary) (g : SearchFilter)
    → is_empty (trim_space c.namespace) ≡ false
    → find namespace_key (apply_static_to_root_filter (normalize_boundary c) g).metadata
      ≡ some (trim_space c.namespace)
unfolding apply_static_to_root_filter normalize_boundary
static-namespace c g h = rw h (find-put namespace_key (trim_space c.namespace) g.metadata)

matches_chunk-metadata :
    (f : SearchFilter) (chunk : ChunkRecord)
    → matches_chunk f chunk ≡ true
    → matches_metadata f.metadata chunk.metadata ≡ true
unfolding matches_chunk
matches_chunk-metadata f chunk h = ground arith

-- Under a namespace that is not blank, a chunk that passes the filter which the boundary made,
-- normalized as the store does, carries that namespace, whatever the request and the hook asked
-- for, where no key of the filter is the namespace's with space around it.
pub namespace_isolation :
    (c : AccessBoundary) (req : PolicyRequest) (f : SearchFilter) (chunk : ChunkRecord)
    → is_empty (trim_space c.namespace) ≡ false
    → any is_alias (keys f.metadata) ≡ false
    → apply_to_retrieval c req ≡ inr f
    → matches_chunk (normalize_filter f) chunk ≡ true
    → value_at namespace_key chunk.metadata ≡ trim_space c.namespace
unfolding normalize_filter normalize_metadata
namespace_isolation c req f chunk h a e m =
    let (g, made) = apply_to_retrieval-static c req f e in
    let ns : Text = trim_space c.namespace in
    let wanted =
      subst (λ f. find namespace_key f.metadata ≡ some ns) made (static-namespace c g h) in
    matches_metadata-value namespace_key ns (normalize_metadata f.metadata) chunk.metadata
      (normalize_keys-namespace (keys f.metadata) ns f.metadata a (trim_space_idem c.namespace)
        wanted)
      (matches_chunk-metadata (normalize_filter f) chunk m)

entry_alias :
    (key : Text) (m : Map Text)
    → is_alias key ≡ true
    → find namespace_key (normalize_entry key m) ≡ some (trim_space (value_at key m))
unfolding normalize_entry is_alias
entry_alias key m a =
    let v : Text = trim_space (value_at key m) in
    let e : trim_space key ≡ namespace_key =
      text_eq→eq (trim_space key) namespace_key (ground arith) in
    rw e (ground (arith, find-put namespace_key v m, find-put namespace_key v (delete key m)))

value_first : (key v : Text) (m : Map Text) → value_at key ((key, v) ∷ m) ≡ v
unfolding value_at or_empty find
value_first key v m = ground (arith, text_eq_refl key)

alias_ne : (key : Text) → is_alias key ≡ true → text_eq key namespace_key ≡ false
unfolding is_alias
alias_ne key a = ground arith

find_second :
    (key v ns : Text)
    → text_eq key namespace_key ≡ false
    → find key ((namespace_key, ns) ∷ (key, v) ∷ []) ≡ some v
unfolding find
find_second key v ns a = rw (a, text_eq_refl key) refl

value_second :
    (key v ns : Text)
    → text_eq key namespace_key ≡ false
    → value_at key (normalize_entry namespace_key ((namespace_key, ns) ∷ (key, v) ∷ [])) ≡ v
unfolding value_at or_empty normalize_entry
value_second key v ns a =
    rw (trim_namespace_key, text_eq_refl namespace_key, text_eq_refl namespace_key)
      (ap or_empty (find_second key v (trim_space ns) a))

-- A filter whose metadata has two entries, a namespace under its key and a value under the same key
-- with space around it, demands that value for the namespace once it is normalized, in whichever
-- order the map is visited.
pub alias_overrides :
    (key v ns : Text)
    → is_alias key ≡ true
    → (find namespace_key (normalize_metadata ((key, v) ∷ (namespace_key, ns) ∷ []))
        ≡ some (trim_space v))
      × (find namespace_key (normalize_metadata ((namespace_key, ns) ∷ (key, v) ∷ []))
          ≡ some (trim_space v))
unfolding normalize_metadata normalize_keys
alias_overrides key v ns a =
    let m : Map Text = (key, v) ∷ (namespace_key, ns) ∷ [] in
    let e = ap (λ v. some (trim_space v)) (value_first key v ((namespace_key, ns) ∷ [])) in
    let m' : Map Text = normalize_entry namespace_key ((namespace_key, ns) ∷ (key, v) ∷ []) in
    (
      entry_self (trim_space v) (normalize_entry key m) (trim_space_idem v)
          (entry_alias key m a ∙ e),
      entry_alias key m' a ∙ ap (λ v. some (trim_space v)) (value_second key v ns (alias_ne key a)),
    )

stamp-namespace :
    (c : AccessBoundary) (file : KnowledgeFile)
    → is_empty (trim_space c.namespace) ≡ false
    → find namespace_key (stamp (normalize_boundary c) file).metadata
      ≡ some (trim_space c.namespace)
unfolding stamp apply_namespace_metadata normalize_boundary
stamp-namespace c file h =
    rw (trim_space_idem c.namespace, h)
      (find-put namespace_key (trim_space c.namespace) file.metadata)

stamp_result-stamp :
    (c : AccessBoundary) (r : Text ⊎ KnowledgeFile) (next : KnowledgeFile)
    → stamp_result c r ≡ inr next
    → (f : KnowledgeFile) × (stamp c f ≡ next)
unfolding stamp_result
stamp_result-stamp c (inl err) next e = absurd (ground arith)
stamp_result-stamp c (inr f) next e = (f, ground arith)

transform_file-stamp :
    (c : AccessBoundary) (policy : Option AccessPolicy) (file next : KnowledgeFile)
    → transform_file c policy file ≡ inr next
    → (f : KnowledgeFile) × (stamp c f ≡ next)
unfolding transform_file
transform_file-stamp c none file next e = (file, ground arith)
transform_file-stamp c (some policy) file next e =
    stamp_result-stamp c (policy.transform_knowledge_file file) next e

-- Under a namespace that is not blank, a file that the boundary passes on to the index carries it,
-- whatever the hook made of the file.
stamped_namespace :
    (c : AccessBoundary) (file next : KnowledgeFile)
    → is_empty (trim_space c.namespace) ≡ false
    → apply_to_knowledge_file c file ≡ inr next
    → find namespace_key next.metadata ≡ some (trim_space c.namespace)
unfolding apply_to_knowledge_file
stamped_namespace c file next h e =
    let (f, made) =
      transform_file-stamp (normalize_boundary c) (normalize_boundary c).policy file next e in
    subst (λ f. find namespace_key f.metadata ≡ some (trim_space c.namespace)) made
      (stamp-namespace c f h)
