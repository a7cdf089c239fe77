-- ===== src/Access/Prefixes.antt =====
-- The boundary on source prefixes: what it promises to a request that names none, and what a request
-- for a broader prefix gets.
use go_rag_agent.Base.{
  true, false, List, [], ◌∷◌, ◌≡◌, refl, sym, ap, ◌∙◌, Text, text_eq_refl, has_prefix, trim_space,
  trim_left, is_space, is_empty, any, filter, inr, arith, is_rooted, clean-rooted, clean_root, none,
  slash,
}
use go_rag_agent.Access.{
  AccessBoundary, PolicyRequest, normalize_boundary, or_no_match, apply_static_to_root_filter,
  constrain, apply_to_retrieval, merge_allowed_prefixes, is_related,
}
use go_rag_agent.Access.Filter.{
  SearchFilter, ChunkRecord, matches_chunk, normalize_paths, source_path_matches_prefix,
}
use go_rag_agent.Access.Paths.{on_clean, any-normalize_paths}

matches-prefix :
    (f : SearchFilter) (chunk : ChunkRecord)
    → is_empty f.source_prefixes ≡ false
    → matches_chunk f chunk ≡ true
    → any (source_path_matches_prefix chunk.source_path) f.source_prefixes ≡ true
unfolding matches_chunk
matches-prefix f chunk h g = ground arith

merge-nil :
    (allowed : List Text) → is_empty allowed ≡ false → merge_allowed_prefixes [] allowed ≡ allowed
unfolding merge_allowed_prefixes
merge-nil allowed h = ground arith

no_hook :
    (c : AccessBoundary) (req : PolicyRequest) (f : SearchFilter)
    → c.policy ≡ none
    → apply_to_retrieval c req ≡ inr f
    → apply_static_to_root_filter (normalize_boundary c) req.filter ≡ f
unfolding apply_to_retrieval constrain normalize_boundary
no_hook c req f p e = ground arith

unrequested :
    (c : AccessBoundary) (req : PolicyRequest) (f : SearchFilter)
    → c.policy ≡ none
    → req.filter.source_prefixes ≡ []
    → is_empty (normalize_boundary c).allowed_source_prefixes ≡ false
    → apply_to_retrieval c req ≡ inr f
    → f.source_prefixes ≡ (normalize_boundary c).allowed_source_prefixes
unfolding apply_static_to_root_filter
unrequested c req f p q h e =
    let allowed : List Text = (normalize_boundary c).allowed_source_prefixes in
    ap (λ (f : SearchFilter). f.source_prefixes) (sym (no_hook c req f p e))
    ∙ (ap (λ current. merge_allowed_prefixes current allowed) q ∙ merge-nil allowed h)

any-is_related :
    (x : Text) (l : List Text) → any (λ a. has_prefix a x) l ≡ true → any (is_related x) l ≡ true
unfolding any is_related
any-is_related x [] h = absurd (ground arith)
any-is_related x (a ∷ l) h = ground (arith, any-is_related x l)

merge-root :
    (allowed : List Text)
    → any (λ a. has_prefix a (slash ∷ [])) allowed ≡ true
    → merge_allowed_prefixes ((slash ∷ []) ∷ []) allowed ≡ (slash ∷ []) ∷ []
unfolding merge_allowed_prefixes filter or_no_match any
merge-root [] h = absurd (ground arith)
merge-root (a ∷ l) h = rw (any-is_related (slash ∷ []) (a ∷ l) h) refl

trim_root : trim_space (slash ∷ []) ≡ slash ∷ []
unfolding trim_space trim_left is_space
trim_root = refl

matches_root :
    (path : Text) → is_rooted path ≡ true → source_path_matches_prefix path (slash ∷ []) ≡ true
unfolding source_path_matches_prefix
matches_root path r = ground (arith, clean_root, text_eq_refl (slash ∷ []), clean-rooted path r)

on_root :
    (path : Text)
    → is_rooted path ≡ true
    → any (on_clean (source_path_matches_prefix path)) ((slash ∷ []) ∷ []) ≡ true
unfolding any
on_root path r = rw (trim_root, clean_root, matches_root path r) refl

-- A request for the root gets the chunk of every rooted path, as far as prefixes go, where the
-- configuration allows only some, one of them rooted: the broader prefix is kept as it is.
pub root_request_widens :
    (allowed : List Text) (path : Text)
    → any (λ a. has_prefix a (slash ∷ [])) allowed ≡ true
    → is_rooted path ≡ true
    → any
        (source_path_matches_prefix path)
        (normalize_paths (merge_allowed_prefixes ((slash ∷ []) ∷ []) allowed))
      ≡ true
root_request_widens allowed path h r =
    let root : List Text = (slash ∷ []) ∷ [] in
    any-normalize_paths (source_path_matches_prefix path) (merge_allowed_prefixes root allowed)
    ∙ (ap (any (on_clean (source_path_matches_prefix path))) (merge-root allowed h)
        ∙ on_root path r)
