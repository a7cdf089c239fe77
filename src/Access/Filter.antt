-- ===== src/Access/Filter.antt =====
-- internal/storage/search_filter.go and the records of internal/storage/store.go: the filter that a
-- vector store applies to the chunks of a search. `RetrievalFilter` of types.go has the same fields
-- and is the same record here, since the conversions between the two copy it.
use go_rag_agent.Base.{
  Bool, true, false, not, ◌&&◌, List, [], ◌∷◌, ◌++◌, ℕ, Option, none, some, if◌then◌else◌, Text,
  text_eq, has_prefix, trim_space, is_empty, any, Map, keys, find, put, delete, clean, sort_texts,
  compact, slash,
}

pub record SearchFilter : Type 0 where
  pub source_paths : List Text
  pub source_prefixes : List Text
  pub metadata : Map Text

pub record ChunkRecord : Type 0 where
  pub chunk_id : Text
  pub parent_id : Text
  pub source_path : Text
  pub title : Text
  pub text : Text
  pub start_rune : ℕ
  pub end_rune : ℕ
  pub metadata : Map Text

unfoldable pub or_empty : Option Text → Text
or_empty none = []
or_empty (some v) = v

-- `m[key]`, which is the empty string on a missing key
unfoldable pub value_at : Text → Map Text → Text
unfolding find or_empty
value_at k m = or_empty (find k m)

unfoldable pub is_zero : SearchFilter → Bool
is_zero f = is_empty f.source_paths && is_empty f.source_prefixes && is_empty f.metadata

unfoldable pub source_path_matches_prefix : Text → Text → Bool
source_path_matches_prefix path prefix =
    let p = clean path in
    let q = clean prefix in
    if text_eq p q
    then true
    else has_prefix p (if text_eq q (slash ∷ []) then q else q ++ slash ∷ [])

-- the loop over the metadata of a filter
unfoldable pub matches_metadata : Map Text → Map Text → Bool
matches_metadata [] have = true
matches_metadata (e ∷ wanted) have =
    if text_eq (value_at e.0 have) e.1 then matches_metadata wanted have else false

unfoldable pub matches_chunk : SearchFilter → ChunkRecord → Bool
unfolding matches_metadata any
matches_chunk f chunk =
    if not (is_empty f.source_paths) && not (any (text_eq (clean chunk.source_path)) f.source_paths)
    then false
    else if not (is_empty f.source_prefixes)
        && not (any (source_path_matches_prefix chunk.source_path) f.source_prefixes)
    then false
    else matches_metadata f.metadata chunk.metadata

-- the paths that are not blank, trimmed and cleaned
unfoldable pub clean_paths : List Text → List Text
clean_paths [] = []
clean_paths (path ∷ paths) =
    let rest = clean_paths paths in
    if is_empty (trim_space path) then rest else clean (trim_space path) ∷ rest

unfoldable pub normalize_paths : List Text → List Text
unfolding clean_paths
normalize_paths paths = compact (sort_texts (clean_paths paths))

-- one round of the loop over the keys: the entry moves to its trimmed key
unfoldable pub normalize_entry : Text → Map Text → Map Text
unfolding put delete
normalize_entry key m =
    let k = trim_space key in
    let v = trim_space (value_at key m) in
    if is_empty k then delete key m else put k v (if text_eq k key then m else delete key m)

unfoldable pub normalize_keys : List Text → Map Text → Map Text
unfolding normalize_entry
normalize_keys [] m = m
normalize_keys (k ∷ ks) m = normalize_keys ks (normalize_entry k m)

unfoldable pub normalize_metadata : Map Text → Map Text
unfolding normalize_keys
normalize_metadata m = normalize_keys (keys m) m

unfoldable pub normalize_filter : SearchFilter → SearchFilter
unfolding normalize_paths normalize_metadata
normalize_filter f = record {
  source_paths = normalize_paths f.source_paths;
  source_prefixes = normalize_paths f.source_prefixes;
  metadata = normalize_metadata f.metadata;
}
