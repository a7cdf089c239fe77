-- ===== src/Knowledge.antt =====
-- directory_sync.go: the record of the paths that were indexed under each directory root. A call
-- holds the lock throughout, so it is one step on the record and on the store that its callback
-- changes. Writing the manifest to the disk is an argument, with its error as the result.
pub mod Ingest
pub mod Recorded
pub mod Indexed
pub mod Sources
pub mod Failures
use go_rag_agent.Base.{
  Bool, true, false, not, List, [], ◌∷◌, ◌++◌, Option, none, some, if◌then◌else◌, Text, text_eq,
  trim_space, is_empty, any, filter, Map, find, put, delete, clean, sort_texts, compact,
}

pub data KnowledgeError : Type 0 where
  nil_source : KnowledgeError
  context_error resolve_error access_error upsert_error delete_error persist_error :
      Text → KnowledgeError
  load_error embed_error : Text → Text → KnowledgeError
  count_error : Text → KnowledgeError

pub record DirectorySync : Type 0 where
  pub manifest_path : Text
  pub roots : Map (List Text)

-- the loop over the paths
unfoldable pub clean_sync_paths : List Text → List Text
clean_sync_paths [] = []
clean_sync_paths (path ∷ paths) =
    let rest = clean_sync_paths paths in
    let cleaned = trim_space path in if is_empty cleaned then rest else clean cleaned ∷ rest

unfoldable pub normalize_sync_paths : List Text → List Text
unfolding clean_sync_paths
normalize_sync_paths paths = compact (sort_texts (clean_sync_paths paths))

unfoldable pub diff_paths : List Text → List Text → List Text
unfolding filter any
diff_paths previous current = filter (λ path. not (any (text_eq path) current)) previous

unfoldable pub union_paths : List Text → List Text → List Text
union_paths a b = normalize_sync_paths (a ++ b)

unfoldable pub or_none : Option (List Text) → List Text
or_none none = []
or_none (some paths) = paths

-- `s.roots[root]`
unfoldable pub recorded : Text → DirectorySync → List Text
unfolding or_none
recorded root d = or_none (find root d.roots)

abbrev pub WriteFile : Type 0
WriteFile = Text → Map (List Text) → Option Text

unfoldable pub persist : WriteFile → Map (List Text) → DirectorySync → Option Text
persist write next d = if is_empty d.manifest_path then none else write d.manifest_path next

-- the new roots are kept only where the manifest could be written
unfoldable pub commit :
    WriteFile → Map (List Text) → DirectorySync → Option KnowledgeError × DirectorySync
unfolding persist
commit write next d = elim (persist write next d) [
  | none ↦ (none, record d { roots = next })
  | some err ↦ (some (persist_error err), d)
]

unfoldable pub next_roots : Text → List Text → DirectorySync → Map (List Text)
next_roots root current d =
    if is_empty current then delete root d.roots else put root current d.roots

abbrev pub Outcome : Type 0 → Type 0
Outcome S = Option KnowledgeError × DirectorySync × S

module _ {S : Type 0} where
  -- what follows the callback, which has left the store in the last argument
  unfoldable pub after_apply :
      WriteFile → Map (List Text) → DirectorySync → Option KnowledgeError × S → Outcome S
  unfolding commit
  after_apply write next d (some err, s) = (some err, d, s)
  after_apply write next d (none, s) = let (e, d') = commit write next d in (e, d', s)

  unfoldable pub sync :
      WriteFile
      → Text
      → List Text
      → (List Text → S → Option KnowledgeError × S)
      → DirectorySync
      → S
      → Outcome S
  unfolding next_roots after_apply
  sync write root raw apply d s =
      let r = clean root in
      let current = normalize_sync_paths raw in
      after_apply write (next_roots r current d) d (apply (diff_paths (recorded r d) current) s)

  unfoldable pub remove :
      WriteFile
      → Text
      → List Text
      → (List Text → S → Option KnowledgeError × S)
      → DirectorySync
      → S
      → Outcome S
  unfolding after_apply
  remove write root raw apply d s =
      let r = clean root in
      let paths = union_paths (recorded r d) (normalize_sync_paths raw) in
      after_apply write (delete r d.roots) d (apply paths s)
