-- ===== src/Knowledge/Ingest.antt =====
-- `AddKnowledge` of session.go, and `RemoveKnowledge` and `RebuildKnowledge` of
-- knowledge_lifecycle.go, from the check of the context on. The loader of documents, the embedder and
-- the vector store are interfaces, whose implementations are arguments.
use go_rag_agent.Base.{
  Bool, ◌==◌, List, [], ◌∷◌, map, Option, none, some, ◌⊎◌, inl, inr, if◌then◌else◌, Text, is_empty,
  length, clean, ◌++◌,
}
use go_rag_agent.Access.{
  AccessBoundary, KnowledgeFile, apply_namespace_metadata, apply_to_knowledge_file,
}
use go_rag_agent.Access.Filter.{ChunkRecord}
use go_rag_agent.Rag.Chunker.{Document, Chunk, Chunker, split}
use go_rag_agent.Knowledge.{
  KnowledgeError, nil_source, context_error, resolve_error, access_error, upsert_error,
  delete_error, load_error, embed_error, count_error, DirectorySync, WriteFile, Outcome,
  normalize_sync_paths, sync, remove,
}

pub data KnowledgeSource : Type 0 where
  file_source dir_source other_source : Text → KnowledgeSource

pub record Stored (V : Type 0) : Type 0 where
  pub chunk : ChunkRecord
  pub embedding : V

-- `VectorStore`, as far as knowledge is written to it
pub record KnowledgeStore (V S : Type 0) : Type 0 where
  pub upsert : List (Stored V) → S → Option Text × S
  pub delete_by_source_paths : List Text → S → Option Text × S

pub record Pipeline (V : Type 0) : Type 0 where
  pub boundary : AccessBoundary
  pub load : KnowledgeFile → Text ⊎ Document
  pub chunker : Chunker
  pub embed : List Text → Text ⊎ List V
  pub resolve : KnowledgeSource → Text ⊎ List KnowledgeFile
  pub is_not_exist : Text → Bool
  pub write : WriteFile

unfoldable pub directory_root : KnowledgeSource → Option Text
directory_root (file_source path) = none
directory_root (dir_source path) = some path
directory_root (other_source name) = none

unfoldable pub to_chunk_record : Text → Chunk → ChunkRecord
to_chunk_record namespace c = record {
  chunk_id = c.chunk_id;
  parent_id = c.parent_id;
  source_path = c.source_path;
  title = c.title;
  text = c.text;
  start_rune = c.start_rune;
  end_rune = c.end_rune;
  metadata = apply_namespace_metadata c.metadata namespace;
}

-- `resolveKnowledgeSourcePaths`
unfoldable pub clean_all : List KnowledgeFile → List Text
clean_all files = map (λ file. clean file.path) files

module _ {S : Type 0} where
  unfoldable pub fail_with : (Text → KnowledgeError) → Option Text × S → Option KnowledgeError × S
  fail_with wrap (none, s) = (none, s)
  fail_with wrap (some err, s) = (some (wrap err), s)

unfoldable pub listed_paths : Text ⊎ List KnowledgeFile → Text ⊎ List Text
unfolding clean_all
listed_paths (inl err) = inl err
listed_paths (inr files) = inr (normalize_sync_paths (clean_all files))

module _ {V : Type 0} where
  -- the loop over the chunks of one file, which have as many embeddings
  unfoldable pub to_records : Text → List Chunk → List V → List (Stored V)
  unfolding to_chunk_record
  to_records namespace [] rows = []
  to_records namespace (c ∷ cs) [] = []
  to_records namespace (c ∷ cs) (row ∷ rows) =
      record { chunk = to_chunk_record namespace c; embedding = row } ∷ to_records namespace cs rows

  unfoldable pub after_embed :
      Text → KnowledgeFile → List Chunk → Text ⊎ List V → KnowledgeError ⊎ List (Stored V)
  unfolding to_records
  after_embed namespace file chunks (inl err) = inl (embed_error file.path err)
  after_embed namespace file chunks (inr rows) =
      if length rows == length chunks
      then inr (to_records namespace chunks rows)
      else inl (count_error file.path)

  unfoldable pub after_load :
      Pipeline V → KnowledgeFile → Text ⊎ Document → KnowledgeError ⊎ List (Stored V)
  unfolding after_embed
  after_load p file (inl err) = inl (load_error file.path err)
  after_load p file (inr doc) =
      let chunks = split p.chunker doc in
      let texts = map (λ c. c.text) chunks in
      if is_empty chunks
      then inr []
      else after_embed p.boundary.namespace file chunks (p.embed texts)

  -- the records and the paths of the files read so far, in front of those of the rest
  unfoldable pub gather :
      Text
      → KnowledgeError ⊎ List (Stored V)
      → KnowledgeError ⊎ List (Stored V) × List Text
      → KnowledgeError ⊎ List (Stored V) × List Text
  gather path (inl err) rest = inl err
  gather path (inr records) (inl err) = inl err
  gather path (inr records) (inr (more, paths)) = inr (records ++ more, path ∷ paths)

  unfoldable pub after_boundary :
      Pipeline V
      → Text ⊎ KnowledgeFile
      → KnowledgeError ⊎ List (Stored V) × List Text
      → KnowledgeError ⊎ List (Stored V) × List Text
  unfolding gather after_load
  after_boundary p (inl err) rest = inl (access_error err)
  after_boundary p (inr file) rest = gather file.path (after_load p file (p.load file)) rest

  -- the loop over the files
  unfoldable pub read_files :
      Pipeline V → List KnowledgeFile → KnowledgeError ⊎ List (Stored V) × List Text
  unfolding after_boundary
  read_files p [] = inr ([], [])
  read_files p (file ∷ files) =
      after_boundary p (apply_to_knowledge_file p.boundary file) (read_files p files)

  unfoldable pub resolve_paths : Pipeline V → KnowledgeSource → Text ⊎ List Text
  unfolding listed_paths
  resolve_paths p (file_source path) = inr (clean path ∷ [])
  resolve_paths p (dir_source path) = listed_paths (p.resolve (dir_source path))
  resolve_paths p (other_source name) = listed_paths (p.resolve (other_source name))

  module _ {S : Type 0} where
    -- `store.Upsert`, where there is something to store
    unfoldable pub upsert_records :
        KnowledgeStore V S → List (Stored V) → S → Option KnowledgeError × S
    unfolding fail_with
    upsert_records st records s =
        if is_empty records then (none, s) else fail_with upsert_error (st.upsert records s)

    unfoldable pub delete_paths : KnowledgeStore V S → List Text → S → Option KnowledgeError × S
    unfolding fail_with
    delete_paths st paths s =
        if is_empty paths
        then (none, s)
        else fail_with delete_error (st.delete_by_source_paths paths s)

    unfoldable pub after_upsert :
        KnowledgeStore V S → List Text → Option KnowledgeError × S → Option KnowledgeError × S
    after_upsert st stale (some err, s) = (some err, s)
    after_upsert st stale (none, s) = delete_paths st stale s

    -- the callback that `AddKnowledge` gives to `Sync`
    unfoldable pub replace_records :
        KnowledgeStore V S → List (Stored V) → List Text → S → Option KnowledgeError × S
    unfolding after_upsert
    replace_records st records stale s = after_upsert st stale (upsert_records st records s)

    unfoldable pub write_records :
        Pipeline V
        → KnowledgeStore V S
        → Option Text
        → List (Stored V)
        → List Text
        → DirectorySync
        → S
        → Outcome S
    unfolding upsert_records
    write_records p st none records paths d s =
        let (e, s') = upsert_records st records s in (e, d, s')
    write_records p st (some root) records paths d s =
        sync p.write root paths (replace_records st records) d s

    unfoldable pub after_read :
        Pipeline V
        → KnowledgeStore V S
        → Option Text
        → KnowledgeError ⊎ List (Stored V) × List Text
        → DirectorySync
        → S
        → Outcome S
    unfolding write_records
    after_read p st root (inl err) d s = (some err, d, s)
    after_read p st root (inr (records, paths)) d s = write_records p st root records paths d s

    unfoldable pub after_resolve :
        Pipeline V
        → KnowledgeStore V S
        → Option Text
        → Text ⊎ List KnowledgeFile
        → DirectorySync
        → S
        → Outcome S
    unfolding after_read
    after_resolve p st root (inl err) d s = (some (resolve_error err), d, s)
    after_resolve p st root (inr files) d s = after_read p st root (read_files p files) d s

    unfoldable pub add_source :
        Pipeline V → KnowledgeStore V S → Option KnowledgeSource → DirectorySync → S → Outcome S
    unfolding after_resolve directory_root
    add_source p st none d s = (some nil_source, d, s)
    add_source p st (some src) d s = after_resolve p st (directory_root src) (p.resolve src) d s

    -- the context's error comes first
    unfoldable pub add_knowledge :
        Pipeline V
        → KnowledgeStore V S
        → Option Text
        → Option KnowledgeSource
        → DirectorySync
        → S
        → Outcome S
    unfolding add_source
    add_knowledge p st (some err) src d s = (some (context_error err), d, s)
    add_knowledge p st none src d s = add_source p st src d s

    -- a directory that is gone has no current paths
    unfoldable pub remove_directory :
        Pipeline V → KnowledgeStore V S → Text → Text ⊎ List Text → DirectorySync → S → Outcome S
    remove_directory p st root (inl err) d s =
        let gone = remove p.write root [] (delete_paths st) d s in
        if p.is_not_exist err then gone else (some (resolve_error err), d, s)
    remove_directory p st root (inr paths) d s = remove p.write root paths (delete_paths st) d s

    unfoldable pub remove_files :
        KnowledgeStore V S → Text ⊎ List Text → DirectorySync → S → Outcome S
    remove_files st (inl err) d s = (some (resolve_error err), d, s)
    remove_files st (inr paths) d s = let (e, s') = delete_paths st paths s in (e, d, s')

    unfoldable pub remove_source :
        Pipeline V
        → KnowledgeStore V S
        → Option Text
        → KnowledgeSource
        → DirectorySync
        → S
        → Outcome S
    unfolding remove_directory remove_files resolve_paths
    remove_source p st none src d s = remove_files st (resolve_paths p src) d s
    remove_source p st (some root) src d s = remove_directory p st root (resolve_paths p src) d s

    unfoldable pub remove_knowledge :
        Pipeline V
        → KnowledgeStore V S
        → Option Text
        → Option KnowledgeSource
        → DirectorySync
        → S
        → Outcome S
    unfolding remove_source
    remove_knowledge p st (some err) src d s = (some (context_error err), d, s)
    remove_knowledge p st none none d s = (some nil_source, d, s)
    remove_knowledge p st none (some src) d s = remove_source p st (directory_root src) src d s

    unfoldable pub after_remove :
        Pipeline V
        → KnowledgeStore V S
        → Option Text
        → Option KnowledgeSource
        → Outcome S
        → Outcome S
    after_remove p st ctx src (some err, d, s) = (some err, d, s)
    after_remove p st ctx src (none, d, s) = add_knowledge p st ctx src d s

    -- the context is the same for both calls, and may end between them
    unfoldable pub rebuild_knowledge :
        Pipeline V
        → KnowledgeStore V S
        → Option Text
        → Option Text
        → Option KnowledgeSource
        → DirectorySync
        → S
        → Outcome S
    unfolding after_remove
    rebuild_knowledge p st before after src d s =
        after_remove p st after src (remove_knowledge p st before src d s)
