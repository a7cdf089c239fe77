-- ===== src/Examples/Knowledge.antt =====
-- A directory with two notes, a store in memory that keeps the paths of its chunks, and a disk that
-- can fail.
use go_rag_agent.Base.{
  Bool, true, false, not, ◌&&◌, ◌||◌, List, [], ◌∷◌, ◌++◌, map, ◌≡◌, refl, ap, none, some, Text,
  codes, text_eq, text_eq→eq, any, filter, clean, arith, ◌⊎◌, inl, inr, trim_space, trim_left,
  is_space, find, put, delete, sort_texts, compact, ℕ,
}
use go_rag_agent.Access.{
  AccessBoundary, KnowledgeFile, apply_namespace_metadata, apply_to_knowledge_file,
  normalize_boundary, normalize_strings, stamp, transform_file,
}
use go_rag_agent.Rag.Chunker.{Document, split}
use go_rag_agent.Knowledge.{
  DirectorySync, WriteFile, normalize_sync_paths, clean_sync_paths, diff_paths, recorded, persist,
  commit, next_roots, after_apply, sync, or_none, load_error,
}
use go_rag_agent.Knowledge.Ingest.{
  Stored, KnowledgeStore, Pipeline, dir_source, replace_records, upsert_records, delete_paths,
  after_upsert, fail_with, to_chunk_record, to_records, after_embed, after_load, gather,
  after_boundary, read_files, write_records, after_read, after_resolve, add_source, add_knowledge,
  directory_root, clean_all,
}
use go_rag_agent.Knowledge.Recorded.{unclean, is_clean}
use go_rag_agent.Knowledge.Indexed.{stored_at}
use go_rag_agent.Knowledge.Sources.{KeepsPath}
use go_rag_agent.Knowledge.Failures.{Keeps, add_knowledge-Keeps}

-- the store keeps the paths of its chunks
abbrev paths_of : List (Stored ℕ) → List Text
paths_of records = map (λ r. r.chunk.source_path) records

abbrev store : KnowledgeStore ℕ (List Text)
store = record {
  upsert = λ records s. (none, s ++ paths_of records);
  delete_by_source_paths = λ paths s. (none, filter (λ path. not (any (text_eq path) paths)) s);
}

abbrev indexes : List Text → Text → Bool
indexes s path = any (text_eq path) s

upserted :
    (records : List (Stored ℕ)) (path : Text)
    → any (text_eq path) (paths_of records) ≡ stored_at path records
unfolding any stored_at
upserted [] path = refl
upserted (r ∷ records) path = ground (arith, upserted records path)

appended : (p : Text → Bool) (xs ys : List Text) → any p (xs ++ ys) ≡ (any p xs || any p ys)
unfolding any
appended p [] ys = refl
appended p (x ∷ xs) ys = ground (arith, appended p xs ys)

kept :
    (p : Text) (q : Text → Bool) (l : List Text)
    → any (text_eq p) (filter q l) ≡ (any (text_eq p) l && q p)
unfolding any filter
kept p q [] = refl
kept p q (x ∷ l) = ground (arith, kept p q l, λ (h : text_eq p x ≡ true). ap q (text_eq→eq p x h))

abbrev boundary : AccessBoundary
boundary = record {
  namespace = [];
  allowed_source_paths = [];
  allowed_source_prefixes = [];
  policy = none;
}

abbrev note : Text → KnowledgeFile
note path = record { path = path; title = codes "n"; metadata = [] }

abbrev load : KnowledgeFile → Text ⊎ Document
load file = inr (record {
  id = file.path;
  source_path = file.path;
  title = file.title;
  metadata = file.metadata;
  content = codes "ab";
})

abbrev no_write : WriteFile
no_write path next = some (codes "disk full")

abbrev can_write : WriteFile
can_write path next = none

-- every directory holds the note `/d/a`
abbrev pipeline : Pipeline ℕ
pipeline = record {
  boundary = boundary;
  load = load;
  chunker = record { size = 2; overlap = 0 };
  embed = λ texts. inr (map (λ t. 7) texts);
  resolve = λ src. inr (note (codes "/d/a") ∷ []);
  is_not_exist = λ err. false;
  write = can_write;
}

pipeline-KeepsPath : KeepsPath pipeline
pipeline-KeepsPath file doc h = ground (arith, h)

abbrev note_records : List (Stored ℕ)
note_records =
    record {
      chunk = record {
        chunk_id = codes "/d/a:0";
        parent_id = codes "/d/a";
        source_path = codes "/d/a";
        title = codes "n";
        text = codes "ab";
        start_rune = 0;
        end_rune = 2;
        metadata = [];
      };
      embedding = 7;
    }
    ∷ []

read_note : read_files pipeline (note (codes "/d/a") ∷ []) ≡ inr (note_records, codes "/d/a" ∷ [])
unfolding read_files after_boundary gather after_load after_embed to_records to_chunk_record
    apply_namespace_metadata apply_to_knowledge_file transform_file stamp normalize_boundary
    normalize_strings split trim_space trim_left is_space
read_note = refl

note_is_clean : any unclean (codes "/d/a" ∷ []) ≡ false
unfolding any is_clean clean text_eq trim_space trim_left is_space
note_is_clean = refl

note_list_is_clean : any unclean (clean_all (note (codes "/d/a") ∷ [])) ≡ false
unfolding any is_clean clean text_eq trim_space trim_left is_space clean_all
note_list_is_clean = refl

list_note :
    (files : List KnowledgeFile)
    → pipeline.resolve (dir_source []) ≡ inr files
    → note (codes "/d/a") ∷ [] ≡ files
list_note files e = ground (arith, e)

abbrev no_roots : DirectorySync
no_roots = record { manifest_path = codes "/m"; roots = [] }

abbrev one_root : DirectorySync
one_root = record { manifest_path = codes "/m"; roots = (codes "/d", codes "/d/a" ∷ []) ∷ [] }

import_note :
    add_knowledge pipeline store none (some (dir_source (codes "/d/"))) no_roots []
    ≡ (none, one_root, codes "/d/a" ∷ [])
unfolding add_knowledge add_source directory_root after_resolve after_read read_files after_boundary
    gather after_load after_embed to_records to_chunk_record apply_namespace_metadata
    apply_to_knowledge_file transform_file stamp normalize_boundary normalize_strings split
    trim_space trim_left is_space write_records sync after_apply commit persist next_roots put clean
    normalize_sync_paths clean_sync_paths compact sort_texts recorded or_none find text_eq
    diff_paths filter replace_records after_upsert upsert_records delete_paths fail_with
import_note = refl

abbrev unreadable : Pipeline ℕ
unreadable = record pipeline { load = λ file. inl (codes "denied") }

unreadable_note :
    (add_knowledge unreadable store none (some (dir_source (codes "/d"))) no_roots []).0
    ≡ some (load_error (codes "/d/a") (codes "denied"))
unfolding add_knowledge add_source directory_root after_resolve after_read read_files after_boundary
    gather after_load apply_to_knowledge_file transform_file stamp normalize_boundary
    normalize_strings trim_space trim_left apply_namespace_metadata
unreadable_note = refl

add_knowledge-Keeps_example :
    Keeps no_roots []
      (add_knowledge unreadable store none (some (dir_source (codes "/d"))) no_roots [])
      (load_error (codes "/d/a") (codes "denied"))
add_knowledge-Keeps_example =
    add_knowledge-Keeps unreadable store none (some (dir_source (codes "/d"))) no_roots []
      (load_error (codes "/d/a") (codes "denied")) unreadable_note

called :
    replace_records store note_records
      (diff_paths
        (recorded (clean (codes "/d")) no_roots)
        (normalize_sync_paths (codes "/d/a" ∷ [])))
      []
    ≡ (none, codes "/d/a" ∷ [])
unfolding diff_paths recorded or_none find filter replace_records after_upsert upsert_records
    delete_paths fail_with
called = refl

unwritten :
    persist no_write
      (next_roots (clean (codes "/d")) (normalize_sync_paths (codes "/d/a" ∷ [])) no_roots)
      no_roots
    ≡ some (codes "disk full")
unfolding persist
unwritten = refl

called_again :
    sync can_write (codes "/d") [] (replace_records store []) no_roots (codes "/d/a" ∷ [])
    ≡ (none, no_roots, codes "/d/a" ∷ [])
unfolding sync after_apply commit persist next_roots delete normalize_sync_paths clean_sync_paths
    compact sort_texts recorded or_none find diff_paths filter replace_records after_upsert
    upsert_records delete_paths
called_again = refl
