-- ===== src/Knowledge/Sources.antt =====
-- The chunks that the files of a source give carry the paths of these files.
use go_rag_agent.Base.{
  ℕ, zero, suc, ◌+◌, ◌-◌, Bool, true, ◌==◌, ◌||◌, List, [], ◌∷◌, ◌++◌, map, ◌≡◌, refl, ap, Text,
  text_eq, any, length, arith, ◌⊎◌, inl, inr, Bool-cases,
}
use go_rag_agent.Access.{KnowledgeFile, apply_to_knowledge_file}
use go_rag_agent.Rag.Chunker.{Document, Chunk, Chunker, chunk_at, split_from, split}
use go_rag_agent.Knowledge.{KnowledgeError}
use go_rag_agent.Knowledge.Ingest.{
  Stored, Pipeline, to_chunk_record, to_records, after_embed, after_load, gather, after_boundary,
  read_files,
}
use go_rag_agent.Knowledge.Indexed.{stored_at}

-- a path is one of the chunks'
abbrev chunk_at_path : Text → List Chunk → Bool
chunk_at_path path chunks = any (λ c. text_eq path c.source_path) chunks

split_from-path :
    (path : Text) (c : Chunker) (doc : Document) (fuel start index : ℕ)
    → chunk_at_path path (split_from c doc fuel start index) ≡ true
    → text_eq path doc.source_path ≡ true
unfolding any split_from chunk_at
split_from-path path c doc zero start index h = absurd (ground arith)
split_from-path path c doc (suc fuel) start index h =
    ground (arith, split_from-path path c doc fuel (start + (c.size - c.overlap)) (index + 1))

split-path :
    (path : Text) (c : Chunker) (doc : Document)
    → chunk_at_path path (split c doc) ≡ true
    → text_eq path doc.source_path ≡ true
unfolding split
split-path path c doc h = split_from-path path c doc (length doc.content) 0 0 h

module _ {V : Type 0} where
  to_records-path :
      (path namespace : Text) (chunks : List Chunk) (rows : List V)
      → stored_at path (to_records namespace chunks rows) ≡ true
      → chunk_at_path path chunks ≡ true
  unfolding any stored_at to_records to_chunk_record
  to_records-path path namespace [] rows h = absurd (ground arith)
  to_records-path path namespace (c ∷ cs) [] h = absurd (ground arith)
  to_records-path path namespace (c ∷ cs) (row ∷ rows) h =
      ground (arith, to_records-path path namespace cs rows)

  after_embed-path :
      (path namespace : Text) (file : KnowledgeFile) (chunks : List Chunk) (r : Text ⊎ List V)
      → (records : List (Stored V)) → after_embed namespace file chunks r ≡ inr records
      → stored_at path records ≡ true
      → chunk_at_path path chunks ≡ true
  unfolding after_embed
  after_embed-path path namespace file chunks (inl err) records h g = absurd (ground arith)
  after_embed-path path namespace file chunks (inr rows) records h g =
      elim (Bool-cases (length rows == length chunks)) [
        | inl e ↦ ground (arith, h, to_records-path path namespace chunks rows)
        | inr e ↦ absurd (ground (arith, h, e))
      ]

  -- the loader of documents gives a document the path of its file, as `LoadFile` does
  abbrev pub KeepsPath : Pipeline V → Type 0
  KeepsPath p =
      (file : KnowledgeFile) (doc : Document) → p.load file ≡ inr doc → doc.source_path ≡ file.path

  after_load-path :
      (path : Text) (p : Pipeline V) (file : KnowledgeFile) (r : Text ⊎ Document)
      → (records : List (Stored V)) → ((doc : Document) → r ≡ inr doc → doc.source_path ≡ file.path)
      → after_load p file r ≡ inr records
      → stored_at path records ≡ true
      → text_eq path file.path ≡ true
  unfolding after_load stored_at any
  after_load-path path p file (inl err) records keeps h g = absurd (ground arith)
  after_load-path path p file (inr doc) records keeps h g =
      let chunks : List Chunk = split p.chunker doc in
      ground (
        arith,
        h,
        g,
        ap (text_eq path) (keeps doc refl),
        split-path path p.chunker doc,
        after_embed-path path p.boundary.namespace file chunks (p.embed (map (λ c. c.text) chunks))
            records,
      )

  stored_at-append :
      (path : Text) (xs ys : List (Stored V))
      → stored_at path (xs ++ ys) ≡ (stored_at path xs || stored_at path ys)
  unfolding stored_at any
  stored_at-append path [] ys = refl
  stored_at-append path (x ∷ xs) ys = ground (arith, stored_at-append path xs ys)

  -- what was read so far covers a path where it has a file for each chunk stored under it
  abbrev Covers : Text → KnowledgeError ⊎ List (Stored V) × List Text → Type 0
  Covers path r =
      (records : List (Stored V)) (paths : List Text)
      → r ≡ inr (records, paths)
      → stored_at path records ≡ true
      → any (text_eq path) paths ≡ true

  gather-Covers :
      (path file_path : Text) (r : KnowledgeError ⊎ List (Stored V))
      → (rest : KnowledgeError ⊎ List (Stored V) × List Text)
      → ((records : List (Stored V))
          → r ≡ inr records
          → stored_at path records ≡ true
          → text_eq path file_path ≡ true)
      → Covers path rest
      → Covers path (gather file_path r rest)
  unfolding gather any
  gather-Covers path file_path (inl err) rest one more records paths h g = absurd (ground arith)
  gather-Covers path file_path (inr rs) (inl err) one more records paths h g = absurd (ground arith)
  gather-Covers path file_path (inr rs) (inr (ms, ps)) one more records paths h g =
      ground (arith, h, g, stored_at-append path rs ms, one rs refl, more ms ps refl)

  after_boundary-Covers :
      (path : Text) (p : Pipeline V) (r : Text ⊎ KnowledgeFile)
      → (rest : KnowledgeError ⊎ List (Stored V) × List Text) → KeepsPath p
      → Covers path rest
      → Covers path (after_boundary p r rest)
  unfolding after_boundary
  after_boundary-Covers path p (inl err) rest keeps more records paths h g = absurd (ground arith)
  after_boundary-Covers path p (inr file) rest keeps more records paths h g =
      gather-Covers path file.path (after_load p file (p.load file)) rest
        (λ rs. after_load-path path p file (p.load file) rs (keeps file)) more records paths h g

  -- every chunk of a list of files is stored under the path of one of them
  pub read_files-Covers :
      (path : Text) (p : Pipeline V) (files : List KnowledgeFile)
      → KeepsPath p
      → (records : List (Stored V)) (paths : List Text) → read_files p files ≡ inr (records, paths)
      → stored_at path records ≡ true
      → any (text_eq path) paths ≡ true
  unfolding read_files stored_at any
  read_files-Covers path p [] keeps records paths h g = absurd (ground arith)
  read_files-Covers path p (file ∷ files) keeps records paths h g =
      after_boundary-Covers path p (apply_to_knowledge_file p.boundary file) (read_files p files)
        keeps (read_files-Covers path p files keeps) records paths h g
